-- ===== src/Interface.antt =====
-- lrng_interface_dev_common.c, with `lrng_pool_insert_aux` of lrng_es_aux.c: what all interfaces for
-- providers of entropy share. The children are Write and Ioctl (the character devices), Read (their
-- output and getrandom of lrng_interface_random_user.c) and Kernel (lrng_interface_random_kernel.c); the
-- theorems are in Credit, Privilege, Delivery
-- and Providers.
pub mod Write
pub mod Ioctl
pub mod Kernel
pub mod Credit
pub mod Providers
pub mod Privilege
pub mod Read
pub mod Delivery
mod Tests
use lrng.Common.{
  ℕ, ◌+◌, ◌-◌, ◌^◌, ◌≡◌, refl, Bool, true, false, not, ◌&&◌, ◌||◌, ltb, leb, if◌then◌else◌, List,
  ◌%◌,
}
use lrng.Config.{Config}
use lrng.Hash.{HashCb}
use lrng.AuxPool.{Pool, aux_avail_entropy, aux_pool_insert_locked}
use lrng.ManagerState.{Manager}
use lrng.Manager.{es_add_entropy}
use lrng.DrngMgr.{LrngState, Setup, Ret, count, errno, put_mgr}

-- Where the auxiliary pool stands in the state of all sources.
pub record PoolIn (W S : Type 0) : Type 0 where
  pub pool : W → Pool S
  pub set_pool : Pool S → W → W
  pub pool-set_pool : (p : Pool S) (w : W) → pool (set_pool p w) ≡ p

-- `enum lrng_external_noise_source`
pub data ExternalSource : Type 0 where
  noise_source_hw noise_source_user : ExternalSource

-- The LRNG with the two flags of the file, `lrng_seed_hw` and `lrng_seed_user`.
pub record Iface (W D : Type 0) : Type 0 where
  pub lrng : LrngState W D
  pub seed_hw : Bool
  pub seed_user : Bool

-- A `long` or `ssize_t` as its bit pattern.
abbrev pub add64 : ℕ → ℕ → ℕ
add64 a b = (a + b) % 2 ^ 64

abbrev pub negative64 : ℕ → ℕ
negative64 e = 2 ^ 64 - e

abbrev pub is_negative64 : ℕ → Bool
is_negative64 ret = leb (2 ^ 63) ret

abbrev pub pattern64 : Ret → ℕ
pattern64 (count n) = n
pattern64 (errno e) = negative64 e

module _ {W D S : Type 0} (cfg : Config) (u : Setup W D) (cb : HashCb S) (at : PoolIn W S) where
  abbrev pub pool_of : LrngState W D → Pool S
  pool_of s = at.pool s.mgr.world

  abbrev pub with_pool : Pool S → LrngState W D → LrngState W D
  with_pool p s = put_mgr (record s.mgr { world = at.set_pool p s.mgr.world }) s

  -- `lrng_pool_insert_aux`
  unfoldable pub pool_insert_aux : List ℕ → ℕ → LrngState W D → ℕ × LrngState W D
  pool_insert_aux inbuf entropy_bits s =
      let (ret, p) = aux_pool_insert_locked cfg cb inbuf entropy_bits (pool_of s) in
      let s' = with_pool p s in (ret, put_mgr (es_add_entropy cfg u.src s'.mgr) s')

  -- `lrng_get_aux_ent` and `lrng_need_entropy`
  unfoldable pub get_aux_ent : LrngState W D → ℕ
  get_aux_ent s = aux_avail_entropy cfg (pool_of s)

  unfoldable pub need_entropy : LrngState W D → Bool
  unfolding get_aux_ent
  need_entropy s = ltb (get_aux_ent s) (pool_of s).write_wakeup_bits

-- `lrng_state_exseed_allow`, `lrng_state_exseed_set` and `lrng_state_exseed_allow_all`
module _ {W D : Type 0} where
  unfoldable pub exseed_allow : ExternalSource → Iface W D → Bool
  exseed_allow noise_source_hw s = s.seed_hw
  exseed_allow noise_source_user s = s.seed_user

  abbrev pub exseed_put : ExternalSource → Bool → Iface W D → Iface W D
  exseed_put noise_source_hw type s = record s { seed_hw = type }
  exseed_put noise_source_user type s = record s { seed_user = type }

  unfoldable pub exseed_set : ExternalSource → Bool → Iface W D → Iface W D
  exseed_set source type s = if s.lrng.mgr.lrng_operational then exseed_put source type s else s

  unfoldable pub exseed_allow_all : Iface W D → Iface W D
  unfolding exseed_set
  exseed_allow_all s = exseed_set noise_source_user true (exseed_set noise_source_hw true s)
