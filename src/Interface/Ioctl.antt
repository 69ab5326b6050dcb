-- ===== src/Interface/Ioctl.antt =====
-- lrng_interface_dev_common.c: `lrng_ioctl` and `lrng_random_poll`. A word that user space cannot read is
-- `none`. An `int` is its bit pattern.
use lrng.Common.{
  ℕ, ◌+◌, ◌-◌, ◌*◌, ◌%◌, ◌^◌, Bool, false, not, ◌||◌, ltb, leb, if◌then◌else◌, List, Option, none,
  some, add32,
}
use lrng.Config.{Config}
use lrng.Hash.{HashCb}
use lrng.AuxPool.{set_entropy, get_digestsize}
use lrng.Manager.{avail_entropy_aux}
use lrng.DrngMgr.{LrngState, Setup, Ret, drng_force_reseed}
use lrng.Interface.{
  PoolIn, Iface, noise_source_user, pool_of, with_pool, get_aux_ent, need_entropy, exseed_allow,
  exseed_set, negative64,
}
use lrng.Interface.Write.{drng_write_common, efault}

abbrev pub eperm : ℕ
eperm = 1

abbrev pub einval : ℕ
einval = 22

-- The commands; `unknown` is any other.
pub data Cmd : Type 0 where
  rndgetentcnt rndaddtoentcnt rndaddentropy rndzapentcnt rndclearpool rndreseedcrng unknown : Cmd

-- What the argument points to: the first and second word, the bytes behind them, and whether the first
-- word can be written.
pub record Arg : Type 0 where
  pub ent_count : Option ℕ
  pub size : Option ℕ
  pub bytes : List ℕ
  pub writable : Bool

-- The result, the word that is written to user space, and the state.
pub record Done (W D : Type 0) : Type 0 where
  pub ret : ℕ
  pub put_user : Option ℕ
  pub lrng : LrngState W D

-- An `int` below 0, and the smaller of two.
abbrev pub is_negative : ℕ → Bool
is_negative x = leb (2 ^ 31) x

abbrev pub min_int : ℕ → ℕ → ℕ
min_int a b = if ltb ((a + 2 ^ 31) % 2 ^ 32) ((b + 2 ^ 31) % 2 ^ 32) then a else b

module _ {W D S : Type 0} (cfg : Config) (u : Setup W D) (cb : HashCb S) (at : PoolIn W S) where
  abbrev pub answer : ℕ → LrngState W D → Done W D
  answer ret s = record { ret = ret; put_user = none; lrng = s }

  -- `lrng_pool_set_entropy`
  abbrev pub pool_set_entropy : ℕ → LrngState W D → LrngState W D
  pool_set_entropy bits s = with_pool cfg u cb at (set_entropy bits (pool_of cfg u cb at s)) s

  -- RNDADDTOENTCNT, once the argument is read.
  unfoldable pub add_to_entcnt : ℕ → LrngState W D → Done W D
  add_to_entcnt ent_count s =
      let sum = add32 (get_aux_ent cfg u cb at s) ent_count in
      let positive = if is_negative sum then 0 else sum in
      let digestsize_bits = get_digestsize (pool_of cfg u cb at s) in
      let bits = if ltb digestsize_bits positive then digestsize_bits else positive in
      answer 0 (pool_set_entropy bits s)

  -- RNDADDENTROPY, once both words are read.
  unfoldable pub add_entropy :
      (LrngState W D → Ret × LrngState W D) → ℕ → ℕ → List ℕ → LrngState W D → Done W D
  unfolding drng_write_common
  add_entropy initalize ent_count size bytes s =
      let bits = min_int ent_count (size * 2 ^ 3 % 2 ^ 32) in
      let (ret, s') = drng_write_common cfg u cb at initalize bytes size bits s in
      let int_ret = ret % 2 ^ 32 in
      answer (if is_negative int_ret then 2 ^ 64 - 2 ^ 32 + int_ret else 0) s'

  -- `lrng_ioctl`; `admin` says whether the caller has CAP_SYS_ADMIN.
  unfoldable pub lrng_ioctl :
      (LrngState W D → Ret × LrngState W D) → Cmd → Bool → Arg → LrngState W D → Done W D
  unfolding add_to_entcnt add_entropy
  lrng_ioctl initalize rndgetentcnt admin arg s =
      if arg.writable
      then record { ret = 0; put_user = some (avail_entropy_aux cfg u.src s.mgr); lrng = s }
      else answer (negative64 efault) s
  lrng_ioctl initalize rndaddtoentcnt admin arg s =
      let read : Done W D = elim arg.ent_count [
        | none ↦ answer (negative64 efault) s
        | some n ↦ add_to_entcnt n s
      ] in
      if not admin then answer (negative64 eperm) s else read
  lrng_ioctl initalize rndaddentropy admin arg s =
      let sized : ℕ → Done W D = λ n. elim arg.size [
        | none ↦ answer (negative64 efault) s
        | some m ↦
            if is_negative m
            then answer (negative64 einval) s
            else add_entropy initalize n m arg.bytes s
      ] in
      let read : Done W D = elim arg.ent_count [
        | none ↦ answer (negative64 efault) s
        | some n ↦ if is_negative n then answer (negative64 einval) s else sized n
      ] in
      if not admin then answer (negative64 eperm) s else read
  lrng_ioctl initalize rndzapentcnt admin arg s =
      if not admin then answer (negative64 eperm) s else answer 0 (pool_set_entropy 0 s)
  lrng_ioctl initalize rndclearpool admin arg s =
      if not admin then answer (negative64 eperm) s else answer 0 (pool_set_entropy 0 s)
  lrng_ioctl initalize rndreseedcrng admin arg s =
      if not admin then answer (negative64 eperm) s else answer 0 (drng_force_reseed s)
  lrng_ioctl initalize unknown admin arg s = answer (negative64 einval) s

  -- `lrng_random_poll`: whether the device can be read and written, and the state.
  unfoldable pub random_poll : Iface W D → Bool × Bool × Iface W D
  random_poll s =
      let writable = need_entropy cfg u cb at s.lrng || exseed_allow noise_source_user s in
      (
        s.lrng.mgr.lrng_operational,
        writable,
        if writable then exseed_set noise_source_user false s else s,
      )
