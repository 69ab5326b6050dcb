-- ===== src/ManagerState.antt =====
-- `struct lrng_state` of lrng_es_mgr.c, the calls that leave the file, and the operations that need
-- no configuration: the lock, the flags, and the loops over the sources.
use lrng.Common.{ℕ, suc, Bool, true, false, leb, if◌then◌else◌, List, [], ◌∷◌}
use lrng.Definitions.{init_entropy_bits, ais2031_nptrng_min_entropy}
use lrng.SeedBuffer.{EntropyBuf}
use lrng.EntropySource.{EsCb}

-- The calls out of the file: `lrng_init_wakeup` (waiters, pollers and ready callbacks are woken),
-- `wake_up_all` alone, `invalidate_batched_entropy`, `schedule_work` of the seed work, the seed work
-- called directly, `lrng_state_exseed_allow_all` and `lrng_writer_wakeup`.
pub data Call : Type 0 where
  init_wakeup wake_up_all invalidate_batched schedule_seed_work seed_work : Call
  exseed_allow_all writer_wakeup : Call

-- `struct lrng_state`; `reseed_in_progress` says whether that mutex is taken. `world` is the state of
-- the entropy sources and `calls` the calls made, newest first.
pub record Manager (W : Type 0) : Type 0 where
  pub can_invalidate : Bool
  pub perform_seedwork : Bool
  pub lrng_operational : Bool
  pub lrng_fully_seeded : Bool
  pub lrng_min_seeded : Bool
  pub all_nodes_seeded : Bool
  pub boot_entropy_thresh : ℕ
  pub reseed_in_progress : Bool
  pub world : W
  pub calls : List Call

-- The sources in the order of `lrng_es`, and the digest size that the auxiliary pool reports, in bits.
pub record Sources (W : Type 0) : Type 0 where
  pub es : List (EsCb W)
  pub digestsize : W → ℕ

abbrev pub manager_init : {W : Type 0} → W → Manager W
manager_init w = record {
  can_invalidate = false;
  perform_seedwork = false;
  lrng_operational = false;
  lrng_fully_seeded = false;
  lrng_min_seeded = false;
  all_nodes_seeded = false;
  boot_entropy_thresh = init_entropy_bits;
  reseed_in_progress = false;
  world = w;
  calls = [];
}

-- How many sources deliver what AIS 20/31 NTG.1 wants of one.
abbrev pub count_ntg1 : List ℕ → ℕ
count_ntg1 [] = 0
count_ntg1 (b ∷ bs) =
    if leb ais2031_nptrng_min_entropy b then suc (count_ntg1 bs) else count_ntg1 bs

module _ {W : Type 0} where
  abbrev pub call : Call → Manager W → Manager W
  call c m = record m { calls = c ∷ m.calls }

  -- `lrng_pool_trylock` and `lrng_pool_unlock`
  unfoldable pub pool_trylock : Manager W → Bool × Manager W
  pool_trylock m =
      if m.reseed_in_progress then (false, m) else (true, record m { reseed_in_progress = true })

  unfoldable pub pool_unlock : Manager W → Manager W
  pool_unlock m = record m { reseed_in_progress = false }

  -- `lrng_set_entropy_thresh`
  unfoldable pub set_entropy_thresh : ℕ → Manager W → Manager W
  set_entropy_thresh new_entropy_bits m = record m { boot_entropy_thresh = new_entropy_bits }

  -- `lrng_pool_all_numa_nodes_seeded`
  unfoldable pub pool_all_numa_nodes_seeded : Bool → Manager W → Manager W
  pool_all_numa_nodes_seeded set m =
      let m' = record m { all_nodes_seeded = set } in if set then call wake_up_all m' else m'

  -- `lrng_set_operational`, with `lrng_init_wakeup`
  unfoldable pub set_operational : Manager W → Manager W
  set_operational m =
      if m.lrng_fully_seeded then call init_wakeup (record m { lrng_operational = true }) else m

  abbrev pub reset_all : List (EsCb W) → W → W
  reset_all [] w = w
  reset_all (s ∷ ss) w = reset_all ss (s.reset w)

  -- The loop of `lrng_fill_seed_buffer` over the sources.
  abbrev pub get_all : List (EsCb W) → ℕ → Bool → EntropyBuf → W → EntropyBuf × W
  get_all [] req seeded eb w = (eb, w)
  get_all (s ∷ ss) req seeded eb w =
      let (eb', w') = s.get_ent req seeded eb w in get_all ss req seeded eb' w'
