-- ===== src/DrngMgr/Tests.antt =====
-- The DRNG manager over a DRNG whose state counts its requests, with the sample sources and with
-- sources that have nothing, and the theorems about it applied there.
use lrng.Common.{
  ◌⊎◌, ◌-◌, ℕ, ◌+◌, ◌*◌, ◌^◌, ◌≤◌, ◌≡◌, refl, false, true, not, ◌==◌, List, [], ◌∷◌, Option, none,
  some, arith, min, length, length-replicate, replicate,
}
use lrng.Samples.{fips}
use lrng.SampleSources.{steady, six, pool, blank, six-AllSources}
use lrng.Definitions.{init_entropy_bits, reduce_by_osr, security_strength}
use lrng.SeedBuffer.{entropy_rate_eb}
use lrng.AuxPool.{Pool, get_digestsize}
use lrng.ManagerState.{Sources, manager_init, reset_all}
use lrng.Manager.{init_ops, fill_seed_buffer, fully_seeded}
use lrng.Manager.Stages.{level}
use lrng.DrngState.{DrngCb, drng_state_init, drng_inject, drng_atomic_must_reseed}
use lrng.AtomicDrng.Output.{IsGenerator}
use lrng.Drng.{seed_turn, turn_fill, seed_es_nolock}
use lrng.DrngMgr.{
  LrngState, Setup, count, drng_init, drng_pr, drng_seed_es, lrng_reset, drng_atomic, now,
  drng_unset_fully_seeded,
}
use lrng.DrngMgr.Generate.{
  get_loop, get_turn, pr_plan, generate, request, drng_get, drng_seed, drng_atomic_seed_drng,
}
use lrng.DrngMgr.Reset.{lrng_reset-unseeded}
use lrng.DrngMgr.PrDrng.{drng_seed_hangs}
use lrng.DrngMgr.Ledger.{IsBounded, loop_entropy, credit, get_loop-le}
use lrng.DrngMgr.Total.{drng_get-total}
use lrng.DrngMgr.Work.{or_force, seed_work, drng_seed_work_one}
use lrng.DrngMgr.Targets.{IsDue, seed_work-target}

abbrev counter : DrngCb ℕ
counter = record {
  drng_seed = λ d bytes. (false, 0);
  drng_generate = λ d n. (n, replicate n d, d + 1);
}

counter-IsGenerator : IsGenerator counter
counter-IsGenerator d n one = (one, omega arith, length-replicate n d)

abbrev setup : Setup (Pool (List ℕ)) ℕ
setup = record { src = six; cycles = λ w. 9; jiffies = λ w. 1000; cbs = λ i. counter }

abbrev booted : LrngState (Pool (List ℕ)) ℕ
booted = record {
  mgr = manager_init pool;
  drngs = λ i. drng_state_init 0;
  nodes = some (some 0 ∷ none ∷ some 3 ∷ []);
  avail = true;
  stack = blank;
}

-- Sources without entropy, and a state in which a seeding holds the pool.
abbrev poor : Sources ℕ
poor = record {
  es = steady 0 0 ∷ steady 1 0 ∷ steady 2 0 ∷ steady 3 0 ∷ steady 4 0 ∷ steady 5 0 ∷ [];
  digestsize = λ w. 32;
}

abbrev starved : Setup ℕ ℕ
starved = record { src = poor; cycles = λ w. 9; jiffies = λ w. 1000; cbs = λ i. counter }

abbrev held : LrngState ℕ ℕ
held = record {
  mgr = record (manager_init 0) { reseed_in_progress = true };
  drngs = λ i. drng_state_init 0;
  nodes = none;
  avail = true;
  stack = blank;
}

abbrev after : LrngState ℕ ℕ
after = elim (drng_seed_es fips starved drng_pr held) [ none ↦ held | some r ↦ r.1 ]

drng_seed_hangs_example : drng_seed fips starved (drng_get fips starved 5 100) drng_pr held ≡ none
unfolding drng_seed_es seed_es_nolock seed_turn turn_fill fill_seed_buffer fully_seeded drng_inject
    entropy_rate_eb reduce_by_osr drng_atomic_must_reseed init_ops
drng_seed_hangs_example =
    drng_seed_hangs fips starved 5 100 0 held after refl refl (omega arith) refl refl refl

-- A prediction resistance DRNG that an earlier seeding made fully seeded.
abbrev seeded : LrngState (Pool (List ℕ)) ℕ
seeded = record booted { drngs = λ i. record (drng_state_init 0) { fully_seeded = true } }

abbrev no_seed : ℕ → LrngState (Pool (List ℕ)) ℕ → Option (LrngState (Pool (List ℕ)) ℕ)
no_seed i s = none

counter-IsBounded : IsBounded counter
counter-IsBounded d n = omega arith

abbrev served : LrngState (Pool (List ℕ)) ℕ
served = elim (get_loop fips setup no_seed 3 drng_pr (request fips setup 4) seeded) [
  | none ↦ seeded
  | some r ↦ r.2
]

get_loop-le_example :
    4 * 8
    ≤ 0 * 8
      + loop_entropy fips setup no_seed 3 (request fips setup 4) seeded
      + credit fips setup seeded
unfolding get_turn pr_plan generate security_strength get_digestsize drng_unset_fully_seeded
get_loop-le_example =
    get_loop-le fips setup no_seed counter-IsBounded 3 (request fips setup 4) seeded served 4
      (0 ∷ 0 ∷ 0 ∷ 0 ∷ []) refl

drng_get-total_example :
    (out : List ℕ) × (s' : LrngState (Pool (List ℕ)) ℕ) × (drng_get fips setup 2 5001 drng_init 5000
        booted
      ≡ some (count (min 5000 (2 ^ 31 - 1)), out, s'))
    × (length out ≡ min 5000 (2 ^ 31 - 1))
drng_get-total_example =
    drng_get-total fips setup drng_init (omega arith) counter-IsGenerator refl (λ h bytes. refl)
      six-AllSources refl 5001 5000 booted (refl, refl) (omega arith) (omega arith)

lrng_reset-unseeded_example :
    let s' = lrng_reset fips setup booted in
    ((s'.drngs 3).fully_seeded ≡ false)
    × (level s'.mgr ≡ 0)
    × (s'.mgr.all_nodes_seeded ≡ false)
    × (s'.mgr.boot_entropy_thresh ≡ init_entropy_bits)
    × (s'.mgr.world ≡ reset_all six.es pool)
lrng_reset-unseeded_example = lrng_reset-unseeded fips setup booted 3 refl

-- One instance of two nodes waits for its seed.
abbrev waiting_one : LrngState (Pool (List ℕ)) ℕ
waiting_one = record booted {
  drngs = λ i. record (drng_state_init i) {
    fully_seeded = not (i == 3);
    force_reseed = false;
    last_seeded = 1000;
  };
}

abbrev worked : LrngState (Pool (List ℕ)) ℕ
worked = elim (seed_work fips setup (drng_get fips setup 1 1) false false waiting_one) [
  | none ↦ waiting_one
  | some r ↦ r
]

work_ends : seed_work fips setup (drng_get fips setup 1 1) false false waiting_one ≡ some worked
unfolding seed_work drng_seed_work_one drng_seed drng_seed_es seed_es_nolock drng_atomic_seed_drng
    drng_atomic_must_reseed
work_ends = refl

seed_work-target_example :
    (i : ℕ) × (bits : ℕ) × (t : LrngState (Pool (List ℕ)) ℕ) × IsDue waiting_one i
    × (drng_seed_es fips setup i (or_force false i waiting_one) ≡ some (bits, t))
    × ((drng_atomic_must_reseed fips (now fips setup t) (t.drngs drng_atomic) ≡ true)
        ⊎ (((worked.drngs i).drng ≡ (t.drngs i).drng)
            × ((worked.drngs i).fully_seeded ≡ (t.drngs i).fully_seeded)))
    × ((k : ℕ) → (k ≡ i) ⊎ (k ≡ drng_atomic) ⊎ (worked.drngs k ≡ waiting_one.drngs k))
seed_work-target_example =
    seed_work-target fips setup 1 1 false false waiting_one worked 3 refl (refl, refl) (omega arith)
      work_ends

-- An LRNG of which all nodes are seeded.
abbrev calm : LrngState (Pool (List ℕ)) ℕ
calm = record booted { mgr = record (manager_init pool) { all_nodes_seeded = true } }
