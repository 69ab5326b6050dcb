-- ===== src/Drng/Tests.antt =====
-- The seeding of a DRNG that remembers its seeds, from the sample sources, and the theorems about
-- DRNG instances applied there.
use lrng.Common.{ℕ, ◌≤◌, map, ◌≡◌, ◌⊎◌, refl, true, false, ◌&&◌, List, [], ◌++◌, some, replicate}
use lrng.Samples.{fips}
use lrng.SampleSources.{six, pool, blank, six-AllSources}
use lrng.Definitions.{get_seed_entropy_osr, compress_osr, reduce_by_osr}
use lrng.SeedBuffer.{entropy_rate_eb}
use lrng.AuxPool.{Pool, get_digestsize, aux_get_backtrack, aux_get_pool, aux_pool_insert_locked}
use lrng.ManagerState.{Manager, count_ntg1, manager_init}
use lrng.Manager.{fill_seed_buffer, fully_seeded}
use lrng.DrngState.{Drng, DrngCb, drng_state_init, drng_inject}
use lrng.Drng.{Env, SeedRun, seed_turn, turn_fill, seed_start, seed_es_nolock}
use lrng.Drng.Seeding.{drawn, total, tally, seed_es_nolock-Collected}
use lrng.Drng.Termination.{seed_es_nolock-total}

-- A DRNG whose state is what it was seeded with, one that refuses every seed, and an instance.
abbrev tape : DrngCb (List ℕ)
tape = record {
  drng_seed = λ d bytes. (false, d ++ bytes);
  drng_generate = λ d n. (n, replicate n 7, d);
}

abbrev broken : DrngCb (List ℕ)
broken = record { drng_seed = λ d bytes. (true, d); drng_generate = λ d n. (0, [], d) }

abbrev fresh : Drng (List ℕ)
fresh = drng_state_init []

abbrev booting : Manager (Pool (List ℕ))
booting = manager_init pool

abbrev env : Env (Pool (List ℕ)) (List ℕ)
env = record { src = six; cycles = λ w. 9; jiffies = λ w. 1000; cb = tape }

abbrev once : SeedRun (Pool (List ℕ)) (List ℕ)
once = seed_turn fips env true true (seed_start fips env blank fresh booting)

once_seeded : once.drng.fully_seeded ≡ true
unfolding seed_turn turn_fill fill_seed_buffer fully_seeded drng_inject get_digestsize
    aux_get_backtrack aux_pool_insert_locked aux_get_pool compress_osr entropy_rate_eb reduce_by_osr
once_seeded = refl

once_enough : seed_es_nolock fips env 1 true blank fresh booting ≡ some once
unfolding seed_es_nolock seed_turn turn_fill fill_seed_buffer fully_seeded drng_inject
    get_digestsize aux_get_backtrack aux_pool_insert_locked aux_get_pool compress_osr
    entropy_rate_eb reduce_by_osr
once_enough = refl

seed_es_nolock-Collected_example :
    let ebs = drawn fips env 1 true fresh.force_reseed (seed_start fips env blank fresh booting) in
    ((fips.ntg1 ≡ true) × (2 ≤ count_ntg1 (tally (map (λ _. 0) blank.e_bits) ebs)))
    ⊎ ((fips.ntg1 ≡ false)
        × (get_seed_entropy_osr fips (env.src.digestsize once.mgr.world) false ≤ total ebs))
seed_es_nolock-Collected_example =
    seed_es_nolock-Collected fips env 1 true blank fresh booting once refl once_enough once_seeded

seed_es_nolock-total_example :
    (s' : SeedRun (Pool (List ℕ)) (List ℕ)) × (seed_es_nolock fips env 384 true blank fresh booting
      ≡ some s')
    × ((fips.force_seeding && fresh.force_reseed ≡ false)
        ⊎ (s'.drng.fully_seeded ≡ true)
        ⊎ (s'.num_es_delivered ≡ 0))
seed_es_nolock-total_example =
    seed_es_nolock-total fips env refl (λ h bytes. refl) six-AllSources refl true blank fresh
      booting refl
