-- ===== src/Manager/Tests.antt =====
-- The manager over six concrete sources, the last of them the auxiliary pool, and the theorems about
-- it applied there.
use lrng.Common.{ℕ, ◌*◌, ◌≤◌, ◌≡◌, ◌↔◌, refl, true, false, List, [], ◌∷◌, arith, some, length}
use lrng.Samples.{fips}
use lrng.SampleSources.{six, pool, blank, six-AllSources}
use lrng.Definitions.{get_seed_entropy_osr}
use lrng.SeedBuffer.{EntropyBuf, entropy_rate_eb}
use lrng.AuxPool.{Pool, get_digestsize}
use lrng.ManagerState.{Manager, manager_init}
use lrng.Manager.{init_ops, fill_seed_buffer, fully_seeded}
use lrng.Manager.State.{init, start, next, IsConsistent, Reach-IsConsistent}
use lrng.Manager.Stages.{Enough, operational_iff}
use lrng.Manager.Seeding.{fill_seed_buffer-le}

abbrev booting : Manager (Pool (List ℕ))
booting = manager_init pool

-- A seed with 500 and one with 150 bits.
abbrev rich : EntropyBuf
rich = record blank { e_bits = 100 ∷ 0 ∷ 200 ∷ 8 ∷ 0 ∷ 192 ∷ [] }

abbrev poor : EntropyBuf
poor = record blank { e_bits = 100 ∷ 0 ∷ 42 ∷ 8 ∷ 0 ∷ 0 ∷ [] }

fill_seed_buffer-le_example :
    entropy_rate_eb (fill_seed_buffer fips six 9 blank 256 false booting).0 ≤ length six.es * 256
fill_seed_buffer-le_example =
    fill_seed_buffer-le fips six 9 blank 256 false booting six-AllSources refl

operational_iff_example :
    ((init_ops fips six (some rich) booting).lrng_operational ≡ true) ↔ Enough fips six rich booting
operational_iff_example = operational_iff fips six rich booting refl refl

-- The rich seed is enough: 500 bits against the 384 of a first seed in FIPS mode.
rich_operational : (init_ops fips six (some rich) booting).lrng_operational ≡ true
unfolding init_ops fully_seeded get_digestsize entropy_rate_eb
rich_operational = refl

poor-short : ¬ Enough fips six poor booting
unfolding get_seed_entropy_osr get_digestsize entropy_rate_eb
poor-short = ground arith

Reach-IsConsistent_example : IsConsistent (init_ops fips six (some rich) booting)
Reach-IsConsistent_example = Reach-IsConsistent fips six (next (start pool) (init (some rich)))
