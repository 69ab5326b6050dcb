-- ===== src/Manager/State.antt =====
-- The seeding state of the LRNG over every order of its events.
use lrng.Common.{ℕ, ◌≡◌, ◌⊎◌, Bool, true, false, Option, arith}
use lrng.Config.{Config}
use lrng.SeedBuffer.{EntropyBuf}
use lrng.ManagerState.{
  Manager, Sources, manager_init, pool_trylock, pool_unlock, pool_all_numa_nodes_seeded,
}
use lrng.Manager.{
  reset_state, es_add_entropy, unset_fully_seeded, init_ops, rand_initialize, fill_seed_buffer,
}

module _ {W : Type 0} (cfg : Config) (src : Sources W) where
  -- What can happen to the manager. The sources' own state may change at any time.
  pub data Step (m : Manager W) : Manager W → Type 0 where
    init : (eb : Option EntropyBuf) → Step m (init_ops cfg src eb m)
    boot : Step m (rand_initialize cfg src m)
    arrive : Step m (es_add_entropy cfg src m)
    unseed : (is_init : Bool) → Step m (unset_fully_seeded cfg src is_init m)
    fill :
        (now : ℕ) (eb : EntropyBuf) (req : ℕ) (force : Bool)
        → Step m (fill_seed_buffer cfg src now eb req force m).1
    nodes : (set : Bool) → Step m (pool_all_numa_nodes_seeded set m)
    reset : Step m (reset_state cfg src m)
    lock : Step m (pool_trylock m).1
    unlock : Step m (pool_unlock m)
    noise : (w : W) → Step m (record m { world = w })

  pub data Reach : Manager W → Type 0 where
    start : (w : W) → Reach (manager_init w)
    next : {m m' : Manager W} → Reach m → Step m m' → Reach m'

-- The LRNG is operational exactly while it is fully seeded, and then it is minimally seeded too.
pub record IsConsistent {W : Type 0} (m : Manager W) : Type 0 where
  pub both : m.lrng_operational ≡ m.lrng_fully_seeded
  pub least : (m.lrng_fully_seeded ≡ false) ⊎ (m.lrng_min_seeded ≡ true)

module _ {W : Type 0} (cfg : Config) (src : Sources W) where
  init_ops-IsConsistent :
      (eb : Option EntropyBuf) (m : Manager W)
      → IsConsistent m
      → IsConsistent (init_ops cfg src eb m)
  unfolding init_ops
  init_ops-IsConsistent eb m c = ground arith

  es_add_entropy-IsConsistent :
      (m : Manager W) → IsConsistent m → IsConsistent (es_add_entropy cfg src m)
  unfolding es_add_entropy
  es_add_entropy-IsConsistent m c = ground arith

  unset-IsConsistent :
      (is_init : Bool) (m : Manager W)
      → IsConsistent m
      → IsConsistent (unset_fully_seeded cfg src is_init m)
  unfolding unset_fully_seeded
  unset-IsConsistent is_init m c =
      let off = record m {
        all_nodes_seeded = false;
        lrng_operational = false;
        lrng_fully_seeded = false;
      } in
      ground (arith, es_add_entropy-IsConsistent off (ground arith))

  -- No event breaks the consistency of the seeding state.
  Step-IsConsistent : {m m' : Manager W} → Step cfg src m m' → IsConsistent m → IsConsistent m'
  unfolding rand_initialize fill_seed_buffer pool_all_numa_nodes_seeded reset_state pool_trylock
      pool_unlock
  Step-IsConsistent {m = m} (init eb) c = init_ops-IsConsistent eb m c
  Step-IsConsistent boot c = ground arith
  Step-IsConsistent {m = m} arrive c = es_add_entropy-IsConsistent m c
  Step-IsConsistent {m = m} (unseed is_init) c = unset-IsConsistent is_init m c
  Step-IsConsistent (fill now eb req force) c = ground arith
  Step-IsConsistent (nodes set) c = ground arith
  Step-IsConsistent reset c = ground arith
  Step-IsConsistent lock c = ground arith
  Step-IsConsistent unlock c = ground arith
  Step-IsConsistent (noise w) c = ground arith

  -- In every reachable state the LRNG is operational exactly if it is fully seeded, and it is then
  -- minimally seeded, in whatever order seeds, resets, loss of seed and new entropy came.
  pub Reach-IsConsistent : {m : Manager W} → Reach cfg src m → IsConsistent m
  Reach-IsConsistent (start w) = ground arith
  Reach-IsConsistent (next r st) = Step-IsConsistent st (Reach-IsConsistent r)
