-- ===== src/DrngMgr.antt =====
-- lrng_drng_mgr.c and lrng_numa.c: all DRNG instances of the LRNG. An instance is known by a number,
-- as the code knows it by its address: 0 is `lrng_drng_init`, 1 `lrng_drng_pr`, 2 `lrng_drng_atomic`,
-- and the others are allocated for NUMA nodes. What the children add: the generation of random
-- numbers (Generate), the seed work (Work) and what they do (the rest).
pub mod Generate
pub mod Reset
pub mod Deliver
pub mod PrDrng
pub mod Ledger
pub mod Total
pub mod Work
pub mod Frame
pub mod Targets
pub mod Seed
mod Tests
use lrng.Common.{
  ℕ, ◌^◌, Bool, true, false, not, ltb, ◌==◌, if◌then◌else◌, List, [], ◌∷◌, Option, none, some,
  get_or, ◌>>=◌,
}
use lrng.Config.{Config}
use lrng.Definitions.{init_entropy_bits, drng_reseed_thresh}
use lrng.SeedBuffer.{EntropyBuf}
use lrng.ManagerState.{Manager, Sources, set_entropy_thresh}
use lrng.Manager.{reset_state, unset_fully_seeded}
use lrng.DrngState.{Drng, DrngCb, drng_reset, force_reseed_one}
use lrng.Drng.{Env, SeedRun, seed_es_nolock}

abbrev pub drng_init : ℕ
drng_init = 0

abbrev pub drng_pr : ℕ
drng_pr = 1

abbrev pub drng_atomic : ℕ
drng_atomic = 2

-- An `int` result: a count, or a negative errno.
pub data Ret : Type 0 where
  count : ℕ → Ret
  errno : ℕ → Ret

-- The manager, the instances, `lrng_drng_instances()` with an entry for each online node, `lrng_avail`
-- and what is left on the stack for the next seed buffer.
pub record LrngState (W D : Type 0) : Type 0 where
  pub mgr : Manager W
  pub drngs : ℕ → Drng D
  pub nodes : Option (List (Option ℕ))
  pub avail : Bool
  pub stack : EntropyBuf

-- What does not change: the sources, the clocks, and the callbacks of each instance.
pub record Setup (W D : Type 0) : Type 0 where
  pub src : Sources W
  pub cycles : W → ℕ
  pub jiffies : W → ℕ
  pub cbs : ℕ → DrngCb D

module _ {W D : Type 0} where
  abbrev pub env_of : Setup W D → ℕ → Env W D
  env_of u i = record { src = u.src; cycles = u.cycles; jiffies = u.jiffies; cb = u.cbs i }

  -- A write to one instance.
  abbrev pub put : ℕ → Drng D → LrngState W D → LrngState W D
  put i d s = record s { drngs = λ j. if j == i then d else s.drngs j }

  abbrev pub put_mgr : Manager W → LrngState W D → LrngState W D
  put_mgr m s = record s { mgr = m }

  -- `lrng_drng_node_instance` on node `node`
  unfoldable pub drng_node_instance : ℕ → LrngState W D → ℕ
  drng_node_instance node s = elim s.nodes [
    | none ↦ drng_init
    | some ns ↦ elim (get_or ns node none) [ none ↦ drng_init | some i ↦ i ]
  ]

  -- One operation on each instance of a list of nodes.
  abbrev pub on_nodes : (Drng D → Drng D) → List (Option ℕ) → LrngState W D → LrngState W D
  on_nodes f [] s = s
  on_nodes f (none ∷ ns) s = on_nodes f ns s
  on_nodes f (some i ∷ ns) s = on_nodes f ns (put i (f (s.drngs i)) s)

  -- `lrng_drng_force_reseed`
  unfoldable pub drng_force_reseed : LrngState W D → LrngState W D
  drng_force_reseed s =
      let init_only = put drng_init (force_reseed_one (s.drngs drng_init)) s in
      elim s.nodes [
        | none ↦ init_only
        | some ns ↦
            if ltb drng_reseed_thresh (s.drngs drng_init).requests_since_fully_seeded
            then init_only
            else let s' = on_nodes force_reseed_one ns s in
              put drng_atomic (force_reseed_one (s'.drngs drng_atomic)) s'
      ]

module _ {W D : Type 0} (cfg : Config) (u : Setup W D) where
  abbrev pub now : LrngState W D → ℕ
  now s = u.jiffies s.mgr.world

  -- `_lrng_reset`
  unfoldable pub lrng_reset : LrngState W D → LrngState W D
  lrng_reset s =
      let reset = drng_reset (now s) in
      let s1 : LrngState W D = elim s.nodes [
        | none ↦ put drng_init (reset (s.drngs drng_init)) s
        | some ns ↦ on_nodes reset ns s
      ] in
      let s2 = put drng_pr (reset (s1.drngs drng_pr)) s1 in
      let s3 = put drng_atomic (reset (s2.drngs drng_atomic)) s2 in
      put_mgr (reset_state cfg u.src (set_entropy_thresh init_entropy_bits s3.mgr)) s3

  -- `lrng_unset_fully_seeded` with the flag of the DRNG
  unfoldable pub drng_unset_fully_seeded : ℕ → LrngState W D → LrngState W D
  drng_unset_fully_seeded i s =
      let s' = put i (record (s.drngs i) { fully_seeded = false }) s in
      put_mgr (unset_fully_seeded cfg u.src (i == drng_init) s'.mgr) s'

  -- `lrng_drng_seed_es`: the entropy injected, and the state; 384 turns of its loop at most.
  unfoldable pub drng_seed_es : ℕ → LrngState W D → Option (ℕ × LrngState W D)
  drng_seed_es i s = seed_es_nolock cfg (env_of u i) 384 true s.stack (s.drngs i) s.mgr >>= λ r.
      some (r.collected_entropy, record (put i r.drng s) { mgr = r.mgr; stack = r.seedbuf })
