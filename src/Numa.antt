-- ===== src/Numa.antt =====
-- lrng_numa.c: the DRNG instances of the NUMA nodes. The initial DRNG serves the first node that is
-- online; the instance of node `n` has the number `n + 3`. The allocators of a node's DRNG and hash are
-- parameters, and so is what `lrng_drng_initalize` returned.
pub mod Outcome
mod Tests
use lrng.Common.{
  ℕ, ◌+◌, Bool, true, false, not, ◌==◌, if◌then◌else◌, List, [], ◌∷◌, ◌++◌, Option, none, some,
}
use lrng.Config.{Config}
use lrng.ManagerState.{pool_all_numa_nodes_seeded}
use lrng.DrngMgr.{LrngState, Setup, Ret, put_mgr, drng_init}
use lrng.Start.{Boot, is_zero, alloc_common}

-- The boot state with `numa_drngs` of lrng_proc.c, the instances whose DRNG was allocated, and
-- those whose DRNG was released, newest first.
pub record NumaState (W D : Type 0) : Type 0 where
  pub boot : Boot W D
  pub numa_drngs : ℕ
  pub made : List ℕ
  pub freed : List ℕ

-- What the work does: it finds the instances there, it stores them, it fails and releases what it made,
-- or it reaches its error path before `drngs` is set, where C gives no meaning to the program.
pub data NumaResult (W D : Type 0) : Type 0 where
  present stored failed : NumaState W D → NumaResult W D
  undefined : NumaResult W D

-- The instance of a node, apart from the initial one.
abbrev pub instance_of : ℕ → ℕ
instance_of node = node + 3

-- The loop over the nodes: the entries of `drngs`, and whether all were made.
pub record Nodes (W D : Type 0) : Type 0 where
  pub drngs : List (Option ℕ)
  pub complete : Bool
  pub state : NumaState W D

module _ {W D : Type 0} where
  -- The error path: every instance that was stored is released, apart from the initial one.
  unfoldable pub release : List (Option ℕ) → NumaState W D → NumaState W D
  release [] st = st
  release (none ∷ ds) st = release ds st
  release (some i ∷ ds) st =
      release ds (if i == drng_init then st else record st { freed = i ∷ st.freed })

module _ {W D : Type 0} (cfg : Config) (u : Setup W D) (drng_alloc : ℕ → ℕ → ℕ × D)
    (hash_alloc : ℕ → ℕ) where
  -- One node that needs an instance of its own: whether it has one now. (The memory of the instance is
  -- there, as its allocation may not fail.)
  unfoldable pub alloc_node : ℕ → NumaState W D → Bool × NumaState W D
  alloc_node node st =
      let i = instance_of node in
      let fresh = record (st.boot) {
        allocated = λ j. if j == i then false else st.boot.allocated j;
      } in
      let (r, b) = alloc_common cfg u (some (drng_alloc node)) i fresh in
      if not (is_zero r)
      then (false, st)
      else if hash_alloc node == 0
      then (true, record st { boot = b; numa_drngs = st.numa_drngs + 1; made = i ∷ st.made })
      else (false, record st { boot = b; made = i ∷ st.made; freed = i ∷ st.freed })

  -- The nodes from `node` on, each online or not; `init_drng_used` says that the initial DRNG is taken.
  unfoldable pub alloc_nodes : ℕ → Bool → List Bool → NumaState W D → Nodes W D
  alloc_nodes node used [] st = record { drngs = []; complete = true; state = st }
  alloc_nodes node used (false ∷ ns) st =
      let rest = alloc_nodes (node + 1) used ns st in record rest { drngs = none ∷ rest.drngs }
  alloc_nodes node false (true ∷ ns) st =
      let rest = alloc_nodes (node + 1) true ns st in
      record rest { drngs = some drng_init ∷ rest.drngs }
  alloc_nodes node true (true ∷ ns) st =
      let (made, st') = alloc_node node st in
      let rest = alloc_nodes (node + 1) true ns st' in
      if made
      then record rest { drngs = some (instance_of node) ∷ rest.drngs }
      else record { drngs = []; complete = false; state = st' }

  -- `_lrng_drngs_numa_alloc`, after `lrng_drng_initalize` returned `ret`; nobody else sets `lrng_drng`.
  unfoldable pub drngs_numa_alloc : Ret → List Bool → NumaState W D → NumaResult W D
  unfolding alloc_nodes release
  drngs_numa_alloc ret online st = elim st.boot.lrng.nodes [
    | some _ ↦ present st
    | none ↦
        let n = alloc_nodes 0 false online st in
        let s = n.state.boot.lrng in
        let with_nodes : LrngState W D =
          put_mgr (pool_all_numa_nodes_seeded false s.mgr) (record s { nodes = some n.drngs }) in
        let done = record (n.state) { boot = record (n.state.boot) { lrng = with_nodes } } in
        if not (is_zero ret)
        then undefined
        else if n.complete
        then stored done
        else failed (release n.drngs n.state)
  ]
