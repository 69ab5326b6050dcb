-- ===== src/Numa/Outcome.antt =====
-- What the allocation of the NUMA instances leaves, whether it is stored or fails on the way.
use lrng.Common.{
  ℕ, suc, ◌+◌, ◌≡◌, ◌≢◌, refl, Bool, true, false, not, ◌&&◌, ◌==◌, if◌then◌else◌, List, [], ◌∷◌,
  Option, none, some, arith, Bool-cases, inl, inr,
}
use lrng.Config.{Config}
use lrng.ManagerState.{pool_all_numa_nodes_seeded}
use lrng.DrngState.{drng_reset}
use lrng.DrngMgr.{Setup, Ret, drng_init}
use lrng.DrngMgr.Reset.{names}
use lrng.Start.{alloc_common}
use lrng.Numa.{
  NumaState, stored, failed, instance_of, alloc_node, alloc_nodes, release, drngs_numa_alloc,
}

-- How often a number is in a list, and how often an instance other than the initial one is an entry.
pub count : ℕ → List ℕ → ℕ
count i [] = 0
count i (x ∷ xs) = if x == i then suc (count i xs) else count i xs

entries : ℕ → List (Option ℕ) → ℕ
entries i [] = 0
entries i (none ∷ ds) = entries i ds
entries i (some x ∷ ds) =
    if not (x == drng_init) && (x == i) then suc (entries i ds) else entries i ds

module _ {W D : Type 0} where
  release-count :
      (ds : List (Option ℕ)) (i : ℕ) (st : NumaState W D)
      → let st' = release ds st in
        (count i st'.freed ≡ count i st.freed + entries i ds)
        × (count i st'.made ≡ count i st.made)
        × (st'.boot.lrng.nodes ≡ st.boot.lrng.nodes)
  unfolding release entries count
  release-count [] i st = (omega arith, refl, refl)
  release-count (none ∷ ds) i st = release-count ds i st
  release-count (some x ∷ ds) i st =
      let st' = if x == drng_init then st else record st { freed = x ∷ st.freed } in
      ground (arith, release-count ds i st')

module _ {W D : Type 0} (cfg : Config) (u : Setup W D) (drng_alloc : ℕ → ℕ → ℕ × D)
    (hash_alloc : ℕ → ℕ) where
  alloc_node-count :
      (node i : ℕ) (st : NumaState W D)
      → let (made, st') = alloc_node cfg u drng_alloc hash_alloc node st in
        count i st'.made + count i st.freed
        ≡ count i st.made + count i st'.freed + (if made && (instance_of node == i) then 1 else 0)
  unfolding alloc_node count
  alloc_node-count node i st = ground arith

  -- What was allocated and not released is what the entries name.
  alloc_nodes-count :
      (node : ℕ) (used : Bool) (ns : List Bool) (i : ℕ) (st : NumaState W D)
      → let n = alloc_nodes cfg u drng_alloc hash_alloc node used ns st in
        count i n.state.made + count i st.freed
        ≡ count i st.made + count i n.state.freed + entries i n.drngs
  unfolding alloc_nodes entries
  alloc_nodes-count node used [] i st = omega arith
  alloc_nodes-count node used (false ∷ ns) i st = alloc_nodes-count (node + 1) used ns i st
  alloc_nodes-count node false (true ∷ ns) i st =
      ground (arith, alloc_nodes-count (node + 1) true ns i st)
  alloc_nodes-count node true (true ∷ ns) i st =
      let (made, st') = alloc_node cfg u drng_alloc hash_alloc node st in
      ground (arith, alloc_node-count node i st, alloc_nodes-count (node + 1) true ns i st')

  alloc_nodes-nodes :
      (node : ℕ) (used : Bool) (ns : List Bool) (st : NumaState W D)
      → (alloc_nodes cfg u drng_alloc hash_alloc node used ns st).state.boot.lrng.nodes
        ≡ st.boot.lrng.nodes
  unfolding alloc_nodes alloc_node alloc_common
  alloc_nodes-nodes node used [] st = refl
  alloc_nodes-nodes node used (false ∷ ns) st = alloc_nodes-nodes (node + 1) used ns st
  alloc_nodes-nodes node false (true ∷ ns) st = alloc_nodes-nodes (node + 1) true ns st
  alloc_nodes-nodes node true (true ∷ ns) st =
      let st' = (alloc_node cfg u drng_alloc hash_alloc node st).1 in
      ground (arith, alloc_nodes-nodes (node + 1) true ns st')

  -- If the allocation fails no node has an instance of its own, and each DRNG that was allocated for one is
  -- released exactly as often.
  pub numa_alloc-released :
      (ret : Ret) (online : List Bool) (i : ℕ) (st s : NumaState W D)
      → st.made ≡ []
      → st.freed ≡ []
      → drngs_numa_alloc cfg u drng_alloc hash_alloc ret online st ≡ failed s
      → (count i s.freed ≡ count i s.made) × (s.boot.lrng.nodes ≡ none)
  unfolding drngs_numa_alloc
  numa_alloc-released ret online i st s m f h =
      let n = alloc_nodes cfg u drng_alloc hash_alloc 0 false online st in
      ground (
        arith,
        m,
        f,
        h,
        alloc_nodes-count 0 false online i st,
        release-count n.drngs i n.state,
        alloc_nodes-nodes 0 false online st,
      )

  abbrev Unseeded : ℕ → NumaState W D → Type 0
  Unseeded j st = (st.boot.lrng.drngs j).fully_seeded ≡ false

  alloc_node-keeps :
      (node j : ℕ) (st : NumaState W D)
      → Unseeded j st
      → Unseeded j (alloc_node cfg u drng_alloc hash_alloc node st).1
  unfolding alloc_node alloc_common drng_reset
  alloc_node-keeps node j st h = ground (arith, h)

  alloc_node-sets :
      (node : ℕ) (st : NumaState W D)
      → (alloc_node cfg u drng_alloc hash_alloc node st).0 ≡ true
      → Unseeded (instance_of node) (alloc_node cfg u drng_alloc hash_alloc node st).1
  unfolding alloc_node alloc_common drng_reset
  alloc_node-sets node st h = ground (arith, h)

  alloc_nodes-keeps :
      (node : ℕ) (used : Bool) (ns : List Bool) (j : ℕ) (st : NumaState W D)
      → Unseeded j st
      → Unseeded j (alloc_nodes cfg u drng_alloc hash_alloc node used ns st).state
  unfolding alloc_nodes
  alloc_nodes-keeps node used [] j st h = h
  alloc_nodes-keeps node used (false ∷ ns) j st h = alloc_nodes-keeps (node + 1) used ns j st h
  alloc_nodes-keeps node false (true ∷ ns) j st h = alloc_nodes-keeps (node + 1) true ns j st h
  alloc_nodes-keeps node true (true ∷ ns) j st h =
      let (made, st') = alloc_node cfg u drng_alloc hash_alloc node st in
      let h' = alloc_node-keeps node j st h in
      ground (arith, h', alloc_nodes-keeps (node + 1) true ns j st' h')

  -- Every instance that the entries name, apart from the initial one, is new.
  alloc_nodes-sets :
      (node : ℕ) (used : Bool) (ns : List Bool) (j : ℕ) (st : NumaState W D)
      → names (alloc_nodes cfg u drng_alloc hash_alloc node used ns st).drngs j ≡ true
      → j ≢ drng_init
      → Unseeded j (alloc_nodes cfg u drng_alloc hash_alloc node used ns st).state
  unfolding alloc_nodes
  alloc_nodes-sets node used [] j st e ne = absurd (cc e)
  alloc_nodes-sets node used (false ∷ ns) j st e ne = alloc_nodes-sets (node + 1) used ns j st e ne
  alloc_nodes-sets node false (true ∷ ns) j st e ne =
      alloc_nodes-sets (node + 1) true ns j st (ground (arith, e, ne)) ne
  alloc_nodes-sets node true (true ∷ ns) j st e ne =
      let (made, st') = alloc_node cfg u drng_alloc hash_alloc node st in
      let rest = alloc_nodes cfg u drng_alloc hash_alloc (node + 1) true ns st' in
      elim (Bool-cases made) [
        | inr n ↦ absurd (ground (arith, e, n))
        | inl y ↦ elim (Bool-cases (j == instance_of node)) [
          | inl same ↦
              let at_node : j ≡ instance_of node = ground (arith, same) in
              let new : Unseeded j st' = rw at_node (alloc_node-sets node st y) in
              rw y (alloc_nodes-keeps (node + 1) true ns j st' new)
          | inr other ↦
              rw y (alloc_nodes-sets (node + 1) true ns j st' (ground (arith, e, y, other)) ne)
        ]
      ]

  alloc_nodes-freed :
      (node : ℕ) (used : Bool) (ns : List Bool) (st : NumaState W D)
      → (alloc_nodes cfg u drng_alloc hash_alloc node used ns st).complete ≡ true
      → (alloc_nodes cfg u drng_alloc hash_alloc node used ns st).state.freed ≡ st.freed
  unfolding alloc_nodes alloc_node
  alloc_nodes-freed node used [] st h = refl
  alloc_nodes-freed node used (false ∷ ns) st h = alloc_nodes-freed (node + 1) used ns st h
  alloc_nodes-freed node false (true ∷ ns) st h = alloc_nodes-freed (node + 1) true ns st h
  alloc_nodes-freed node true (true ∷ ns) st h =
      let st' = (alloc_node cfg u drng_alloc hash_alloc node st).1 in
      ground (arith, h, alloc_nodes-freed (node + 1) true ns st')

  -- If the instances are stored, each of them apart from the initial one still has to be seeded, the LRNG
  -- does not count all nodes as seeded, and nothing is released.
  pub numa_alloc-stored :
      (ret : Ret) (online : List Bool) (j : ℕ) (ds : List (Option ℕ)) (st s : NumaState W D)
      → drngs_numa_alloc cfg u drng_alloc hash_alloc ret online st ≡ stored s
      → s.boot.lrng.nodes ≡ some ds
      → names ds j ≡ true
      → j ≢ drng_init
      → ((s.boot.lrng.drngs j).fully_seeded ≡ false)
        × (s.boot.lrng.mgr.all_nodes_seeded ≡ false)
        × (s.freed ≡ st.freed)
  unfolding drngs_numa_alloc pool_all_numa_nodes_seeded
  numa_alloc-stored ret online j ds st s h e named ne = ground (
    arith,
    h,
    e,
    named,
    alloc_nodes-sets 0 false online j st,
    alloc_nodes-freed 0 false online st,
  )
