-- ===== src/DrngMgr/Reset.antt =====
-- What a reset and a forced reseed do to all instances.
use lrng.Common.{
  ℕ, ◌≡◌, refl, Bool, true, false, ◌||◌, ◌==◌, List, [], ◌∷◌, Option, none, some, arith,
  if◌then◌else◌, Bool-cases, inl, inr, sym,
}
use mathlib.Core.Path.{subst}
use lrng.Config.{Config}
use lrng.Definitions.{init_entropy_bits}
use lrng.ManagerState.{reset_all, set_entropy_thresh}
use lrng.Manager.{reset_state}
use lrng.Manager.Stages.{level}
use lrng.DrngState.{Drng, drng_reset}
use lrng.DrngMgr.{LrngState, Setup, put, on_nodes, now, lrng_reset, drng_init, drng_pr, drng_atomic}

-- Whether a list of nodes names an instance.
abbrev pub names : List (Option ℕ) → ℕ → Bool
names [] j = false
names (none ∷ ns) j = names ns j
names (some i ∷ ns) j = j == i || names ns j

module _ {W D : Type 0} where
  -- The instances in service: the two that stand alone, and the initial one or those of the nodes.
  abbrev pub serves : LrngState W D → ℕ → Bool
  serves s j =
      j == drng_pr
      || j == drng_atomic
      || elim s.nodes [ none ↦ j == drng_init | some ns ↦ names ns j ]

  module _ (f : Drng D → Drng D) (P : Drng D → Type 0) (sets : (d : Drng D) → P (f d)) where
    put-keeps :
        (i j : ℕ) (s : LrngState W D) → P (s.drngs j) → P ((put i (f (s.drngs i)) s).drngs j)
    put-keeps i j s p = elim (j == i) as (λ b. P (if b then f (s.drngs i) else s.drngs j)) [
      | true ↦ sets (s.drngs i)
      | false ↦ p
    ]

    put-sets : (j : ℕ) (s : LrngState W D) → P ((put j (f (s.drngs j)) s).drngs j)
    put-sets j s =
        let e : (j == j) ≡ true = ground arith in
        subst (λ b. P (if b then f (s.drngs j) else s.drngs j)) (sym e) (sets (s.drngs j))

    -- An operation on the nodes' instances takes no instance out of `P`, and brings in each of them.
    on_nodes-keeps :
        (ns : List (Option ℕ)) (s : LrngState W D) (j : ℕ)
        → P (s.drngs j)
        → P ((on_nodes f ns s).drngs j)
    on_nodes-keeps [] s j p = p
    on_nodes-keeps (none ∷ ns) s j p = on_nodes-keeps ns s j p
    on_nodes-keeps (some i ∷ ns) s j p =
        on_nodes-keeps ns (put i (f (s.drngs i)) s) j (put-keeps i j s p)

    on_nodes-sets :
        (ns : List (Option ℕ)) (s : LrngState W D) (j : ℕ)
        → names ns j ≡ true
        → P ((on_nodes f ns s).drngs j)
    on_nodes-sets [] s j named = ground arith
    on_nodes-sets (none ∷ ns) s j named = on_nodes-sets ns s j named
    on_nodes-sets (some i ∷ ns) s j named = elim (Bool-cases (j == i)) [
      | inl y ↦
          let same : j ≡ i = ground arith in
          subst (λ k. P ((on_nodes f ns (put k (f (s.drngs k)) s)).drngs j)) same
            (on_nodes-keeps ns (put j (f (s.drngs j)) s) j (put-sets j s))
      | inr n ↦ on_nodes-sets ns (put i (f (s.drngs i)) s) j (ground arith)
    ]

on_nodes-mgr :
    {W D : Type 0}
    → (f : Drng D → Drng D) (ns : List (Option ℕ)) (s : LrngState W D)
    → (on_nodes f ns s).mgr ≡ s.mgr
on_nodes-mgr f [] s = refl
on_nodes-mgr f (none ∷ ns) s = on_nodes-mgr f ns s
on_nodes-mgr f (some i ∷ ns) s = on_nodes-mgr f ns (put i (f (s.drngs i)) s)

reset_sets : {D : Type 0} → (jiffies : ℕ) (d : Drng D) → (drng_reset jiffies d).fully_seeded ≡ false
unfolding drng_reset
reset_sets jiffies d = refl

abbrev Unseeded : {D : Type 0} → Drng D → Type 0
Unseeded d = d.fully_seeded ≡ false

module _ {W D : Type 0} (jiffies : ℕ) where
  -- The instance `j` is one of the nodes' or stands alone, and both are reset.
  instances_reset :
      (nodes : Option (List (Option ℕ))) (s : LrngState W D) (j : ℕ)
      → elim nodes [ none ↦ j == drng_init | some ns ↦ names ns j ] ≡ true
      → Unseeded (
          (elim nodes as (λ x. LrngState W D) [
            | none ↦ put drng_init (drng_reset jiffies (s.drngs drng_init)) s
            | some ns ↦ on_nodes (drng_reset jiffies) ns s
          ]).drngs
            j)
  instances_reset none s j serving =
      let same : drng_init ≡ j = ground arith in
      subst (λ k. Unseeded ((put drng_init (drng_reset jiffies (s.drngs drng_init)) s).drngs k))
        same (put-sets (drng_reset jiffies) Unseeded (reset_sets jiffies) drng_init s)
  instances_reset (some ns) s j serving =
      on_nodes-sets (drng_reset jiffies) Unseeded (reset_sets jiffies) ns s j serving

  instances-world :
      (nodes : Option (List (Option ℕ))) (s : LrngState W D)
      → (elim nodes as (λ x. LrngState W D) [
        | none ↦ put drng_init (drng_reset jiffies (s.drngs drng_init)) s
        | some ns ↦ on_nodes (drng_reset jiffies) ns s
      ]).mgr.world
        ≡ s.mgr.world
  instances-world none s = refl
  instances-world (some ns) s = rw (on_nodes-mgr (drng_reset jiffies) ns s) refl

module _ {W D : Type 0} (cfg : Config) (u : Setup W D) where
  -- After a reset no instance in service is fully seeded, the LRNG is in no seeding stage, the threshold
  -- for the next seeding is that of the start, and every source has been reset.
  pub lrng_reset-unseeded :
      (s : LrngState W D) (j : ℕ)
      → serves s j ≡ true
      → let s' = lrng_reset cfg u s in
        ((s'.drngs j).fully_seeded ≡ false)
        × (level s'.mgr ≡ 0)
        × (s'.mgr.all_nodes_seeded ≡ false)
        × (s'.mgr.boot_entropy_thresh ≡ init_entropy_bits)
        × (s'.mgr.world ≡ reset_all u.src.es s.mgr.world)
  unfolding lrng_reset reset_state set_entropy_thresh drng_reset
  lrng_reset-unseeded s j serving = (
    elim (Bool-cases (j == drng_pr || j == drng_atomic)) [
      | inl alone ↦ ground arith
      | inr node ↦
          let own = instances_reset (now cfg u s) s.nodes s j (ground arith) in ground (arith, own)
    ],
    refl,
    refl,
    refl,
    rw (instances-world (now cfg u s) s.nodes s) refl,
  )
