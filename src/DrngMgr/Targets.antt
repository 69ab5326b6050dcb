-- ===== src/DrngMgr/Targets.antt =====
-- Which instance the seed work is for.
use lrng.Common.{
  ℕ, suc, ◌==◌, ◌≡◌, ◌≢◌, ◌⊎◌, refl, ap, ◌∙◌, inl, inr, if_intro, Bool-cases, Bool, true, false,
  List, [], ◌∷◌, Option, none, some, arith, Option-cases,
}
use mathlib.Core.Path.{subst}
use lrng.Config.{Config}
use lrng.DrngState.{drng_atomic_must_reseed}
use lrng.DrngMgr.{LrngState, Setup, now, drng_seed_es, drng_atomic}
use lrng.DrngMgr.Frame.{OnSome, IsKept, bind-OnSome, put-IsKept, drng_seed-IsKept, drng_get-GotKept}
use lrng.DrngMgr.Reset.{names, serves}
use lrng.DrngMgr.Generate.{Got, drng_atomic_seed_drng, drng_seed, drng_get}
use lrng.DrngMgr.Work.{first_unseeded, work_target, or_force, seed_work, drng_seed_work_one}

module _ {W D : Type 0} (s : LrngState W D) where
  -- The instance is in service and not fully seeded.
  abbrev pub IsDue : ℕ → Type 0
  IsDue i = (serves s i ≡ true) × ((s.drngs i).fully_seeded ≡ false)

  first_unseeded-some :
      (node : ℕ) (ns : List (Option ℕ)) (t : ℕ × ℕ)
      → first_unseeded node ns s ≡ some t
      → (names ns t.1 ≡ true) × ((s.drngs t.1).fully_seeded ≡ false)
  first_unseeded-some node [] t e = ground arith
  first_unseeded-some node (none ∷ ns) t e = first_unseeded-some (suc node) ns t e
  first_unseeded-some node (some i ∷ ns) t e = ground (arith, first_unseeded-some (suc node) ns t)

  first_unseeded-none :
      (node : ℕ) (ns : List (Option ℕ)) (j : ℕ)
      → first_unseeded node ns s ≡ none
      → names ns j ≡ true
      → (s.drngs j).fully_seeded ≡ true
  first_unseeded-none node [] j e named = ground arith
  first_unseeded-none node (none ∷ ns) j e named = first_unseeded-none (suc node) ns j e named
  first_unseeded-none node (some i ∷ ns) j e named =
      ground (arith, first_unseeded-none (suc node) ns j)

  work_target-IsDue : (t : ℕ × ℕ) → work_target s ≡ some t → IsDue t.1
  work_target-IsDue t e = elim (Option-cases s.nodes) [
    | inl single ↦ ground (arith, single)
    | inr (ns, p) ↦ elim (Option-cases (first_unseeded 0 ns s)) [
      | inl found_none ↦ ground (arith, p, found_none)
      | inr (q, found) ↦ ground (arith, p, found, first_unseeded-some 0 ns q found)
    ]
  ]

  work_target-none :
      (j : ℕ)
      → work_target s ≡ none
      → serves s j ≡ true
      → j ≢ drng_atomic
      → (s.drngs j).fully_seeded ≡ true
  work_target-none j e serving regular = elim (Option-cases s.nodes) [
    | inl single ↦ ground (arith, single)
    | inr (ns, p) ↦ elim (Option-cases (first_unseeded 0 ns s)) [
      | inl found_none ↦ ground (arith, p, found_none, first_unseeded-none 0 ns j found_none)
      | inr (q, found) ↦ ground (arith, p, found)
    ]
  ]

module _ {W D : Type 0} (cfg : Config) (u : Setup W D) where
  work_one-IsKept :
      (depth fuel node i k : ℕ) (s : LrngState W D)
      → k ≢ i
      → k ≢ drng_atomic
      → OnSome
          (IsKept k (s.drngs k))
          (drng_seed_work_one cfg u (drng_get cfg u depth fuel) node i s)
  unfolding drng_seed_work_one
  work_one-IsKept depth fuel node i k s other regular =
      let d0 = s.drngs k in
      bind-OnSome (IsKept k d0) (IsKept k d0) _ _
        (drng_seed-IsKept cfg u i k d0 other regular (drng_get cfg u depth fuel)
          (drng_get-GotKept cfg u i k d0 other regular depth fuel) s refl)
        (λ s2 kept.
          if_intro (IsKept k d0) (s2.drngs i).fully_seeded (put-IsKept cfg u i k d0 other _ s2 kept)
            kept)

  -- The seeding of one instance: what its seeding from the sources leaves, if the atomic DRNG then does not
  -- draw from it.
  work_one-seeds :
      (get : ℕ → ℕ → LrngState W D → Got W D) (node i : ℕ) (s s' : LrngState W D)
      → drng_seed_work_one cfg u get node i s ≡ some s'
      → (bits : ℕ) × (t : LrngState W D) × (drng_seed_es cfg u i s ≡ some (bits, t))
        × ((drng_atomic_must_reseed cfg (now cfg u t) (t.drngs drng_atomic) ≡ true)
            ⊎ (((s'.drngs i).drng ≡ (t.drngs i).drng)
                × ((s'.drngs i).fully_seeded ≡ (t.drngs i).fully_seeded)))
  unfolding drng_seed_work_one drng_seed drng_atomic_seed_drng
  work_one-seeds get node i s s' e = elim (Option-cases (drng_seed_es cfg u i s)) [
    | inl stuck ↦ ground (arith, stuck)
    | inr ((bits, t), on) ↦
        elim (Bool-cases (drng_atomic_must_reseed cfg (now cfg u t) (t.drngs drng_atomic))) [
          | inl due ↦ (bits, t, on, inl due)
          | inr idle ↦ (bits, t, on, inr (ground (arith, on, idle, e)))
        ]
  ]

  -- As long as an instance in service other than the atomic one is not fully seeded, the seed work of an
  -- available LRNG, if it ends, has seeded one such instance from the entropy sources, and every other
  -- instance except the atomic one is as it was. The instance has the state and the seeding status that
  -- this seeding left, unless the atomic DRNG was due for a seed from it.
  pub seed_work-target :
      (depth fuel : ℕ) (waiting force : Bool) (s s' : LrngState W D) (j : ℕ)
      → s.avail ≡ true
      → IsDue s j
      → j ≢ drng_atomic
      → seed_work cfg u (drng_get cfg u depth fuel) waiting force s ≡ some s'
      → (i : ℕ) × (bits : ℕ) × (t : LrngState W D) × IsDue s i
        × (drng_seed_es cfg u i (or_force force i s) ≡ some (bits, t))
        × ((drng_atomic_must_reseed cfg (now cfg u t) (t.drngs drng_atomic) ≡ true)
            ⊎ (((s'.drngs i).drng ≡ (t.drngs i).drng)
                × ((s'.drngs i).fully_seeded ≡ (t.drngs i).fully_seeded)))
        × ((k : ℕ) → (k ≡ i) ⊎ (k ≡ drng_atomic) ⊎ (s'.drngs k ≡ s.drngs k))
  unfolding seed_work
  seed_work-target depth fuel waiting force s s' j on due regular e =
      let get = drng_get cfg u depth fuel in
      elim (Option-cases (work_target s)) [
        | inl all ↦ absurd (ground (arith, due, work_target-none s j all due.0 regular))
        | inr ((node, i), found) ↦
            let s0 = or_force force i s in
            let ran : drng_seed_work_one cfg u get node i s0 ≡ some s' =
              ground (arith, e, on, found) in
            let (bits, t, seeds, left) = work_one-seeds get node i s0 s' ran in
            (i, bits, t, work_target-IsDue s (node, i) found, seeds, left, kept i node s0 refl ran)
      ]
    where
      kept :
          (i node : ℕ) (s0 : LrngState W D)
          → s0 ≡ or_force force i s
          → drng_seed_work_one cfg u (drng_get cfg u depth fuel) node i s0 ≡ some s'
          → (k : ℕ) → (k ≡ i) ⊎ (k ≡ drng_atomic) ⊎ (s'.drngs k ≡ s.drngs k)
      kept i node s0 start ran k = elim (Bool-cases (k == i)) [
        | inl same ↦ inl (ground (arith, same))
        | inr other ↦ elim (Bool-cases (k == drng_atomic)) [
          | inl same ↦ inr (inl (ground (arith, same)))
          | inr not_atomic ↦
              let k_i : k ≢ i = ground (arith, other) in
              let k_atomic : k ≢ drng_atomic = ground (arith, not_atomic) in
              let after =
                subst (OnSome (IsKept k (s0.drngs k))) ran
                  (work_one-IsKept depth fuel node i k s0 k_i k_atomic) in
              let before : s0.drngs k ≡ s.drngs k =
                ap (λ (x : LrngState W D). x.drngs k) start
                ∙ put-IsKept cfg u i k (s.drngs k) k_i _ s refl in
              inr (inr (after ∙ before))
        ]
      ]
