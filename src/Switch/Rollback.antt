-- ===== src/Switch/Rollback.antt =====
-- The roll-back of a failed switch of the hash, for any one of the sources.
use mathlib.Core.Path.{subst}
use lrng.Common.{
  ℕ, zero, suc, ◌+◌, ◌≤◌, ◌<◌, ◌≡◌, refl, ◌⊎◌, inl, inr, ◌==◌, List, [], ◌∷◌, ◌++◌, Option, none,
  some, arith, Bool-cases, length,
}
use lrng.Switch.Hashes.{SwitchHash, Switched, switch_sources, revert_sources}

-- `Fits c w` says that in the state `w` of all sources the data of one source is that of callbacks `c`.
module _ {W H : Type 0} (Fits : ℕ → W → Type 0) where
  -- The switch of another source does not touch the data of this one.
  abbrev pub Keeps : Option (SwitchHash W H) → Type 0
  Keeps none = Unit {0}
  Keeps (some g) = (i n a : ℕ) (h : H) (b c : ℕ) (w : W) → Fits c w → Fits c (g i n a h b w).1

  abbrev pub AllKeep : List (Option (SwitchHash W H)) → Type 0
  AllKeep [] = Unit {0}
  AllKeep (g ∷ gs) = Keeps g × AllKeep gs

module _ {W H : Type 0} (Fits : ℕ → W → Type 0) (i node new_cb : ℕ) (new_hash : H)
    (old_cb : ℕ) where
  abbrev pub run : ℕ → ℕ → List (Option (SwitchHash W H)) → W → Switched W
  run ret j ss w = switch_sources i node new_cb new_hash old_cb ret j ss w

  run-keeps :
      (c ret j : ℕ) (ss : List (Option (SwitchHash W H))) (w : W)
      → AllKeep Fits ss
      → Fits c w
      → Fits c (run ret j ss w).world
  unfolding switch_sources
  run-keeps c ret j [] w k f = f
  run-keeps c ret j (none ∷ ss) w k f = run-keeps c ret (j + 1) ss w k.1 f
  run-keeps c ret j (some g ∷ ss) w k f =
      let (r, w') = g i node new_cb new_hash old_cb w in
      let f' = k.0 i node new_cb new_hash old_cb c w f in
      elim (Bool-cases (r == 0)) [
        | inl y ↦ rw y (run-keeps c r (j + 1) ss w' k.1 f')
        | inr n ↦ rw n f'
      ]

  -- From a status of 0 the loop ends with 0, or names a failed source from where it started on.
  run-ret :
      (ret j : ℕ) (ss : List (Option (SwitchHash W H))) (w : W)
      → ret ≡ 0
      → (((run ret j ss w).failed ≡ none) × ((run ret j ss w).ret ≡ 0))
        ⊎ ((m : ℕ) × ((run ret j ss w).failed ≡ some m) × (j ≤ m))
  unfolding switch_sources
  run-ret ret j [] w z = inl (refl, z)
  run-ret ret j (none ∷ ss) w z = elim (run-ret ret (j + 1) ss w z) [
    | inl h ↦ inl h
    | inr (m, e, l) ↦ inr (m, e, omega arith)
  ]
  run-ret ret j (some g ∷ ss) w z =
      let (r, w') = g i node new_cb new_hash old_cb w in
      elim (Bool-cases (r == 0)) [
        | inl y ↦ elim (run-ret r (j + 1) ss w' (ground (arith, y))) [
          | inl h ↦ inl (rw y h)
          | inr (m, e, l) ↦ inr (m, rw y e, omega arith)
        ]
        | inr n ↦ inr (j, rw n refl, omega arith)
      ]

  module _ (f : SwitchHash W H) (after : List (Option (SwitchHash W H)))
      (forth : (w : W)
        → Fits old_cb w
        → (f i node new_cb new_hash old_cb w).0 ≡ 0
        → Fits new_cb (f i node new_cb new_hash old_cb w).1)
      (after_keep : AllKeep Fits after) where
    -- What the loop does to the source behind `before`: all are switched, or a source in front of it, it
    -- itself or one behind it failed.
    abbrev pub Passed : ℕ → Switched W → Type 0
    Passed k r =
        ((r.failed ≡ none) × (r.ret ≡ 0) × Fits new_cb r.world)
        ⊎ ((m : ℕ) × (r.failed ≡ some m)
            × (((m < k) × Fits old_cb r.world) ⊎ (m ≡ k) ⊎ ((k < m) × Fits new_cb r.world)))

    run-here : (ret j : ℕ) (w : W) → Fits old_cb w → Passed j (run ret j (some f ∷ after) w)
    unfolding switch_sources
    run-here ret j w h =
        let (r, w') = f i node new_cb new_hash old_cb w in
        elim (Bool-cases (r == 0)) [
          | inr n ↦ inr (j, rw n refl, inr (inl refl))
          | inl y ↦
              let z : r ≡ 0 = ground (arith, y) in
              let k = run-keeps new_cb r (j + 1) after w' after_keep (forth w h z) in
              elim (run-ret r (j + 1) after w' z) [
                | inl (e, q) ↦ inl (rw y e, rw y q, rw y k)
                | inr (m, e, l) ↦ inr (m, rw y e, inr (inr (omega arith, rw y k)))
              ]
        ]

    pub run-behind :
        (before : List (Option (SwitchHash W H))) (ret j k : ℕ) (w : W)
        → k ≡ j + length before
        → AllKeep Fits before
        → Fits old_cb w
        → Passed k (run ret j (before ++ (some f ∷ after)) w)
    unfolding switch_sources
    run-behind [] ret j k w e keep h =
        let e' : j ≡ k = omega arith in
        subst (λ n. Passed n (run ret j (some f ∷ after) w)) e' (run-here ret j w h)
    run-behind (none ∷ ss) ret j k w e keep h = run-behind ss ret (j + 1) k w (omega arith) keep.1 h
    run-behind (some g ∷ ss) ret j k w e keep h =
        let (r, w') = g i node new_cb new_hash old_cb w in
        let h' = keep.0 i node new_cb new_hash old_cb old_cb w h in
        elim (Bool-cases (r == 0)) [
          | inl y ↦ rw y (run-behind ss r (j + 1) k w' (omega arith) keep.1 h')
          | inr n ↦ inr (j, rw n refl, inl (omega arith, rw n h'))
        ]

    module _ (old_hash : H)
        (back : (w : W) → Fits new_cb w → Fits old_cb (f i node old_cb old_hash new_cb w).1) where
      abbrev pub revert : ℕ → List (Option (SwitchHash W H)) → W → W
      revert n ss w = revert_sources i node old_cb old_hash new_cb n ss w

      revert-keeps :
          (n : ℕ) (ss : List (Option (SwitchHash W H))) (w : W)
          → AllKeep Fits ss
          → Fits old_cb w
          → Fits old_cb (revert n ss w)
      unfolding revert_sources
      revert-keeps zero ss w keep h = h
      revert-keeps (suc n) [] w keep h = h
      revert-keeps (suc n) (none ∷ ss) w keep h = revert-keeps n ss w keep.1 h
      revert-keeps (suc n) (some g ∷ ss) w keep h =
          revert-keeps n ss (g i node old_cb old_hash new_cb w).1 keep.1
            (keep.0 i node old_cb old_hash new_cb old_cb w h)

      -- The roll-back stops in front of the source, or passes it.
      pub revert-front :
          (n : ℕ) (before rest : List (Option (SwitchHash W H))) (w : W)
          → n ≤ length before
          → AllKeep Fits before
          → Fits old_cb w
          → Fits old_cb (revert n (before ++ rest) w)
      unfolding revert_sources
      revert-front zero before rest w l keep h = h
      revert-front (suc n) [] rest w l keep h = absurd (omega arith)
      revert-front (suc n) (none ∷ ss) rest w l keep h =
          revert-front n ss rest w (omega arith) keep.1 h
      revert-front (suc n) (some g ∷ ss) rest w l keep h =
          revert-front n ss rest (g i node old_cb old_hash new_cb w).1 (omega arith) keep.1
            (keep.0 i node old_cb old_hash new_cb old_cb w h)

      pub revert-behind :
          (n : ℕ) (before : List (Option (SwitchHash W H))) (w : W)
          → length before < n
          → AllKeep Fits before
          → Fits new_cb w
          → Fits old_cb (revert n (before ++ (some f ∷ after)) w)
      unfolding revert_sources
      revert-behind zero before w l keep h = absurd (omega arith)
      revert-behind (suc n) [] w l keep h = revert-keeps n after _ after_keep (back w h)
      revert-behind (suc n) (none ∷ ss) w l keep h = revert-behind n ss w (omega arith) keep.1 h
      revert-behind (suc n) (some g ∷ ss) w l keep h =
          revert-behind n ss (g i node old_cb old_hash new_cb w).1 (omega arith) keep.1
            (keep.0 i node old_cb old_hash new_cb new_cb w h)
