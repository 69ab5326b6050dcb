-- ===== src/Timer/Divisor.antt =====
-- When the common divisor of the time stamps is known, and what it can be.
use lrng.Common.{
  ℕ, suc, ◌+◌, ◌*◌, ◌≤◌, ◌<◌, ◌≡◌, ◌↔◌, refl, true, List, [], ◌∷◌, arith, length, sub32, ltb,
  Bool-cases, inl, inr, ap, ◌∙◌, ◌⊎◌,
}
use lrng.Common.Bits.{bit_and_mask}
use lrng.Timer.{GcdState, gcd_init, gcd_tested, gcd_add_value, data_idx2array, data_idx2slot}

module _ (gcd : ℕ → ℕ → ℕ) where
  -- Time stamps added one after the other.
  abbrev pub add_all : List ℕ → GcdState → GcdState
  add_all [] s = s
  add_all (t ∷ ts) s = add_all ts (gcd_add_value gcd t s)

  add_value-kept :
      (t : ℕ) (s : GcdState) → 1 ≤ s.gcd_timer → (gcd_add_value gcd t s).gcd_timer ≡ s.gcd_timer
  unfolding gcd_add_value
  add_value-kept t s known = ground arith

  -- Once known, the divisor stays.
  add_all-kept :
      (ts : List ℕ) (s : GcdState) → 1 ≤ s.gcd_timer → (add_all ts s).gcd_timer ≡ s.gcd_timer
  add_all-kept [] s known = refl
  add_all-kept (t ∷ ts) s known =
      let k = add_value-kept t s known in
      ground (arith, k, add_all-kept ts (gcd_add_value gcd t s) (omega (arith, k)))

  -- A state that waits for the divisor and has seen `seen` time stamps.
  Waits : ℕ → GcdState → Type 0
  Waits seen s = (s.gcd_timer ≡ 0) × (s.gcd_history_ptr ≡ sub32 seen 1) × (seen ≤ 100)

  add_value-Waits :
      (t seen : ℕ) (s : GcdState)
      → seen < 100
      → Waits seen s
      → Waits (suc seen) (gcd_add_value gcd t s)
  unfolding gcd_add_value Waits
  add_value-Waits t seen s low w = ground arith

  add_value-done :
      (t : ℕ) (s : GcdState)
      → Waits 100 s
      → let g = (gcd_add_value gcd t s).gcd_timer in (1 ≤ g) × (g ≤ 1000)
  unfolding gcd_add_value Waits
  add_value-done t s w = ground arith

  add_all-known :
      (ts : List ℕ) (seen : ℕ) (s : GcdState)
      → Waits seen s
      → let g = (add_all ts s).gcd_timer in
        ((seen + length ts ≤ 100) × (g ≡ 0)) ⊎ ((100 < seen + length ts) × (1 ≤ g) × (g ≤ 1000))
  unfolding Waits
  add_all-known [] seen s w = inl (omega (arith, w.2), w.0)
  add_all-known (t ∷ ts) seen s w =
      let s' = gcd_add_value gcd t s in
      elim (Bool-cases (ltb seen 100)) [
        | inl y ↦
            let ih =
              add_all-known ts (suc seen) s' (add_value-Waits t seen s (ground (arith, y)) w) in
            ground (arith, ih)
        | inr n ↦
            let full : seen ≡ 100 = ground (arith, n, w) in
            let done = add_value-done t s (w.0, w.1 ∙ ap (λ k. sub32 k 1) full, omega arith) in
            let kept = add_all-kept ts s' done.0 in
            inr (omega arith, omega (arith, kept, done), omega (arith, kept, done))
      ]

  -- From boot on the common divisor is unknown through the first 100 time stamps and known from the
  -- 101st on, whatever they are; it is then between 1 and 1000.
  pub gcd_tested_iff :
      (ts : List ℕ)
      → let s = add_all ts gcd_init in
        ((gcd_tested s ≡ true) ↔ (101 ≤ length ts)) × (s.gcd_timer ≤ 1000)
  unfolding gcd_tested Waits
  gcd_tested_iff ts =
      let known = add_all-known ts 0 gcd_init (refl, refl, omega arith) in
      ((ground (arith, known), ground (arith, known)), ground (arith, known))

-- The array index and the slot of a time stamp's index are its quotient and remainder by the number of
-- slots in a word: they determine the index, and the slot is one of the four.
pub data_idx-split :
    (idx : ℕ) → (data_idx2array idx * 4 + data_idx2slot idx ≡ idx) × (data_idx2slot idx < 4)
unfolding data_idx2array data_idx2slot
data_idx-split idx = (omega (arith, bit_and_mask 2 idx), omega (arith, bit_and_mask 2 idx))
