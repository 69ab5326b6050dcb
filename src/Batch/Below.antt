-- ===== src/Batch/Below.antt =====
-- A number below a bound is returned as soon as the words allow it.
use native.Mathlib.Nat.{div-lt_iff_lt-mul, mul-lt-mul_of_pos_left, mod-lt}
use lrng.Common.{
  ℕ, zero, suc, ◌-◌, ◌*◌, ◌/◌, ◌%◌, ◌^◌, ◌≤◌, ◌<◌, ltb, if_intro, if_intro_on, Option, none, some,
  u32, arith,
}
use lrng.Batch.{below_loop, get_random_u32_below}

module _ {T : Type 0} (word : T → ℕ × T) where
  -- The state after `k` words.
  abbrev pub after : ℕ → T → T
  after zero t = t
  after (suc k) t = after k (word t).1

module _ {T : Type 0} (word : T → ℕ × T) (ceil : ℕ) (pos : 0 < ceil)
    (small : (t : T) → (word t).0 < 2 ^ 32) where
  quotient-lt : (r : ℕ) → r < 2 ^ 32 → ceil * r / 2 ^ 32 < ceil
  quotient-lt r h =
      (div-lt_iff_lt-mul {k = 2 ^ 32} {x = ceil * r} {y = ceil} (omega arith)).1
        (mul-lt-mul_of_pos_left {m = r} {n = 2 ^ 32} {k = ceil} h pos)

  -- What a loop gives that returns.
  abbrev pub Below : Option (ℕ × T) → Type 0
  Below (some (v, t)) = v < ceil
  Below none = ⊥

  below_loop-Below :
      (k fuel bound r : ℕ) (t : T)
      → k < fuel
      → bound ≤ ceil
      → r < 2 ^ 32
      → ceil ≤ u32 (ceil * (word (after word k t)).0)
      → Below (below_loop word (suc fuel) ceil bound (ceil * r) t)
  unfolding below_loop
  below_loop-Below k zero bound r t l b h a = absurd (omega arith)
  below_loop-Below zero (suc fuel) bound r t l b h a =
      if_intro Below (ltb (u32 (ceil * r)) bound)
        (if_intro_on Below (ltb (u32 (ceil * (word t).0)) bound)
          (λ c. absurd (ground (arith, c, a, b))) (λ _. quotient-lt (word t).0 (small t)))
        (quotient-lt r h)
  below_loop-Below (suc k) (suc fuel) bound r t l b h a =
      if_intro Below (ltb (u32 (ceil * r)) bound)
        (below_loop-Below k fuel bound (word t).0 (word t).1 (omega arith) b (small t) a)
        (quotient-lt r h)

  -- If among the first words one is kept for every bound, `__get_random_u32_below` returns, and its
  -- number is below the bound.
  pub get_random_u32_below-Below :
      (k fuel : ℕ) (t : T)
      → k < fuel
      → ceil ≤ u32 (ceil * (word (after word k t)).0)
      → Below (get_random_u32_below word fuel ceil t)
  unfolding get_random_u32_below
  get_random_u32_below-Below k zero t l a = absurd (omega arith)
  get_random_u32_below-Below zero (suc fuel) t l a =
      if_intro_on Below (ltb (u32 (ceil * (word t).0)) ceil) (λ c. absurd (ground (arith, c, a)))
        (λ _. quotient-lt (word t).0 (small t))
  get_random_u32_below-Below (suc k) (suc fuel) t l a =
      if_intro Below (ltb (u32 (ceil * (word t).0)) ceil)
        (below_loop-Below k fuel ((2 ^ 32 - ceil) % ceil) (word t).0 (word t).1 (omega arith)
          (omega (arith, mod-lt (2 ^ 32 - ceil) {m = ceil} pos)) (small t) a)
        (quotient-lt (word t).0 (small t))
