-- ===== src/Common/Bits.antt =====
-- The laws of `&` with a mask of low ones, from the digit recursion that `bit_and` stands for, and what
-- `|` leaves of the low bits.
use Prim.Native.Nat.{
  ℕ, zero, suc, ◌+◌, ◌-◌, ◌*◌, ◌/◌, ◌%◌, ◌^◌, ◌≤◌, ◌<◌, min, bit_and, digits, bit_and-bitwise, max,
  bit_or, bit_or-bitwise,
}
use mathlib.Core.Path.{◌≡◌, refl, ap, ◌∙◌}
use mathlib.Core.Logic.{◌⊎◌, inl, inr}
use native.Mathlib.Nat.{
  pow-succ', one-le-pow, div-add-mod, mul-add-mod_self_left, mod-eq_of_lt, mod-lt,
}
use native.Mathlib.Omega.{arith}

-- The digits of `a & b`, on fuel.
abbrev conj : ℕ → ℕ → ℕ → ℕ
conj n a b = digits (λ _. zero) min n a b

conj_fuel : (n m a b : ℕ) → a ≤ n → a ≤ m → conj n a b ≡ conj m a b
conj_fuel zero zero a b p q = refl
conj_fuel zero (suc m) zero b p q = refl
conj_fuel zero (suc m) (suc a) b p q = absurd (omega arith)
conj_fuel (suc n) zero zero b p q = refl
conj_fuel (suc n) zero (suc a) b p q = absurd (omega arith)
conj_fuel (suc n) (suc m) zero b p q = refl
conj_fuel (suc n) (suc m) (suc a) b p q =
    omega (arith, conj_fuel n m (suc a / 2) (b / 2) (omega arith) (omega arith))

pub zero-bit_and : (b : ℕ) → bit_and 0 b ≡ 0
zero-bit_and b = bit_and-bitwise 0 b

-- The lowest digit of `a & b`, and the rest.
pub bit_and_unfold : (a b : ℕ) → bit_and a b ≡ 2 * bit_and (a / 2) (b / 2) + min (a % 2) (b % 2)
bit_and_unfold zero b = omega (arith, zero-bit_and b, zero-bit_and (b / 2))
bit_and_unfold (suc a) b = omega (
  arith,
  bit_and-bitwise (suc a) b,
  bit_and-bitwise (suc a / 2) (b / 2),
  conj_fuel a (suc a / 2) (suc a / 2) (b / 2) (omega arith) (omega arith),
)

bit_and-zero_below : (n a : ℕ) → a ≤ n → bit_and a 0 ≡ 0
bit_and-zero_below n zero h = zero-bit_and 0
bit_and-zero_below zero (suc a) h = absurd (omega arith)
bit_and-zero_below (suc n) (suc a) h =
    omega (arith, bit_and_unfold (suc a) 0, bit_and-zero_below n (suc a / 2) (omega arith))

pub bit_and-zero : (a : ℕ) → bit_and a 0 ≡ 0
bit_and-zero a = bit_and-zero_below a a (omega arith)

-- The remainder by twice a number, from that of the half.
mod_double : (a p : ℕ) → 0 < p → a % (2 * p) ≡ 2 * (a / 2 % p) + a % 2
mod_double a p h =
    ap (λ (n : ℕ). n % (2 * p)) split
    ∙ mul-add-mod_self_left (2 * p) (a / 2 / p) rest
    ∙ mod-eq_of_lt (omega (arith, mod-lt (a / 2) h))
  where
    rest : ℕ
    rest = 2 * (a / 2 % p) + a % 2

    split : a ≡ 2 * p * (a / 2 / p) + rest
    split = omega (arith, div-add-mod (a / 2) p)

half_mask : (k : ℕ) → (2 ^ suc k - 1) / 2 ≡ 2 ^ k - 1
half_mask k = omega (arith, pow-succ' 2 k, one-le-pow k 2 (omega arith))

-- `a & (2 ^ k - 1)` is the remainder by `2 ^ k`.
pub bit_and_mask : (k a : ℕ) → bit_and a (2 ^ k - 1) ≡ a % 2 ^ k
bit_and_mask zero a = omega (arith, bit_and-zero a)
bit_and_mask (suc k) a = omega (
  arith,
  bit_and_unfold a (2 ^ suc k - 1),
  ap (bit_and (a / 2)) (half_mask k),
  bit_and_mask k (a / 2),
  mod_double a (2 ^ k) (one-le-pow k 2 (omega arith)),
  pow-succ' 2 k,
  ap (λ (m : ℕ). a % m) (pow-succ' 2 k),
  one-le-pow k 2 (omega arith),
)

-- The digits of `a | b`, on fuel.
abbrev disj : ℕ → ℕ → ℕ → ℕ
disj n a b = digits (λ b. b) max n a b

disj_fuel : (n m a b : ℕ) → a ≤ n → a ≤ m → disj n a b ≡ disj m a b
disj_fuel zero zero a b p q = refl
disj_fuel zero (suc m) zero b p q = refl
disj_fuel zero (suc m) (suc a) b p q = absurd (omega arith)
disj_fuel (suc n) zero zero b p q = refl
disj_fuel (suc n) zero (suc a) b p q = absurd (omega arith)
disj_fuel (suc n) (suc m) zero b p q = refl
disj_fuel (suc n) (suc m) (suc a) b p q =
    omega (arith, disj_fuel n m (suc a / 2) (b / 2) (omega arith) (omega arith))

zero-bit_or : (b : ℕ) → bit_or 0 b ≡ b
zero-bit_or b = bit_or-bitwise 0 b

-- The lowest digit of `a | b`, and the rest.
bit_or_unfold : (a b : ℕ) → bit_or a b ≡ 2 * bit_or (a / 2) (b / 2) + max (a % 2) (b % 2)
bit_or_unfold zero b = omega (arith, zero-bit_or b, zero-bit_or (b / 2))
bit_or_unfold (suc a) b = omega (
  arith,
  bit_or-bitwise (suc a) b,
  bit_or-bitwise (suc a / 2) (b / 2),
  disj_fuel a (suc a / 2) (suc a / 2) (b / 2) (omega arith) (omega arith),
)

bit_or-eq_zero_below : (n a b : ℕ) → a + b ≤ n → bit_or a b ≡ 0 → (a ≡ 0) × (b ≡ 0)
bit_or-eq_zero_below zero a b l h = (omega arith, omega arith)
bit_or-eq_zero_below (suc n) a b l h =
    let u = bit_or_unfold a b in
    let half : (a / 2 + b / 2 ≤ n) ⊎ (a + b ≡ 0) = ground arith in
    elim half [
      | inr z ↦ (omega arith, omega arith)
      | inl l' ↦
          let r = bit_or-eq_zero_below n (a / 2) (b / 2) l' (omega (arith, u, h)) in
          (omega (arith, u, h, r), omega (arith, u, h, r))
    ]

-- `a | b` is 0 only if both are.
pub bit_or-eq_zero : (a b : ℕ) → bit_or a b ≡ 0 → (a ≡ 0) × (b ≡ 0)
bit_or-eq_zero a b h = bit_or-eq_zero_below (a + b) a b (omega arith) h

-- What `| b` leaves of the low bits, if `b` has none of them.
pub bit_or-mod : (k a b : ℕ) → b % 2 ^ k ≡ 0 → bit_or a b % 2 ^ k ≡ a % 2 ^ k
bit_or-mod zero a b h = omega arith
bit_or-mod (suc k) a b h =
    let one = one-le-pow k 2 (omega arith) in
    let split : (x : ℕ) → x % 2 ^ suc k ≡ 2 * (x / 2 % 2 ^ k) + x % 2 =
      λ x. ap (λ (m : ℕ). x % m) (pow-succ' 2 k) ∙ mod_double x (2 ^ k) one in
    let half : bit_or a b / 2 ≡ bit_or (a / 2) (b / 2) = omega (arith, bit_or_unfold a b) in
    omega (
      arith,
      h,
      split a,
      split b,
      split (bit_or a b),
      bit_or_unfold a b,
      ap (λ (m : ℕ). m % 2 ^ k) half,
      bit_or-mod k (a / 2) (b / 2) (omega (arith, h, split b)),
    )
