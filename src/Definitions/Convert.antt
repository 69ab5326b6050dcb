-- ===== src/Definitions/Convert.antt =====
-- What the conversions of lrng_definitions.h promise: entropy is never credited beyond what was
-- asked for, not even where the `u32` products wrap.
use native.Mathlib.Nat.{div-le_of_le-mul, le-div_iff_mul-le}
use lrng.Common.{add32, ℕ, zero, suc, ◌+◌, ◌*◌, ◌%◌, ◌^◌, ◌≤◌, ◌<◌, arith}
use lrng.Config.{Config}
use lrng.Definitions.{
  entropy_to_data, data_to_entropy, fast_noise_entropylevel, reduce_by_osr, compress_osr,
}

-- Events are counted up to a cap that holds `bits` bits of entropy; converted back they never give
-- more than `bits`, at any rate, although both products wrap modulo 2 ^ 32.
pub data_to_entropy-le :
    (num bits rate : ℕ) → num ≤ entropy_to_data bits rate → data_to_entropy num rate ≤ bits
unfolding entropy_to_data data_to_entropy
data_to_entropy-le num bits rate h = div-le_of_le-mul rate (omega arith)

-- Without wrap-around and with at least one event for each bit (a rate of 256 or more), bits to events
-- and back never gain, and lose at most one bit.
pub entropy_to_data-round_trip :
    (bits rate : ℕ)
    → 256 ≤ rate
    → bits * rate < 2 ^ 32
    → (data_to_entropy (entropy_to_data bits rate) rate ≤ bits)
      × (bits ≤ data_to_entropy (entropy_to_data bits rate) rate + 1)
unfolding entropy_to_data data_to_entropy
entropy_to_data-round_trip zero rate hr h = (div-le_of_le-mul rate (omega arith), omega arith)
entropy_to_data-round_trip (suc b) rate hr h = (
  div-le_of_le-mul rate (omega arith),
  omega (
    arith,
    (le-div_iff_mul-le {k = rate} {x = b} {y = entropy_to_data (suc b) rate * 256 % 2 ^ 32}
          (omega arith)).1
        (omega arith),
  ),
)

-- A fast noise source is never credited with more than was requested.
pub fast_noise_entropylevel-le :
    (ent_bits requested_bits : ℕ) → fast_noise_entropylevel ent_bits requested_bits ≤ requested_bits
unfolding fast_noise_entropylevel
fast_noise_entropylevel-le ent_bits requested_bits = ground arith

-- What was collected within a request and its oversampling is discounted to within the request.
pub reduce_by_osr-le : (cfg : Config) (n k : ℕ) → n ≤ k + compress_osr cfg → reduce_by_osr cfg n ≤ k
unfolding reduce_by_osr
reduce_by_osr-le cfg n k h = ground arith

-- Events within a request and its oversampling are worth no more than the request, once discounted.
pub credit-le :
    (cfg : Config) (num requested rate : ℕ)
    → num ≤ entropy_to_data (add32 requested (compress_osr cfg)) rate
    → reduce_by_osr cfg (data_to_entropy num rate) ≤ requested
credit-le cfg num requested rate h =
    reduce_by_osr-le cfg (data_to_entropy num rate) requested
      (omega (arith, data_to_entropy-le num (add32 requested (compress_osr cfg)) rate h))

pub osr-le : (cfg : Config) (n : ℕ) → reduce_by_osr cfg n ≤ n
osr-le cfg n = reduce_by_osr-le cfg n n (omega arith)
