-- ===== src/JentSource/Block.antt =====
-- One call of the Jitter RNG in lrng_es_jent.c.
use lrng.Common.{ℕ, ◌≤◌, ◌≡◌, List, arith, if◌then◌else◌}
use lrng.Definitions.Convert.{fast_noise_entropylevel-le}
use lrng.JentSource.{Jent, jent_get_block, jent_entropylevel}

module _ {R : Type 0} (get_bytes : ℕ → R → ℕ × List ℕ × R) where
  -- What one call of the Jitter RNG is credited with.
  pub jent_get_block-le :
      (req : ℕ) (e : List ℕ) (j : Jent R) → (jent_get_block get_bytes req e j).1 ≤ req
  unfolding jent_get_block jent_entropylevel
  jent_get_block-le req e j =
      ground (arith, fast_noise_entropylevel-le (if j.initialized then j.jent_entropy else 0) req)

  -- A call changes no slot.
  pub jent_get_block-slots :
      (req : ℕ) (e : List ℕ) (j : Jent R) → (jent_get_block get_bytes req e j).2.slots ≡ j.slots
  unfolding jent_get_block
  jent_get_block-slots req e j = ground arith
