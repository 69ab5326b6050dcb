-- ===== src/AtomicDrng/Tests.antt =====
-- The atomic DRNG over a generator that counts, and the theorems about it applied there.
use lrng.Common.{
  ℕ, ◌+◌, ◌-◌, ◌^◌, ◌≡◌, ◌↔◌, refl, true, false, List, [], ◌∷◌, arith, some, min, length,
  length-replicate, replicate,
}
use lrng.Samples.{fips}
use lrng.DrngState.{Drng, DrngCb, drng_state_init, drng_inject, drng_atomic_must_reseed}
use lrng.AtomicDrng.{drng_atomic_get, int_max}
use lrng.AtomicDrng.Output.{
  IsGenerator, drng_atomic_get-length, spend, drng_atomic_must_reseed-spend,
}

-- A generator whose state counts its requests.
abbrev counter : DrngCb ℕ
counter = record {
  drng_seed = λ d bytes. (false, 0);
  drng_generate = λ d n. (n, replicate n d, d + 1);
}

counter-IsGenerator : IsGenerator counter
counter-IsGenerator d n one = (one, omega arith, length-replicate n d)

abbrev atomic : Drng ℕ
atomic = drng_state_init 0

-- A request for five bytes costs one count.
one_chunk :
    drng_atomic_get counter 3 5 atomic
    ≡ some (replicate 5 0, record atomic { drng = 1; requests = 2 ^ 20 - 1 })
unfolding drng_atomic_get
one_chunk = refl

drng_atomic_get-length_example :
    (r : List ℕ × Drng ℕ) × (drng_atomic_get counter 5001 5000 atomic ≡ some r)
    × (length r.0 ≡ min 5000 int_max)
drng_atomic_get-length_example =
    drng_atomic_get-length counter 5001 5000 atomic counter-IsGenerator (omega arith)

drng_atomic_must_reseed-spend_example :
    (drng_atomic_must_reseed fips 500
        (spend counter 3 (drng_inject counter 100 (1 ∷ []) true atomic))
      ≡ true)
    ↔ (3 ≡ 2 ^ 20)
drng_atomic_must_reseed-spend_example =
    drng_atomic_must_reseed-spend counter fips 100 500 3 (1 ∷ []) atomic counter-IsGenerator refl
      refl (omega arith)
