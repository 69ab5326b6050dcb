-- ===== src/KernelRng/Rate.antt =====
-- What the kernel's generator is credited with.
use lrng.Common.{ℕ, ◌≡◌, ◌⊎◌, Bool, true, false, not, ◌&&◌, List, [], ◌∷◌}
use lrng.Config.{Config}
use lrng.SeedBuffer.{EntropyBuf}
use lrng.KernelRng.{Krng, write_krng_entropy, krng_entropylevel, krng_get}

-- What happens to the source: a seed is drawn, with what the kernel's generator gives; its rate is asked
-- for; each with whether that generator is initialised; or the parameter is written.
pub data Event : Type 0 where
  drawn : Bool → List ℕ → ℕ → Event
  asked : Bool → ℕ → Event
  written : ℕ → Event

-- No event of a list finds the generator initialised; none writes the parameter.
abbrev pub all_early : List Event → Bool
all_early [] = true
all_early (drawn initialized _ _ ∷ es) = not initialized && all_early es
all_early (asked initialized _ ∷ es) = not initialized && all_early es
all_early (written _ ∷ es) = all_early es

abbrev pub none_written : List Event → Bool
none_written [] = true
none_written (drawn _ _ _ ∷ es) = none_written es
none_written (asked _ _ ∷ es) = none_written es
none_written (written _ ∷ es) = false

module _ (cfg : Config) where
  abbrev pub run : List Event → EntropyBuf → Krng → EntropyBuf × Krng
  run [] eb k = (eb, k)
  run (drawn initialized random bits ∷ es) eb k =
      let (eb', k') = krng_get cfg initialized random bits eb k in run es eb' k'
  run (asked initialized bits ∷ es) eb k = run es eb (krng_entropylevel cfg initialized bits k).1
  run (written rate ∷ es) eb k = run es eb (write_krng_entropy rate k)

  -- The rate has not been adjusted; it has been, or still will be, to 0; it has been, and is `rate` now.
  IsFresh : Krng → Type 0
  IsFresh k = (k.krng_initial_rate ≡ 0) × (k.init ≡ false)

  IsSpent : Krng → Type 0
  IsSpent k = (k.krng_initial_rate ≡ 0) × ((k.init ≡ false) ⊎ (k.krng_entropy ≡ 0))

  IsRated : ℕ → Krng → Type 0
  IsRated rate k = (k.init ≡ true) × (k.krng_entropy ≡ rate)
