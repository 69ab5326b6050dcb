-- ===== src/DrngState/Cadence.antt =====
-- When one DRNG instance asks for a reseed.
use lrng.Common.{
  ℕ, zero, suc, ◌+◌, ◌*◌, ◌%◌, ◌^◌, ◌<◌, ◌≡◌, ◌↔◌, refl, Bool, true, false, List, arith,
}
use lrng.Config.{Config}
use lrng.DrngState.{DrngCb, Drng, drng_inject, drng_must_reseed, drng_reset, time_after, injected}

-- Asks for a reseed before each request, at given times, and never reseeds: the last answer.
abbrev pub ask : {D : Type 0} → Config → ℕ → ℕ → Drng D → Bool × Drng D
ask cfg jiffies zero d = drng_must_reseed cfg jiffies d
ask cfg jiffies (suc n) d = ask cfg jiffies n (drng_must_reseed cfg jiffies d).1

module _ {D : Type 0} (cfg : Config) (cb : DrngCb D) where
  ask-requests :
      (jiffies n : ℕ) (d : Drng D)
      → n < d.requests
      → d.requests < 2 ^ 32
      → d.force_reseed ≡ false
      → time_after jiffies ((d.last_seeded + cfg.reseed_max_time * cfg.hz) % 2 ^ 64) ≡ false
      → ((ask cfg jiffies n d).0 ≡ true) ↔ (suc n ≡ d.requests)
  unfolding drng_must_reseed
  ask-requests jiffies zero d low word calm early = ground arith
  ask-requests jiffies (suc n) d low word calm early = ground (
    arith,
    ask-requests jiffies n (drng_must_reseed cfg jiffies d).1 (omega arith) (omega arith) calm
        early,
  )

  -- After a seeding that worked, while the maximal time between reseeds has not passed, the question
  -- whether to reseed is answered with yes at request 2 ^ 20 and at none before.
  pub ask-drng_inject :
      (start jiffies n : ℕ) (inbuf : List ℕ) (full : Bool) (d : Drng D)
      → (cb.drng_seed d.drng inbuf).0 ≡ false
      → time_after jiffies ((start + cfg.reseed_max_time * cfg.hz) % 2 ^ 64) ≡ false
      → n < 2 ^ 20
      → ((ask cfg jiffies n (drng_inject cb start inbuf full d)).0 ≡ true) ↔ (suc n ≡ 2 ^ 20)
  unfolding drng_inject
  ask-drng_inject start jiffies n inbuf full d works early low = rw works (
      ask-requests jiffies n (injected start full (cb.drng_seed d.drng inbuf).1 d) low (omega arith)
        refl early)

  -- Every way to lose the seed asks for a new one: after a reset or a failed seeding the next request
  -- of the instance is answered with yes, at any time.
  pub drng_must_reseed-lost :
      (jiffies now : ℕ) (inbuf : List ℕ) (full : Bool) (d : Drng D)
      → (cb.drng_seed d.drng inbuf).0 ≡ true
      → ((drng_must_reseed cfg now (drng_reset jiffies d)).0 ≡ true)
        × ((drng_must_reseed cfg now (drng_inject cb jiffies inbuf full d)).0 ≡ true)
  unfolding drng_must_reseed drng_reset drng_inject
  drng_must_reseed-lost jiffies now inbuf full d fails = (ground arith, ground arith)
