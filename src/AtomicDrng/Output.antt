-- ===== src/AtomicDrng/Output.antt =====
-- What a request to the atomic DRNG gets.
use lrng.Common.{
  ℕ, zero, suc, ◌+◌, ◌*◌, ◌%◌, ◌^◌, ◌≤◌, ◌<◌, ◌≡◌, refl, true, false, List, [], ◌++◌, none, some,
  ◌↔◌, arith, length, length-append, sub32, min, min_u32,
}
use lrng.Config.{Config}
use lrng.Definitions.{drng_max_reqsize}
use lrng.DrngState.{Drng, DrngCb, drng_atomic_must_reseed, drng_inject, injected, time_after}
use lrng.AtomicDrng.{get_loop, drng_atomic_get, int_max}

-- The documented behaviour of `drng_generate`: it fills the buffer or a non-empty start of it.
abbrev pub IsGenerator : {D : Type 0} → DrngCb D → Type 0
IsGenerator {D} cb =
    (d : D) (n : ℕ)
    → 1 ≤ n
    → let (ret, bytes, d') = cb.drng_generate d n in (1 ≤ ret) × (ret ≤ n) × (length bytes ≡ ret)

module _ {D : Type 0} (cb : DrngCb D) where
  get_loop-length :
      (fuel outbuflen : ℕ) (d : Drng D) (out : List ℕ)
      → IsGenerator cb
      → outbuflen < 2 ^ 31
      → outbuflen < fuel
      → (r : List ℕ × Drng D) × (get_loop cb fuel outbuflen d out ≡ some r)
        × (length r.0 ≡ length out + outbuflen)
  get_loop-length zero outbuflen d out gen word enough = elim (let q : ⊥ = omega arith in q) [ ]
  get_loop-length (suc fuel) zero d out gen word enough = ((out, d), refl, omega arith)
  get_loop-length (suc fuel) (suc n) d out gen word enough =
      let todo = min_u32 (suc n) drng_max_reqsize in
      let (ret, bytes, handle) = cb.drng_generate d.drng todo in
      let one : 1 ≤ todo = ground arith in
      let within : todo ≤ suc n = ground arith in
      let (p, q, l) = gen d.drng todo one in
      let d' = record d { drng = handle; requests = sub32 d.requests 1 } in
      let (r, e, len) =
        get_loop-length fuel (sub32 (suc n) ret) d' (out ++ bytes) gen (omega arith)
          (omega arith) in
      (r, ground (arith, e, p), omega (arith, len, length-append out bytes, l, p, q, within))

  -- A request to the atomic DRNG is served to the last byte, up to INT_MAX bytes, by any generator
  -- that makes progress: the loop ends after at most one turn for each byte and one more.
  pub drng_atomic_get-length :
      (fuel outbuflen : ℕ) (d : Drng D)
      → IsGenerator cb
      → min outbuflen int_max < fuel
      → (r : List ℕ × Drng D) × (drng_atomic_get cb fuel outbuflen d ≡ some r)
        × (length r.0 ≡ min outbuflen int_max)
  unfolding drng_atomic_get
  drng_atomic_get-length fuel zero d gen enough = (([], d), refl, omega arith)
  drng_atomic_get-length fuel (suc n) d gen enough =
      let (r, e, len) =
        get_loop-length fuel (min_u32 (suc n) int_max) d [] gen (ground arith) (ground arith) in
      (r, ground (arith, e), ground (arith, len))

  -- One request for one byte costs one count and changes nothing else but the generator's state.
  one_request :
      (d : Drng D)
      → IsGenerator cb
      → drng_atomic_get cb 2 1 d
        ≡ some (
          (cb.drng_generate d.drng 1).1,
          record d { drng = (cb.drng_generate d.drng 1).2; requests = sub32 d.requests 1 },
        )
  unfolding drng_atomic_get
  one_request d gen = let (p, q, l) = gen d.drng 1 (omega arith) in ground (arith, p, q)

  -- `n` such requests.
  abbrev pub spend : ℕ → Drng D → Drng D
  spend zero d = d
  spend (suc n) d = elim (drng_atomic_get cb 2 1 d) [ none ↦ d | some r ↦ spend n r.1 ]

  spend-must :
      (cfg : Config) (jiffies n : ℕ) (d : Drng D)
      → IsGenerator cb
      → d.fully_seeded ≡ true
      → d.force_reseed ≡ false
      → time_after jiffies ((d.last_seeded + cfg.reseed_max_time * cfg.hz) % 2 ^ 64) ≡ false
      → d.requests < 2 ^ 32
      → n < 2 ^ 32
      → (drng_atomic_must_reseed cfg jiffies (spend n d) ≡ true) ↔ (n ≡ d.requests)
  unfolding drng_atomic_must_reseed
  spend-must cfg jiffies zero d gen seeded calm early low word = ground arith
  spend-must cfg jiffies (suc n) d gen seeded calm early low word =
      let d' = record d { drng = (cb.drng_generate d.drng 1).2; requests = sub32 d.requests 1 } in
      let ih = spend-must cfg jiffies n d' gen seeded calm early (omega arith) (omega arith) in
      rw (spend, one_request d gen) (λ y. omega (arith, ih.0 y), λ y. ih.1 (omega arith))

  -- The atomic DRNG asks for a reseed when its counter of requests is exactly 0. While the maximal time
  -- has not passed, the answer after a full seeding and `n` requests is yes for `n` of 2 ^ 20 and no for
  -- any other number below 2 ^ 32: once the threshold has been passed without a look, the count of
  -- requests forces no reseed.
  pub drng_atomic_must_reseed-spend :
      (cfg : Config) (start jiffies n : ℕ) (inbuf : List ℕ) (d : Drng D)
      → IsGenerator cb
      → (cb.drng_seed d.drng inbuf).0 ≡ false
      → time_after jiffies ((start + cfg.reseed_max_time * cfg.hz) % 2 ^ 64) ≡ false
      → n < 2 ^ 32
      → (drng_atomic_must_reseed cfg jiffies (spend n (drng_inject cb start inbuf true d)) ≡ true)
        ↔ (n ≡ 2 ^ 20)
  unfolding drng_inject
  drng_atomic_must_reseed-spend cfg start jiffies n inbuf d gen works early word = rw works (
      spend-must cfg jiffies n (injected start true (cb.drng_seed d.drng inbuf).1 d) gen
        (ground arith) refl early (omega arith) word)
