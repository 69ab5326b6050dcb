-- ===== src/Start/Sleep.antt =====
-- What callers see of the start of the LRNG.
use lrng.Common.{
  ℕ, zero, suc, refl, sym, ap, ◌∙◌, ◌≡◌, ◌≢◌, ◌↔◌, ◌>>=◌, Bool, true, false, not, ◌&&◌, ◌==◌,
  if◌then◌else◌, Option, List, [], none, some, arith, ◌⊎◌, inl, inr, length, Bool-cases,
  Option-cases,
}
use lrng.Config.{Config}
use lrng.Definitions.{drng_security_strength_bytes}
use lrng.DrngMgr.{LrngState, Setup, Ret, count, errno, put_mgr, drng_init, drng_pr}
use lrng.DrngMgr.Generate.{Got}
use lrng.ManagerState.{pool_trylock}
use lrng.DrngMgr.Work.{drng_seed_work}
use lrng.Start.{
  Boot, is_zero, alloc_common, make_available, drng_initalize, sleep_instance, drng_get_sleep,
}

-- A result that is a count is that of the bytes written.
abbrev pub IsHonest : {W D : Type 0} → Got W D → Type 0
IsHonest none = Unit
IsHonest (some (count n, out, s)) = length out ≡ n
IsHonest (some (errno e, out, s)) = Unit

-- The LRNG is not available, a DRNG of the start is missing, and the allocation fails.
abbrev pub fails_to_start : {W D : Type 0} → (ℕ → ℕ × D) → Boot W D → Bool
fails_to_start drng_alloc b =
    not b.lrng.avail
    && not (b.allocated drng_pr && b.allocated drng_init)
    && not ((drng_alloc drng_security_strength_bytes).0 == 0)

module _ {W D : Type 0} where
  -- The request after the start.
  abbrev answer : Boot W D → Ret × List ℕ × LrngState W D → Option (Ret × List ℕ × Boot W D)
  answer b1 (ret, bytes, s) = some (ret, bytes, record b1 { lrng = s })

  abbrev after_start : Got W D → Ret → Boot W D → Option (Ret × List ℕ × Boot W D)
  after_start g r b1 = if is_zero r then g >>= answer b1 else some (r, [], b1)

  served-IsHonest :
      (g : Got W D) (n : ℕ) (out : List ℕ) (b1 b' : Boot W D)
      → IsHonest g
      → (g >>= answer b1) ≡ some (count n, out, b')
      → length out ≡ n
  served-IsHonest none n out b1 b' h e = ground arith
  served-IsHonest (some (count m, bytes, s)) n out b1 b' h e = ground arith
  served-IsHonest (some (errno m, bytes, s)) n out b1 b' h e = ground arith

  -- A start that reports the count `c`, and the request after it.
  answered :
      (x : Option (Ret × Boot W D)) (go : Boot W D → Got W D) (c n : ℕ) (out : List ℕ)
      (b' : Boot W D)
      → ((b1 : Boot W D) → IsHonest (go b1))
      → ((r : Ret) (b1 : Boot W D) → x ≡ some (r, b1) → r ≡ count c)
      → (x >>= λ p. after_start (go p.1) p.0 p.1) ≡ some (count n, out, b')
      → ((c ≡ 0) × (length out ≡ n)) ⊎ ((c ≢ 0) × (out ≡ []) × (n ≡ c))
  answered none go c n out b' honest same e = ground arith
  answered (some (errno m, b1)) go c n out b' honest same e =
      let bad = same (errno m) b1 refl in ground (arith, bad)
  answered (some (count zero, b1)) go c n out b' honest same e =
      let none_lost = same (count zero) b1 refl in
      inl (ground (arith, none_lost), served-IsHonest (go b1) n out b1 b' (honest b1) e)
  answered (some (count (suc m), b1)) go c n out b' honest same e =
      let lost = same (count (suc m)) b1 refl in
      inr (ground (arith, lost), ground (arith, e), ground (arith, lost, e))

module _ {W D : Type 0} (cfg : Config) (u : Setup W D) where
  -- The start succeeds with both DRNGs there and the LRNG available, or fails with its availability as it
  -- was.
  pub make_available-outcome :
      (drng_alloc : ℕ → ℕ × D) (b : Boot W D)
      → let (r, b') = make_available cfg u drng_alloc b in
        ((is_zero r ≡ true)
          × (b'.lrng.avail ≡ true)
          × (b'.allocated drng_pr ≡ true)
          × (b'.allocated drng_init ≡ true))
        ⊎ ((is_zero r ≡ false) × (b'.lrng.avail ≡ b.lrng.avail))
  unfolding make_available alloc_common
  make_available-outcome drng_alloc b = ground arith

  make_available-result :
      (drng_alloc : ℕ → ℕ × D) (b : Boot W D)
      → b.lrng.avail ≡ false
      → (make_available cfg u drng_alloc b).0
        ≡ count
            (if fails_to_start drng_alloc b then (drng_alloc drng_security_strength_bytes).0 else 0)
  unfolding make_available alloc_common
  make_available-result drng_alloc b off = ground (arith, off)

  -- The start reports 0 if it ends, unless it fails.
  initalize-result :
      (get : ℕ → ℕ → LrngState W D → Got W D) (drng_alloc : ℕ → ℕ × D) (waiting : Bool)
      (b : Boot W D) (r : Ret) (b1 : Boot W D)
      → drng_initalize cfg u get drng_alloc waiting b ≡ some (r, b1)
      → r
        ≡ count
            (if fails_to_start drng_alloc b then (drng_alloc drng_security_strength_bytes).0 else 0)
  unfolding drng_initalize
  initalize-result get drng_alloc waiting b r b1 e = elim (Bool-cases b.lrng.avail) [
    | inl on ↦ ground (arith, on)
    | inr off ↦
        let made = make_available-result drng_alloc b off in
        let (r0, b0) = make_available cfg u drng_alloc b in
        let (locked, m) = pool_trylock b0.lrng.mgr in
        elim (Option-cases (drng_seed_work cfg u get waiting (put_mgr m b0.lrng))) [
          | inl stuck ↦ ground (arith, off, made, stuck)
          | inr (s, seeded) ↦ ground (arith, off, made, seeded)
        ]
  ]

  -- A request that returns a count has written that many bytes, over requests to the instances that are so,
  -- unless the LRNG is not available, one of the two DRNGs of the start is missing and the allocation
  -- fails: then, and only then, the count differs from what was written.
  pub get_sleep-count_iff :
      (get : ℕ → ℕ → LrngState W D → Got W D) (drng_alloc : ℕ → ℕ × D) (waiting : Bool) (node : ℕ)
      (pr : Bool) (outbuflen n : ℕ) (out : List ℕ) (b b' : Boot W D)
      → ((i len : ℕ) (s : LrngState W D) → IsHonest (get i len s))
      → drng_get_sleep cfg u get drng_alloc waiting node pr outbuflen b ≡ some (count n, out, b')
      → (length out ≢ n) ↔ (fails_to_start drng_alloc b ≡ true)
  unfolding drng_get_sleep
  get_sleep-count_iff get drng_alloc waiting node pr outbuflen n out b b' honest e =
      let i = sleep_instance cfg u node pr b.lrng in
      let err = (drng_alloc drng_security_strength_bytes).0 in
      let said =
        answered (drng_initalize cfg u get drng_alloc waiting b) (λ b1. get i outbuflen b1.lrng)
          (if fails_to_start drng_alloc b then err else 0) n out b'
          (λ b1. honest i outbuflen b1.lrng) (initalize-result get drng_alloc waiting b) e in
      elim (Bool-cases (fails_to_start drng_alloc b)) [
        | inl y ↦
            let c : (if fails_to_start drng_alloc b then err else 0) ≡ err =
              ap (λ t. if t then err else 0) y in
            let some_err : err ≢ 0 = ground (arith, y) in
            elim said [
              | inl (z, ok) ↦ absurd (some_err (sym c ∙ z))
              | inr (nz, empty, same) ↦ (
                λ _. y,
                λ _ l. some_err (sym c ∙ sym same ∙ sym l ∙ ap (λ (xs : List ℕ). length xs) empty),
              )
            ]
        | inr works ↦
            let c : (if fails_to_start drng_alloc b then err else 0) ≡ 0 =
              ap (λ t. if t then err else 0) works in
            elim said [
              | inl (z, ok) ↦ (λ bad. absurd (bad ok), λ y. absurd (ground (arith, y, works)))
              | inr (nz, _, _) ↦ absurd (nz c)
            ]
      ]
