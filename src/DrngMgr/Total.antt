-- ===== src/DrngMgr/Total.antt =====
-- `lrng_drng_get` ends: the seeding that it may start holds the pool, so the request nested in that
-- seeding starts none.
use lrng.Common.{
  ℕ, ◌-◌, ◌^◌, ◌≤◌, ◌<◌, ◌≡◌, ◌≢◌, inl, inr, refl, Bool, true, false, ◌==◌, List, [], if◌then◌else◌,
  Option, some, min_u32, arith, Bool-cases, ltb, length, min, ◌∙◌, sym,
}
use lrng.Config.{Config}
use lrng.SeedBuffer.{es_last}
use lrng.Manager.{unset_fully_seeded, es_add_entropy}
use lrng.ManagerState.{Manager, pool_trylock, pool_unlock}
use lrng.Manager.Seeding.{AllSources}
use lrng.DrngState.{drng_must_reseed, drng_atomic_must_reseed, drng_inject}
use lrng.AtomicDrng.Output.{IsGenerator}
use lrng.Drng.{seed_es_nolock, seed_start}
use lrng.Drng.Keeps.{seed_loop-keeps}
use lrng.Drng.Termination.{seed_es_nolock-total}
use lrng.DrngMgr.{
  LrngState, Setup, count, put, put_mgr, drng_pr, drng_init, drng_atomic, drng_seed_es, now, env_of,
  drng_unset_fully_seeded,
}
use lrng.DrngMgr.Generate.{
  reseed_check, drng_get_with, drng_get, drng_seed, drng_atomic_seed_drng, request,
}
use lrng.DrngMgr.Deliver.{get_loop-total}

-- The LRNG is available and its seed buffer has a count for each source; and a seeding holds the pool.
abbrev pub IsReady : {W D : Type 0} → LrngState W D → Type 0
IsReady s = (length s.stack.e_bits ≡ es_last) × (s.avail ≡ true)

abbrev pub IsHeld : {W D : Type 0} → LrngState W D → Type 0
IsHeld s = (s.mgr.reseed_in_progress ≡ true) × (length s.stack.e_bits ≡ es_last) × (s.avail ≡ true)

module _ {W D : Type 0} (cfg : Config) (u : Setup W D) (i : ℕ) (regular : i ≢ drng_pr)
    (gen : IsGenerator (u.cbs i)) where
  unset_lock :
      (is_init : Bool) (m : Manager W)
      → m.reseed_in_progress ≡ true
      → (unset_fully_seeded cfg u.src is_init m).reseed_in_progress ≡ true
  unfolding unset_fully_seeded es_add_entropy
  unset_lock is_init m held = ground arith

  unset-IsHeld : (s : LrngState W D) → IsHeld s → IsHeld (drng_unset_fully_seeded cfg u i s)
  unfolding drng_unset_fully_seeded
  unset-IsHeld s h = (unset_lock (i == drng_init) s.mgr h.0, h.1, h.2)

  choose_IsHeld :
      (b : Bool) (s : LrngState W D)
      → IsHeld s
      → IsHeld (if b then drng_unset_fully_seeded cfg u i s else s)
  choose_IsHeld true s h = unset-IsHeld s h
  choose_IsHeld false s h = h

  choose_IsReady :
      (b : Bool) (s : LrngState W D)
      → IsReady s
      → IsReady (if b then drng_unset_fully_seeded cfg u i s else s)
  unfolding drng_unset_fully_seeded
  choose_IsReady true s h = h
  choose_IsReady false s h = h

  check-IsHeld :
      (seed : ℕ → LrngState W D → Option (LrngState W D)) (s : LrngState W D)
      → IsHeld s
      → (s' : LrngState W D) × (reseed_check cfg u seed i s ≡ some s') × IsHeld s'
  unfolding reseed_check pool_trylock
  check-IsHeld seed s h =
      let (must, d) = drng_must_reseed cfg (now cfg u s) (s.drngs i) in
      elim (Bool-cases must) [
        | inl y ↦ (put i (record d { force_reseed = true }) s, ground (arith, y, h), h)
        | inr n ↦ (put i d s, ground (arith, n), h)
      ]

  -- A request while the pool is held starts no seeding, and is served.
  get_with-IsHeld :
      (seed : ℕ → LrngState W D → Option (LrngState W D)) (fuel n : ℕ) (s : LrngState W D)
      → IsHeld s
      → 1 ≤ n
      → n < fuel
      → n < 2 ^ 31
      → (out : List ℕ) × (s' : LrngState W D) × (drng_get_with cfg u seed fuel i n s
          ≡ some (count n, out, s'))
        × (length out ≡ n)
        × IsHeld s'
  unfolding drng_get_with
  get_with-IsHeld seed fuel n s h one enough word =
      let over = ltb cfg.max_wo_reseed (s.drngs i).requests_since_fully_seeded in
      let s0 = if over then drng_unset_fully_seeded cfg u i s else s in
      let h0 : IsHeld s0 = choose_IsHeld over s h in
      let cut : min_u32 n (2 ^ 31 - 1) ≡ n = ground arith in
      let (out, s', e, len, h') =
        get_loop-total cfg u seed i IsHeld regular gen (λ d t p. p) (check-IsHeld seed) fuel
          (request cfg u (min_u32 n (2 ^ 31 - 1))) s0 h0 (omega (arith, cut))
          (omega (arith, cut)) in
      (out, s', ground (arith, e, cut), omega (arith, len, cut), h')

  module _ (plain : cfg.ntg1 ≡ false)
      (works : (h : D) (bytes : List ℕ) → ((u.cbs i).drng_seed h bytes).0 ≡ false)
      (ok : AllSources 0 u.src.es) (six : length u.src.es ≡ es_last) where
    -- Seeding while the pool is held ends, and holds it still.
    seed_es-IsHeld :
        (s : LrngState W D)
        → IsHeld s
        → (bits : ℕ) × (s' : LrngState W D) × (drng_seed_es cfg u i s ≡ some (bits, s')) × IsHeld s'
    unfolding drng_seed_es seed_es_nolock
    seed_es-IsHeld s h =
        let d = s.drngs i in
        let env = env_of u i in
        let (r, e, _) = seed_es_nolock-total cfg env plain works ok six true s.stack d s.mgr h.1 in
        let (lock, fit) =
          seed_loop-keeps cfg env ok 384 true d.force_reseed (seed_start cfg env s.stack d s.mgr) r
            (six ∙ sym h.1) e in
        (
          r.collected_entropy,
          record (put i r.drng s) { mgr = r.mgr; stack = r.seedbuf },
          rw e refl,
          (lock ∙ h.0, sym fit ∙ six, h.2),
        )

    seed-IsHeld :
        (fuel : ℕ) (s : LrngState W D)
        → IsHeld s
        → 32 < fuel
        → (s' : LrngState W D) × (drng_seed cfg u (drng_get cfg u 1 fuel) i s ≡ some s') × IsHeld s'
    unfolding drng_seed drng_atomic_seed_drng drng_get
    seed-IsHeld fuel s h enough =
        let (bits, s1, e, h1) = seed_es-IsHeld s h in
        let nested = drng_seed cfg u (drng_get cfg u 0 fuel) in
        let (out, s2, e2, len, h2) =
          get_with-IsHeld nested fuel 32 s1 h1 (omega arith) enough (omega arith) in
        elim (Bool-cases (drng_atomic_must_reseed cfg (now cfg u s1) (s1.drngs drng_atomic))) [
          | inl due ↦ (
            put drng_atomic
                (drng_inject (u.cbs drng_atomic) (now cfg u s2) out (s2.drngs i).fully_seeded
                  (s2.drngs drng_atomic))
                s2,
            ground (arith, e, due, e2),
            h2,
          )
          | inr fine ↦ (s1, ground (arith, e, fine), h1)
        ]

    check_free :
        (fuel : ℕ) (s : LrngState W D)
        → IsReady s
        → 32 < fuel
        → (s' : LrngState W D) × (reseed_check cfg u (drng_seed cfg u (drng_get cfg u 1 fuel)) i s
            ≡ some s')
          × IsReady s'
    unfolding reseed_check pool_trylock pool_unlock
    check_free fuel s ready enough =
        let (must, d) = drng_must_reseed cfg (now cfg u s) (s.drngs i) in
        elim (Bool-cases must) [
          | inr fine ↦ (put i d s, ground (arith, fine), ready)
          | inl due ↦ elim (Bool-cases s.mgr.reseed_in_progress) [
            | inl held ↦
                (put i (record d { force_reseed = true }) s, ground (arith, due, held), ready)
            | inr free ↦
                let m = record (s.mgr) { reseed_in_progress = true } in
                let (s', e, h) =
                  seed-IsHeld fuel (put_mgr m (put i d s)) (refl, ready.0, ready.1) enough in
                (put_mgr (pool_unlock s'.mgr) s', ground (arith, due, free, e), (h.1, h.2))
          ]
        ]

    -- A request to a regular DRNG is served to the last byte, up to INT_MAX bytes, whatever seeding it
    -- starts, from sources that keep their contract, while the DRNG takes its seeds, the generator makes
    -- progress and NTG.1 seeding is off. Two nested calls are enough, and one turn for each byte and one
    -- more.
    pub drng_get-total :
        (fuel n : ℕ) (s : LrngState W D)
        → IsReady s
        → min n (2 ^ 31 - 1) < fuel
        → 32 < fuel
        → (out : List ℕ) × (s' : LrngState W D) × (drng_get cfg u 2 fuel i n s
            ≡ some (count (min n (2 ^ 31 - 1)), out, s'))
          × (length out ≡ min n (2 ^ 31 - 1))
    unfolding drng_get drng_get_with
    drng_get-total fuel n s ready enough deep = elim (Bool-cases (n == 0)) [
      | inl y ↦ ([], s, ground (arith, y), ground (arith, y))
      | inr more_left ↦
          let over = ltb cfg.max_wo_reseed (s.drngs i).requests_since_fully_seeded in
          let s0 = if over then drng_unset_fully_seeded cfg u i s else s in
          let ready0 : IsReady s0 = choose_IsReady over s ready in
          let cut : min_u32 n (2 ^ 31 - 1) ≡ min n (2 ^ 31 - 1) = ground arith in
          let (out, s', e, len, _) =
            get_loop-total cfg u (drng_seed cfg u (drng_get cfg u 1 fuel)) i IsReady regular gen
              (λ d t p. p) (λ t p. check_free fuel t p deep) fuel
              (request cfg u (min_u32 n (2 ^ 31 - 1))) s0 ready0 (omega (arith, cut))
              (omega (arith, cut)) in
          (out, s', ground (arith, e, cut, more_left, ready), omega (arith, len, cut))
    ]
