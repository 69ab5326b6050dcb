-- ===== src/DrngMgr/PrDrng.antt =====
-- The prediction resistance DRNG: how much it gives for the entropy it received, and when it waits.
use lrng.Common.{
  ℕ, zero, suc, ◌-◌, ◌^◌, ◌≤◌, ◌≡◌, ◌≢◌, refl, true, false, ◌==◌, Option, none, some, min_u32,
  arith,
}
use lrng.Config.{Config}
use lrng.ManagerState.{pool_trylock}
use lrng.DrngState.{drng_atomic_must_reseed}
use lrng.DrngMgr.{LrngState, Setup, drng_pr, drng_seed_es, drng_atomic, now}
use lrng.DrngMgr.Generate.{
  Request, more, pr_plan, get_turn, get_loop, drng_get_with, drng_get, drng_atomic_seed_drng,
  drng_seed, request,
}

module _ {W D : Type 0} (cfg : Config) (u : Setup W D) where
  -- A turn of the prediction resistance DRNG that finds it unseeded and the pool locked goes on with
  -- nothing changed.
  pr_turn_locked :
      (seed : ℕ → LrngState W D → Option (LrngState W D)) (r : Request) (s : LrngState W D)
      → (s.drngs drng_pr).fully_seeded ≡ false
      → s.mgr.reseed_in_progress ≡ true
      → get_turn cfg u seed drng_pr r s ≡ some (more r s)
  unfolding get_turn pr_plan pool_trylock
  pr_turn_locked seed r s off held = rw (off, held) refl

  -- While a seeding holds the pool, a request to the prediction resistance DRNG that is not fully seeded
  -- never ends: no number of turns is enough.
  pub get_loop_locked :
      (seed : ℕ → LrngState W D → Option (LrngState W D)) (fuel : ℕ) (r : Request)
      (s : LrngState W D)
      → (s.drngs drng_pr).fully_seeded ≡ false
      → s.mgr.reseed_in_progress ≡ true
      → r.outbuflen ≢ 0
      → get_loop cfg u seed fuel drng_pr r s ≡ none
  get_loop_locked seed zero r s off held some_left = refl
  get_loop_locked seed (suc fuel) r s off held some_left =
      let e : (r.outbuflen == 0) ≡ false = ground arith in
      rw (get_loop, e, pr_turn_locked seed r s off held)
        (get_loop_locked seed fuel r s off held some_left)

  get_with_locked :
      (seed : ℕ → LrngState W D → Option (LrngState W D)) (fuel n : ℕ) (s : LrngState W D)
      → s.avail ≡ true
      → (s.drngs drng_pr).requests_since_fully_seeded ≤ cfg.max_wo_reseed
      → (s.drngs drng_pr).fully_seeded ≡ false
      → s.mgr.reseed_in_progress ≡ true
      → n ≢ 0
      → drng_get_with cfg u seed fuel drng_pr n s ≡ none
  unfolding drng_get_with
  get_with_locked seed fuel n s on few off held some_left =
      let first = request cfg u (min_u32 n (2 ^ 31 - 1)) in
      ground (arith, get_loop_locked seed fuel first s off held (ground arith))

  get_locked :
      (depth fuel n : ℕ) (s : LrngState W D)
      → s.avail ≡ true
      → (s.drngs drng_pr).requests_since_fully_seeded ≤ cfg.max_wo_reseed
      → (s.drngs drng_pr).fully_seeded ≡ false
      → s.mgr.reseed_in_progress ≡ true
      → n ≢ 0
      → drng_get cfg u depth fuel drng_pr n s ≡ none
  unfolding drng_get
  get_locked zero fuel n s on few off held some_left = refl
  get_locked (suc depth) fuel n s on few off held some_left =
      get_with_locked (drng_seed cfg u (drng_get cfg u depth fuel)) fuel n s on few off held
        some_left

  -- The work of a seeding, which holds the pool, never ends if it seeds the prediction resistance DRNG,
  -- the entropy does not make that DRNG fully seeded, and the atomic DRNG is due for a reseed: its seed
  -- is then asked of a DRNG that waits for the pool. No depth of calls and no number of turns is enough.
  pub drng_seed_hangs :
      (depth fuel bits : ℕ) (s s' : LrngState W D)
      → drng_seed_es cfg u drng_pr s ≡ some (bits, s')
      → s'.avail ≡ true
      → (s'.drngs drng_pr).requests_since_fully_seeded ≤ cfg.max_wo_reseed
      → (s'.drngs drng_pr).fully_seeded ≡ false
      → s'.mgr.reseed_in_progress ≡ true
      → drng_atomic_must_reseed cfg (now cfg u s') (s'.drngs drng_atomic) ≡ true
      → drng_seed cfg u (drng_get cfg u depth fuel) drng_pr s ≡ none
  unfolding drng_seed drng_atomic_seed_drng
  drng_seed_hangs depth fuel bits s s' e on few off held due =
      rw (e, due, get_locked depth fuel 32 s' on few off held (omega arith)) refl
