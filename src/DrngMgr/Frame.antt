-- ===== src/DrngMgr/Frame.antt =====
-- What a request to an instance, and its seeding, leave alone: every instance but this one and the atomic
-- one, which it may seed.
use lrng.Common.{
  ℕ, zero, suc, ◌≡◌, ◌≢◌, Bool, true, false, not, ltb, ◌==◌, if◌then◌else◌, if_intro, List, Option,
  none, some, min_u32, ◌>>=◌, ◌^◌, ◌-◌, arith,
}
use lrng.Config.{Config}
use lrng.Definitions.{drng_max_reqsize, drng_security_strength_bytes}
use lrng.ManagerState.{pool_trylock}
use lrng.DrngState.{Drng, drng_must_reseed, drng_atomic_must_reseed, drng_inject}
use lrng.Drng.{SeedRun, seed_es_nolock}
use lrng.DrngMgr.{
  LrngState, Setup, Ret, count, errno, env_of, put, put_mgr, now, drng_pr, drng_atomic,
  drng_unset_fully_seeded, drng_seed_es,
}
use lrng.DrngMgr.Generate.{
  Request, Turn, return, more, Plan, stop, retry, todo, Got, reseed_check, pr_plan, generate,
  get_turn, resume, get_loop, request, drng_get_with, drng_atomic_seed_drng, drng_seed, drng_get,
}

-- A predicate on what is returned, if anything is.
abbrev pub OnSome : {A : Type 0} → (A → Type 0) → Option A → Type 0
OnSome P none = Unit
OnSome P (some a) = P a

pub bind-OnSome :
    {A B : Type 0} (P : A → Type 0) (R : B → Type 0) (x : Option A) (f : A → Option B)
    → OnSome P x
    → ((a : A) → P a → OnSome R (f a))
    → OnSome R (x >>= f)
bind-OnSome P R none f p k = tt
bind-OnSome P R (some a) f p k = k a p

bind-all :
    {A B : Type 0} (R : B → Type 0) (x : Option A) (f : A → Option B)
    → ((a : A) → OnSome R (f a))
    → OnSome R (x >>= f)
bind-all R none f k = tt
bind-all R (some a) f k = k a

module _ {W D : Type 0} (k : ℕ) (d0 : Drng D) where
  -- Instance `k` is as it was.
  abbrev pub IsKept : LrngState W D → Type 0
  IsKept s = s.drngs k ≡ d0

  abbrev TurnKept : Turn W D → Type 0
  TurnKept (return ret r s) = IsKept s
  TurnKept (more r s) = IsKept s

  abbrev PlanKept : Plan W D → Type 0
  PlanKept (stop s) = IsKept s
  PlanKept (retry s) = IsKept s
  PlanKept (todo n s) = IsKept s

  abbrev pub GotKept : Got W D → Type 0
  GotKept = OnSome (λ (g : Ret × List ℕ × LrngState W D). IsKept g.2)

  resume-GotKept :
      (cfg : Config) (u : Setup W D) (loop : Request → LrngState W D → Got W D)
      (x : Option (Turn W D))
      → ((r : Request) (s : LrngState W D) → IsKept s → GotKept (loop r s))
      → OnSome TurnKept x
      → GotKept (resume cfg u loop x)
  resume-GotKept cfg u loop none keeps p = tt
  resume-GotKept cfg u loop (some (return ret r s)) keeps p = p
  resume-GotKept cfg u loop (some (more r s)) keeps p = keeps r s p

module _ {W D : Type 0} (cfg : Config) (u : Setup W D) (i k : ℕ) (d0 : Drng D) (other : k ≢ i) where
  pub put-IsKept : (d : Drng D) (s : LrngState W D) → IsKept k d0 s → IsKept k d0 (put i d s)
  put-IsKept d s h = ground (arith, other)

  unset-IsKept :
      (s : LrngState W D) → IsKept k d0 s → IsKept k d0 (drng_unset_fully_seeded cfg u i s)
  unfolding drng_unset_fully_seeded
  unset-IsKept s h = ground (arith, other)

  seed_es-IsKept :
      (s : LrngState W D)
      → IsKept k d0 s
      → OnSome (λ (r : ℕ × LrngState W D). IsKept k d0 r.1) (drng_seed_es cfg u i s)
  unfolding drng_seed_es
  seed_es-IsKept s h =
      let run = seed_es_nolock cfg (env_of u i) 384 true s.stack (s.drngs i) s.mgr in
      let after : SeedRun W D → Option (ℕ × LrngState W D) = λ r.
        some (r.collected_entropy, record (put i r.drng s) { mgr = r.mgr; stack = r.seedbuf }) in
      bind-all (λ (r : ℕ × LrngState W D). IsKept k d0 r.1) run after (λ r. put-IsKept r.drng s h)

  generate-TurnKept :
      (pr : Bool) (want : ℕ) (r : Request) (s : LrngState W D)
      → IsKept k d0 s
      → TurnKept k d0 (generate cfg u i pr want r s)
  unfolding generate
  generate-TurnKept pr want r s h =
      let d = s.drngs i in
      let (ret, bytes, handle) = (u.cbs i).drng_generate d.drng want in
      let s' = put i (record d { drng = handle }) s in
      let kept = put-IsKept (record d { drng = handle }) s h in
      if_intro (TurnKept k d0) (ret == 0) kept
        (if_intro (IsKept k d0) pr (unset-IsKept s' kept) kept)

  pr_plan-PlanKept :
      (want : ℕ) (s : LrngState W D)
      → IsKept k d0 s
      → OnSome (PlanKept k d0) (pr_plan cfg u i want s)
  unfolding pr_plan
  pr_plan-PlanKept want s h =
      let (locked, m) = pool_trylock s.mgr in
      if_intro (OnSome (PlanKept k d0)) (s.drngs i).fully_seeded h (
        if_intro (OnSome (PlanKept k d0)) (not locked) h (
          bind-OnSome (λ (r : ℕ × LrngState W D). IsKept k d0 r.1) (PlanKept k d0) _ _
            (seed_es-IsKept (put_mgr m s) h)
            (λ r kept. if_intro (PlanKept k d0) (r.0 == 0) kept kept)))

  module _ (seed : ℕ → LrngState W D → Option (LrngState W D))
      (seed_keeps : (s : LrngState W D) → IsKept k d0 s → OnSome (IsKept k d0) (seed i s)) where
    reseed_check-IsKept :
        (s : LrngState W D) → IsKept k d0 s → OnSome (IsKept k d0) (reseed_check cfg u seed i s)
    unfolding reseed_check
    reseed_check-IsKept s h =
        let (must, d) = drng_must_reseed cfg (now cfg u s) (s.drngs i) in
        let (locked, m) = pool_trylock s.mgr in
        let asked = put-IsKept d s h in
        if_intro (OnSome (IsKept k d0)) (not must) asked (
          if_intro (OnSome (IsKept k d0)) (not locked)
            (put-IsKept (record d { force_reseed = true }) s h)
            (bind-OnSome (IsKept k d0) (IsKept k d0) _ _ (seed_keeps (put_mgr m (put i d s)) asked)
              (λ s' kept. kept)))

    get_turn-TurnKept :
        (r : Request) (s : LrngState W D)
        → IsKept k d0 s
        → OnSome (TurnKept k d0) (get_turn cfg u seed i r s)
    unfolding get_turn
    get_turn-TurnKept r s h =
        let want = min_u32 r.outbuflen drng_max_reqsize in
        if_intro (OnSome (TurnKept k d0)) (i == drng_pr)
          (bind-OnSome (PlanKept k d0) (TurnKept k d0) _ _ (pr_plan-PlanKept want s h) (planned r))
          (bind-OnSome (IsKept k d0) (TurnKept k d0) _ _ (reseed_check-IsKept s h)
            (λ s' kept. generate-TurnKept false want r s' kept))
      where
        planned :
            (r : Request) (p : Plan W D)
            → PlanKept k d0 p
            → TurnKept k d0 (elim p [
              | stop s' ↦ return (count r.processed) r s'
              | retry s' ↦ more r s'
              | todo n s' ↦ generate cfg u i true n r s'
            ])
        planned r (stop s') kept = kept
        planned r (retry s') kept = kept
        planned r (todo n s') kept = generate-TurnKept true n r s' kept

    get_loop-GotKept :
        (fuel : ℕ) (r : Request) (s : LrngState W D)
        → IsKept k d0 s
        → GotKept k d0 (get_loop cfg u seed fuel i r s)
    get_loop-GotKept zero r s h = tt
    get_loop-GotKept (suc fuel) r s h =
        if_intro (GotKept k d0) (r.outbuflen == 0) h
          (resume-GotKept k d0 cfg u _ _ (get_loop-GotKept fuel) (get_turn-TurnKept r s h))

    drng_get_with-GotKept :
        (fuel outbuflen : ℕ) (s : LrngState W D)
        → IsKept k d0 s
        → GotKept k d0 (drng_get_with cfg u seed fuel i outbuflen s)
    unfolding drng_get_with
    drng_get_with-GotKept fuel outbuflen s h =
        let over = ltb cfg.max_wo_reseed (s.drngs i).requests_since_fully_seeded in
        let s0 = if over then drng_unset_fully_seeded cfg u i s else s in
        let kept : IsKept k d0 s0 = if_intro (IsKept k d0) over (unset-IsKept s h) h in
        if_intro (GotKept k d0) (outbuflen == 0) h (
          if_intro (GotKept k d0) (not s.avail) h
            (get_loop-GotKept fuel (request cfg u (min_u32 outbuflen (2 ^ 31 - 1))) s0 kept))

  module _ (regular : k ≢ drng_atomic) where
    atomic_seed-IsKept :
        (get : ℕ → ℕ → LrngState W D → Got W D)
        → ((len : ℕ) (s : LrngState W D) → IsKept k d0 s → GotKept k d0 (get i len s))
        → (s : LrngState W D) → IsKept k d0 s
        → OnSome (IsKept k d0) (drng_atomic_seed_drng cfg u get i s)
    unfolding drng_atomic_seed_drng
    atomic_seed-IsKept get keeps s h =
        if_intro (OnSome (IsKept k d0))
          (drng_atomic_must_reseed cfg (now cfg u s) (s.drngs drng_atomic))
          (bind-OnSome (λ (g : Ret × List ℕ × LrngState W D). IsKept k d0 g.2) (IsKept k d0) _ _
            (keeps drng_security_strength_bytes s h) written)
          h
      where
        written :
            (g : Ret × List ℕ × LrngState W D)
            → IsKept k d0 g.2
            → IsKept k d0 (elim g.0 [
              | errno e ↦ g.2
              | count n ↦
                  put drng_atomic
                    (drng_inject
                      (u.cbs drng_atomic)
                      (now cfg u g.2)
                      g.1
                      (g.2.drngs i).fully_seeded
                      (g.2.drngs drng_atomic))
                    g.2
            ])
        written (errno e, bytes, s') kept = kept
        written (count n, bytes, s') kept = ground (arith, regular)

    pub drng_seed-IsKept :
        (get : ℕ → ℕ → LrngState W D → Got W D)
        → ((len : ℕ) (s : LrngState W D) → IsKept k d0 s → GotKept k d0 (get i len s))
        → (s : LrngState W D) → IsKept k d0 s
        → OnSome (IsKept k d0) (drng_seed cfg u get i s)
    unfolding drng_seed
    drng_seed-IsKept get keeps s h =
        bind-OnSome (λ (r : ℕ × LrngState W D). IsKept k d0 r.1) (IsKept k d0) _ _
          (seed_es-IsKept s h) (λ r kept. atomic_seed-IsKept get keeps r.1 kept)

    -- A request to an instance changes no other instance than the atomic one.
    pub drng_get-GotKept :
        (depth fuel len : ℕ) (s : LrngState W D)
        → IsKept k d0 s
        → GotKept k d0 (drng_get cfg u depth fuel i len s)
    unfolding drng_get
    drng_get-GotKept zero fuel len s h = tt
    drng_get-GotKept (suc depth) fuel len s h =
        drng_get_with-GotKept (drng_seed cfg u (drng_get cfg u depth fuel))
          (drng_seed-IsKept (drng_get cfg u depth fuel) (drng_get-GotKept depth fuel)) fuel len s h
