-- ===== src/Health/Startup.antt =====
-- The SP800-90B startup test as a progress measure: how many time stamps are missing until it
-- completes, with and without failures on the way.
use lrng.Common.{
  ℕ, suc, ◌+◌, ◌-◌, ◌*◌, ◌≤◌, ◌≡◌, ◌↔◌, Bool, true, Option, some, List, [], ◌∷◌, arith, bit_and,
  length, if◌then◌else◌, ◌>>=◌, >>=-eq-some,
}
use lrng.Config.{Config}
use lrng.HealthState.{
  Call, reset, force_reseed, HealthEsState, StuckTest, HealthRes, es_init, apt_word_mask,
}
use lrng.Health.{apt_insert, apt_match, apt_advance, rct_insert, es_test}
use lrng.Health.Inversion.{es_test-eq-some}
use lrng.Health.Invariant.{
  IsSane, IsCounting, IsValid, es_test-IsValid, es_init-IsValid, apt_insert-IsValid,
  apt_match-IsCounting,
}

-- The samples that the startup test still wants: whole windows, the rest of the current one, and
-- the first sample, which only sets the base of the APT.
abbrev pub missing : HealthEsState → ℕ
missing s =
    if s.startup_done
    then 0
    else (s.startup_blocks - 1) * 512 + s.apt.apt_trigger + (if s.apt.apt_base_set then 0 else 1)

-- How often the tests of a source failed, by the resets that they asked for.
abbrev pub resets : List Call → ℕ
resets [] = 0
resets (reset ∷ l) = suc (resets l)
resets (force_reseed ∷ l) = resets l

-- One source tests a sequence of time stamps on one CPU.
unfoldable pub es_run :
    Config → HealthEsState → StuckTest → List ℕ → Option (HealthEsState × StuckTest)
es_run cfg s st [] = some (s, st)
es_run cfg s st (t ∷ ts) = es_test cfg s st t >>= λ r. es_run cfg r.1 r.2 ts

-- What a step does to the measure: it falls by at most one, and by exactly one if no test failed.
abbrev Progress : ℕ → HealthEsState → HealthEsState → Type 0
Progress k s s' =
    (resets s.calls ≤ resets s'.calls)
    × (missing s ≤ missing s' + k)
    × (resets s'.calls ≡ resets s.calls → missing s' ≡ missing s - k)

Progress-trans :
    (j k n : ℕ) (s m u : HealthEsState)
    → n ≡ j + k
    → Progress j s m
    → Progress k m u
    → Progress n s u
Progress-trans j k n s m u e p q =
    (omega arith, omega arith, λ same. omega (arith, p.2 (omega arith), q.2 (omega arith)))

module _ (cfg : Config) (sane : IsSane cfg) where
  apt_match-Progress :
      (s s' : HealthEsState) (t : ℕ) → IsValid cfg s → apt_match cfg s t ≡ some s' → Progress 0 s s'
  unfolding apt_match
  apt_match-Progress s s' t v e = ground arith

  rct_insert-Progress :
      (s s' : HealthEsState) (stuck : Bool)
      → IsValid cfg s
      → rct_insert cfg s stuck ≡ some s'
      → Progress 0 s s'
  unfolding rct_insert
  rct_insert-Progress s s' stuck v e = ground arith

  apt_match-base_set :
      (s s' : HealthEsState) (t : ℕ)
      → apt_match cfg s t ≡ some s'
      → s'.apt.apt_base_set ≡ s.apt.apt_base_set
  unfolding apt_match
  apt_match-base_set s s' t e = ground arith

  apt_advance-Progress :
      (s : HealthEsState) (t : ℕ)
      → s.apt.apt_base_set ≡ true
      → IsCounting cfg 1 s
      → Progress 1 s (apt_advance s t)
  unfolding apt_advance
  apt_advance-Progress s t b v = ground arith

  module _ (requested : cfg.fips_enabled ≡ true) where
    apt_insert-Progress :
        (s s' : HealthEsState) (now_time : ℕ)
        → IsValid cfg s
        → apt_insert cfg s now_time ≡ some s'
        → Progress 1 s s'
    unfolding apt_insert
    apt_insert-Progress s s' now_time v e =
        let t = bit_and now_time apt_word_mask in
        ground (
          arith,
          λ (m : HealthEsState) (q : apt_match cfg s t ≡ some m). apt_match-Progress s m t v q,
          λ (m : HealthEsState) (q : apt_match cfg s t ≡ some m). apt_match-base_set s m t q,
          λ (m : HealthEsState) (q : apt_match cfg s t ≡ some m) (b : m.apt.apt_base_set ≡ true).
              apt_advance-Progress m t b (apt_match-IsCounting cfg sane s m t v q),
        )

    es_test-Progress :
        (s s' : HealthEsState) (st st' : StuckTest) (now_time : ℕ) (r : HealthRes)
        → IsValid cfg s
        → es_test cfg s st now_time ≡ some (r, s', st')
        → Progress 1 s s'
    es_test-Progress s s' st st' now_time r v e =
        let (m, em, en, _, _) = es_test-eq-some cfg s s' st st' now_time r e in
        Progress-trans 1 0 1 s m s' (omega arith) (apt_insert-Progress s m now_time v em)
          (rct_insert-Progress m s' _ (apt_insert-IsValid cfg sane s m now_time v em) en)

    es_run-Progress :
        (s s' : HealthEsState) (st st' : StuckTest) (ts : List ℕ)
        → IsValid cfg s
        → es_run cfg s st ts ≡ some (s', st')
        → Progress (length ts) s s' × IsValid cfg s'
    unfolding es_run
    es_run-Progress s s' st st' [] v e =
        let same : s ≡ s' = cc in rw (← same) ((omega arith, omega arith, λ _. omega arith), v)
    es_run-Progress s s' st st' (t ∷ ts) v e =
        let ((r, m, n), em, rest) = >>=-eq-some (es_test cfg s st t) _ e in
        let w = es_test-IsValid cfg sane s m st n t r v em in
        let (p, u) = es_run-Progress m s' n st' ts w rest in
        (
          Progress-trans 1 (length ts) (suc (length ts)) s m s' (omega arith)
              (es_test-Progress s m st n t r v em) p,
          u,
        )

    -- In FIPS mode, from a valid state of a source and where no test fails on the way, the startup test
    -- of the source is complete exactly when all the samples that it wants have been seen.
    pub startup-done_iff :
        (s s' : HealthEsState) (st st' : StuckTest) (ts : List ℕ)
        → IsValid cfg s
        → es_run cfg s st ts ≡ some (s', st')
        → resets s'.calls ≡ resets s.calls
        → (s'.startup_done ≡ true) ↔ (missing s ≤ length ts)
    startup-done_iff s s' st st' ts v e same =
        let (p, u) = es_run-Progress s s' st st' ts v e in
        let left : missing s' ≡ missing s - length ts = p.2 same in (ground arith, ground arith)

    -- From the initial state, with any failures on the way, the startup test is not complete before
    -- 1025 time stamps: the first sets the base of the APT, and two windows of 512 follow.
    pub startup_samples :
        (s : HealthEsState) (st st' : StuckTest) (ts : List ℕ)
        → es_run cfg es_init st ts ≡ some (s, st')
        → s.startup_done ≡ true
        → 1025 ≤ length ts
    startup_samples s st st' ts e done =
        let (p, _) = es_run-Progress es_init s st st' ts (es_init-IsValid cfg sane) e in
        ground arith
