-- ===== src/Health/Failure.antt =====
-- What a failure of the APT or the RCT does, and when the tests return at all.
use lrng.Common.{
  ℕ, ◌<◌, ◌≡◌, ◌≢◌, refl, Bool, true, false, none, some, arith, add32, Option-cases, inl, inr,
  dec_lt,
}
use lrng.Config.{Config}
use lrng.HealthState.{
  InternalEs, irq, sched, HealthRes, HealthEsState, Health, StuckTest, StuckArray, es_state,
  set_es_state, stuck_of,
}
use lrng.Health.{
  apt_insert, rct_insert, es_test, health_test, startup_complete_es, irq_stuck_test,
  health_requested,
}
use lrng.Health.Startup.{resets}
use lrng.Health.Inversion.{es_test-eq-some, health_test-eq-some, verdict}
use lrng.Health.Invariant.{IsSane, IsValid, HealthIsValid, es_state-IsValid, apt_insert-IsValid}

abbrev pub other : InternalEs → InternalEs
other irq = sched
other sched = irq

es_state-set :
    (h : Health) (es : InternalEs) (s : HealthEsState) → es_state (set_es_state h es s) es ≡ s
es_state-set h irq s = refl
es_state-set h sched s = refl

set-enabled :
    (h h' : Health) (es : InternalEs) (s : HealthEsState)
    → h' ≡ set_es_state h es s
    → h.health_test_enabled ≡ true
    → h'.health_test_enabled ≡ true
set-enabled h h' irq s e on = rw e on
set-enabled h h' sched s e on = rw e on

-- A failed test leaves the startup test open.
abbrev Gated : HealthEsState → HealthEsState → Type 0
Gated s s' = resets s.calls < resets s'.calls → s'.startup_done ≡ false

module _ (cfg : Config) (sane : IsSane cfg) where
  apt_insert-Gated :
      (s s' : HealthEsState) (t : ℕ) → IsValid cfg s → apt_insert cfg s t ≡ some s' → Gated s s'
  unfolding apt_insert
  apt_insert-Gated s s' t v e = ground arith

  rct_insert-Gated :
      (s s' : HealthEsState) (stuck : Bool)
      → IsValid cfg s
      → rct_insert cfg s stuck ≡ some s'
      → Gated s s' × (s.startup_done ≡ false → s'.startup_done ≡ false)
  unfolding rct_insert
  rct_insert-Gated s s' stuck v e = ground arith

  es_test-Gated :
      (s s' : HealthEsState) (st st' : StuckTest) (now_time : ℕ) (r : HealthRes)
      → IsValid cfg s
      → es_test cfg s st now_time ≡ some (r, s', st')
      → Gated s s'
  es_test-Gated s s' st st' now_time r v e failed =
      let (m, em, en, _, _) = es_test-eq-some cfg s s' st st' now_time r e in
      let g = apt_insert-Gated s m now_time v em in
      let k = rct_insert-Gated m s' _ (apt_insert-IsValid cfg sane s m now_time v em) en in
      elim (dec_lt (resets s.calls) (resets m.calls)) [
        | yes early ↦ k.1 (g early)
        | no late ↦ k.0 (omega arith)
      ]

  -- A health test that fails (it asked for a reset) leaves the startup test of its source open, so
  -- that the source no longer counts as tested. FIPS mode and the health tests are on, and the state
  -- is valid before the test.
  pub failure_closes_gate :
      (h h' : Health) (a a' : StuckArray) (now_time : ℕ) (es : InternalEs) (r : HealthRes)
      → cfg.fips_enabled ≡ true
      → h.health_test_enabled ≡ true
      → HealthIsValid cfg h
      → health_test cfg h a now_time es ≡ some (r, h', a')
      → resets (es_state h es).calls < resets (es_state h' es).calls
      → startup_complete_es cfg h' es ≡ false
  unfolding startup_complete_es
  failure_closes_gate h h' a a' now_time es r requested on v e failed =
      let (s, st, et, eh, _) = health_test-eq-some cfg h h' a a' now_time es r on e in
      let back : es_state h' es ≡ s = rw eh (es_state-set h es s) in
      let gated =
        es_test-Gated (es_state h es) s (stuck_of a es) st now_time r (es_state-IsValid cfg h es v)
          et in
      rw (requested, set-enabled h h' es s eh on, back) (gated (rw back at failed))

-- A test of one source leaves the other source alone: its health state, and the state of its stuck
-- test on this CPU.
pub health_test-other :
    (cfg : Config) (h h' : Health) (a a' : StuckArray) (now_time : ℕ) (es : InternalEs)
    (r : HealthRes)
    → health_test cfg h a now_time es ≡ some (r, h', a')
    → (es_state h' (other es) ≡ es_state h (other es))
      × (stuck_of a' (other es) ≡ stuck_of a (other es))
unfolding health_test
health_test-other cfg h h' a a' now_time irq r e = ground arith
health_test-other cfg h h' a a' now_time sched r e = ground arith

apt_insert-ne-none :
    (cfg : Config) (s : HealthEsState) (now_time : ℕ)
    → (cfg.panic_on_permanent_health_failure ≡ true
        → add32 s.apt.apt_count 1 < cfg.apt_cutoff_permanent)
    → apt_insert cfg s now_time ≢ none
unfolding apt_insert
apt_insert-ne-none cfg s now_time quiet = ground arith

rct_insert-ne-none :
    (cfg : Config) (s : HealthEsState) (stuck : Bool)
    → (cfg.panic_on_permanent_health_failure ≡ true
        → add32 s.rct.rct_count 1 < cfg.rct_cutoff_permanent)
    → rct_insert cfg s stuck ≢ none
unfolding rct_insert
rct_insert-ne-none cfg s stuck quiet = ground arith

rct_apt_insert :
    (cfg : Config) (s s' : HealthEsState) (now_time : ℕ)
    → cfg.panic_on_permanent_health_failure ≡ true
    → apt_insert cfg s now_time ≡ some s'
    → s'.rct ≡ s.rct
unfolding apt_insert
rct_apt_insert cfg s s' now_time loud e = ground arith

-- A health test returns, unless the kernel is to panic on a permanent failure and one of the two
-- counters is about to reach its permanent cutoff.
pub es_test_total :
    (cfg : Config) (s : HealthEsState) (st : StuckTest) (now_time : ℕ)
    → (cfg.panic_on_permanent_health_failure ≡ true
        → (add32 s.apt.apt_count 1 < cfg.apt_cutoff_permanent)
          × (add32 s.rct.rct_count 1 < cfg.rct_cutoff_permanent))
    → (r : HealthRes × HealthEsState × StuckTest) × (es_test cfg s st now_time ≡ some r)
unfolding es_test
es_test_total cfg s st now_time quiet = elim (Option-cases (apt_insert cfg s now_time)) [
  | inl e ↦ absurd (apt_insert-ne-none cfg s now_time (λ l. (quiet l).0) e)
  | inr (m, em) ↦
      let stuck = (irq_stuck_test st now_time).0 in
      elim (Option-cases (rct_insert cfg m stuck)) [
        | inl e ↦ absurd (
            rct_insert-ne-none cfg m stuck
              (λ l. rw (rct_apt_insert cfg s m now_time l em) ((quiet l).1)) e)
        | inr (n, en) ↦
            ((verdict (health_requested cfg) stuck, n, (irq_stuck_test st now_time).1), rw (em, en))
      ]
]
