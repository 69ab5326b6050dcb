-- ===== src/Health/Inversion.antt =====
-- The steps behind a health test that returned: which calls it made, and what it left alone.
use lrng.Common.{ℕ, ◌≡◌, Bool, true, false, some, arith, >>=-eq-some, if◌then◌else◌}
use lrng.Config.{Config}
use lrng.HealthState.{
  InternalEs, HealthRes, pass, fail_use, fail_drop, HealthEsState, Health, StuckTest, StuckArray,
  es_state, set_es_state, stuck_of, set_stuck_of,
}
use lrng.Health.{apt_insert, rct_insert, es_test, health_test, irq_stuck_test, health_requested}

-- The verdict from the two facts that decide it.
abbrev pub verdict : Bool → Bool → HealthRes
verdict requested stuck = if stuck then (if requested then fail_drop else fail_use) else pass

pub es_test-eq-some :
    (cfg : Config) (s s' : HealthEsState) (st st' : StuckTest) (now_time : ℕ) (r : HealthRes)
    → es_test cfg s st now_time ≡ some (r, s', st')
    → (m : HealthEsState) × (apt_insert cfg s now_time ≡ some m)
      × (rct_insert cfg m (irq_stuck_test st now_time).0 ≡ some s')
      × (st' ≡ (irq_stuck_test st now_time).1)
      × (r ≡ verdict (health_requested cfg) (irq_stuck_test st now_time).0)
unfolding es_test
es_test-eq-some cfg s s' st st' now_time r e =
    let (m, em, rest) = >>=-eq-some (apt_insert cfg s now_time) _ e in
    let (b, eb, last) = >>=-eq-some (rct_insert cfg m (irq_stuck_test st now_time).0) _ rest in
    (m, em, cc, cc, cc)

pub health_test-eq-some :
    (cfg : Config) (h h' : Health) (a a' : StuckArray) (now_time : ℕ) (es : InternalEs)
    (r : HealthRes)
    → h.health_test_enabled ≡ true
    → health_test cfg h a now_time es ≡ some (r, h', a')
    → (s : HealthEsState) × (st : StuckTest) × (es_test cfg (es_state h es) (stuck_of a es) now_time
        ≡ some (r, s, st))
      × (h' ≡ set_es_state h es s)
      × (a' ≡ set_stuck_of a es st)
unfolding health_test
health_test-eq-some cfg h h' a a' now_time es r on e =
    let ((r', s, st), et, last) =
      >>=-eq-some (es_test cfg (es_state h es) (stuck_of a es) now_time) _ (rw on at e) in
    (s, st, cc, cc, cc)

-- Disabled, the test passes everything and changes nothing.
pub health_test_disabled :
    (cfg : Config) (h : Health) {h' : Health} (a : StuckArray) {a' : StuckArray} (now_time : ℕ)
    (es : InternalEs) {r : HealthRes}
    → h.health_test_enabled ≡ false
    → health_test cfg h a now_time es ≡ some (r, h', a')
    → h ≡ h'
unfolding health_test
health_test_disabled cfg h a now_time es off e = ground arith
