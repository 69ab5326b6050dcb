-- ===== src/Health/Verdict.antt =====
-- The verdict of a health test on a time stamp, and an APT failure that the verdict does not show.
use lrng.Common.{ℕ, ◌+◌, ◌%◌, ◌^◌, ◌≤◌, ◌<◌, ◌≡◌, ◌↔◌, refl, Bool, true, false, some, arith}
use lrng.Common.Bits.{bit_and_mask}
use lrng.Config.{Config}
use lrng.HealthState.{HealthRes, pass, fail_drop, HealthEsState, StuckTest}
use lrng.Health.{
  es_test, apt_insert, rct_insert, apt_advance, failure, health_requested, irq_stuck_test,
}
use lrng.Health.Inversion.{es_test-eq-some, verdict}
use lrng.Health.Stuck.{Vanishing, after, irq_stuck_test_iff}
use lrng.Health.Startup.{resets}

health_requested_lem : (cfg : Config) → cfg.fips_enabled ≡ true → health_requested cfg ≡ true
unfolding health_requested
health_requested_lem cfg requested = requested

-- In FIPS mode the verdict tells a stuck time stamp from a good one.
dropped_iff :
    (P : Type 0) (stuck : Bool) (r : HealthRes)
    → r ≡ verdict true stuck
    → (stuck ≡ true) ↔ P
    → ((r ≡ fail_drop) ↔ P) × ((r ≡ pass) ↔ (¬ P))
dropped_iff P true r e v = ((λ _. v.0 refl, λ _. e), (λ q. cc, λ n. absurd (n (v.0 refl))))
dropped_iff P false r e v = ((λ q. cc, λ p. cc (v.1 p)), (λ q p. cc (v.1 p), λ _. e))

-- In FIPS mode a time stamp that follows three others on its CPU is dropped exactly when one of the
-- three derivatives of the four time stamps vanishes modulo 2 ^ 32, and passes otherwise.
pub es_test_dropped_iff :
    (cfg : Config) (s s' : HealthEsState) (st st' : StuckTest) (a b c d : ℕ) (r : HealthRes)
    → cfg.fips_enabled ≡ true
    → a < 2 ^ 32
    → b < 2 ^ 32
    → c < 2 ^ 32
    → d < 2 ^ 32
    → es_test cfg s (after st a b c) d ≡ some (r, s', st')
    → ((r ≡ fail_drop) ↔ Vanishing a b c d) × ((r ≡ pass) ↔ (¬ Vanishing a b c d))
es_test_dropped_iff cfg s s' st st' a b c d r requested ha hb hc hd e =
    let (_, _, _, _, er) = es_test-eq-some cfg s s' (after st a b c) st' d r e in
    let v = irq_stuck_test_iff st a b c d ha hb hc hd in
    dropped_iff _ _ r (rw (health_requested_lem cfg requested) at er) v

-- The state after a counted match that reaches the cutoff, at the end of its sample.
abbrev failed_match : HealthEsState → ℕ → HealthEsState
failed_match s t =
    apt_advance (failure (record s { apt = record (s.apt) { apt_count = s.apt.apt_count + 1 } })) t

apt_insert-failed_match :
    (cfg : Config) (s : HealthEsState) (now_time : ℕ)
    → cfg.fips_enabled ≡ true
    → s.apt.apt_base_set ≡ true
    → now_time % 16 ≡ s.apt.apt_base
    → cfg.apt_cutoff ≤ s.apt.apt_count + 1
    → s.apt.apt_count + 1 < cfg.apt_cutoff_permanent
    → s.apt.apt_count < 512
    → apt_insert cfg s now_time ≡ some (failed_match s (now_time % 16))
unfolding apt_insert
apt_insert-failed_match cfg s now_time requested set hit over below small =
    ground (arith, bit_and_mask 4 now_time)

resets-failed_match :
    (s : HealthEsState) (t : ℕ) → resets (failed_match s t).calls ≡ resets s.calls + 1
unfolding apt_advance failure
resets-failed_match s t = ground arith

rct_insert_good :
    (cfg : Config) (s : HealthEsState)
    → cfg.fips_enabled ≡ true
    → rct_insert cfg s false ≡ some (record s { rct = record { rct_count = 0 } })
unfolding rct_insert
rct_insert_good cfg s requested = ground arith

-- A time stamp that is not stuck can fail the APT: where the count of the window stands just below
-- the cutoff or above it, a time stamp with the low four bits of the base asks for a reset and passes.
pub apt_failure_passes :
    (cfg : Config) (s : HealthEsState) (st : StuckTest) (now_time : ℕ)
    → cfg.fips_enabled ≡ true
    → s.apt.apt_base_set ≡ true
    → now_time % 16 ≡ s.apt.apt_base
    → cfg.apt_cutoff ≤ s.apt.apt_count + 1
    → s.apt.apt_count + 1 < cfg.apt_cutoff_permanent
    → s.apt.apt_count < 512
    → (irq_stuck_test st now_time).0 ≡ false
    → (s' : HealthEsState) × (es_test cfg s st now_time
        ≡ some (pass, s', (irq_stuck_test st now_time).1))
      × (resets s'.calls ≡ resets s.calls + 1)
unfolding es_test
apt_failure_passes cfg s st now_time requested set hit over below small good = (
  record (failed_match s (now_time % 16)) { rct = record { rct_count = 0 } },
  rw
      (
        apt_insert-failed_match cfg s now_time requested set hit over below small,
        good,
        rct_insert_good cfg (failed_match s (now_time % 16)) requested,
      )
      refl,
  resets-failed_match s (now_time % 16),
)
