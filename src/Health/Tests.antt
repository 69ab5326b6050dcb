-- ===== src/Health/Tests.antt =====
-- Runs of the health tests at concrete inputs, and the theorems about them applied there.
use lrng.Common.{
  ℕ, u32, zero, suc, ◌*◌, ◌+◌, ◌≤◌, ◌≡◌, ◌↔◌, refl, true, false, some, List, [], ◌∷◌, arith, length,
}
use lrng.Samples.{fips}
use lrng.HealthState.{
  irq, fail_drop, HealthEsState, Health, StuckTest, StuckArray, es_init, reset, force_reseed,
}
use lrng.Health.{es_test, health_test, irq_stuck_test}
use lrng.Health.Stuck.{Vanishing, after, irq_stuck_test_iff}
use lrng.Health.Invariant.{IsSane, IsValid, HealthIsValid, es_init-IsValid, health_test-IsValid}
use lrng.Health.Startup.{es_run, startup-done_iff, startup_samples}

fips-IsSane : IsSane fips
fips-IsSane = omega arith

abbrev cold : StuckTest
cold = record { last_time = 0; last_delta = 0; last_delta2 = 0 }

abbrev cold_cpu : StuckArray
cold_cpu = record { irq_stuck = cold; sched_stuck = cold }

-- One stuck value short of the RCT cutoff, with the startup test complete.
abbrev worn : HealthEsState
worn = record {
  rct = record { rct_count = 30 };
  apt = record { apt_count = 324; apt_base = 5; apt_trigger = 100; apt_base_set = true };
  startup_done = true;
  startup_blocks = 0;
  calls = [];
}

abbrev worn_health : Health
worn_health = record { health_test_enabled = true; irq_state = worn; sched_state = es_init }

worn-IsValid : IsValid fips worn
worn-IsValid = ground arith

worn_health-IsValid : HealthIsValid fips worn_health
worn_health-IsValid = (worn-IsValid, es_init-IsValid fips fips-IsSane)

-- The 31st stuck value in a row fails the RCT.
abbrev failed : HealthEsState
failed = record {
  rct = record { rct_count = 31 };
  apt = record { apt_count = 324; apt_base = 5; apt_trigger = 99; apt_base_set = true };
  startup_done = false;
  startup_blocks = 2;
  calls = reset ∷ [];
}

worn_fails : es_test fips worn cold 0 ≡ some (fail_drop, failed, cold)
unfolding es_test
worn_fails = refl

health_test_fails :
    health_test fips worn_health cold_cpu 0 irq
    ≡ some (fail_drop, record worn_health { irq_state = failed }, cold_cpu)
unfolding health_test
health_test_fails = refl

irq_stuck_test_iff_example :
    ((irq_stuck_test (after cold 10 20 40) 70).0 ≡ true) ↔ Vanishing 10 20 40 70
irq_stuck_test_iff_example =
    irq_stuck_test_iff cold 10 20 40 70 (omega arith) (omega arith) (omega arith) (omega arith)

health_test-IsValid_example : HealthIsValid fips (record worn_health { irq_state = failed })
health_test-IsValid_example =
    health_test-IsValid fips fips-IsSane worn_health (record worn_health { irq_state = failed })
      cold_cpu cold_cpu 0 irq fail_drop worn_health-IsValid health_test_fails

abbrev two_stamps : List ℕ
two_stamps = 7 ∷ 14 ∷ []

-- Two time stamps do not complete the startup test.
abbrev two_seen : HealthEsState
two_seen = record {
  rct = record { rct_count = 1 };
  apt = record { apt_count = 0; apt_base = 7; apt_trigger = 511; apt_base_set = true };
  startup_done = false;
  startup_blocks = 2;
  calls = [];
}

two_run :
    es_run fips es_init cold two_stamps
    ≡ some (two_seen, record { last_time = 14; last_delta = 7; last_delta2 = 0 })
unfolding es_run es_test
two_run = refl

startup-done_iff_example : (false ≡ true) ↔ (1025 ≤ 2)
startup-done_iff_example =
    startup-done_iff fips fips-IsSane refl es_init two_seen cold
      (record { last_time = 14; last_delta = 7; last_delta2 = 0 }) two_stamps
      (es_init-IsValid fips fips-IsSane) two_run refl

-- Time stamps that are not stuck, the last with the low four bits of the base.
abbrev warm : StuckTest
warm = record { last_time = 2; last_delta = 3; last_delta2 = 5 }

-- Fourth powers: none of their first three derivatives vanishes.
abbrev stamps : ℕ → ℕ → List ℕ
stamps zero n = []
stamps (suc k) n = u32 (n * n * n * n) ∷ stamps k (n + 1)

abbrev all_stamps : List ℕ
all_stamps = stamps 1025 1

abbrev settled : StuckTest
settled = record { last_time = 6295553; last_delta = 6295553; last_delta2 = 12582914 }

abbrev tested : HealthEsState
tested = record {
  rct = record { rct_count = 0 };
  apt = record { apt_count = 0; apt_base = 1; apt_trigger = 512; apt_base_set = true };
  startup_done = true;
  startup_blocks = 0;
  calls = force_reseed ∷ [];
}

full_run : es_run fips es_init cold all_stamps ≡ some (tested, settled)
unfolding es_run es_test
full_run = refl

startup_samples_example : 1025 ≤ length all_stamps
startup_samples_example =
    startup_samples fips fips-IsSane refl tested cold settled all_stamps full_run refl
