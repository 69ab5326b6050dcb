-- ===== src/HealthState.antt =====
-- The types of lrng_health.c: the state of the health tests of the internal entropy sources, as it is
-- after initialisation, and how one source's part of it is reached.
use lrng.Common.{ℕ, ◌-◌, ◌^◌, Bool, true, false, List, []}

-- `enum lrng_internal_es`, with both sources configured
pub data InternalEs : Type 0 where
  irq sched : InternalEs

-- `enum lrng_health_res`
pub data HealthRes : Type 0 where
  pass fail_use fail_drop : HealthRes

-- The calls that leave the component: `lrng_reset` schedules the reset of the LRNG, and
-- `lrng_drng_force_reseed` marks the DRNGs.
pub data Call : Type 0 where
  reset force_reseed : Call

-- `struct lrng_stuck_test`
pub record StuckTest : Type 0 where
  pub last_time : ℕ
  pub last_delta : ℕ
  pub last_delta2 : ℕ

-- `struct lrng_rct` and `struct lrng_apt`
pub record Rct : Type 0 where
  pub rct_count : ℕ

pub record Apt : Type 0 where
  pub apt_count : ℕ
  pub apt_base : ℕ
  pub apt_trigger : ℕ
  pub apt_base_set : Bool

-- `struct lrng_health_es_state`. `calls` is no field of it: it records the calls made on behalf of
-- this source, the newest first.
pub record HealthEsState : Type 0 where
  pub rct : Rct
  pub apt : Apt
  pub startup_done : Bool
  pub startup_blocks : ℕ
  pub calls : List Call

-- `struct lrng_health`: `es_state` is indexed by the two internal sources
pub record Health : Type 0 where
  pub health_test_enabled : Bool
  pub irq_state : HealthEsState
  pub sched_state : HealthEsState

-- `lrng_stuck_test_array` of one CPU
pub record StuckArray : Type 0 where
  pub irq_stuck : StuckTest
  pub sched_stuck : StuckTest

abbrev pub apt_window_size : ℕ
apt_window_size = 512

abbrev pub apt_word_mask : ℕ
apt_word_mask = 16 - 1

-- LRNG_SP80090B_STARTUP_SAMPLES over the window size, rounded up
abbrev pub startup_blocks_total : ℕ
startup_blocks_total = 2

-- LRNG_HEALTH_ES_INIT, and the variable `lrng_health`
abbrev pub es_init : HealthEsState
es_init = record {
  rct = record { rct_count = 0 };
  apt = record {
    apt_count = 0;
    apt_base = 2 ^ 32 - 1;
    apt_trigger = apt_window_size;
    apt_base_set = false;
  };
  startup_done = false;
  startup_blocks = startup_blocks_total;
  calls = [];
}

abbrev pub health_init : Health
health_init = record { health_test_enabled = true; irq_state = es_init; sched_state = es_init }

-- `&health->es_state[es]`, read and written
abbrev pub es_state : Health → InternalEs → HealthEsState
es_state h irq = h.irq_state
es_state h sched = h.sched_state

abbrev pub set_es_state : Health → InternalEs → HealthEsState → Health
set_es_state h irq s = record h { irq_state = s }
set_es_state h sched s = record h { sched_state = s }

abbrev pub stuck_of : StuckArray → InternalEs → StuckTest
stuck_of a irq = a.irq_stuck
stuck_of a sched = a.sched_stuck

abbrev pub set_stuck_of : StuckArray → InternalEs → StuckTest → StuckArray
set_stuck_of a irq t = record a { irq_stuck = t }
set_stuck_of a sched t = record a { sched_stuck = t }
