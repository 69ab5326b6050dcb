-- ===== src/Health.antt =====
-- lrng_health.c: the stuck test, the repetition count test (RCT), the adaptive proportion test
-- (APT) and the SP800-90B startup test of the internal entropy sources. An `atomic_t` is its bit
-- pattern. `none` is a kernel panic, after which nothing runs.
pub mod Inversion
pub mod Stuck
pub mod Invariant
pub mod Startup
pub mod Count
pub mod Failure
pub mod Verdict
mod Tests
use lrng.Common.{
  ℕ, ◌+◌, ◌-◌, ◌^◌, Bool, true, false, not, ◌||◌, ◌&&◌, ◌==◌, leb, if◌then◌else◌, bit_and, List, [],
  ◌∷◌, Option, none, some, add32, sub32, ◌>>=◌,
}
use lrng.Config.{Config}
use lrng.HealthState.{
  InternalEs, HealthRes, Call, StuckTest, Rct, Apt, HealthEsState, Health, StuckArray,
  apt_window_size, apt_word_mask, startup_blocks_total, es_init, health_init, es_state,
  set_es_state, stuck_of, set_stuck_of, irq, sched, pass, fail_use, fail_drop, reset, force_reseed,
}

-- `lrng_sp80090b_health_requested` and `lrng_sp80090b_health_enabled`
unfoldable pub health_requested : Config → Bool
health_requested cfg = cfg.fips_enabled

unfoldable pub health_enabled : Config → Health → Bool
unfolding health_requested
health_enabled cfg h = health_requested cfg && h.health_test_enabled

-- `lrng_sp80090b_startup`: the block counter is decremented only while the startup test runs.
unfoldable pub sp80090b_startup : HealthEsState → HealthEsState
sp80090b_startup s =
    if s.startup_done
    then s
    else if sub32 s.startup_blocks 1 == 0
    then record s {
      startup_done = true;
      startup_blocks = sub32 s.startup_blocks 1;
      calls = force_reseed ∷ s.calls;
    }
    else record s { startup_blocks = sub32 s.startup_blocks 1 }

-- `lrng_sp80090b_startup_failure`
unfoldable pub startup_failure : HealthEsState → HealthEsState
startup_failure s = record s { startup_blocks = startup_blocks_total; calls = reset ∷ s.calls }

-- `lrng_sp80090b_runtime_failure`
unfoldable pub runtime_failure : HealthEsState → HealthEsState
unfolding startup_failure
runtime_failure s = record (startup_failure s) { startup_done = false }

unfoldable pub rct_reset : Rct → Rct
rct_reset r = record r { rct_count = 0 }

unfoldable pub apt_reset : Apt → ℕ → Apt
apt_reset a time_masked = record a { apt_count = 0; apt_base = time_masked }

unfoldable pub apt_restart : Apt → Apt
apt_restart a = record a { apt_trigger = apt_window_size }

-- `lrng_sp80090b_permanent_failure`
unfoldable pub permanent_failure : Config → HealthEsState → Option HealthEsState
unfolding runtime_failure rct_reset apt_reset apt_restart
permanent_failure cfg s =
    if cfg.panic_on_permanent_health_failure
    then none
    else some (record (runtime_failure s) {
      rct = rct_reset s.rct;
      apt = apt_restart (apt_reset s.apt 0);
    })

-- `lrng_sp80090b_failure`
unfoldable pub failure : HealthEsState → HealthEsState
unfolding runtime_failure startup_failure
failure s = if s.startup_done then runtime_failure s else startup_failure s

-- The two cutoffs, which the APT and the RCT test alike.
unfoldable pub check_cutoff : Config → ℕ → ℕ → ℕ → HealthEsState → Option HealthEsState
unfolding permanent_failure failure
check_cutoff cfg permanent cutoff count s =
    if leb permanent count
    then permanent_failure cfg s
    else if leb cutoff count
    then some (failure s)
    else some s

-- `lrng_apt_insert`: the branch where the time stamp equals the base, and what follows it.
unfoldable pub apt_match : Config → HealthEsState → ℕ → Option HealthEsState
unfolding check_cutoff
apt_match cfg s t =
    let val = add32 s.apt.apt_count 1 in
    if t == s.apt.apt_base
    then check_cutoff cfg cfg.apt_cutoff_permanent cfg.apt_cutoff val
        (record s { apt = record (s.apt) { apt_count = val } })
    else some s

unfoldable pub apt_advance : HealthEsState → ℕ → HealthEsState
unfolding apt_restart apt_reset sp80090b_startup
apt_advance s t =
    let a = record (s.apt) { apt_trigger = sub32 s.apt.apt_trigger 1 } in
    if sub32 s.apt.apt_trigger 1 == 0
    then sp80090b_startup (record s { apt = apt_reset (apt_restart a) t })
    else record s { apt = a }

unfoldable pub apt_insert : Config → HealthEsState → ℕ → Option HealthEsState
unfolding health_requested apt_match apt_advance
apt_insert cfg s now_time =
    let t = bit_and now_time apt_word_mask in
    if not (health_requested cfg)
    then some s
    else if not s.apt.apt_base_set
    then some (record s { apt = record (s.apt) { apt_base = t; apt_base_set = true } })
    else apt_match cfg s t >>= λ s'. some (apt_advance s' t)

-- `lrng_rct`
unfoldable pub rct_insert : Config → HealthEsState → Bool → Option HealthEsState
unfolding health_requested check_cutoff rct_reset
rct_insert cfg s stuck =
    let count = add32 s.rct.rct_count 1 in
    if not (health_requested cfg)
    then some s
    else if stuck
    then check_cutoff cfg cfg.rct_cutoff_permanent cfg.rct_cutoff count
        (record s { rct = record { rct_count = count } })
    else some (record s { rct = rct_reset s.rct })

-- `lrng_delta`
unfoldable pub delta : ℕ → ℕ → ℕ
delta prev next = sub32 next prev

-- `lrng_irq_stuck`
unfoldable pub irq_stuck_test : StuckTest → ℕ → Bool × StuckTest
unfolding delta
irq_stuck_test st now_time =
    let d = delta st.last_time now_time in
    let d2 = delta st.last_delta d in
    let d3 = delta st.last_delta2 d2 in
    (
      d == 0 || d2 == 0 || d3 == 0,
      record { last_time = now_time; last_delta = d; last_delta2 = d2 },
    )

-- The part of `lrng_health_test` behind the check of `health_test_enabled`, on one source.
unfoldable pub es_test :
    Config → HealthEsState → StuckTest → ℕ → Option (HealthRes × HealthEsState × StuckTest)
unfolding apt_insert irq_stuck_test rct_insert health_requested
es_test cfg s st now_time = do
  s' ← apt_insert cfg s now_time
  let (stuck, st') = irq_stuck_test st now_time
  s'' ← rct_insert cfg s' stuck
  some (if stuck then (if health_requested cfg then fail_drop else fail_use) else pass, s'', st')

-- `lrng_health_test`
unfoldable pub health_test :
    Config → Health → StuckArray → ℕ → InternalEs → Option (HealthRes × Health × StuckArray)
unfolding es_test
health_test cfg h a now_time es =
    if not h.health_test_enabled
    then some (pass, h, a)
    else es_test cfg (es_state h es) (stuck_of a es) now_time >>= λ r.
        some (r.0, set_es_state h es r.1, set_stuck_of a es r.2)

-- `lrng_sp80090b_startup_complete_es` and `lrng_sp80090b_compliant`
unfoldable pub startup_complete_es : Config → Health → InternalEs → Bool
unfolding health_enabled
startup_complete_es cfg h es =
    if not (health_enabled cfg h) then true else (es_state h es).startup_done

unfoldable pub sp80090b_compliant : Config → Health → InternalEs → Bool
unfolding health_enabled
sp80090b_compliant cfg h es = health_enabled cfg h && (es_state h es).startup_done

-- `lrng_health_disable`
unfoldable pub health_disable : Health → Health
health_disable h = record h { health_test_enabled = false }
