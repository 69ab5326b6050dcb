-- ===== src/Health/Invariant.antt =====
-- The invariant of one source's health state, and that every health test keeps it.
use lrng.Common.{
  ℕ, ◌+◌, ◌^◌, ◌≤◌, ◌<◌, ◌≡◌, true, false, Bool, some, arith, bit_and, Bool-cases, inl, inr,
}
use lrng.Common.Bits.{bit_and_mask}
use lrng.Config.{Config}
use lrng.HealthState.{
  InternalEs, irq, sched, HealthRes, HealthEsState, Health, StuckTest, StuckArray, es_init,
  es_state, set_es_state, apt_word_mask,
}
use lrng.Health.{
  sp80090b_startup, apt_match, apt_advance, apt_insert, rct_insert, es_test, health_test,
}
use lrng.Health.Inversion.{es_test-eq-some, health_test-eq-some, health_test_disabled}

-- The permanent cutoffs are positive and fit an `int`, as in every Kconfig choice.
pub record IsSane (cfg : Config) : Type 0 where
  pub rct_pos : 1 ≤ cfg.rct_cutoff_permanent
  pub rct_int : cfg.rct_cutoff_permanent < 2 ^ 31
  pub apt_pos : 1 ≤ cfg.apt_cutoff_permanent

-- The counters between the count of a match and the end of its sample: `slack` is 1 there and 0
-- between samples.
pub record IsCounting (cfg : Config) (slack : ℕ) (s : HealthEsState) : Type 0 where
  pub blocks_open : s.startup_done ≡ false → (1 ≤ s.startup_blocks) × (s.startup_blocks ≤ 2)
  pub blocks_done : s.startup_done ≡ true → s.startup_blocks ≡ 0
  pub trigger_pos : 1 ≤ s.apt.apt_trigger
  pub trigger_le : s.apt.apt_trigger ≤ 512
  pub counted : s.apt.apt_count + s.apt.apt_trigger ≤ 512 + slack
  pub apt_below : s.apt.apt_count < cfg.apt_cutoff_permanent
  pub base_in : s.apt.apt_base_set ≡ true → s.apt.apt_base < 16
  pub rct_below : s.rct.rct_count < cfg.rct_cutoff_permanent

abbrev pub IsValid : Config → HealthEsState → Type 0
IsValid cfg s = IsCounting cfg 0 s

-- Both sources.
abbrev pub HealthIsValid : Config → Health → Type 0
HealthIsValid cfg h = IsValid cfg h.irq_state × IsValid cfg h.sched_state

pub es_init-IsValid : (cfg : Config) → IsSane cfg → IsValid cfg es_init
es_init-IsValid cfg sane = ground arith

sp80090b_startup-IsValid :
    (cfg : Config) (s : HealthEsState) → IsValid cfg s → IsValid cfg (sp80090b_startup s)
unfolding sp80090b_startup
sp80090b_startup-IsValid cfg s v = ground arith

pub es_state-IsValid :
    (cfg : Config) (h : Health) (es : InternalEs)
    → HealthIsValid cfg h
    → IsValid cfg (es_state h es)
es_state-IsValid cfg h irq v = v.0
es_state-IsValid cfg h sched v = v.1

set_es_state-HealthIsValid :
    (cfg : Config) (h : Health) (s : HealthEsState) (es : InternalEs)
    → HealthIsValid cfg h
    → IsValid cfg s
    → HealthIsValid cfg (set_es_state h es s)
set_es_state-HealthIsValid cfg h s irq v w = (w, v.1)
set_es_state-HealthIsValid cfg h s sched v w = (v.0, w)

module _ (cfg : Config) (sane : IsSane cfg) where
  pub apt_match-IsCounting :
      (s s' : HealthEsState) (t : ℕ)
      → IsValid cfg s
      → apt_match cfg s t ≡ some s'
      → IsCounting cfg 1 s'
  unfolding apt_match
  apt_match-IsCounting s s' t v e = ground arith

  apt_advance-IsValid :
      (s : HealthEsState) (t : ℕ) → t < 16 → IsCounting cfg 1 s → IsValid cfg (apt_advance s t)
  unfolding apt_advance
  apt_advance-IsValid s t h v = ground arith

  pub apt_insert-IsValid :
      (s s' : HealthEsState) (now_time : ℕ)
      → IsValid cfg s
      → apt_insert cfg s now_time ≡ some s'
      → IsValid cfg s'
  unfolding apt_insert
  apt_insert-IsValid s s' now_time v e =
      let t = bit_and now_time apt_word_mask in
      ground (
        arith,
        bit_and_mask 4 now_time,
        λ (m : HealthEsState) (q : apt_match cfg s t ≡ some m).
            apt_advance-IsValid m t (omega (arith, bit_and_mask 4 now_time))
              (apt_match-IsCounting s m t v q),
      )

  pub rct_insert-IsValid :
      (s s' : HealthEsState) (stuck : Bool)
      → IsValid cfg s
      → rct_insert cfg s stuck ≡ some s'
      → IsValid cfg s'
  unfolding rct_insert
  rct_insert-IsValid s s' stuck v e = ground arith

  pub es_test-IsValid :
      (s s' : HealthEsState) (st st' : StuckTest) (now_time : ℕ) (r : HealthRes)
      → IsValid cfg s
      → es_test cfg s st now_time ≡ some (r, s', st')
      → IsValid cfg s'
  es_test-IsValid s s' st st' now_time r v e =
      let (m, em, en, _, _) = es_test-eq-some cfg s s' st st' now_time r e in
      rct_insert-IsValid m s' _ (apt_insert-IsValid s m now_time v em) en

  -- Every health test keeps the invariant of both sources, whatever the time stamp, the source it
  -- comes from and the state of the CPU's stuck test.
  pub health_test-IsValid :
      (h h' : Health) (a a' : StuckArray) (now_time : ℕ) (es : InternalEs) (r : HealthRes)
      → HealthIsValid cfg h
      → health_test cfg h a now_time es ≡ some (r, h', a')
      → HealthIsValid cfg h'
  health_test-IsValid h h' a a' now_time es r v e = elim (Bool-cases h.health_test_enabled) [
    | inr off ↦ rw (← (health_test_disabled cfg h a now_time es off e)) v
    | inl on ↦
        let (s, st, et, eh, _) = health_test-eq-some cfg h h' a a' now_time es r on e in
        rw eh (
          set_es_state-HealthIsValid cfg h s es v
            (es_test-IsValid _ s _ st now_time r (es_state-IsValid cfg h es v) et))
  ]
