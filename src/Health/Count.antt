-- ===== src/Health/Count.antt =====
-- The APT and the RCT against what they count.
use lrng.Common.{
  ℕ, zero, suc, ◌+◌, ◌-◌, ◌%◌, ◌^◌, ◌≤◌, ◌<◌, ◌≡◌, refl, Bool, true, Option, some, List, [], ◌∷◌,
  arith, length, leb, replicate, ◌==◌, if◌then◌else◌, ◌>>=◌,
}
use lrng.Common.Bits.{bit_and_mask}
use lrng.Config.{Config}
use lrng.HealthState.{HealthEsState}
use lrng.Health.{apt_insert, apt_advance, failure, rct_insert}
use lrng.Health.Startup.{resets}

-- How many time stamps have the low four bits of `base`.
abbrev pub matches : ℕ → List ℕ → ℕ
matches base [] = 0
matches base (t ∷ ts) = if t % 16 == base then suc (matches base ts) else matches base ts

pub apt_run : Config → HealthEsState → List ℕ → Option HealthEsState
apt_run cfg s [] = some s
apt_run cfg s (t ∷ ts) = apt_insert cfg s t >>= λ s'. apt_run cfg s' ts

pub rct_run : Config → HealthEsState → List Bool → Option HealthEsState
rct_run cfg s [] = some s
rct_run cfg s (b ∷ bs) = rct_insert cfg s b >>= λ s'. rct_run cfg s' bs

-- What the state is worth to a claim about the rest of the window.
abbrev Window : Config → ℕ → ℕ → HealthEsState → HealthEsState → Type 0
Window cfg n k s s' =
    (s'.apt.apt_count ≡ s.apt.apt_count + k)
    × (s'.apt.apt_trigger ≡ s.apt.apt_trigger - n)
    × (s'.apt.apt_base ≡ s.apt.apt_base)
    × (s'.apt.apt_base_set ≡ true)
    × (resets s'.calls + (s.apt.apt_count + 1 - cfg.apt_cutoff)
        ≡ resets s.calls + (s.apt.apt_count + k + 1 - cfg.apt_cutoff))

-- The state after one more sample of a window, below the permanent cutoff.
abbrev window_step : Config → HealthEsState → ℕ → HealthEsState
window_step cfg s t =
    let counted = record s { apt = record (s.apt) { apt_count = s.apt.apt_count + 1 } } in
    apt_advance
      (if t == s.apt.apt_base
        then (if leb cfg.apt_cutoff (s.apt.apt_count + 1) then failure counted else counted)
        else s)
      t

module _ (cfg : Config) (requested : cfg.fips_enabled ≡ true) (pos : 1 ≤ cfg.apt_cutoff) where
  apt_insert-step :
      (s : HealthEsState) (t : ℕ)
      → s.apt.apt_base_set ≡ true
      → s.apt.apt_count + s.apt.apt_trigger ≤ 512
      → s.apt.apt_count + matches s.apt.apt_base (t ∷ []) < cfg.apt_cutoff_permanent
      → apt_insert cfg s t ≡ some (window_step cfg s (t % 16))
  unfolding apt_insert
  apt_insert-step s t set few below = ground (arith, bit_and_mask 4 t)

  window_step-Window :
      (s : HealthEsState) (t : ℕ)
      → s.apt.apt_base_set ≡ true
      → 1 < s.apt.apt_trigger
      → s.apt.apt_count + s.apt.apt_trigger ≤ 512
      → Window cfg 1 (matches s.apt.apt_base (t ∷ [])) s (window_step cfg s (t % 16))
  unfolding apt_advance failure
  window_step-Window s t set many few = ground arith

  -- What the run over a stretch inside the window comes to.
  abbrev Runs : HealthEsState → List ℕ → Type 0
  Runs s ts =
      (s' : HealthEsState) × (apt_run cfg s ts ≡ some s')
      × Window cfg (length ts) (matches s.apt.apt_base ts) s s'

  Window-trans :
      (s m u : HealthEsState) (t : ℕ) (ts : List ℕ)
      → Window cfg 1 (matches s.apt.apt_base (t ∷ [])) s m
      → Window cfg (length ts) (matches m.apt.apt_base ts) m u
      → Window cfg (length (t ∷ ts)) (matches s.apt.apt_base (t ∷ ts)) s u
  Window-trans s m u t ts p q =
      let e : matches m.apt.apt_base ts ≡ matches s.apt.apt_base ts = rw p.2 in ground (arith, e)

  apt_run_cons :
      (s m : HealthEsState) (t : ℕ) (ts : List ℕ)
      → apt_insert cfg s t ≡ some m
      → Window cfg 1 (matches s.apt.apt_base (t ∷ [])) s m
      → Runs m ts
      → Runs s (t ∷ ts)
  unfolding apt_run
  apt_run_cons s m t ts e w (u, run, v) = (u, rw e run, Window-trans s m u t ts w v)

  -- Over any stretch of time stamps that stays inside the window and below the permanent cutoff the
  -- APT returns, counts exactly the time stamps whose low four bits are those of the base, and fails
  -- (asking for a reset) once for each count that reaches the cutoff. FIPS mode is on and the base
  -- is set.
  pub apt-Window :
      (s : HealthEsState) (ts : List ℕ)
      → s.apt.apt_base_set ≡ true
      → s.apt.apt_count + s.apt.apt_trigger ≤ 512
      → length ts < s.apt.apt_trigger
      → s.apt.apt_count + matches s.apt.apt_base ts < cfg.apt_cutoff_permanent
      → (s' : HealthEsState) × (apt_run cfg s ts ≡ some s')
        × Window cfg (length ts) (matches s.apt.apt_base ts) s s'
  unfolding apt_run
  apt-Window s [] set few inside below = (s, refl, ground arith)
  apt-Window s (t ∷ ts) set few inside below =
      let w = window_step-Window s t set (omega arith) few in
      apt_run_cons s (window_step cfg s (t % 16)) t ts (apt_insert-step s t set few (ground arith))
        w
        (apt-Window (window_step cfg s (t % 16)) ts w.3 (ground (arith, w)) (omega (arith, w))
          (rw w.2 (ground (arith, w))))

-- The state after one more stuck value, below the permanent cutoff.
abbrev stuck_step : Config → HealthEsState → HealthEsState
stuck_step cfg s =
    let counted = record s { rct = record { rct_count = s.rct.rct_count + 1 } } in
    if leb cfg.rct_cutoff (s.rct.rct_count + 1) then failure counted else counted

abbrev StuckRun : Config → ℕ → HealthEsState → HealthEsState → Type 0
StuckRun cfg n s s' =
    (s'.rct.rct_count ≡ s.rct.rct_count + n)
    × (resets s'.calls + (s.rct.rct_count + 1 - cfg.rct_cutoff)
        ≡ resets s.calls + (s.rct.rct_count + n + 1 - cfg.rct_cutoff))

module _ (cfg : Config) (requested : cfg.fips_enabled ≡ true) (pos : 1 ≤ cfg.rct_cutoff)
    (small : cfg.rct_cutoff_permanent < 2 ^ 31) where
  rct_insert-step :
      (s : HealthEsState)
      → s.rct.rct_count + 1 < cfg.rct_cutoff_permanent
      → rct_insert cfg s true ≡ some (stuck_step cfg s)
  unfolding rct_insert
  rct_insert-step s below = ground arith

  stuck_step-StuckRun : (s : HealthEsState) → StuckRun cfg 1 s (stuck_step cfg s)
  unfolding failure
  stuck_step-StuckRun s = ground arith

  -- Over back-to-back stuck values below the permanent cutoff the RCT returns, counts each of them,
  -- and fails (asking for a reset) once for each count that reaches the cutoff. FIPS mode is on.
  pub rct-StuckRun :
      (n : ℕ) (s : HealthEsState)
      → s.rct.rct_count + n < cfg.rct_cutoff_permanent
      → (s' : HealthEsState) × (rct_run cfg s (replicate n true) ≡ some s') × StuckRun cfg n s s'
  unfolding rct_run
  rct-StuckRun zero s below = (s, refl, omega arith)
  rct-StuckRun (suc n) s below =
      let w = stuck_step-StuckRun s in
      let (u, run, v) = rct-StuckRun n (stuck_step cfg s) (omega (arith, w)) in
      (u, rw (rct_insert-step s (omega arith)) run, omega (arith, w, v))
