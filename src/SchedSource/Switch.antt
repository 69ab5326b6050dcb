-- ===== src/SchedSource/Switch.antt =====
-- lrng_es_sched.c: the start of the source, and the switch of the hash of the pools of a node. `on_node`
-- says whether a CPU is one of the node's, `same` whether a pool has the new handle already.
use lrng.Common.{
  ℕ, ◌*◌, ◌^◌, ◌≤◌, Bool, not, ◌||◌, ◌==◌, ltb, if◌then◌else◌, List, [], ◌∷◌, u32, add32, mul32,
  min_u32, max_u32, arith,
}
use lrng.Config.{Config}
use lrng.Definitions.{entropy_to_data}
use lrng.Hash.{HashCb, overlay}
use lrng.AuxPool.{eopnotsupp}
use lrng.SchedSource.{SchedCpu, SchedState}
use lrng.SchedSource.Credit.{total_events}

module _ {S : Type 0} (rate : ℕ) (on_node : SchedCpu S → Bool) (new_cb old_cb : HashCb S)
    (same : S → Bool) where
  -- The loop over the online CPUs, with what the digest buffer holds.
  abbrev pub sched_switch_cpus : List ℕ → List (SchedCpu S) → ℕ × List (SchedCpu S)
  sched_switch_cpus buffer [] = (0, [])
  sched_switch_cpus buffer (c ∷ cs) =
      let digestsize_events = entropy_to_data (u32 (old_cb.hash_digestsize * 2 ^ 3)) rate in
      let (r1, s1, out) = old_cb.hash_final c.sched_pool in
      let digest = overlay out buffer in
      let (r2, s2) = new_cb.hash_init s1 in
      let (r3, s3) = new_cb.hash_update s2 digest in
      let passed = sched_switch_cpus buffer cs in
      let switched = sched_switch_cpus digest cs in
      let found = min_u32 c.sched_array_events digestsize_events in
      if not (on_node c) || not c.sched_lock_init
      then (passed.0, c ∷ passed.1)
      else if same c.sched_pool
      then (passed.0, c ∷ passed.1)
      else if not (r1 == 0)
      then (r1, record c { sched_pool = s1 } ∷ cs)
      else if not (r2 == 0)
      then (r2, record c { sched_pool = s2 } ∷ cs)
      else if not (r3 == 0)
      then (r3, record c { sched_pool = s3 } ∷ cs)
      else (
        switched.0,
        record c { sched_array_events = add32 0 found; sched_pool = s3 } ∷ switched.1,
      )

  -- The switch adds no events.
  pub sched_switch_cpus-le :
      (buffer : List ℕ) (cs : List (SchedCpu S))
      → total_events (sched_switch_cpus buffer cs).1 ≤ total_events cs
  sched_switch_cpus-le buffer [] = omega arith
  sched_switch_cpus-le buffer (c ∷ cs) =
      let digest = overlay (old_cb.hash_final c.sched_pool).2 buffer in
      let found =
        min_u32 c.sched_array_events
          (entropy_to_data (u32 (old_cb.hash_digestsize * 2 ^ 3)) rate) in
      let most : found ≤ c.sched_array_events = ground arith in
      ground (arith, most, sched_switch_cpus-le buffer cs, sched_switch_cpus-le digest cs)

-- `lrng_sched_switch_hash`
unfoldable pub sched_switch_hash :
    {S : Type 0}
    → Config
    → (SchedCpu S → Bool)
    → HashCb S
    → HashCb S
    → (S → Bool)
    → List ℕ
    → SchedState S
    → ℕ × SchedState S
sched_switch_hash cfg on_node new_cb old_cb same stack s =
    let (ret, cs) = sched_switch_cpus s.entropy_bits on_node new_cb old_cb same stack s.cpus in
    if not cfg.switch then (eopnotsupp, s) else (ret, record s { cpus = cs })

-- `lrng_sched_es_init`, from the parameter `sched_entropy` and the configured LRNG_SCHED_ENTROPY_BITS and
-- LRNG_ES_OVERSAMPLING_FACTOR. (The check of the compression state that follows only prints.)
unfoldable pub sched_es_init : {S : Type 0} → ℕ → ℕ → Bool → ℕ → SchedState S → SchedState S
sched_es_init conf_bits oversampling highres_timer sched_entropy s =
    let rate = max_u32 conf_bits sched_entropy in
    let new_entropy = mul32 rate oversampling in
    record s {
      entropy_bits =
          if highres_timer then rate else if ltb rate new_entropy then new_entropy else rate;
    }
