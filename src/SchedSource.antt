-- ===== src/SchedSource.antt =====
-- lrng_es_sched.c: the events of the scheduler. Each CPU has an array of time stamps, a count of events
-- and a pool, as the interrupt source has, but the array is hashed when a seed is drawn and not before.
pub mod Collect
pub mod Credit
pub mod Switch
mod Tests
use lrng.Common.{
  ℕ, ◌+◌, ◌*◌, ◌/◌, ◌^◌, Bool, true, false, not, if◌then◌else◌, List, [], ◌∷◌, Option, none, some,
  u32, add32, min_u32, bit_and, bit_xor, get_elem?, get_or, set, map, ◌>>=◌,
}
use lrng.Config.{Config}
use lrng.Definitions.{entropy_to_data, data_to_entropy, reduce_by_osr}
use lrng.Hash.{HashCb}
use lrng.HealthState.{Health, HealthRes, pass, fail_use, fail_drop, StuckArray, sched}
use lrng.Health.{health_test, startup_complete_es}
use lrng.Timer.{
  GcdState, gcd_set, gcd_tested, gcd_add_value, data_slots_per_uint, data_idx2array, data_idx2slot,
}
use lrng.IrqSource.{data_num_values}
use lrng.IrqSource.Insert.{data_word_mask, data_split_u32, put_msb, put_slot}

-- `lrng_sched_array`, `lrng_sched_array_ptr`, `lrng_sched_array_events`, `lrng_sched_pool` and
-- `lrng_sched_lock_init` of one CPU, with its entry of `lrng_stuck_test_array` and the callbacks for its
-- pool.
pub record SchedCpu (S : Type 0) : Type 0 where
  pub sched_array : List ℕ
  pub sched_array_ptr : ℕ
  pub sched_array_events : ℕ
  pub sched_pool : S
  pub sched_lock_init : Bool
  pub sched_stuck_test : StuckArray
  pub hash_cb : HashCb S

-- The online CPUs, `lrng_sched_entropy_bits`, and the health tests and the common divisor.
pub record SchedState (S : Type 0) : Type 0 where
  pub cpus : List (SchedCpu S)
  pub entropy_bits : ℕ
  pub health : Health
  pub gcd : GcdState

module _ {S : Type 0} where
  abbrev pub set_events : ℕ → SchedCpu S → SchedCpu S
  set_events n c = record c { sched_array_events = n }

  -- `lrng_sched_reset`
  unfoldable pub sched_reset : SchedState S → SchedState S
  sched_reset s = record s { gcd = gcd_set 0 s.gcd; cpus = map (set_events 0) s.cpus }

module _ {S : Type 0} (cfg : Config) where
  -- `lrng_sched_avail_pool_size`; `digestsize` is that of the auxiliary pool, in bits.
  abbrev pub add_pools : ℕ → List (SchedCpu S) → ℕ → ℕ
  add_pools max_pool [] acc = acc
  add_pools max_pool (c ∷ cs) acc = add_pools max_pool cs (add32 acc max_pool)

  unfoldable pub sched_avail_pool_size : ℕ → SchedState S → ℕ
  sched_avail_pool_size digestsize s =
      add_pools digestsize s.cpus (min_u32 digestsize (data_num_values cfg))

  -- `lrng_sched_avail_entropy`
  abbrev pub count_events : ℕ → List (SchedCpu S) → ℕ → ℕ
  count_events cap [] acc = acc
  count_events cap (c ∷ cs) acc = count_events cap cs (add32 acc (min_u32 cap c.sched_array_events))

  unfoldable pub sched_avail_entropy : ℕ → SchedState S → ℕ
  sched_avail_entropy digestsize s =
      let cap = min_u32 (entropy_to_data digestsize s.entropy_bits) (data_num_values cfg) in
      if not (startup_complete_es cfg s.health sched)
      then 0
      else reduce_by_osr cfg (data_to_entropy (count_events cap s.cpus 0) s.entropy_bits)

  -- `lrng_sched_array_add_u32`
  unfoldable pub sched_array_add_u32 : ℕ → SchedCpu S → SchedCpu S
  sched_array_add_u32 word c =
      let next = add32 c.sched_array_ptr data_slots_per_uint in
      let (ptr, pre_ptr, mask) = data_split_u32 cfg next in
      let unit = get_or c.sched_array (data_idx2array pre_ptr) 0 in
      let upper = set c.sched_array (data_idx2array pre_ptr) (put_msb mask word unit) in
      record c {
        sched_array_ptr = next;
        sched_array = set upper (data_idx2array ptr) (bit_and word mask);
      }

  -- `lrng_sched_array_add_slot`
  unfoldable pub sched_array_add_slot : ℕ → SchedCpu S → SchedCpu S
  sched_array_add_slot value c =
      let next = add32 c.sched_array_ptr 1 in
      let ptr = bit_and next (data_word_mask cfg) in
      let unit = get_or c.sched_array (data_idx2array ptr) 0 in
      record c {
        sched_array_ptr = next;
        sched_array =
            set c.sched_array (data_idx2array ptr) (put_slot (data_idx2slot ptr) value unit);
      }

-- A scheduler event: the cycle counter, and the fields of the task.
pub record SchedEvent : Type 0 where
  pub now_time : ℕ
  pub pid : ℕ
  pub start_time : ℕ
  pub nvcsw : ℕ

-- The functions of lrng_testing.h, which say whether a value goes to the testing interface.
pub record SchedHooks : Type 0 where
  pub raw_hires : ℕ → Bool
  pub raw_pid : ℕ → Bool
  pub raw_starttime : ℕ → Bool
  pub raw_nvcsw : ℕ → Bool

module _ (cfg : Config) (hooks : SchedHooks) (gcd : ℕ → ℕ → ℕ) {S : Type 0} (cpu : ℕ) where
  -- An operation on the CPU that schedules.
  abbrev pub on_sched_cpu : (SchedCpu S → SchedCpu S) → SchedState S → SchedState S
  on_sched_cpu f s = elim (get_elem? s.cpus cpu) [
    | none ↦ s
    | some c ↦ record s { cpus = set s.cpus cpu (f c) }
  ]

  -- What follows the health test in `lrng_time_process_common`: a time stamp that passes is counted.
  unfoldable pub sched_tested :
      (ℕ → SchedCpu S → SchedCpu S) → ℕ → HealthRes → SchedCpu S → SchedCpu S
  sched_tested add_time time pass c = add_time time (set_events (add32 c.sched_array_events 1) c)
  sched_tested add_time time fail_use c = add_time time c
  sched_tested add_time time fail_drop c = c

  -- `lrng_time_process_common`; no result is a panic of the kernel.
  unfoldable pub sched_process_common :
      ℕ → (ℕ → SchedCpu S → SchedCpu S) → SchedState S → Option (SchedState S)
  sched_process_common time add_time s =
      let tested : Option (SchedState S) = get_elem? s.cpus cpu >>= λ c.
      health_test cfg s.health c.sched_stuck_test time sched >>= λ r. some (record s {
        health = r.1;
        cpus =
            set s.cpus cpu (sched_tested add_time time r.0 (record c { sched_stuck_test = r.2 }));
      }) in
      if hooks.raw_hires time then some s else tested

  -- `lrng_sched_time_process`
  unfoldable pub sched_time_process : ℕ → SchedState S → Option (SchedState S)
  sched_time_process now_time s =
      let full : Option (SchedState S) =
        sched_process_common now_time (sched_array_add_u32 cfg) s >>= λ s'.
        some (record s' { gcd = gcd_add_value gcd now_time s'.gcd }) in
      let slot : Option (SchedState S) =
        sched_process_common (bit_and (now_time / s.gcd.gcd_timer) 255) (sched_array_add_slot cfg)
          s in
      if not (gcd_tested s.gcd) then full else slot

  -- `add_sched_randomness`
  unfoldable pub add_sched_randomness : Bool → SchedEvent → SchedState S → Option (SchedState S)
  add_sched_randomness highres_timer e s =
      let pid = if hooks.raw_pid e.pid then 0 else u32 e.pid in
      let starttime = if hooks.raw_starttime e.start_time then 0 else u32 e.start_time in
      let nvcsw = if hooks.raw_nvcsw e.nvcsw then 0 else u32 e.nvcsw in
      let tmp = bit_xor (bit_xor (bit_xor (u32 cpu) pid) starttime) nvcsw in
      let low : Option (SchedState S) = sched_time_process e.now_time s >>= λ s'.
      some (on_sched_cpu (sched_array_add_u32 cfg tmp) s') in
      if highres_timer then sched_time_process e.now_time s else low
