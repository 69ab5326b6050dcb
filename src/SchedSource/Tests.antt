-- ===== src/SchedSource/Tests.antt =====
-- Two CPUs over a hash that remembers its input, and the theorem about the source applied there.
use lrng.Common.{ℕ, ◌+◌, ◌≤◌, ◌≡◌, true, false, List, [], ◌∷◌, replicate, set}
use lrng.Samples.{fips}
use lrng.SampleSources.{echo, blank}
use lrng.HealthState.{StuckArray, health_init}
use lrng.Definitions.{data_to_entropy}
use lrng.SeedBuffer.{es_sched}
use lrng.Timer.{gcd_init}
use lrng.SchedSource.{SchedCpu, SchedState}
use lrng.SchedSource.Collect.{sched_pool_hash}
use lrng.SchedSource.Credit.{total_events, sched_pool_hash-credit}

abbrev idle : StuckArray
idle = record {
  irq_stuck = record { last_time = 0; last_delta = 0; last_delta2 = 0 };
  sched_stuck = record { last_time = 0; last_delta = 0; last_delta2 = 0 };
}

abbrev busy : ℕ → SchedCpu (List ℕ)
busy events = record {
  sched_array = replicate 256 0;
  sched_array_ptr = 0;
  sched_array_events = events;
  sched_pool = [];
  sched_lock_init = false;
  sched_stuck_test = idle;
  hash_cb = echo;
}

abbrev both : SchedState (List ℕ)
both = record {
  cpus = busy 300 ∷ busy 100 ∷ [];
  entropy_bits = 256;
  health = health_init;
  gcd = gcd_init;
}

sched_pool_hash-credit_example :
    let (eb', s') = sched_pool_hash fips 7 echo [] [] 128 true blank both in
    (bits : ℕ) × (taken : ℕ) × (eb'.e_bits ≡ set blank.e_bits es_sched bits)
    × (bits ≤ 128)
    × (bits ≤ data_to_entropy taken 256)
    × (taken + total_events s'.cpus ≤ 400)
sched_pool_hash-credit_example = sched_pool_hash-credit fips 7 echo [] [] 128 true blank both
