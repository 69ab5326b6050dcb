-- ===== src/IrqSource/Tests.antt =====
-- Two CPUs over a hash that remembers its input, and the theorems about the source applied there.
use lrng.Common.{
  ℕ, ◌+◌, ◌*◌, ◌≤◌, ◌≡◌, refl, true, false, List, [], ◌∷◌, none, some, arith, replicate, set,
}
use lrng.Samples.{fips}
use lrng.SampleSources.{echo, blank}
use lrng.HealthState.{StuckArray, health_init}
use lrng.Health.{startup_complete_es, health_test, health_enabled}
use lrng.Definitions.{data_to_entropy, entropy_to_data, compress_osr, reduce_by_osr}
use lrng.SeedBuffer.{es_irq}
use lrng.Timer.{gcd_init, gcd_tested, gcd_add_value, data_idx2array}
use lrng.IrqSource.{Pcpu, IrqState, irq_avail_entropy}
use lrng.IrqSource.Collect.{irq_pool_hash, irq_pool_hash_one}
use lrng.IrqSource.Ledger.{total}
use lrng.IrqSource.Source.{irq_pool_hash-credit}
use lrng.IrqSource.Insert.{
  irq_array_to_hash, data_split_u32, put_msb, Insertion, irq_array_add_u32_always,
  irq_array_add_slot,
}
use lrng.IrqSource.Overwrite.{irq_array_add_u32-overwrites}
use lrng.IrqSource.Interrupt.{
  Hooks, add_interrupt_randomness, time_process, time_process_common, process_tested,
}
use lrng.IrqSource.Traces.{Event, interrupt, draw, run, run-ledger}

abbrev idle : StuckArray
idle = record {
  irq_stuck = record { last_time = 0; last_delta = 0; last_delta2 = 0 };
  sched_stuck = record { last_time = 0; last_delta = 0; last_delta2 = 0 };
}

abbrev cpu : ℕ → Pcpu (List ℕ)
cpu events = record {
  irq_array = replicate 256 0;
  irq_array_ptr = 0;
  irq_array_irqs = events;
  irq_pool = [];
  irq_lock_init = true;
  stuck_test = idle;
  node = 0;
  hash_cb = echo;
}

abbrev two : IrqState (List ℕ)
two = record {
  cpus = cpu 300 ∷ cpu 100 ∷ [];
  entropy_bits = 256;
  continuous_compression = true;
  health = record health_init { health_test_enabled = false };
  gcd = gcd_init;
}

abbrev quiet : Hooks
quiet = record {
  raw_hires = λ x. false;
  raw_array = λ x. false;
  raw_regs = λ x. false;
  raw_jiffies = λ x. false;
  raw_irq = λ x. false;
  raw_retip = λ x. false;
}

-- The pool of the first CPU holds 256 events at most.
two_avail : irq_avail_entropy fips 256 two ≡ reduce_by_osr fips 356
unfolding irq_avail_entropy startup_complete_es health_enabled data_to_entropy entropy_to_data
two_avail = refl

irq_pool_hash-credit_example :
    let (eb', s') = irq_pool_hash fips echo [] [] 128 true blank two in
    (bits : ℕ) × (taken : ℕ) × (eb'.e_bits ≡ set blank.e_bits es_irq bits)
    × (bits ≤ 128)
    × (bits ≤ data_to_entropy taken 256)
    × (taken + total s'.cpus ≤ 400)
irq_pool_hash-credit_example = irq_pool_hash-credit fips echo [] [] 128 true blank two

abbrev ready : Insertion
ready = record {
  continuous_compression = true;
  fully_seeded = true;
  startup_complete = true;
  raw_array = λ x. false;
}

irq_array_add_u32-overwrites_example :
    irq_array_add_u32_always fips ready 1000 (irq_array_add_slot fips ready 17 (cpu 5)).0
    ≡ irq_array_add_u32_always fips ready 1000 (irq_array_add_slot fips ready 42 (cpu 5)).0
irq_array_add_u32-overwrites_example =
    irq_array_add_u32-overwrites fips ready 1000 17 42 (cpu 5) refl (omega arith)

abbrev tick : Event (List ℕ)
tick =
    interrupt 0 true true
      (record { now_time = 77; number = 3; jiffies = 5; ret_ip = 9; regs = none })

abbrev script : List (Event (List ℕ))
script = tick ∷ draw 128 true blank ∷ tick ∷ []

abbrev ended : IrqState (List ℕ)
ended = elim (run fips quiet (λ a b. 1) echo [] [] script 0 two) [ none ↦ two | some r ↦ r.1 ]

run-ledger_example : 128 * 256 + total ended.cpus * 256 ≤ 0 * 256 + (400 + 2) * 256
unfolding add_interrupt_randomness time_process time_process_common process_tested
    irq_array_add_u32_always irq_array_to_hash health_test gcd_tested gcd_add_value irq_pool_hash
    irq_pool_hash_one startup_complete_es health_enabled data_to_entropy entropy_to_data
    compress_osr reduce_by_osr data_split_u32 data_idx2array put_msb
run-ledger_example = run-ledger fips quiet (λ a b. 1) echo [] [] script 0 128 two ended refl
