-- ===== src/JentSource/Tests.antt =====
-- The Jitter RNG over a counter that gives its own value for each byte.
use lrng.Common.{
  ℕ, ◌+◌, ◌-◌, ◌≤◌, ◌≡◌, refl, Bool, true, false, ◌==◌, add32, List, [], ◌∷◌, none, some, arith,
  set, replicate, get_or, ◌^◌,
}
use lrng.Samples.{fips}
use lrng.SampleSources.{blank}
use lrng.Definitions.{get_seed_entropy_osr, fast_noise_entropylevel}
use lrng.JentSource.{
  Jent, JentConfig, Slot, set_state, monitor_slot, buffer_empty, buffer_filled, async_monitor,
  jent_get_check, claim_fill, claim_read, fill_block, jent_get, copy_block, jent_initialize,
  async_sysfs_set, jent_entropylevel,
}
use lrng.JentSource.Machine.{
  Machine, at_rest, testing, marking, outside, worker_starts, worker_tests, worker_fills,
  worker_marks, reader_counts, reader_tests, trying, put_reader, Reach, here, next, worker_test,
  reader_test, put_jent,
}
use lrng.JentSource.Exclusive.{IsExclusive, Reach-IsExclusive}
use lrng.JentSource.Ledger.{waiting, IsFresh, Reach-IsBalanced}

abbrev counter : ℕ → ℕ → ℕ × List ℕ × ℕ
counter n r = (0, replicate n r, r + 1)

abbrev eight : JentConfig
eight = record { jent_entropy_rate = 16; blocks = 8 }

abbrev cleared : ℕ → Slot
cleared i = record { e = replicate 48 0; e_bits = 0; state = buffer_empty }

abbrev off : Jent ℕ
off = record {
  jent_entropy = 16;
  initialized = false;
  async_enabled = true;
  jent = 0;
  slots = cleared;
  idx = 2 ^ 32 - 1;
  calls = [];
}

abbrev on : Jent ℕ
on = record off { jent_entropy = 256; initialized = true }

-- In FIPS mode the default rate becomes full entropy when the source starts.
starts : (jent_initialize fips eight (0, 0) off).1.jent_entropy ≡ 256
unfolding jent_initialize
starts = refl

-- After the worker the first seed gets the bytes of the first block, and the next those of the second.
abbrev filled : Jent ℕ
filled = (async_monitor counter fips eight 256 on)

first_block :
    (jent_get_check counter fips eight 256 384 blank filled).0.e_bits ≡ set blank.e_bits 2 384
unfolding jent_get_check async_monitor get_seed_entropy_osr claim_fill fill_block jent_get
    jent_entropylevel fast_noise_entropylevel
first_block = refl

-- A reader has taken the first slot when the administrator disables the collection and enables it
-- again: the slot counts as empty, the worker fills it, and a second reader takes it too.
abbrev text_switch : List ℕ → ℕ × Bool
text_switch text = (0, get_or text 0 0 == b'1')

abbrev first_reader : Jent ℕ
first_reader = (claim_read 0 (monitor_slot counter 384 0 on)).1

abbrev toggled : Jent ℕ
toggled =
    let off_again = (async_sysfs_set fips text_switch (some (b'0' ∷ [])) first_reader).1 in
    monitor_slot counter 384 0 (async_sysfs_set fips text_switch none off_again).1

taken_twice :
    ((toggled.slots 0).e_bits ≡ 384)
    × ((claim_read 0 toggled).0 ≡ true)
    × (copy_block 0 blank toggled ≡ copy_block 0 blank (claim_read 0 toggled).1)
unfolding claim_fill claim_read fill_block jent_get jent_entropylevel fast_noise_entropylevel
    async_sysfs_set
taken_twice = (refl, refl, refl)

abbrev m0 : Machine ℕ
m0 = record { jent = on; worker = at_rest; readers = λ t. outside; drawn = 0; claimed = 0 }

abbrev m1 : Machine ℕ
m1 = record m0 { worker = testing 0 }

abbrev m2 : Machine ℕ
m2 = worker_test 0 m1

abbrev m3 : Machine ℕ
m3 = record m2 { jent = fill_block counter 384 0 m2.jent; worker = marking 0 }

abbrev m4 : Machine ℕ
m4 = record m3 {
  jent = set_state 0 buffer_filled m3.jent;
  worker = testing 1;
  drawn = m3.drawn + (m3.jent.slots 0).e_bits;
}

abbrev m5 : Machine ℕ
m5 = put_jent (record m4.jent { idx = add32 m4.jent.idx 1 }) (put_reader 3 (trying 0) m4)

abbrev m6 : Machine ℕ
m6 = reader_test 3 0 m5

-- The worker fills the first slot, and reader 3 takes it.
run : Reach counter fips eight 384 m0 m6
unfolding claim_fill fill_block
run =
    next
      (next
        (next
          (next (next (next here (worker_starts refl)) (worker_tests 0 refl (omega arith)))
            (worker_fills 0 refl))
          (worker_marks 0 refl))
        (reader_counts 3 0 refl refl))
      (reader_tests 3 0 refl (omega arith))

fresh : IsFresh m0
fresh = record {
  resting = refl;
  nobody = λ t. refl;
  empty = λ i. refl;
  blank = λ i. refl;
  unused = (refl, refl);
}

Reach-IsExclusive_example : IsExclusive m6
Reach-IsExclusive_example =
    Reach-IsExclusive counter fips eight 384 {m = m0}
      (record { worker_held = λ i h. cc; reader_held = λ t i h. cc; one_reader = λ t u i h g. cc })
      run

Reach-IsBalanced_example :
    (m6.claimed + waiting 8 m6.jent.slots ≡ m6.drawn) × ((i : ℕ) → (m6.jent.slots i).e_bits ≤ 384)
Reach-IsBalanced_example = Reach-IsBalanced counter fips eight 384 fresh run
