-- ===== src/JentSource/Exclusive.antt =====
-- The slots of lrng_es_jent.c belong to one thread at a time.
use lrng.Common.{ℕ, ◌≡◌, Option, none, some, arith, List}
use lrng.Config.{Config}
use lrng.JentSource.{
  JentConfig, buffer_filling, buffer_reading, claim_fill, claim_read, fill_block, jent_get_block,
}
use lrng.JentSource.Machine.{
  Machine, WorkerPc, at_rest, testing, filling, marking, ReaderPc, outside, trying, copying,
  clearing, releasing, Step, worker_starts, worker_tests, worker_fills, worker_marks, worker_ends,
  reader_counts, reader_tests, reader_copies, reader_clears, reader_releases, reader_draws, Reach,
  here, next,
}

-- The slot that a thread holds.
abbrev pub worker_slot : WorkerPc → Option ℕ
worker_slot at_rest = none
worker_slot (testing i) = none
worker_slot (filling i) = some i
worker_slot (marking i) = some i

abbrev pub reader_slot : ReaderPc → Option ℕ
reader_slot outside = none
reader_slot (trying i) = none
reader_slot (copying i) = some i
reader_slot (clearing i) = some i
reader_slot (releasing i) = some i

module _ {R : Type 0} where
  -- A slot that the worker holds is marked so, a slot that a reader holds is marked so, and no two
  -- readers hold the same slot.
  pub record IsExclusive (m : Machine R) : Type 0 where
    pub worker_held :
        (i : ℕ) → worker_slot m.worker ≡ some i → (m.jent.slots i).state ≡ buffer_filling
    pub reader_held :
        (t i : ℕ) → reader_slot (m.readers t) ≡ some i → (m.jent.slots i).state ≡ buffer_reading
    pub one_reader :
        (t u i : ℕ)
        → reader_slot (m.readers t) ≡ some i
        → reader_slot (m.readers u) ≡ some i
        → t ≡ u

module _ {R : Type 0} (get_bytes : ℕ → R → ℕ × List ℕ × R) (cfg : Config) (jc : JentConfig)
    (req : ℕ) where
  pub Step-IsExclusive :
      {m k : Machine R} → Step get_bytes cfg jc req m k → IsExclusive m → IsExclusive k
  unfolding claim_fill claim_read fill_block jent_get_block
  Step-IsExclusive {m} (worker_starts p) v = record {
    worker_held = λ i h. cc;
    reader_held = λ t i h. v.reader_held t i h;
    one_reader = λ t u i h g. v.one_reader t u i h g;
  }
  Step-IsExclusive {m} (worker_tests i p l) v = record {
    worker_held = λ n h. ground (arith, v.worker_held n);
    reader_held = λ t n h. ground (arith, v.reader_held t n);
    one_reader = λ t u n h g. ground (arith, v.one_reader t u n);
  }
  Step-IsExclusive {m} (worker_fills i p) v = record {
    worker_held = λ n h. ground (arith, v.worker_held n);
    reader_held = λ t n h. ground (arith, v.reader_held t n);
    one_reader = λ t u n h g. ground (arith, v.one_reader t u n);
  }
  Step-IsExclusive {m} (worker_marks i p) v = record {
    worker_held = λ n h. ground (arith, v.worker_held n);
    reader_held = λ t n h. ground (arith, v.reader_held t n, v.worker_held i);
    one_reader = λ t u n h g. ground (arith, v.one_reader t u n);
  }
  Step-IsExclusive {m} (worker_ends i p l) v = record {
    worker_held = λ n h. cc;
    reader_held = λ t n h. v.reader_held t n h;
    one_reader = λ t u n h g. v.one_reader t u n h g;
  }
  Step-IsExclusive {m} (reader_counts t slot p e) v = record {
    worker_held = λ n h. v.worker_held n h;
    reader_held = λ u n h. ground (arith, v.reader_held u n);
    one_reader = λ u w n h g. ground (arith, v.one_reader u w n);
  }
  Step-IsExclusive {m} (reader_tests t slot p l) v = record {
    worker_held = λ n h. ground (arith, v.worker_held n);
    reader_held = λ u n h. ground (arith, v.reader_held u n);
    one_reader =
        λ u w n h g. ground (arith, v.one_reader u w n, v.reader_held u n, v.reader_held w n);
  }
  Step-IsExclusive {m} (reader_copies t slot p) v = record {
    worker_held = λ n h. v.worker_held n h;
    reader_held = λ u n h. ground (arith, v.reader_held u n);
    one_reader = λ u w n h g. ground (arith, v.one_reader u w n);
  }
  Step-IsExclusive {m} (reader_clears t slot p) v = record {
    worker_held = λ n h. ground (arith, v.worker_held n);
    reader_held = λ u n h. ground (arith, v.reader_held u n);
    one_reader = λ u w n h g. ground (arith, v.one_reader u w n);
  }
  Step-IsExclusive {m} (reader_releases t slot p) v = record {
    worker_held = λ n h. ground (arith, v.worker_held n, v.reader_held t slot);
    reader_held = λ u n h. ground (arith, v.reader_held u n, v.one_reader t u slot);
    one_reader = λ u w n h g. ground (arith, v.one_reader u w n);
  }
  Step-IsExclusive {m} (reader_draws j) v = record {
    worker_held = λ i h. v.worker_held i h;
    reader_held = λ t i h. v.reader_held t i h;
    one_reader = λ t u i h g. v.one_reader t u i h g;
  }

  -- Over every interleaving of the worker and the readers no slot is held by two of them.
  pub Reach-IsExclusive :
      {m k : Machine R} → IsExclusive m → Reach get_bytes cfg jc req m k → IsExclusive k
  Reach-IsExclusive v here = v
  Reach-IsExclusive v (next r st) = Step-IsExclusive st (Reach-IsExclusive v r)
