-- ===== src/JentSource/Ledger.antt =====
-- The entropy in the blocks of lrng_es_jent.c: each bit that the worker draws goes to one reader.
use lrng.Common.{
  ℕ, zero, suc, ◌+◌, ◌≤◌, ◌<◌, ◌≡◌, refl, List, arith, ◌==◌, if◌then◌else◌, replicate, ap, ◌∙◌,
}
use lrng.Config.{Config}
use lrng.SeedBuffer.{init_seed_size_bytes}
use lrng.JentSource.{
  Jent, JentConfig, Slot, buffer_empty, buffer_filling, buffer_filled, buffer_reading, is_filled,
  claim_fill, claim_read, fill_block, jent_get_block,
}
use lrng.JentSource.Machine.{
  Machine, WorkerPc, at_rest, testing, filling, marking, outside, Step, worker_starts, worker_tests,
  worker_fills, worker_marks, worker_ends, reader_counts, reader_tests, reader_copies,
  reader_clears, reader_releases, reader_draws, Reach, here, next,
}
use lrng.JentSource.Block.{jent_get_block-le, jent_get_block-slots}
use lrng.JentSource.Exclusive.{IsExclusive, Step-IsExclusive}

-- The bits that wait in the filled slots among the first `n`.
abbrev pub worth : Slot → ℕ
worth s = if is_filled s.state then s.e_bits else 0

pub waiting : ℕ → (ℕ → Slot) → ℕ
waiting zero slots = 0
waiting (suc n) slots = worth (slots n) + waiting n slots

module _ (slots : ℕ → Slot) (i : ℕ) (v : Slot) where
  abbrev with_slot : ℕ → Slot
  with_slot k = if k == i then v else slots k

  waiting-same : (n : ℕ) → n ≤ i → waiting n with_slot ≡ waiting n slots
  unfolding waiting
  waiting-same zero h = refl
  waiting-same (suc n) h = ground (arith, waiting-same n)

  waiting-put : (n : ℕ) → i < n → waiting n with_slot + worth (slots i) ≡ waiting n slots + worth v
  unfolding waiting
  waiting-put zero h = elim h [ ]
  waiting-put (suc n) h = ground (arith, waiting-put n, waiting-same n)

  -- A slot that neither was filled nor is.
  waiting-idle : (n : ℕ) → worth (slots i) ≡ 0 → worth v ≡ 0 → waiting n with_slot ≡ waiting n slots
  unfolding waiting
  waiting-idle zero h g = refl
  waiting-idle (suc n) h g = ground (arith, waiting-idle n)

-- The slot that the worker is at, if any, is one of the array.
abbrev pub InArray : ℕ → WorkerPc → Type 0
InArray n at_rest = Unit {0}
InArray n (testing i) = i ≤ n
InArray n (filling i) = i < n
InArray n (marking i) = i < n

module _ {R : Type 0} where
  pub record IsBalanced (n bits : ℕ) (m : Machine R) : Type 0 where
    pub in_array : InArray n m.worker
    -- every block holds what one request is worth at most
    pub within : (i : ℕ) → (m.jent.slots i).e_bits ≤ bits
    pub balance : m.claimed + waiting n m.jent.slots ≡ m.drawn

module _ {R : Type 0} where
  -- The machine before the worker starts: no slot is taken or filled.
  pub record IsFresh (m : Machine R) : Type 0 where
    pub resting : m.worker ≡ at_rest
    pub nobody : (t : ℕ) → m.readers t ≡ outside
    pub empty : (i : ℕ) → (m.jent.slots i).state ≡ buffer_empty
    pub blank : (i : ℕ) → (m.jent.slots i).e_bits ≡ 0
    pub unused : (m.drawn ≡ 0) × (m.claimed ≡ 0)

module _ {R : Type 0} (get_bytes : ℕ → R → ℕ × List ℕ × R) (cfg : Config) (jc : JentConfig)
    (req : ℕ) where
  -- A block that the worker fills is not yet one that waits.
  waiting-fill :
      (i : ℕ) (j : Jent R) (n : ℕ)
      → (j.slots i).state ≡ buffer_filling
      → waiting n (fill_block get_bytes req i j).slots ≡ waiting n j.slots
  unfolding fill_block
  waiting-fill i j n h =
      let r = jent_get_block get_bytes req (j.slots i).e j in
      let v = record (j.slots i) { e = r.0; e_bits = r.1 } in
      ap (λ (f : ℕ → Slot). waiting n (with_slot f i v))
        (jent_get_block-slots get_bytes req (j.slots i).e j)
      ∙ waiting-idle j.slots i v n (ground (arith, h)) (ground (arith, h))

  Step-IsBalanced :
      {m k : Machine R}
      → Step get_bytes cfg jc req m k
      → IsExclusive m
      → IsBalanced jc.blocks req m
      → IsBalanced jc.blocks req k
  unfolding claim_fill claim_read fill_block
  Step-IsBalanced {m} (worker_starts p) x v = record {
    in_array = omega arith;
    within = λ i. v.within i;
    balance = v.balance;
  }
  Step-IsBalanced {m} (worker_tests i p l) x v = record {
    in_array = ground (arith, v.in_array);
    within = λ n. ground (arith, v.within n);
    balance = ground (
      arith,
      v.balance,
      waiting-idle m.jent.slots i (record (m.jent.slots i) { state = buffer_filling }) jc.blocks,
    );
  }
  Step-IsBalanced {m} (worker_fills i p) x v = record {
    in_array = ground (arith, v.in_array);
    within =
        λ n. ground (arith, v.within n, jent_get_block-le get_bytes req (m.jent.slots i).e m.jent);
    balance = ground (arith, v.balance, x.worker_held i, waiting-fill i m.jent jc.blocks);
  }
  Step-IsBalanced {m} (worker_marks i p) x v = record {
    in_array = ground (arith, v.in_array);
    within = λ n. ground (arith, v.within n);
    balance = ground (
      arith,
      v.balance,
      x.worker_held i,
      v.in_array,
      waiting-put m.jent.slots i (record (m.jent.slots i) { state = buffer_filled }) jc.blocks,
    );
  }
  Step-IsBalanced {m} (worker_ends i p l) x v = record {
    in_array = tt;
    within = λ i. v.within i;
    balance = v.balance;
  }
  Step-IsBalanced {m} (reader_counts t slot p e) x v = record {
    in_array = v.in_array;
    within = λ i. v.within i;
    balance = v.balance;
  }
  Step-IsBalanced {m} (reader_tests t slot p l) x v = record {
    in_array = ground (arith, v.in_array);
    within = λ n. ground (arith, v.within n);
    balance = ground (
      arith,
      v.balance,
      waiting-put m.jent.slots slot (record (m.jent.slots slot) { state = buffer_reading })
          jc.blocks,
    );
  }
  Step-IsBalanced {m} (reader_copies t slot p) x v = record {
    in_array = v.in_array;
    within = λ i. v.within i;
    balance = v.balance;
  }
  Step-IsBalanced {m} (reader_clears t slot p) x v = record {
    in_array = ground (arith, v.in_array);
    within = λ n. ground (arith, v.within n);
    balance = ground (
      arith,
      v.balance,
      x.reader_held t slot,
      waiting-idle m.jent.slots slot
          (record (m.jent.slots slot) { e = replicate (init_seed_size_bytes cfg) 0; e_bits = 0 })
          jc.blocks,
    );
  }
  Step-IsBalanced {m} (reader_releases t slot p) x v = record {
    in_array = ground (arith, v.in_array);
    within = λ n. ground (arith, v.within n);
    balance = ground (
      arith,
      v.balance,
      x.reader_held t slot,
      waiting-idle m.jent.slots slot (record (m.jent.slots slot) { state = buffer_empty })
          jc.blocks,
    );
  }
  Step-IsBalanced {m} (reader_draws j) x v = record {
    in_array = v.in_array;
    within = λ i. v.within i;
    balance = v.balance;
  }

  waiting-fresh :
      (n : ℕ) (slots : ℕ → Slot) → ((i : ℕ) → (slots i).state ≡ buffer_empty) → waiting n slots ≡ 0
  unfolding waiting
  waiting-fresh zero slots h = refl
  waiting-fresh (suc n) slots h = ground (arith, h n, waiting-fresh n slots h)

  fresh-IsExclusive : {m : Machine R} → IsFresh m → IsExclusive m
  fresh-IsExclusive f = record {
    worker_held = λ i h. ground (arith, f.resting);
    reader_held = λ t i h. ground (arith, f.nobody t);
    one_reader = λ t u i h g. ground (arith, f.nobody t);
  }

  fresh-IsBalanced : {m : Machine R} → IsFresh m → IsBalanced jc.blocks req m
  fresh-IsBalanced {m} f = record {
    in_array = ground (arith, f.resting);
    within = λ i. ground (arith, f.blank i);
    balance = ground (arith, f.unused, waiting-fresh jc.blocks m.jent.slots f.empty);
  }

  Reach-both :
      {m k : Machine R}
      → IsFresh m
      → Reach get_bytes cfg jc req m k
      → IsExclusive k × IsBalanced jc.blocks req k
  Reach-both f here = (fresh-IsExclusive f, fresh-IsBalanced f)
  Reach-both f (next r st) =
      let (x, v) = Reach-both f r in
      (Step-IsExclusive get_bytes cfg jc req st x, Step-IsBalanced st x v)

  -- Over every interleaving of the worker and the readers, from a start without filled slots: the bits
  -- in the blocks that readers took and in those that wait are the bits in the blocks that the worker
  -- marked, and no block holds more than one request is worth.
  pub Reach-IsBalanced :
      {m k : Machine R}
      → IsFresh m
      → Reach get_bytes cfg jc req m k
      → (k.claimed + waiting jc.blocks k.jent.slots ≡ k.drawn)
        × ((i : ℕ) → (k.jent.slots i).e_bits ≤ req)
  Reach-IsBalanced f r = let (x, v) = Reach-both f r in (v.balance, v.within)
