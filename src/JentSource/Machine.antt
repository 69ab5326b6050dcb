-- ===== src/JentSource/Machine.antt =====
-- The worker and any number of readers of lrng_es_jent.c side by side. Every access to a slot is a step
-- of its own, so their steps come in any order; the source stays enabled and is not started again.
use lrng.Common.{ℕ, ◌+◌, ◌-◌, ◌≤◌, ◌<◌, ◌≡◌, ◌==◌, if◌then◌else◌, List, add32, bit_and}
use lrng.Config.{Config}
use lrng.JentSource.{
  Jent, JentConfig, buffer_empty, buffer_filled, set_state, claim_fill, claim_read, fill_block,
  clear_block,
}

-- Where the worker stands: at the test of a slot, before the fill of a slot that it has taken, before
-- the mark of one that it has filled; and where a reader stands: at the test of its slot, or with a slot
-- that it has taken.
pub data WorkerPc : Type 0 where
  at_rest : WorkerPc
  testing filling marking : ℕ → WorkerPc

pub data ReaderPc : Type 0 where
  outside : ReaderPc
  trying copying clearing releasing : ℕ → ReaderPc

-- The readers are numbered. `drawn` counts the bits in the blocks that the worker has marked, and
-- `claimed` those in the blocks that readers have taken.
pub record Machine (R : Type 0) : Type 0 where
  pub jent : Jent R
  pub worker : WorkerPc
  pub readers : ℕ → ReaderPc
  pub drawn : ℕ
  pub claimed : ℕ

module _ {R : Type 0} where
  abbrev pub put_reader : ℕ → ReaderPc → Machine R → Machine R
  put_reader t pc m = record m { readers = λ u. if u == t then pc else m.readers u }

  abbrev pub put_jent : Jent R → Machine R → Machine R
  put_jent j m = record m { jent = j }

  -- The worker after its test of slot `i`.
  abbrev pub worker_test : ℕ → Machine R → Machine R
  worker_test i m =
      let (won, j) = claim_fill i m.jent in
      record m { jent = j; worker = if won then filling i else testing (i + 1) }

  -- Reader `t` after its test of `slot`.
  abbrev pub reader_test : ℕ → ℕ → Machine R → Machine R
  reader_test t slot m =
      let (won, j) = claim_read slot m.jent in
      let m' = record m { claimed = m.claimed + (m.jent.slots slot).e_bits } in
      if won then put_jent j (put_reader t (copying slot) m') else put_reader t outside m

module _ {R : Type 0} (get_bytes : ℕ → R → ℕ × List ℕ × R) (cfg : Config) (jc : JentConfig)
    (requested_bits : ℕ) where
  -- One step of one of them. A reader that finds its slot exhausted draws from the Jitter RNG itself.
  pub data Step (m : Machine R) : Machine R → Type 0 where
    worker_starts : m.worker ≡ at_rest → Step m (record m { worker = testing 0 })
    worker_tests : (i : ℕ) → m.worker ≡ testing i → i < jc.blocks → Step m (worker_test i m)
    worker_fills :
        (i : ℕ)
        → m.worker ≡ filling i
        → Step m
            (record m { jent = fill_block get_bytes requested_bits i m.jent; worker = marking i })
    worker_marks :
        (i : ℕ)
        → m.worker ≡ marking i
        → Step m (record m {
          jent = set_state i buffer_filled m.jent;
          worker = testing (i + 1);
          drawn = m.drawn + (m.jent.slots i).e_bits;
        })
    worker_ends :
        (i : ℕ) → m.worker ≡ testing i → jc.blocks ≤ i → Step m (record m { worker = at_rest })
    reader_counts :
        (t slot : ℕ)
        → m.readers t ≡ outside
        → slot ≡ bit_and (add32 m.jent.idx 1) (jc.blocks - 1)
        → Step m
            (put_jent (record m.jent { idx = add32 m.jent.idx 1 }) (put_reader t (trying slot) m))
    reader_tests :
        (t slot : ℕ) → m.readers t ≡ trying slot → slot < jc.blocks → Step m (reader_test t slot m)
    reader_copies :
        (t slot : ℕ) → m.readers t ≡ copying slot → Step m (put_reader t (clearing slot) m)
    reader_clears :
        (t slot : ℕ)
        → m.readers t ≡ clearing slot
        → Step m (put_jent (clear_block cfg slot m.jent) (put_reader t (releasing slot) m))
    reader_releases :
        (t slot : ℕ)
        → m.readers t ≡ releasing slot
        → Step m (put_jent (set_state slot buffer_empty m.jent) (put_reader t outside m))
    reader_draws : (j : R) → Step m (put_jent (record m.jent { jent = j }) m)

  pub data Reach (m : Machine R) : Machine R → Type 0 where
    here : Reach m m
    next : {n k : Machine R} → Reach m n → Step n k → Reach m k
