-- ===== src/Batch/Tests.antt =====
-- Runs of the batched numbers, and the theorems at concrete inputs. The state of the LRNG is the number of
-- the next word.
use lrng.Common.{ℕ, ◌+◌, ◌*◌, ◌<◌, ◌≡◌, ◌^◌, ◌%◌, refl, List, [], ◌∷◌, arith}
use lrng.Batch.{Batch, Batches, invalidate, invalidate_batched_entropy, get_random_word}
use lrng.Batch.Stream.{draw, u64, batch_of, invalidate_batched_entropy-draw}

abbrev four_words : ℕ → List ℕ × ℕ
four_words t = (t ∷ (t + 1) ∷ (t + 2) ∷ (t + 3) ∷ [], t + 4)

abbrev half_used : Batch
half_used = record { entropy = 90 ∷ 91 ∷ 92 ∷ 93 ∷ []; position = 2 }

-- An invalidated batch gives no word that it still held.
invalidated_batch : (draw four_words 4 3 (invalidate half_used) 7).0 ≡ 7 ∷ 8 ∷ 9 ∷ []
unfolding get_random_word invalidate
invalidated_batch = refl

abbrev eight_words : ℕ → List ℕ × ℕ
eight_words t =
    (t ∷ (t + 1) ∷ (t + 2) ∷ (t + 3) ∷ (t + 4) ∷ (t + 5) ∷ (t + 6) ∷ (t + 7) ∷ [], t + 8)

abbrev used_batches : ℕ → Batches
used_batches cpu = record {
  batched_entropy_u64 = half_used;
  batched_entropy_u32 = half_used;
  batched_entropy_u16 = half_used;
  batched_entropy_u8 = half_used;
}

invalidate_batched_entropy-draw_example :
    draw eight_words 8 8
      (batch_of u64 (invalidate_batched_entropy (0 ∷ 1 ∷ 2 ∷ []) used_batches 1))
      7
    ≡ (
      7 ∷ 8 ∷ 9 ∷ 10 ∷ 11 ∷ 12 ∷ 13 ∷ 14 ∷ [],
      record { entropy = 7 ∷ 8 ∷ 9 ∷ 10 ∷ 11 ∷ 12 ∷ 13 ∷ 14 ∷ []; position = 8 },
      15,
    )
invalidate_batched_entropy-draw_example =
    invalidate_batched_entropy-draw eight_words u64 (0 ∷ []) 1 (2 ∷ []) used_batches 7 refl

abbrev some_word : ℕ → ℕ × ℕ
some_word t = ((t * 2863311531) % 2 ^ 32, t + 1)

some_word-lt : (t : ℕ) → (some_word t).0 < 2 ^ 32
some_word-lt t = omega arith
