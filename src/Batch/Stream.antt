-- ===== src/Batch/Stream.antt =====
-- The words of a batch are handed out in order, each of them once.
use native.Mathlib.Nat.{mod-eq_of_lt}
use lrng.Common.{
  ℕ, zero, suc, ◌+◌, ◌%◌, ◌/◌, ◌≤◌, ◌<◌, ◌≡◌, refl, sym, ap, ◌∙◌, ◌==◌, true, false, if_intro,
  if_intro_on, ◌++◌, List, [], ◌∷◌, get_or, drop, take, length, arith,
}
use lrng.Interface.Read.{drng_blocksize}
use lrng.Batch.{
  Batch, Batches, invalidate, get_random_word, invalidate_cpu, random_prepare_cpu,
  invalidate_batched_entropy,
}

drop_step : (xs : List ℕ) (p : ℕ) → p < length xs → drop p xs ≡ get_or xs p 0 ∷ drop (p + 1) xs
drop_step [] p h = absurd (omega arith)
drop_step (x ∷ xs) zero h = ground arith
drop_step (x ∷ xs) (suc p) h = ground (arith, drop_step xs p (omega arith))

take_all : (k : ℕ) (xs : List ℕ) → k ≡ length xs → take k xs ≡ xs
take_all zero [] h = refl
take_all (suc k) [] h = refl
take_all zero (x ∷ xs) h = absurd (omega arith)
take_all (suc k) (x ∷ xs) h = ap (λ ys. x ∷ ys) (take_all k xs (omega arith))

module _ {T : Type 0} (fill : T → List ℕ × T) (n : ℕ) where
  -- `k` words one after the other.
  abbrev pub draw : ℕ → Batch → T → List ℕ × Batch × T
  draw zero b t = ([], b, t)
  draw (suc k) b t =
      let (w, b1, t1) = get_random_word fill n b t in
      let (ws, b2, t2) = draw k b1 t1 in (w ∷ ws, b2, t2)

  -- Inside a batch the words that follow are handed out.
  draw_inside :
      (k p : ℕ) (words : List ℕ) (t : T)
      → 0 < p
      → p + k ≤ n
      → length words ≡ n
      → draw k (record { entropy = words; position = p }) t
        ≡ (take k (drop p words), record { entropy = words; position = p + k }, t)
  unfolding get_random_word
  draw_inside zero p words t pos l e = ground arith
  draw_inside (suc k) p words t pos l e =
      let inside : p % n ≡ p = mod-eq_of_lt (omega arith) in
      let same : (p % n == 0) ≡ false = ground (arith, inside, pos) in
      let ih = draw_inside k (p + 1) words t (omega arith) (omega arith) e in
      let step = drop_step words p (omega arith) in
      let shift : p + 1 + k ≡ p + suc k = omega arith in rw (same, ih, step, shift) refl

  -- The first words after the end of a batch are those of a new one.
  draw_new :
      (k : ℕ) (b : Batch) (t : T)
      → suc k ≤ n
      → b.position % n ≡ 0
      → length (fill t).0 ≡ n
      → draw (suc k) b t
        ≡ (take (suc k) (fill t).0, record { entropy = (fill t).0; position = suc k }, (fill t).1)
  unfolding get_random_word
  draw_new k b t l due e =
      let words = (fill t).0 in
      let same : (b.position % n == 0) ≡ true = ground (arith, due) in
      let rest = draw_inside k 1 words (fill t).1 (omega arith) (omega arith) e in
      let step = drop_step words 0 (omega arith) in
      let end : 1 + k ≡ suc k = omega arith in
      rw (same, rest, end)
        (ap (λ xs. (xs, record { entropy = words; position = suc k }, (fill t).1))
          (sym (ap (take (suc k)) step)))

  -- At the end of a batch, or after an invalidation, the next words are those of one new batch, in order
  -- and each of them once, and the batch is at its end again.
  pub draw_block :
      (b : Batch) (t : T)
      → 0 < n
      → b.position % n ≡ 0
      → length (fill t).0 ≡ n
      → draw n b t ≡ ((fill t).0, record { entropy = (fill t).0; position = n }, (fill t).1)
  draw_block b t pos due e = cases n refl
    where
      cases :
          (m : ℕ)
          → m ≡ n
          → draw m b t ≡ ((fill t).0, record { entropy = (fill t).0; position = m }, (fill t).1)
      cases zero h = absurd (omega arith)
      cases (suc k) h =
          draw_new k b t (omega arith) due e
          ∙ ap (λ xs. (xs, record { entropy = (fill t).0; position = suc k }, (fill t).1))
              (take_all (suc k) (fill t).0 (h ∙ sym e))

-- The widths of the words.
pub data Width : Type 0 where
  u64 : Width
  u32 : Width
  u16 : Width
  u8 : Width

abbrev pub batch_of : Width → Batches → Batch
batch_of u64 c = c.batched_entropy_u64
batch_of u32 c = c.batched_entropy_u32
batch_of u16 c = c.batched_entropy_u16
batch_of u8 c = c.batched_entropy_u8

abbrev pub words_per : Width → ℕ
words_per u64 = drng_blocksize / 8
words_per u32 = drng_blocksize / 4
words_per u16 = drng_blocksize / 2
words_per u8 = drng_blocksize

batch_of-invalidate : (w : Width) (c : Batches) → (batch_of w (invalidate_cpu c)).position ≡ 0
unfolding invalidate_cpu invalidate
batch_of-invalidate u64 c = refl
batch_of-invalidate u32 c = refl
batch_of-invalidate u16 c = refl
batch_of-invalidate u8 c = refl

prepare-own :
    (w : Width) (cpu : ℕ) (cs : ℕ → Batches)
    → (batch_of w (random_prepare_cpu cpu cs cpu)).position ≡ 0
unfolding random_prepare_cpu
prepare-own w cpu cs =
    if_intro_on (λ c. (batch_of w c).position ≡ 0) (cpu == cpu)
      (λ _. batch_of-invalidate w (cs cpu)) (λ h. absurd (ground (arith, h)))

prepare-keeps :
    (w : Width) (c cpu : ℕ) (cs : ℕ → Batches)
    → (batch_of w (cs cpu)).position ≡ 0
    → (batch_of w (random_prepare_cpu c cs cpu)).position ≡ 0
unfolding random_prepare_cpu
prepare-keeps w c cpu cs h =
    if_intro (λ c. (batch_of w c).position ≡ 0) (cpu == c) (batch_of-invalidate w (cs cpu)) h

words_per-pos : (w : Width) → 0 < words_per w
words_per-pos u64 = omega arith
words_per-pos u32 = omega arith
words_per-pos u16 = omega arith
words_per-pos u8 = omega arith

zero-words : (w : Width) → 0 % words_per w ≡ 0
zero-words u64 = refl
zero-words u32 = refl
zero-words u16 = refl
zero-words u8 = refl

keeps_start :
    (w : Width) (cpus : List ℕ) (cs : ℕ → Batches) (cpu : ℕ)
    → (batch_of w (cs cpu)).position ≡ 0
    → (batch_of w (invalidate_batched_entropy cpus cs cpu)).position ≡ 0
unfolding invalidate_batched_entropy
keeps_start w [] cs cpu h = h
keeps_start w (c ∷ cpus) cs cpu h =
    keeps_start w cpus (random_prepare_cpu c cs) cpu (prepare-keeps w c cpu cs h)

start :
    (w : Width) (before : List ℕ) (cpu : ℕ) (after : List ℕ) (cs : ℕ → Batches)
    → (batch_of w (invalidate_batched_entropy (before ++ cpu ∷ after) cs cpu)).position ≡ 0
unfolding invalidate_batched_entropy
start w [] cpu after cs = keeps_start w after (random_prepare_cpu cpu cs) cpu (prepare-own w cpu cs)
start w (c ∷ before) cpu after cs = start w before cpu after (random_prepare_cpu c cs)

-- After an invalidation of the batches of all possible CPUs, the next words of a CPU, of any width and as
-- many as a batch has, are those of one new request to the LRNG, in order and each of them once: no word
-- that was held before is handed out any more.
pub invalidate_batched_entropy-draw :
    {T : Type 0} (fill : T → List ℕ × T) (w : Width) (before : List ℕ) (cpu : ℕ) (after : List ℕ)
    (cs : ℕ → Batches) (t : T)
    → length (fill t).0 ≡ words_per w
    → draw fill
        (words_per w)
        (words_per w)
        (batch_of w (invalidate_batched_entropy (before ++ cpu ∷ after) cs cpu))
        t
      ≡ ((fill t).0, record { entropy = (fill t).0; position = words_per w }, (fill t).1)
invalidate_batched_entropy-draw fill w before cpu after cs t e =
    draw_block fill (words_per w)
      (batch_of w (invalidate_batched_entropy (before ++ cpu ∷ after) cs cpu)) t (words_per-pos w)
      (ap (λ p. p % words_per w) (start w before cpu after cs) ∙ zero-words w) e
