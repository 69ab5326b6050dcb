-- ===== src/Batch.antt =====
-- lrng_interface_aux.c: random words from a batch that one request to the LRNG fills, and numbers below a
-- bound. `fill` gives the words of a batch, over the state `T` of the LRNG.
pub mod Stream
pub mod Below
mod Tests
use lrng.Common.{
  ℕ, zero, suc, ◌+◌, ◌-◌, ◌*◌, ◌/◌, ◌%◌, ◌^◌, ltb, ◌==◌, if◌then◌else◌, List, [], ◌∷◌, Option, none,
  some, get_or, u32,
}
use lrng.Interface.Read.{drng_blocksize}

-- `struct batched_entropy`, as words of one width
pub record Batch : Type 0 where
  pub entropy : List ℕ
  pub position : ℕ

-- The position of a batch is set to its start.
unfoldable pub invalidate : Batch → Batch
invalidate b = record b { position = 0 }

-- The four batches of a CPU
pub record Batches : Type 0 where
  pub batched_entropy_u64 : Batch
  pub batched_entropy_u32 : Batch
  pub batched_entropy_u16 : Batch
  pub batched_entropy_u8 : Batch

unfoldable pub invalidate_cpu : Batches → Batches
invalidate_cpu c = record {
  batched_entropy_u64 = invalidate c.batched_entropy_u64;
  batched_entropy_u32 = invalidate c.batched_entropy_u32;
  batched_entropy_u16 = invalidate c.batched_entropy_u16;
  batched_entropy_u8 = invalidate c.batched_entropy_u8;
}

unfoldable pub random_prepare_cpu : ℕ → (ℕ → Batches) → ℕ → Batches
random_prepare_cpu cpu cs i = if i == cpu then invalidate_cpu (cs i) else cs i

-- `cpus` are the possible ones.
unfoldable pub invalidate_batched_entropy : List ℕ → (ℕ → Batches) → ℕ → Batches
invalidate_batched_entropy [] cs = cs
invalidate_batched_entropy (cpu ∷ cpus) cs =
    invalidate_batched_entropy cpus (random_prepare_cpu cpu cs)

module _ {T : Type 0} (fill : T → List ℕ × T) where
  -- A word from a batch of `n` words
  unfoldable pub get_random_word : ℕ → Batch → T → ℕ × Batch × T
  get_random_word n b t =
      let (words, t') = fill t in
      let (batch, left) : Batch × T =
        if b.position % n == 0 then (record { entropy = words; position = 0 }, t') else (b, t) in
      (get_or batch.entropy batch.position 0, record batch { position = batch.position + 1 }, left)

  -- The four interfaces, on the batches of the CPU at hand; the parameter fills a batch of that width.
  unfoldable pub get_random_u64 : Batches → T → ℕ × Batches × T
  get_random_u64 c t =
      let (w, b, t') = get_random_word (drng_blocksize / 8) c.batched_entropy_u64 t in
      (w, record c { batched_entropy_u64 = b }, t')

  unfoldable pub get_random_u32 : Batches → T → ℕ × Batches × T
  get_random_u32 c t =
      let (w, b, t') = get_random_word (drng_blocksize / 4) c.batched_entropy_u32 t in
      (w, record c { batched_entropy_u32 = b }, t')

  unfoldable pub get_random_u16 : Batches → T → ℕ × Batches × T
  get_random_u16 c t =
      let (w, b, t') = get_random_word (drng_blocksize / 2) c.batched_entropy_u16 t in
      (w, record c { batched_entropy_u16 = b }, t')

  unfoldable pub get_random_u8 : Batches → T → ℕ × Batches × T
  get_random_u8 c t =
      let (w, b, t') = get_random_word drng_blocksize c.batched_entropy_u8 t in
      (w, record c { batched_entropy_u8 = b }, t')

module _ {T : Type 0} (word : T → ℕ × T) where
  -- The loop of `__get_random_u32_below`, on fuel; `word` is `get_random_u32`.
  unfoldable pub below_loop : ℕ → ℕ → ℕ → ℕ → T → Option (ℕ × T)
  below_loop zero ceil bound mult t = none
  below_loop (suc fuel) ceil bound mult t =
      let (r, t') = word t in
      let rest = below_loop fuel ceil bound (ceil * r) t' in
      if ltb (u32 mult) bound then rest else some (mult / 2 ^ 32, t)

  -- `__get_random_u32_below`.
  unfoldable pub get_random_u32_below : ℕ → ℕ → T → Option (ℕ × T)
  get_random_u32_below fuel ceil t =
      let (r, t') = word t in
      let mult = ceil * r in
      let rest = below_loop fuel ceil ((2 ^ 32 - ceil) % ceil) mult t' in
      if ltb (u32 mult) ceil then rest else some (mult / 2 ^ 32, t')
