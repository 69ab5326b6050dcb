-- ===== src/AuxPool/Credit.antt =====
-- What the auxiliary pool promises about entropy: a request is served from what is available, and
-- no bit of entropy is credited twice.
use lrng.Common.{
  ℕ, ◌+◌, ◌*◌, ◌/◌, ◌^◌, ◌≤◌, ◌<◌, ◌≡◌, ◌≢◌, ◌⊎◌, set, refl, Bool, true, List, [], ◌∷◌, arith, u32,
  min, length, length-take, get_or, get_or-set_self, get_or-set_cases,
}
use lrng.Config.{Config}
use lrng.Definitions.{reduce_by_osr, compress_osr}
use lrng.Hash.{HashCb}
use lrng.SeedBuffer.{EntropyBuf, es_aux, set_bits, copy_row, eb_bytes}
use lrng.AuxPool.{
  Pool, aux_avail_entropy, aux_pool_insert_locked, cap_requested, aux_get_pool, aux_get_backtrack,
  aux_switch_hash, aux_reset,
}

compress_osr-le : (cfg : Config) → compress_osr cfg ≤ 64
unfolding compress_osr
compress_osr-le cfg = ground arith

module _ {S : Type 0} (cfg : Config) (cb : HashCb S) where
  cap_requested_bounds :
      (requested_bits : ℕ)
      → (cap_requested cfg cb requested_bits ≤ requested_bits)
        × (cap_requested cfg cb requested_bits ≤ 512)
  unfolding cap_requested
  cap_requested_bounds requested_bits = ground arith

  -- The extraction of entropy never credits more than was requested, and what it credits is gone from
  -- the pool: the credit and the remaining count stay within the count before. It writes at most the
  -- requested bytes. This holds whether or not the hash calls fail.
  pub aux_get_pool_credit :
      (requested_bits : ℕ) (p : Pool S)
      → let (bits, bytes, p') = aux_get_pool cfg cb requested_bits p in
        (bits ≤ requested_bits)
        × (bits + p'.aux_entropy_bits ≤ p.aux_entropy_bits)
        × (length bytes * 8 ≤ requested_bits)
  unfolding aux_get_pool reduce_by_osr
  aux_get_pool_credit requested_bits p =
      let req = cap_requested cfg cb requested_bits in
      let b = cap_requested_bounds requested_bits in
      (
        ground (arith, b, compress_osr-le cfg),
        ground (arith, b, compress_osr-le cfg),
        ground (arith, b, length-take (req / 2 ^ 3) (cb.hash_final p.aux_pool).2),
      )

  -- An initialised pool whose hash works delivers what it reports as available, capped by the request,
  -- the digest and the buffer.
  pub aux_get_pool_delivers :
      (requested_bits : ℕ) (p : Pool S)
      → p.initialized ≡ true
      → p.digestsize ≡ cb.hash_digestsize
      → (cb.hash_final p.aux_pool).0 ≡ 0
      → (cb.hash_init (cb.hash_final p.aux_pool).1).0 ≡ 0
      → (aux_get_pool cfg cb requested_bits p).0
        ≡ min (aux_avail_entropy cfg p) (cap_requested cfg cb requested_bits)
  unfolding aux_get_pool aux_avail_entropy reduce_by_osr
  aux_get_pool_delivers requested_bits p ready same final init =
      ground (arith, cap_requested_bounds requested_bits, compress_osr-le cfg)

  -- An insertion that the hash takes raises the count by the smaller of the claim and eight bits for
  -- each byte, up to the digest size, with no wrap-around; one that fails leaves the count alone. (The
  -- count and the digest are those of a pool, and the claim is below 2 ^ 31.)
  pub aux_pool_insert_credit :
      (inbuf : List ℕ) (entropy_bits : ℕ) (p : Pool S)
      → p.aux_entropy_bits ≤ 512
      → cb.hash_digestsize ≤ 64
      → entropy_bits < 2 ^ 31
      → let (ret, p') = aux_pool_insert_locked cfg cb inbuf entropy_bits p in
        ((ret ≡ 0)
          × (p'.aux_entropy_bits
              ≡ min
                  (p.aux_entropy_bits + min entropy_bits (u32 (length inbuf * 8)))
                  (cb.hash_digestsize * 8)))
        ⊎ ((ret ≢ 0) × (p'.aux_entropy_bits ≡ p.aux_entropy_bits))
  unfolding aux_pool_insert_locked
  aux_pool_insert_credit inbuf entropy_bits p low small claim = ground arith

  -- In any case the count grows by no more than that.
  pub insert-le :
      (inbuf : List ℕ) (entropy_bits : ℕ) (p : Pool S)
      → (aux_pool_insert_locked cfg cb inbuf entropy_bits p).1.aux_entropy_bits
        ≤ p.aux_entropy_bits + min entropy_bits (8 * length inbuf)
  unfolding aux_pool_insert_locked
  insert-le inbuf entropy_bits p = ground arith

  -- Seeding takes out no more than is requested, records that as the entropy of the auxiliary row, and
  -- mixes the data back without credit: the recorded bits and the remaining count stay within the count
  -- before, and no other source's count in the buffer changes.
  pub aux_get_backtrack_credit :
      (requested_bits : ℕ) (eb : EntropyBuf) (p : Pool S)
      → length eb.e_bits ≡ 6
      → let (eb', p') = aux_get_backtrack cfg cb requested_bits eb p in
        (get_or eb'.e_bits es_aux 0 ≤ requested_bits)
        × (get_or eb'.e_bits es_aux 0 + p'.aux_entropy_bits ≤ p.aux_entropy_bits)
        × (eb'.e_bits ≡ set eb.e_bits es_aux (get_or eb'.e_bits es_aux 0))
  unfolding aux_get_backtrack
  aux_get_backtrack_credit requested_bits eb p six =
      let g = aux_get_pool_credit requested_bits p in
      let (bits, bytes, p') = aux_get_pool cfg cb requested_bits p in
      let written = set_bits es_aux bits (copy_row es_aux bytes eb) in
      rw (get_or-set_self eb.e_bits es_aux bits 0 (omega arith))
        (g.0, omega (arith, g.1, insert-le (eb_bytes written) 0 p'), refl)

  backtrack-le :
      (requested_bits : ℕ) (eb : EntropyBuf) (p : Pool S)
      → let (eb', p') = aux_get_backtrack cfg cb requested_bits eb p in
        get_or eb'.e_bits es_aux 0 + p'.aux_entropy_bits ≤ p.aux_entropy_bits
  unfolding aux_get_backtrack
  backtrack-le requested_bits eb p =
      let g = aux_get_pool_credit requested_bits p in
      let (bits, bytes, p') = aux_get_pool cfg cb requested_bits p in
      let written = set_bits es_aux bits (copy_row es_aux bytes eb) in
      omega
        (arith, g.1, insert-le (eb_bytes written) 0 p', get_or-set_cases eb.e_bits es_aux bits 0)

-- What happens to the pool, with the hash callbacks in force at the time.
pub data PoolOp (S : Type 0) : Type 0 where
  insert : HashCb S → List ℕ → ℕ → PoolOp S
  extract : HashCb S → ℕ → EntropyBuf → PoolOp S
  switch : Bool → HashCb S → HashCb S → List ℕ → PoolOp S
  clear : PoolOp S

module _ {S : Type 0} (cfg : Config) where
  aux_switch_hash-le :
      (is_init : Bool) (new_cb old_cb : HashCb S) (stack : List ℕ) (p : Pool S)
      → (aux_switch_hash cfg is_init new_cb old_cb stack p).1.aux_entropy_bits ≤ p.aux_entropy_bits
  unfolding aux_switch_hash
  aux_switch_hash-le is_init new_cb old_cb stack p = ground arith

  -- The entropy that leaves the pool with an operation, and the pool after it.
  abbrev pub step : PoolOp S → Pool S → ℕ × Pool S
  step (insert cb inbuf bits) p = (0, (aux_pool_insert_locked cfg cb inbuf bits p).1)
  step (extract cb req eb) p =
      let (eb', p') = aux_get_backtrack cfg cb req eb p in (get_or eb'.e_bits es_aux 0, p')
  step (switch is_init new_cb old_cb stack) p =
      (0, (aux_switch_hash cfg is_init new_cb old_cb stack p).1)
  step clear p = (0, aux_reset p)

  unfoldable pub run : List (PoolOp S) → Pool S → ℕ × Pool S
  run [] p = (0, p)
  run (op ∷ ops) p = let (out, p') = step op p in let (rest, p'') = run ops p' in (out + rest, p'')

  -- The entropy that the operations claim to put in.
  abbrev pub claims : List (PoolOp S) → ℕ
  claims [] = 0
  claims (insert cb inbuf bits ∷ ops) = min bits (8 * length inbuf) + claims ops
  claims (extract cb req eb ∷ ops) = claims ops
  claims (switch is_init new_cb old_cb stack ∷ ops) = claims ops
  claims (clear ∷ ops) = claims ops

  -- Through any sequence of insertions, seedings, hash switches and resets, with failing hash calls
  -- among them, the entropy credited to seeds and the entropy left in the pool stay within the entropy
  -- at the start and what the insertions claimed (each at most eight bits for a byte).
  pub run_ledger :
      (ops : List (PoolOp S)) (p : Pool S)
      → let (out, p') = run ops p in out + p'.aux_entropy_bits ≤ p.aux_entropy_bits + claims ops
  unfolding run aux_reset
  run_ledger [] p = omega arith
  run_ledger (insert cb inbuf bits ∷ ops) p =
      omega (arith, insert-le cfg cb inbuf bits p, run_ledger ops (step (insert cb inbuf bits) p).1)
  run_ledger (extract cb req eb ∷ ops) p =
      omega (arith, backtrack-le cfg cb req eb p, run_ledger ops (step (extract cb req eb) p).1)
  run_ledger (switch is_init new_cb old_cb stack ∷ ops) p = omega (
    arith,
    aux_switch_hash-le is_init new_cb old_cb stack p,
    run_ledger ops (step (switch is_init new_cb old_cb stack) p).1,
  )
  run_ledger (clear ∷ ops) p = omega (arith, run_ledger ops (aux_reset p))
