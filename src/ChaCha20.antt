-- ===== src/ChaCha20.antt =====
-- lrng_drng_chacha20.c: the ChaCha20 DRNG, on a little-endian CPU, where the words of the key are its
-- bytes. `chacha20_block` of the kernel's library is the argument `block`: it gives one block of
-- output and steps the block counter.
pub mod Length
mod Tests
use lrng.Common.{
  ℕ, zero, suc, ◌+◌, ◌-◌, ◌*◌, ◌/◌, ◌%◌, ltb, ◌==◌, if◌then◌else◌, List, [], ◌∷◌, ◌++◌, Option,
  none, some, add32, bit_xor, take, drop, length,
}

-- `struct chacha20_block`, the key as bytes
pub record Chacha : Type 0 where
  pub constants : List ℕ
  pub key : List ℕ
  pub counter : ℕ
  pub nonce0 : ℕ
  pub nonce1 : ℕ
  pub nonce2 : ℕ

abbrev pub chacha_block_size : ℕ
chacha_block_size = 64

abbrev pub chacha_key_size : ℕ
chacha_key_size = 32

abbrev pub block_words : ℕ
block_words = 64 / 4

-- XOR of bytes into the start of a buffer.
abbrev pub xor_into : List ℕ → List ℕ → List ℕ
xor_into [] ys = []
xor_into (x ∷ xs) [] = x ∷ xs
xor_into (x ∷ xs) (y ∷ ys) = bit_xor x y ∷ xor_into xs ys

unfoldable pub step_nonce : Chacha → Chacha
step_nonce c =
    let n0 = add32 c.nonce0 1 in
    let n1 = add32 c.nonce1 1 in
    if n0 == 0
    then if n1 == 0
      then record c { nonce0 = n0; nonce1 = n1; nonce2 = add32 c.nonce2 1 }
      else record c { nonce0 = n0; nonce1 = n1 }
    else record c { nonce0 = n0 }

module _ (block : Chacha → List ℕ × Chacha) where
  -- `lrng_chacha20_update`
  unfoldable pub chacha20_update : List ℕ → ℕ → Chacha → Chacha
  unfolding step_nonce
  chacha20_update buf used_words c =
      let (tmp, c') = block c in
      if ltb (chacha_key_size / 4) used_words
      then step_nonce (record c' { key = xor_into c'.key tmp })
      else step_nonce
          (record c { key = xor_into c.key (take chacha_key_size (drop (used_words * 4) buf)) })

  -- `lrng_cc20_drng_seed_helper`, its loop on fuel
  abbrev pub cc20_drng_seed : ℕ → List ℕ → Chacha → Option Chacha
  cc20_drng_seed zero inbuf c = none
  cc20_drng_seed (suc fuel) inbuf c =
      let c' = record c { key = xor_into c.key (take chacha_key_size inbuf) } in
      let rest =
        cc20_drng_seed fuel (drop chacha_key_size inbuf) (chacha20_update [] block_words c') in
      if length inbuf == 0 then some c else rest

  -- The loop over the whole blocks of `lrng_cc20_drng_generate_helper`.
  abbrev pub generate_blocks : ℕ → Chacha → List ℕ × Chacha
  generate_blocks zero c = ([], c)
  generate_blocks (suc n) c =
      let (out, c1) = block c in let (outs, c2) = generate_blocks n c1 in (out ++ outs, c2)

  -- `lrng_cc20_drng_generate_helper`; the loop runs `outbuflen / 64` times.
  unfoldable pub cc20_drng_generate : ℕ → Chacha → ℕ × List ℕ × Chacha
  cc20_drng_generate outbuflen c =
      let (out, c1) = generate_blocks (outbuflen / chacha_block_size) c in
      let left = outbuflen % chacha_block_size in
      let (aligned_buf, c2) = block c1 in
      if left == 0 then (outbuflen, out, chacha20_update [] block_words c1) else (
        outbuflen,
        out ++ take left aligned_buf,
        chacha20_update aligned_buf ((left + 4 - 1) / 4) c2,
      )
