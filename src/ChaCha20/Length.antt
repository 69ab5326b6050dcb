-- ===== src/ChaCha20/Length.antt =====
-- How much the ChaCha20 DRNG gives and takes.
use lrng.Common.{
  ℕ, zero, suc, ◌*◌, ◌/◌, ◌%◌, ◌<◌, ◌≡◌, refl, List, [], ◌∷◌, some, Bool-cases, inl, inr, arith,
  length, length-append, length-take, length-drop, take, drop, ◌==◌,
}
use lrng.ChaCha20.{
  Chacha, chacha20_update, cc20_drng_seed, generate_blocks, cc20_drng_generate, xor_into,
  block_words,
}

length-xor_into : (xs ys : List ℕ) → length (xor_into xs ys) ≡ length xs
length-xor_into [] ys = refl
length-xor_into (x ∷ xs) [] = refl
length-xor_into (x ∷ xs) (y ∷ ys) = omega (arith, length-xor_into xs ys)

module _ (block : Chacha → List ℕ × Chacha) (whole : (c : Chacha) → length (block c).0 ≡ 64) where
  length-generate_blocks : (n : ℕ) (c : Chacha) → length (generate_blocks block n c).0 ≡ n * 64
  length-generate_blocks zero c = refl
  length-generate_blocks (suc n) c =
      let (out, c1) = block c in
      let outs = (generate_blocks block n c1).0 in
      omega (arith, length-append out outs, whole c, length-generate_blocks n c1)

  -- A request to the ChaCha20 DRNG is served to the last byte, if a block has 64 bytes, and reported so.
  pub cc20_drng_generate-length :
      (outbuflen : ℕ) (c : Chacha)
      → let (ret, bytes, c') = cc20_drng_generate block outbuflen c in
        (ret ≡ outbuflen) × (length bytes ≡ outbuflen)
  unfolding cc20_drng_generate
  cc20_drng_generate-length outbuflen c =
      let (out, c1) = generate_blocks block (outbuflen / 64) c in
      let tail = take (outbuflen % 64) (block c1).0 in
      let a = length-generate_blocks (outbuflen / 64) c in
      let b = length-append out tail in
      let d = length-take (outbuflen % 64) (block c1).0 in
      let e = whole c1 in (ground arith, ground (arith, a, b, d, e))

module _ (block : Chacha → List ℕ × Chacha) where
  -- Seeding ends: one turn of the loop for each byte of the seed and one more are enough.
  pub cc20_drng_seed-total :
      (fuel : ℕ) (inbuf : List ℕ) (c : Chacha)
      → length inbuf < fuel
      → (c' : Chacha) × (cc20_drng_seed block fuel inbuf c ≡ some c')
  cc20_drng_seed-total zero inbuf c enough = elim (let q : ⊥ = omega arith in q) [ ]
  cc20_drng_seed-total (suc fuel) inbuf c enough = elim (Bool-cases (length inbuf == 0)) [
    | inl y ↦ (c, rw y refl)
    | inr n ↦
        let shorter = length-drop 32 inbuf in
        let next =
          chacha20_update block [] block_words
            (record c { key = xor_into c.key (take 32 inbuf) }) in
        let (c', e) = cc20_drng_seed-total fuel (drop 32 inbuf) next (ground (arith, shorter, n)) in
        (c', rw n e)
  ]
