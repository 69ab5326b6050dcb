-- ===== src/ChaCha20/Tests.antt =====
-- The ChaCha20 DRNG over a block function that repeats the first byte of the key.
use lrng.Common.{ℕ, List, [], ◌∷◌, replicate, get_or, add32}
use lrng.ChaCha20.{Chacha}

abbrev repeat : Chacha → List ℕ × Chacha
repeat c = (replicate 64 (get_or c.key 0 0), record c { counter = add32 c.counter 1 })

abbrev start : Chacha
start = record {
  constants = 1634760805 ∷ 857760878 ∷ 2036477234 ∷ 1797285236 ∷ [];
  key = replicate 32 5;
  counter = 0;
  nonce0 = 0;
  nonce1 = 0;
  nonce2 = 0;
}
