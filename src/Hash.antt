-- ===== src/Hash.antt =====
-- `struct lrng_hash_cb` of lrng.h: the hash implementation that a component is given, with its
-- handle. A status is 0, or the errno that C returns negated.
use lrng.Common.{ℕ, List, ◌++◌, drop, length}

pub record HashCb (S : Type 0) : Type 0 where
  pub hash_digestsize : ℕ
  pub hash_init : S → ℕ × S
  pub hash_update : S → List ℕ → ℕ × S
  -- the status, the state, and the digest that is written
  pub hash_final : S → ℕ × S × List ℕ

-- `memcpy` of bytes to the start of a buffer.
abbrev pub overlay : List ℕ → List ℕ → List ℕ
overlay bytes buffer = bytes ++ drop (length bytes) buffer
