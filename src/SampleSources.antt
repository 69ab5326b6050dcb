-- ===== src/SampleSources.antt =====
-- Six concrete entropy sources over a hash that remembers its input, for tests: five that always have
-- the same entropy, and the auxiliary pool.
use lrng.Common.{ℕ, refl, true, List, [], ◌∷◌, ◌++◌, arith, min, replicate}
use lrng.Samples.{fips}
use lrng.Hash.{HashCb}
use lrng.SeedBuffer.{EntropyBuf, set_bits}
use lrng.EntropySource.{EsCb, IsSource}
use lrng.AuxPool.{Pool, get_digestsize}
use lrng.AuxPool.Source.{aux_es, aux_es-IsSource}
use lrng.ManagerState.{Sources}
use lrng.Manager.Seeding.{AllSources}

-- A source that always has `bits` bits.
abbrev pub steady : {W : Type 0} → ℕ → ℕ → EsCb W
steady i bits = record {
  get_ent = λ req seeded eb w. (set_bits i (min req bits) eb, w);
  curr_entropy = λ thresh w. min thresh bits;
  reset = λ w. w;
}

pub steady-IsSource : {W : Type 0} (i bits : ℕ) → IsSource {W = W} i (steady i bits)
steady-IsSource i bits req seeded eb w h = (min req bits, omega arith, refl)

-- A hash whose state is what it was given.
abbrev pub echo : HashCb (List ℕ)
echo = record {
  hash_digestsize = 32;
  hash_init = λ s. (0, []);
  hash_update = λ s bytes. (0, s ++ bytes);
  hash_final = λ s. (0, s, replicate 32 7);
}

abbrev pub six : Sources (Pool (List ℕ))
six = record {
  es = steady 0 100 ∷ steady 1 0 ∷ steady 2 200 ∷ steady 3 8 ∷ steady 4 0 ∷ aux_es fips echo ∷ [];
  digestsize = λ p. get_digestsize p;
}

abbrev pub pool : Pool (List ℕ)
pool = record {
  aux_pool = 1 ∷ 2 ∷ [];
  aux_entropy_bits = 256;
  digestsize = 32;
  initialized = true;
  write_wakeup_bits = 192;
  max_write_thresh = 192;
}

abbrev pub blank : EntropyBuf
blank = record { e = replicate 6 (replicate 48 0); now = 5; e_bits = replicate 6 0 }

pub six-AllSources : AllSources 0 six.es
six-AllSources = (
  steady-IsSource 0 100,
  (
    steady-IsSource 1 0,
    (
      steady-IsSource 2 200,
      (steady-IsSource 3 8, (steady-IsSource 4 0, (aux_es-IsSource fips echo, tt))),
    ),
  ),
)
