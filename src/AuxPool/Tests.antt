-- ===== src/AuxPool/Tests.antt =====
-- The auxiliary pool over a concrete hash, and the theorems about it applied there.
use lrng.Common.{ℕ, ◌+◌, ◌≤◌, ◌≡◌, refl, true, List, [], ◌∷◌, ◌++◌, length, replicate}
use lrng.Samples.{fips}
use lrng.Definitions.{reduce_by_osr}
use lrng.Hash.{HashCb}
use lrng.SeedBuffer.{EntropyBuf, eb_bytes}
use lrng.AuxPool.{Pool, aux_pool_insert_locked, aux_get_pool, aux_get_backtrack}
use lrng.AuxPool.Credit.{PoolOp, insert, extract, clear, run, claims, run_ledger}

-- A hash whose state is what it was given and whose digest counts the bytes.
abbrev counting : HashCb (List ℕ)
counting = record {
  hash_digestsize = 32;
  hash_init = λ s. (0, []);
  hash_update = λ s bytes. (0, s ++ bytes);
  hash_final = λ s. (0, s, replicate 32 (length s));
}

-- A pool with 300 bits claimed and 256 credited.
abbrev full : Pool (List ℕ)
full = record {
  aux_pool = 1 ∷ 2 ∷ [];
  aux_entropy_bits = 256;
  digestsize = 32;
  initialized = true;
  write_wakeup_bits = 192;
  max_write_thresh = 192;
}

abbrev blank : EntropyBuf
blank = record { e = replicate 6 (replicate 48 0); now = 5; e_bits = replicate 6 0 }

-- A request of 100 bits is served whole: 164 bits are taken, for the oversampling of 64 bits.
get_pool_100 :
    aux_get_pool fips counting 100 full
    ≡ (100, replicate 12 2, record full { aux_pool = []; aux_entropy_bits = 92 })
unfolding aux_get_pool reduce_by_osr
get_pool_100 = refl

abbrev script : List (PoolOp (List ℕ))
script =
    extract counting 100 blank
    ∷ insert counting (1 ∷ 2 ∷ 3 ∷ []) 24
    ∷ extract counting 256 blank
    ∷ clear
    ∷ []

-- The first seed gets 100 bits, the second what 92 and 24 bits leave after oversampling.
script_out : (run fips script full).0 ≡ 152
unfolding run aux_get_backtrack aux_get_pool aux_pool_insert_locked reduce_by_osr eb_bytes
script_out = refl

run_ledger_example :
    let (out, p') = run fips script full in out + p'.aux_entropy_bits ≤ 256 + claims fips script
run_ledger_example = run_ledger fips script full
