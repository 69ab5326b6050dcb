-- ===== src/SeedBuffer.antt =====
-- `struct entropy_buf` of lrng_es_mgr_cb.h: one row of data and one count of entropy bits for each
-- entropy source, in the order of `enum lrng_internal_es` and `enum lrng_external_es`, all sources
-- configured.
use lrng.Common.{ℕ, ◌+◌, ◌/◌, ◌%◌, ◌^◌, List, [], ◌∷◌, ◌++◌, add32, get_or, set}
use lrng.Config.{Config}
use lrng.Definitions.{drng_security_strength_bits, seed_buffer_init_add_bits}
use lrng.Hash.{overlay}

abbrev pub es_irq : ℕ
es_irq = 0

abbrev pub es_sched : ℕ
es_sched = 1

abbrev pub es_jitter : ℕ
es_jitter = 2

abbrev pub es_cpu : ℕ
es_cpu = 3

abbrev pub es_krng : ℕ
es_krng = 4

abbrev pub es_aux : ℕ
es_aux = 5

abbrev pub es_last : ℕ
es_last = 6

-- LRNG_DRNG_INIT_SEED_SIZE_BYTES
abbrev pub init_seed_size_bytes : Config → ℕ
init_seed_size_bytes cfg = (drng_security_strength_bits + seed_buffer_init_add_bits cfg) / 2 ^ 3

pub record EntropyBuf : Type 0 where
  pub e : List (List ℕ)
  pub now : ℕ
  pub e_bits : List ℕ

-- `eb->e_bits[i] = bits`, and `memcpy(eb->e[i], bytes, ...)`
abbrev pub set_bits : ℕ → ℕ → EntropyBuf → EntropyBuf
set_bits i bits eb = record eb { e_bits = set eb.e_bits i bits }

abbrev pub copy_row : ℕ → List ℕ → EntropyBuf → EntropyBuf
copy_row i bytes eb = record eb { e = set eb.e i (overlay bytes (get_or eb.e i [])) }

-- The bytes of a `u32` in memory, least significant first.
abbrev pub le32 : ℕ → List ℕ
le32 x = (x % 256) ∷ (x / 2 ^ 8 % 256) ∷ (x / 2 ^ 16 % 256) ∷ (x / 2 ^ 24 % 256) ∷ []

abbrev pub concat : List (List ℕ) → List ℕ
concat [] = []
concat (r ∷ rs) = r ++ concat rs

abbrev pub words : List ℕ → List ℕ
words [] = []
words (x ∷ xs) = le32 x ++ words xs

-- `(u8 *)eb` over `sizeof(struct entropy_buf)`: the rows, the time stamp and the counts.
unfoldable pub eb_bytes : EntropyBuf → List ℕ
eb_bytes eb = concat eb.e ++ (le32 eb.now ++ words eb.e_bits)

-- A sum as the `u32` loop forms it, from a start value.
abbrev pub sum32_from : ℕ → List ℕ → ℕ
sum32_from acc [] = acc
sum32_from acc (x ∷ xs) = sum32_from (add32 acc x) xs

-- `lrng_entropy_rate_eb`
unfoldable pub entropy_rate_eb : EntropyBuf → ℕ
entropy_rate_eb eb = sum32_from 0 eb.e_bits
