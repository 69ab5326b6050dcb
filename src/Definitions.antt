-- ===== src/Definitions.antt =====
-- lrng_definitions.h and the inline helpers of lrng_drng_mgr.h and lrng_es_aux.h: the constants of
-- the LRNG and the conversions between events, bits of entropy and requested bits. All arithmetic
-- is on `u32`.
pub mod Convert
mod Tests
use lrng.Common.{
  ℕ, ◌-◌, ◌*◌, ◌/◌, ◌^◌, Bool, true, false, ◌&&◌, not, leb, if◌then◌else◌, add32, mul32, min_u32,
}
use lrng.Config.{Config}

abbrev pub drng_security_strength_bytes : ℕ
drng_security_strength_bytes = 32

abbrev pub drng_security_strength_bits : ℕ
drng_security_strength_bits = drng_security_strength_bytes * 8

abbrev pub drng_max_reqsize : ℕ
drng_max_reqsize = 2 ^ 12

abbrev pub drng_reseed_thresh : ℕ
drng_reseed_thresh = 2 ^ 20

abbrev pub drng_max_without_reseed : ℕ
drng_max_without_reseed = 2 ^ 30

abbrev pub full_seed_entropy_bits : ℕ
full_seed_entropy_bits = drng_security_strength_bits

abbrev pub min_seed_entropy_bits : ℕ
min_seed_entropy_bits = 128

abbrev pub init_entropy_bits : ℕ
init_entropy_bits = 32

abbrev pub ais2031_nptrng_min_entropy : ℕ
ais2031_nptrng_min_entropy = 240

module _ (cfg : Config) where
  abbrev pub oversample_es_bits : ℕ
  oversample_es_bits = if cfg.crypto_fips then 64 else 0

  abbrev pub seed_buffer_init_add_bits : ℕ
  seed_buffer_init_add_bits = if cfg.crypto_fips then 128 else 0

  abbrev pub atomic_digest_size : ℕ
  atomic_digest_size = if cfg.sha256 then 32 else 20

  abbrev pub max_digestsize : ℕ
  max_digestsize = if cfg.switch then 64 else atomic_digest_size

  -- `lrng_sp80090c_compliant`: oversampling is only requested in FIPS mode.
  unfoldable pub sp80090c_compliant : Bool
  sp80090c_compliant = cfg.fips_enabled

  unfoldable pub compress_osr : ℕ
  unfolding sp80090c_compliant
  compress_osr = if sp80090c_compliant then oversample_es_bits else 0

  unfoldable pub reduce_by_osr : ℕ → ℕ
  unfolding compress_osr
  reduce_by_osr entropy_bits =
      if leb compress_osr entropy_bits then entropy_bits - compress_osr else 0

-- The entropy of a fast noise source, from its rate for 256 data bits.
unfoldable pub fast_noise_entropylevel : ℕ → ℕ → ℕ
fast_noise_entropylevel ent_bits requested_bits =
    min_u32 (mul32 ent_bits requested_bits / drng_security_strength_bits) requested_bits

-- Bits of entropy into the number of events that hold them.
unfoldable pub entropy_to_data : ℕ → ℕ → ℕ
entropy_to_data entropy_bits entropy_rate =
    mul32 entropy_bits entropy_rate / drng_security_strength_bits

-- A number of events into bits of entropy. (A rate of 0 is a division trap in C; it is excluded.)
unfoldable pub data_to_entropy : ℕ → ℕ → ℕ
data_to_entropy num entropy_rate = mul32 num drng_security_strength_bits / entropy_rate

-- `lrng_security_strength`, over the digest size in bits that the auxiliary pool reports.
unfoldable pub security_strength : ℕ → ℕ
security_strength digestsize_bits = min_u32 full_seed_entropy_bits digestsize_bits

-- `lrng_get_seed_entropy_osr`
unfoldable pub get_seed_entropy_osr : Config → ℕ → Bool → ℕ
unfolding security_strength sp80090c_compliant
get_seed_entropy_osr cfg digestsize_bits fully_seeded =
    let requested_bits = security_strength digestsize_bits in
    if sp80090c_compliant cfg && not fully_seeded
    then add32 requested_bits (seed_buffer_init_add_bits cfg)
    else requested_bits
