-- ===== src/Config.antt =====
-- What the build and the kernel fix for the whole program: the Kconfig choices that the modelled
-- code reads, and the kernel's `fips_enabled`.
use lrng.Common.{ℕ, Bool}

pub record Config : Type 0 where
  -- CONFIG_CRYPTO_FIPS and the kernel's `fips_enabled`
  pub crypto_fips : Bool
  pub fips_enabled : Bool
  -- CONFIG_LRNG_SHA256 (SHA-1 otherwise) and CONFIG_LRNG_SWITCH
  pub sha256 : Bool
  pub switch : Bool
  -- CONFIG_LRNG_COLLECTION_SIZE
  pub collection_size : ℕ
  -- CONFIG_LRNG_RCT_CUTOFF and its neighbours
  pub rct_cutoff : ℕ
  pub rct_cutoff_permanent : ℕ
  pub apt_cutoff : ℕ
  pub apt_cutoff_permanent : ℕ
  -- the module parameters `lrng_panic_on_permanent_health_failure` and `ntg1`
  pub panic_on_permanent_health_failure : Bool
  pub ntg1 : Bool
  -- the module parameters `force_seeding` and `max_wo_reseed`, the sysctl value
  -- `lrng_drng_reseed_max_time`, and the kernel's HZ
  pub force_seeding : Bool
  pub max_wo_reseed : ℕ
  pub reseed_max_time : ℕ
  pub hz : ℕ
