-- ===== src/Samples.antt =====
-- Configurations that the tests run under.
use lrng.Common.{true, false, ◌^◌}
use lrng.Config.{Config}

-- A FIPS kernel with SHA-256 and the default cutoffs of Kconfig.
abbrev pub fips : Config
fips = record {
  crypto_fips = true;
  fips_enabled = true;
  sha256 = true;
  switch = true;
  collection_size = 1024;
  rct_cutoff = 31;
  rct_cutoff_permanent = 81;
  apt_cutoff = 325;
  apt_cutoff_permanent = 371;
  panic_on_permanent_health_failure = false;
  ntg1 = false;
  force_seeding = true;
  max_wo_reseed = 2 ^ 30;
  reseed_max_time = 600;
  hz = 1000;
}
