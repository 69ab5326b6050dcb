-- ===== src/KernelRng/Tests.antt =====
-- The kernel's generator as a source, before and after it is initialised.
use lrng.Common.{◌≡◌, refl, true, false, replicate}
use lrng.Samples.{fips}
use lrng.Config.{Config}
use lrng.Definitions.{fast_noise_entropylevel}
use lrng.SeedBuffer.{EntropyBuf}
use lrng.KernelRng.{krng_boot, krng_entropylevel}

abbrev plain : Config
plain = record fips { fips_enabled = false }

abbrev empty : EntropyBuf
empty = record { e = replicate 6 (replicate 48 0); now = 5; e_bits = replicate 6 9 }

-- With a rate of 256, a request of 128 bits is credited in full before, and not at all after.
before : (krng_entropylevel plain false 128 (krng_boot 256)).0 ≡ 128
unfolding krng_entropylevel fast_noise_entropylevel
before = refl

after : (krng_entropylevel plain true 128 (krng_boot 256)).0 ≡ 0
unfolding krng_entropylevel fast_noise_entropylevel
after = refl
