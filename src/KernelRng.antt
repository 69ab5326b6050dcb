-- ===== src/KernelRng.antt =====
-- lrng_es_krng.c: the random number generator of the kernel as an entropy source. Whether that
-- generator is initialised (`rng_is_initialized`) and the bytes it gives are arguments.
pub mod Rate
mod Tests
use lrng.Common.{
  ℕ, ◌/◌, ◌^◌, Bool, true, false, not, ◌&&◌, ◌==◌, if◌then◌else◌, List, [], ◌∷◌, take,
}
use lrng.Config.{Config}
use lrng.Definitions.{fast_noise_entropylevel, security_strength}
use lrng.SeedBuffer.{EntropyBuf, es_krng, set_bits, copy_row}

-- The calls out of the file: `lrng_drng_force_reseed` and `lrng_es_add_entropy`.
pub data KrngCall : Type 0 where
  drng_force_reseed es_add_entropy : KrngCall

-- `krng_entropy`, `lrng_krng_initial_rate` and the flag `init` of `lrng_krng_entropylevel`, with the
-- calls made, newest first.
pub record Krng : Type 0 where
  pub krng_entropy : ℕ
  pub krng_initial_rate : ℕ
  pub init : Bool
  pub calls : List KrngCall

-- The state at boot, from CONFIG_LRNG_KERNEL_RNG_ENTROPY_RATE or the module parameter of the command line.
abbrev pub krng_boot : ℕ → Krng
krng_boot rate = record { krng_entropy = rate; krng_initial_rate = 0; init = false; calls = [] }

-- A write of the module parameter `krng_entropy` at runtime, where CONFIG_LRNG_RUNTIME_ES_CONFIG is set.
abbrev pub write_krng_entropy : ℕ → Krng → Krng
write_krng_entropy rate k = record k { krng_entropy = rate }

module _ (cfg : Config) where
  unfoldable pub krng_fips_entropylevel : ℕ → ℕ
  krng_fips_entropylevel entropylevel = if cfg.fips_enabled then 0 else entropylevel

  -- `lrng_krng_adjust_entropy`
  unfoldable pub krng_adjust_entropy : Krng → Krng
  unfolding krng_fips_entropylevel
  krng_adjust_entropy k =
      let k' = record k {
        krng_entropy = k.krng_initial_rate;
        calls = drng_force_reseed ∷ k.calls;
      } in
      if krng_fips_entropylevel k.krng_initial_rate == 0
      then k'
      else record k' { calls = es_add_entropy ∷ k'.calls }

  -- `lrng_krng_entropylevel`
  unfoldable pub krng_entropylevel : Bool → ℕ → Krng → ℕ × Krng
  unfolding krng_fips_entropylevel krng_adjust_entropy
  krng_entropylevel initialized requested_bits k =
      let k' =
        if not k.init && initialized then krng_adjust_entropy (record k { init = true }) else k in
      (fast_noise_entropylevel (krng_fips_entropylevel k'.krng_entropy) requested_bits, k')

  -- `lrng_krng_poolsize`, over the digest size that the auxiliary pool reports
  unfoldable pub krng_poolsize : Bool → ℕ → Krng → ℕ × Krng
  unfolding krng_entropylevel security_strength
  krng_poolsize initialized digestsize k =
      krng_entropylevel initialized (security_strength digestsize) k

  -- `lrng_krng_get`; `random` is what `get_random_bytes` gives, as long as asked for.
  unfoldable pub krng_get : Bool → List ℕ → ℕ → EntropyBuf → Krng → EntropyBuf × Krng
  krng_get initialized random requested_bits eb k =
      let (ent_bits, k') = krng_entropylevel initialized requested_bits k in
      (set_bits es_krng ent_bits (copy_row es_krng (take (requested_bits / 2 ^ 3) random) eb), k')
