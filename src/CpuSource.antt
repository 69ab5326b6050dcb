-- ===== src/CpuSource.antt =====
-- lrng_es_cpu.c: the rate of the CPU entropy source, its multiplier of data and the switch of the
-- hash. CpuSource.Collect draws data from the processor, and CpuSource.Compress the seed.
pub mod Collect
pub mod Compress
pub mod Credit
pub mod Overrun
mod Tests
use lrng.Common.{ℕ, Bool, not, ◌&&◌, ltb, if◌then◌else◌, min_u32}
use lrng.Config.{Config}
use lrng.Definitions.{drng_security_strength_bits, fast_noise_entropylevel, security_strength}
use lrng.AuxPool.{eopnotsupp}

-- The architecture of the build, CONFIG_LRNG_CPU_ENTROPY_RATE and
-- CONFIG_LRNG_CPU_FULL_ENT_MULTIPLIER.
pub record CpuConfig : Type 0 where
  pub x86 : Bool
  pub ppc : Bool
  pub riscv : Bool
  pub cpu_entropy_rate : ℕ
  pub cpu_full_ent_multiplier : ℕ

-- `cpu_entropy`, and the variable that `lrng_cpu_multiplier` keeps.
pub record Cpu : Type 0 where
  pub cpu_entropy : ℕ
  pub data_multiplier : ℕ

-- The part of `lrng_parse_trust_cpu` behind the parsing and before the forced seeding
unfoldable pub trust_cpu : CpuConfig → Bool → Cpu → Cpu
trust_cpu arch trust c = record c {
  cpu_entropy = if trust then drng_security_strength_bits else arch.cpu_entropy_rate;
}

unfoldable pub cpu_entropylevel : ℕ → Cpu → ℕ
cpu_entropylevel requested_bits c = fast_noise_entropylevel c.cpu_entropy requested_bits

-- `lrng_cpu_poolsize`, over the digest size that the auxiliary pool reports
unfoldable pub cpu_poolsize : ℕ → Cpu → ℕ
unfolding cpu_entropylevel
cpu_poolsize digestsize c = cpu_entropylevel (security_strength digestsize) c

-- `lrng_cpu_multiplier`; `seed_longs` is what `arch_get_random_seed_longs` gives for one word.
unfoldable pub cpu_multiplier : CpuConfig → ℕ → Cpu → ℕ × Cpu
cpu_multiplier arch seed_longs c =
    let m =
      if ltb 0 c.data_multiplier
      then c.data_multiplier
      else if arch.x86 && not (ltb 0 seed_longs)
      then 512
      else if arch.ppc
      then 2
      else if arch.riscv
      then 2
      else arch.cpu_full_ent_multiplier in
    (m, record c { data_multiplier = m })

-- `lrng_cpu_switch_hash`; the warning changes nothing.
unfoldable pub cpu_switch_hash : Config → CpuConfig → ℕ → ℕ → Cpu → ℕ × Cpu
unfolding cpu_multiplier
cpu_switch_hash cfg arch seed_longs digestsize c =
    let c' = (cpu_multiplier arch seed_longs c).1 in
    if not cfg.switch
    then (eopnotsupp, c)
    else (0, record c' { cpu_entropy = min_u32 digestsize c'.cpu_entropy })
