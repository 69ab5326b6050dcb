-- ===== src/IrqSource/Interrupt.antt =====
-- lrng_es_irq.c: what an interrupt adds. The functions of lrng_testing.h, which say whether a value goes
-- to the testing interface, are the fields of `Hooks`; `gcd` is the kernel's greatest common divisor.
use lrng.Common.{
  ℕ, ◌/◌, ◌^◌, Bool, false, not, if◌then◌else◌, Option, none, some, u32, add32, bit_and, bit_xor,
  get_elem?, set, ◌>>=◌, ◌||◌,
}
use lrng.Config.{Config}
use lrng.HealthState.{HealthRes, pass, fail_use, fail_drop, irq}
use lrng.Health.{health_test, startup_complete_es}
use lrng.Timer.{gcd_tested, gcd_add_value}
use lrng.IrqSource.{Pcpu, IrqState, set_irqs}
use lrng.IrqSource.Insert.{Insertion, irq_array_add_u32_always, irq_array_add_slot}

pub record Hooks : Type 0 where
  pub raw_hires : ℕ → Bool
  pub raw_array : ℕ → Bool
  pub raw_regs : ℕ → Bool
  pub raw_jiffies : ℕ → Bool
  pub raw_irq : ℕ → Bool
  pub raw_retip : ℕ → Bool

-- An interrupt: the cycle counter, its number, the jiffies, the return address, and the register word
-- and the instruction pointer if there are registers.
pub record Interrupt : Type 0 where
  pub now_time : ℕ
  pub number : ℕ
  pub jiffies : ℕ
  pub ret_ip : ℕ
  pub regs : Option (ℕ × ℕ)

abbrev pub unless : (ℕ → Bool) → ℕ → ℕ
unless hook value = if hook value then 0 else value

-- The word that an interrupt adds beside its time stamp, without a high-resolution timer.
abbrev pub other_word : Hooks → Interrupt → ℕ
other_word hooks i =
    let ip : ℕ = elim i.regs [ none ↦ i.ret_ip | some r ↦ r.1 ] in
    let jiffies = u32 (unless hooks.raw_jiffies i.jiffies) in
    let number = u32 (unless hooks.raw_irq i.number) in
    let address = u32 (unless hooks.raw_retip ip) in
    bit_xor (bit_xor (bit_xor jiffies number) address) (u32 (ip / 2 ^ 32))

module _ (cfg : Config) (hooks : Hooks) (gcd : ℕ → ℕ → ℕ) {S : Type 0} (lrng_seeded : Bool)
    (cpu : ℕ) where
  abbrev pub insertion : IrqState S → Insertion
  insertion s = record {
    continuous_compression = s.continuous_compression;
    fully_seeded = lrng_seeded;
    startup_complete = startup_complete_es cfg s.health irq;
    raw_array = hooks.raw_array;
  }

  -- An operation on the CPU that the interrupt runs on, and whether it pings the manager.
  abbrev pub on_cpu : (Pcpu S → Pcpu S × Bool) → IrqState S → IrqState S × Bool
  on_cpu f s = elim (get_elem? s.cpus cpu) [
    | none ↦ (s, false)
    | some c ↦ (record s { cpus = set s.cpus cpu (f c).0 }, (f c).1)
  ]

  abbrev pub add_u32 : ℕ → IrqState S → IrqState S × Bool
  add_u32 word s = on_cpu (irq_array_add_u32_always cfg (insertion s) word) s

  abbrev pub add_slot : ℕ → IrqState S → IrqState S × Bool
  add_slot time s = on_cpu (irq_array_add_slot cfg (insertion s) time) s

  -- What follows the health test in `lrng_time_process_common`.
  unfoldable pub process_tested :
      (ℕ → IrqState S → IrqState S × Bool) → ℕ → HealthRes → IrqState S → IrqState S × Bool
  process_tested add_time time pass s =
      add_time time (on_cpu (λ c. (set_irqs (add32 c.irq_array_irqs 1) c, false)) s).0
  process_tested add_time time fail_use s = add_time time s
  process_tested add_time time fail_drop s = (s, false)

  -- `lrng_time_process_common`; no result is a panic of the kernel.
  unfoldable pub time_process_common :
      ℕ → (ℕ → IrqState S → IrqState S × Bool) → IrqState S → Option (IrqState S × Bool)
  time_process_common time add_time s =
      let tested : Option (IrqState S × Bool) = get_elem? s.cpus cpu >>= λ c.
      health_test cfg s.health c.stuck_test time irq >>= λ r. some (
        process_tested add_time time r.0
          (record s { health = r.1; cpus = set s.cpus cpu (record c { stuck_test = r.2 }) })) in
      if hooks.raw_hires time then some (s, false) else tested

  -- `lrng_time_process`
  unfoldable pub time_process : ℕ → IrqState S → Option (IrqState S × Bool)
  time_process now_time s =
      let full : Option (IrqState S × Bool) = time_process_common now_time add_u32 s >>= λ r.
      some (record (r.0) { gcd = gcd_add_value gcd now_time r.0.gcd }, r.1) in
      let slot : Option (IrqState S × Bool) =
        time_process_common (bit_and (now_time / s.gcd.gcd_timer) 255) add_slot s in
      if not (gcd_tested s.gcd) then full else slot

  -- `add_interrupt_randomness`
  unfoldable pub add_interrupt_randomness :
      Bool → Interrupt → IrqState S → Option (IrqState S × Bool)
  add_interrupt_randomness highres_timer i s =
      let first : IrqState S × Bool = elim i.regs [
        | none ↦ (s, false)
        | some r ↦ add_u32 (unless hooks.raw_regs r.0) s
      ] in
      let low : Option (IrqState S × Bool) = time_process i.now_time first.0 >>= λ r.
      let last = add_u32 (other_word hooks i) r.0 in some (last.0, first.1 || r.1 || last.1) in
      if highres_timer then time_process i.now_time s else low
