-- ===== src/IrqSource.antt =====
-- lrng_es_irq.c, the collected data: the pools of the online CPUs, as hash states, with the count of
-- events in each, and how a seed is drawn from all of them. A CPU's pool belongs to the hash callbacks
-- of the DRNG of its node; the seed is hashed with those of the initial DRNG. `stack` is what the
-- message digest buffer and the hash state on the stack hold before.
pub mod Collect
pub mod Ledger
pub mod Source
pub mod Switch
pub mod Insert
pub mod Overwrite
pub mod Interrupt
pub mod Run
pub mod Traces
mod Tests
use lrng.Common.{
  ℕ, suc, ◌+◌, ◌-◌, ◌*◌, ◌/◌, ◌^◌, Bool, true, false, not, ◌==◌, ltb, if◌then◌else◌, List, [], ◌∷◌,
  ◌++◌, Option, none, some, u32, add32, sub32, mul32, min_u32, max_u32, take, map,
}
use lrng.Config.{Config}
use lrng.Definitions.{
  entropy_to_data, data_to_entropy, reduce_by_osr, compress_osr, security_strength,
}
use lrng.Hash.{HashCb, overlay}
use lrng.HealthState.{Health, StuckArray, irq}
use lrng.Health.{startup_complete_es}
use lrng.Timer.{GcdState, gcd_set}
use lrng.SeedBuffer.{EntropyBuf, set_bits, copy_row, es_irq, words}

-- `lrng_irq_array`, `lrng_irq_array_ptr`, `lrng_irq_array_irqs`, `lrng_irq_pool` and
-- `lrng_irq_lock_init` of one CPU, with its entry of `lrng_stuck_test_array`, its node and the callbacks for its
-- pool.
pub record Pcpu (S : Type 0) : Type 0 where
  pub irq_array : List ℕ
  pub irq_array_ptr : ℕ
  pub irq_array_irqs : ℕ
  pub irq_pool : S
  pub irq_lock_init : Bool
  pub stuck_test : StuckArray
  pub node : ℕ
  pub hash_cb : HashCb S

-- The online CPUs, `lrng_irq_entropy_bits`, `lrng_irq_continuous_compression`, and the health tests
-- and the common divisor that the source uses.
pub record IrqState (S : Type 0) : Type 0 where
  pub cpus : List (Pcpu S)
  pub entropy_bits : ℕ
  pub continuous_compression : Bool
  pub health : Health
  pub gcd : GcdState

-- LRNG_DATA_NUM_VALUES and LRNG_DATA_WORD_MASK
abbrev pub data_num_values : Config → ℕ
data_num_values cfg = cfg.collection_size

module _ {S : Type 0} where
  -- `atomic_set(lrng_irq_array_irqs)`
  abbrev pub set_irqs : ℕ → Pcpu S → Pcpu S
  set_irqs n c = record c { irq_array_irqs = n }

  -- `lrng_irq_reset`
  unfoldable pub irq_reset : IrqState S → IrqState S
  irq_reset s = record s { gcd = gcd_set 0 s.gcd; cpus = map (set_irqs 0) s.cpus }

module _ {S : Type 0} (cfg : Config) where
  -- `lrng_irq_check_compression_state`; `digestsize` is that of the auxiliary pool, in bits.
  unfoldable pub irq_check_compression_state : ℕ → IrqState S → IrqState S
  irq_check_compression_state digestsize s =
      let max_ent = min_u32 digestsize (data_to_entropy (data_num_values cfg) s.entropy_bits) in
      if s.continuous_compression
      then s
      else if ltb max_ent (security_strength digestsize)
      then record s { continuous_compression = true }
      else s

  -- `lrng_irq_es_init`, from the parameter `irq_entropy` and the configured LRNG_IRQ_ENTROPY_BITS and
  -- LRNG_ES_OVERSAMPLING_FACTOR
  unfoldable pub irq_es_init : ℕ → ℕ → ℕ → Bool → ℕ → IrqState S → IrqState S
  irq_es_init conf_bits oversampling digestsize highres_timer irq_entropy s =
      let rate = max_u32 conf_bits irq_entropy in
      let new_entropy = mul32 rate oversampling in
      let bits =
        if highres_timer then rate else if ltb rate new_entropy then new_entropy else rate in
      irq_check_compression_state digestsize (record s { entropy_bits = bits })

  -- `lrng_irq_avail_pool_size`
  abbrev pub count_pools : ℕ → List (Pcpu S) → ℕ → ℕ
  count_pools max_pool [] acc = acc
  count_pools max_pool (c ∷ cs) acc =
      count_pools max_pool cs (if c.irq_lock_init then add32 acc max_pool else acc)

  unfoldable pub irq_avail_pool_size : ℕ → IrqState S → ℕ
  irq_avail_pool_size digestsize s =
      count_pools
        (if s.continuous_compression then digestsize else min_u32 digestsize (data_num_values cfg))
        s.cpus 0

  -- `lrng_irq_avail_entropy`
  abbrev pub count_irqs : ℕ → List (Pcpu S) → ℕ → ℕ
  count_irqs cap [] acc = acc
  count_irqs cap (c ∷ cs) acc =
      count_irqs cap cs (if c.irq_lock_init then add32 acc (min_u32 cap c.irq_array_irqs) else acc)

  unfoldable pub irq_avail_entropy : ℕ → IrqState S → ℕ
  irq_avail_entropy digestsize s =
      let digest_irqs = entropy_to_data digestsize s.entropy_bits in
      let cap =
        if s.continuous_compression
        then digest_irqs
        else min_u32 digest_irqs (data_num_values cfg) in
      if not (startup_complete_es cfg s.health irq)
      then 0
      else reduce_by_osr cfg (data_to_entropy (count_irqs cap s.cpus 0) s.entropy_bits)
