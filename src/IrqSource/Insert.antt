-- ===== src/IrqSource/Insert.antt =====
-- lrng_es_irq.c: how time stamps and 32-bit words enter the array of a CPU, and the compression of the
-- array into its pool. `raw_array` is `lrng_raw_array_entropy_store`, which says whether the array goes
-- to the testing interface.
use lrng.Common.{
  ℕ, ◌-◌, ◌*◌, ◌^◌, Bool, true, false, not, ◌&&◌, ◌==◌, ltb, if◌then◌else◌, add32, sub32, bit_and,
  bit_or, get_or, set,
}
use lrng.Config.{Config}
use lrng.SeedBuffer.{words}
use lrng.Timer.{
  data_slots_per_uint, data_slotsize_bits, data_idx2array, data_idx2slot, data_slot_val,
}
use lrng.IrqSource.{Pcpu, data_num_values, set_irqs}

-- `~x` on 32 bits
abbrev pub not32 : ℕ → ℕ
not32 x = 2 ^ 32 - 1 - x

abbrev pub data_word_mask : Config → ℕ
data_word_mask cfg = data_num_values cfg - 1

-- What the insertion depends on: whether the pools are compressed continuously, the LRNG is fully
-- seeded and the startup test is complete.
pub record Insertion : Type 0 where
  pub continuous_compression : Bool
  pub fully_seeded : Bool
  pub startup_complete : Bool
  pub raw_array : ℕ → Bool

-- The previous unit after the upper bytes of a word went into it.
unfoldable pub put_msb : ℕ → ℕ → ℕ → ℕ
put_msb mask value unit =
    bit_or (bit_and unit (not32 (bit_and (2 ^ 32 - 1) (not32 mask)))) (bit_and value (not32 mask))

-- A unit after a value went into one of its slots.
unfoldable pub put_slot : ℕ → ℕ → ℕ → ℕ
put_slot slot value unit =
    bit_or (bit_and unit (not32 (data_slot_val (bit_and (2 ^ 32 - 1) 255) slot)))
      (data_slot_val value slot)

module _ (cfg : Config) where
  -- `lrng_data_split_u32`: the current and the previous index, and the mask.
  unfoldable pub data_split_u32 : ℕ → ℕ × ℕ × ℕ
  data_split_u32 ptr =
      let pre_ptr = bit_and (sub32 ptr data_slots_per_uint) (data_word_mask cfg) in
      (
        bit_and ptr (data_word_mask cfg),
        pre_ptr,
        2 ^ (bit_and pre_ptr (data_slots_per_uint - 1) * data_slotsize_bits) - 1,
      )

  module _ {S : Type 0} (ins : Insertion) where
    -- `lrng_irq_array_compress`
    unfoldable pub irq_array_compress : Pcpu S → Pcpu S
    irq_array_compress c =
        let (r, fresh) = c.hash_cb.hash_init c.irq_pool in
        let pool = if c.irq_lock_init then c.irq_pool else fresh in
        let updated = (c.hash_cb.hash_update pool (words c.irq_array)).1 in
        if not c.irq_lock_init && not (r == 0)
        then record c { irq_pool = fresh; irq_lock_init = false }
        else if ins.continuous_compression
        then record c { irq_pool = updated; irq_lock_init = true }
        else record c { irq_pool = pool; irq_lock_init = true }

    -- `lrng_irq_array_to_hash`, and whether it tells the manager about new entropy
    unfoldable pub irq_array_to_hash : ℕ → Pcpu S → Pcpu S × Bool
    irq_array_to_hash ptr c =
        let early =
          if ins.fully_seeded
          then ltb ptr (data_word_mask cfg)
          else not (bit_and ptr 31 == 0) && ltb ptr (data_word_mask cfg) in
        if early
        then (c, false)
        else if ins.raw_array (get_or c.irq_array 0 0)
        then (set_irqs 0 c, false)
        else (irq_array_compress c, ins.startup_complete)

    -- `_lrng_irq_array_add_u32`
    unfoldable pub irq_array_add_u32_always : ℕ → Pcpu S → Pcpu S × Bool
    irq_array_add_u32_always value c =
        let next = add32 c.irq_array_ptr data_slots_per_uint in
        let (ptr, pre_ptr, mask) = data_split_u32 next in
        let pre_array = data_idx2array pre_ptr in
        let unit = get_or c.irq_array pre_array 0 in
        let c1 = record c {
          irq_array_ptr = next;
          irq_array = set c.irq_array pre_array (put_msb mask value unit);
        } in
        let put_lsb : Pcpu S → Pcpu S =
          λ d. record d { irq_array = set d.irq_array (data_idx2array ptr) (bit_and value mask) } in
        let full = irq_array_to_hash (data_word_mask cfg) c1 in
        if ltb ptr pre_ptr then (put_lsb full.0, full.1) else irq_array_to_hash ptr (put_lsb c1)

    -- `lrng_irq_array_add_u32`
    unfoldable pub irq_array_add_u32 : ℕ → Pcpu S → Pcpu S × Bool
    irq_array_add_u32 value c =
        if ins.continuous_compression then irq_array_add_u32_always value c else (c, false)

    -- `lrng_irq_array_add_slot`
    unfoldable pub irq_array_add_slot : ℕ → Pcpu S → Pcpu S × Bool
    irq_array_add_slot value c =
        let next = add32 c.irq_array_ptr 1 in
        let ptr = bit_and next (data_word_mask cfg) in
        let array = data_idx2array ptr in
        let unit = get_or c.irq_array array 0 in
        irq_array_to_hash ptr (record c {
          irq_array_ptr = next;
          irq_array = set c.irq_array array (put_slot (data_idx2slot ptr) value unit);
        })
