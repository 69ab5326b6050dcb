-- ===== src/IrqSource/Overwrite.antt =====
-- A 32-bit word that enters the array goes over the time stamp before it.
use lrng.Common.{
  ℕ, zero, suc, ◌-◌, ◌*◌, ◌%◌, ◌^◌, ◌<◌, ◌≡◌, refl, sym, ◌∙◌, ap, Bool, true, false, ltb,
  if◌then◌else◌, List, [], ◌∷◌, add32, sub32, bit_and, get_or, set, arith,
}
use lrng.Common.Bits.{bit_and_mask, bit_or-mod}
use lrng.Config.{Config}
use lrng.Timer.{
  data_slots_per_uint, data_slotsize_bits, data_idx2array, data_idx2slot, data_slot_val,
  data_slot2bitindex,
}
use lrng.IrqSource.{Pcpu}
use lrng.IrqSource.Insert.{
  Insertion, not32, data_word_mask, data_split_u32, irq_array_to_hash, put_msb,
  irq_array_add_u32_always, put_slot, irq_array_add_slot,
}

slot_val-low : (slot t : ℕ) → slot < 4 → data_slot_val t slot % 2 ^ (slot * 8) ≡ 0
unfolding data_slot_val data_slot2bitindex
slot_val-low zero t s = omega arith
slot_val-low (suc zero) t s = omega arith
slot_val-low (suc (suc zero)) t s = omega arith
slot_val-low (suc (suc (suc zero))) t s = omega arith
slot_val-low (suc (suc (suc (suc n)))) t s = absurd (omega arith)

-- The unit with its slot empty.
abbrev emptied : ℕ → ℕ → ℕ
emptied slot unit = bit_and unit (not32 (data_slot_val (bit_and (2 ^ 32 - 1) 255) slot))

-- The low bits of a unit do not depend on what was put into a slot above them.
put_slot-low :
    (slot t unit : ℕ)
    → slot < 4
    → bit_and (put_slot slot t unit) (2 ^ (slot * 8) - 1)
      ≡ bit_and (emptied slot unit) (2 ^ (slot * 8) - 1)
unfolding put_slot
put_slot-low slot t unit s =
    bit_and_mask (slot * 8) (put_slot slot t unit)
    ∙ bit_or-mod (slot * 8) (emptied slot unit) (data_slot_val t slot) (slot_val-low slot t s)
    ∙ sym (bit_and_mask (slot * 8) (emptied slot unit))

-- `0xffffffff & ~mask`, inverted again
mask_twice :
    (slot : ℕ)
    → slot < 4
    → not32 (bit_and (2 ^ 32 - 1) (not32 (2 ^ (slot * 8) - 1))) ≡ 2 ^ (slot * 8) - 1
mask_twice zero s = refl
mask_twice (suc zero) s = refl
mask_twice (suc (suc zero)) s = refl
mask_twice (suc (suc (suc zero))) s = refl
mask_twice (suc (suc (suc (suc n)))) s = absurd (omega arith)

-- The upper bytes of a word, put over a time stamp, leave nothing of it.
put_msb-put_slot :
    (slot word t t' unit : ℕ)
    → slot < 4
    → put_msb (2 ^ (slot * 8) - 1) word (put_slot slot t unit)
      ≡ put_msb (2 ^ (slot * 8) - 1) word (put_slot slot t' unit)
unfolding put_msb
put_msb-put_slot slot word t t' unit s =
    rw (mask_twice slot s, put_slot-low slot t unit s, put_slot-low slot t' unit s) refl

-- The array with a time stamp and a word in it, as one write.
set_twice :
    (xs : List ℕ) (i word slot t t' : ℕ)
    → slot < 4
    → let write : ℕ → List ℕ = λ x. set xs i (put_slot slot x (get_or xs i 0)) in
      let over : List ℕ → List ℕ =
        λ ys. set ys i (put_msb (2 ^ (slot * 8) - 1) word (get_or ys i 0)) in
      over (write t) ≡ over (write t')
set_twice [] i word slot t t' s = refl
set_twice (x ∷ xs) zero word slot t t' s = ap (◌∷ xs) (put_msb-put_slot slot word t t' x s)
set_twice (x ∷ xs) (suc i) word slot t t' s = ap (◌∷◌ x) (set_twice xs i word slot t t' s)

module _ (cfg : Config) {S : Type 0} (ins : Insertion) where
  -- The state with a time stamp in its slot, where the array is not yet full.
  abbrev stamped : ℕ → Pcpu S → Pcpu S
  stamped t c =
      let next = add32 c.irq_array_ptr 1 in
      let ptr = bit_and next (data_word_mask cfg) in
      let array = data_idx2array ptr in
      record c {
        irq_array_ptr = next;
        irq_array =
            set c.irq_array array (put_slot (data_idx2slot ptr) t (get_or c.irq_array array 0));
      }

  add_slot-stamped :
      (t : ℕ) (c : Pcpu S)
      → ins.fully_seeded ≡ true
      → bit_and (add32 c.irq_array_ptr 1) (data_word_mask cfg) < data_word_mask cfg
      → irq_array_add_slot cfg ins t c ≡ (stamped t c, false)
  unfolding irq_array_add_slot irq_array_to_hash
  add_slot-stamped t c seeded early =
      let is_early : ltb (bit_and (add32 c.irq_array_ptr 1) (data_word_mask cfg))
            (data_word_mask cfg)
          ≡ true =
        ground (arith, early) in
      rw (seeded, is_early) refl

  -- What follows the write of the upper bytes.
  abbrev finish_u32 : ℕ → ℕ → Pcpu S → Pcpu S × Bool
  finish_u32 word pre_ptr c1 =
      let (ptr, pre, mask) = data_split_u32 cfg c1.irq_array_ptr in
      let put_lsb : Pcpu S → Pcpu S =
        λ d. record d { irq_array = set d.irq_array (data_idx2array ptr) (bit_and word mask) } in
      let full = irq_array_to_hash cfg ins (data_word_mask cfg) c1 in
      if ltb ptr pre_ptr
      then (put_lsb full.0, full.1)
      else irq_array_to_hash cfg ins ptr (put_lsb c1)

  -- The state after the upper bytes of a word went over the slot.
  abbrev half_over : ℕ → ℕ → Pcpu S → Pcpu S
  half_over word p d = record d {
    irq_array_ptr = add32 d.irq_array_ptr data_slots_per_uint;
    irq_array = set d.irq_array (data_idx2array p) (
        put_msb (2 ^ (bit_and p (data_slots_per_uint - 1) * data_slotsize_bits) - 1) word
          (get_or d.irq_array (data_idx2array p) 0));
  }

  add_u32-half_over :
      (word : ℕ) (d : Pcpu S)
      → d.irq_array_ptr < 2 ^ 32
      → let p = bit_and d.irq_array_ptr (data_word_mask cfg) in
        irq_array_add_u32_always cfg ins word d ≡ finish_u32 word p (half_over word p d)
  unfolding irq_array_add_u32_always data_split_u32
  add_u32-half_over word d small =
      let back : sub32 (add32 d.irq_array_ptr data_slots_per_uint) data_slots_per_uint
          ≡ d.irq_array_ptr =
        omega (arith, small) in
      rw back refl

  -- A word that enters the array right after a time stamp, while the array is not full and the LRNG is
  -- fully seeded, goes over the time stamp: the state of the CPU is the same whatever it was.
  pub irq_array_add_u32-overwrites :
      (word t t' : ℕ) (c : Pcpu S)
      → ins.fully_seeded ≡ true
      → bit_and (add32 c.irq_array_ptr 1) (data_word_mask cfg) < data_word_mask cfg
      → irq_array_add_u32_always cfg ins word (irq_array_add_slot cfg ins t c).0
        ≡ irq_array_add_u32_always cfg ins word (irq_array_add_slot cfg ins t' c).0
  unfolding data_idx2slot
  irq_array_add_u32-overwrites word t t' c seeded early =
      let next = add32 c.irq_array_ptr 1 in
      let p = bit_and next (data_word_mask cfg) in
      let slot = bit_and p (data_slots_per_uint - 1) in
      let four : slot < 4 = omega (arith, bit_and_mask 2 p) in
      let same = set_twice c.irq_array (data_idx2array p) word slot t t' four in
      let word_ptr : next < 2 ^ 32 = omega arith in
      rw (add_slot-stamped t c seeded early, add_slot-stamped t' c seeded early)
        (add_u32-half_over word (stamped t c) word_ptr
          ∙ ap
              (λ a.
                finish_u32 word p
                  (record c { irq_array_ptr = add32 next data_slots_per_uint; irq_array = a }))
              same
          ∙ sym (add_u32-half_over word (stamped t' c) word_ptr))
