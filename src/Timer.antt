-- ===== src/Timer.antt =====
-- lrng_es_timer_common.c and lrng_es_timer_common.h: the common divisor of the time stamps, and the
-- slots that time stamps are stored in. `gcd` is the kernel's greatest common divisor.
pub mod Divisor
mod Tests
use lrng.Common.{
  ℕ, suc, ◌+◌, ◌*◌, ◌/◌, ◌^◌, ◌-◌, Bool, not, ◌==◌, ltb, leb, if◌then◌else◌, List, [], ◌∷◌, map,
  add32, u32, bit_and, set, replicate,
}

abbrev pub gcd_window_size : ℕ
gcd_window_size = 100

-- `lrng_gcd_history`, `lrng_gcd_history_ptr` and `lrng_gcd_timer`
pub record GcdState : Type 0 where
  pub gcd_history : List ℕ
  pub gcd_history_ptr : ℕ
  pub gcd_timer : ℕ

abbrev pub gcd_init : GcdState
gcd_init = record {
  gcd_history = replicate gcd_window_size 0;
  gcd_history_ptr = 2 ^ 32 - 1;
  gcd_timer = 0;
}

unfoldable pub gcd_tested : GcdState → Bool
gcd_tested s = not (s.gcd_timer == 0)

-- `lrng_gcd_set` and `lrng_gcd_set_check`
unfoldable pub gcd_set : ℕ → GcdState → GcdState
gcd_set running_gcd s = record s { gcd_timer = running_gcd }

unfoldable pub gcd_set_check : ℕ → GcdState → GcdState
unfolding gcd_tested gcd_set
gcd_set_check running_gcd s = if not (gcd_tested s) then gcd_set running_gcd s else s

module _ (gcd : ℕ → ℕ → ℕ) where
  -- The loop of `lrng_gcd_analyze`, from a running value, and the whole with the cleared history.
  abbrev pub analyze_from : ℕ → List ℕ → ℕ
  analyze_from running_gcd [] = running_gcd
  analyze_from running_gcd (h ∷ hs) = analyze_from (u32 (gcd h running_gcd)) hs

  unfoldable pub gcd_analyze : List ℕ → ℕ × List ℕ
  gcd_analyze history = (analyze_from 0 history, map (λ _. 0) history)

  -- The divisor is at least 1 and at most 1000.
  unfoldable pub cap_gcd : ℕ → ℕ
  cap_gcd g = if g == 0 then 1 else if leb 1000 g then 1000 else g

  -- `lrng_gcd_add_value`
  unfoldable pub gcd_add_value : ℕ → GcdState → GcdState
  unfolding gcd_analyze gcd_set_check cap_gcd
  gcd_add_value time s =
      let ptr = add32 s.gcd_history_ptr 1 in
      let (g, cleared) = gcd_analyze s.gcd_history in
      let s' = record s { gcd_history_ptr = ptr } in
      if ltb ptr gcd_window_size
      then record s' { gcd_history = set s.gcd_history ptr time }
      else if ptr == gcd_window_size
      then record (gcd_set_check (cap_gcd g) (record s' { gcd_history = cleared })) {
        gcd_history_ptr = 0;
      }
      else s'

-- LRNG_DATA_SLOTSIZE_BITS and its neighbours
abbrev pub data_slotsize_bits : ℕ
data_slotsize_bits = 8

abbrev pub data_slots_per_uint : ℕ
data_slots_per_uint = 32 / 8

unfoldable pub data_idx2array : ℕ → ℕ
data_idx2array idx = idx / data_slots_per_uint

unfoldable pub data_idx2slot : ℕ → ℕ
data_idx2slot idx = bit_and idx (data_slots_per_uint - 1)

unfoldable pub data_slot2bitindex : ℕ → ℕ
data_slot2bitindex slot = u32 (data_slotsize_bits * slot)

unfoldable pub data_slot_val : ℕ → ℕ → ℕ
unfolding data_slot2bitindex
data_slot_val val slot = u32 (val * 2 ^ data_slot2bitindex slot)
