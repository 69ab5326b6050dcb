-- ===== src/Interface/Kernel.antt =====
-- lrng_interface_random_kernel.c: the providers of entropy inside the kernel, and what they are told.
use lrng.Common.{
  ℕ, ◌*◌, ◌/◌, ◌%◌, ◌^◌, Bool, false, not, ◌&&◌, ◌||◌, ◌==◌, if◌then◌else◌, List, [], ◌∷◌, Option,
  none, some, bit_xor, u32, mul32, length,
}
use lrng.Config.{Config}
use lrng.Hash.{HashCb}
use lrng.DrngMgr.{Setup, drng_force_reseed}
use lrng.Interface.{
  PoolIn, Iface, noise_source_hw, pool_insert_aux, need_entropy, exseed_allow, exseed_set,
}

-- A callback for the end of the initialisation: called at once, or put on the chain.
pub data ReadyCall : Type 0 where
  called registered : ReadyCall

module _ {W D S : Type 0} (cfg : Config) (u : Setup W D) (cb : HashCb S) (at : PoolIn W S) where
  abbrev pub insert : List ℕ → ℕ → Iface W D → Iface W D
  insert inbuf bits s = record s { lrng = (pool_insert_aux cfg u cb at inbuf bits s.lrng).1 }

  -- The condition that `add_hwgenerator_randomness` waits for.
  unfoldable pub hw_ready : ℕ → Bool → Bool → Iface W D → Bool
  hw_ready entropy_bits sleep_after should_stop s =
      need_entropy cfg u cb at s.lrng && not (entropy_bits == 0)
      || exseed_allow noise_source_hw s
      || not sleep_after
      || should_stop

  -- The wait, over the states that the thread finds when it is woken; at their end a signal ends it.
  abbrev pub hw_wait : ℕ → Bool → Bool → Iface W D → List (Iface W D) → Iface W D
  hw_wait entropy_bits sleep_after should_stop s [] = s
  hw_wait entropy_bits sleep_after should_stop s (s' ∷ later) =
      let rest = hw_wait entropy_bits sleep_after should_stop s' later in
      if hw_ready entropy_bits sleep_after should_stop s then s else rest

  -- `add_hwgenerator_randomness`; how its wait ends is not looked at.
  unfoldable pub add_hwgenerator_randomness :
      List ℕ → ℕ → Bool → Bool → List (Iface W D) → Iface W D → Iface W D
  add_hwgenerator_randomness buffer entropy_bits sleep_after should_stop later s =
      let s' = hw_wait entropy_bits sleep_after should_stop s later in
      insert buffer (u32 entropy_bits) (exseed_set noise_source_hw false s')

  -- `add_bootloader_randomness`
  unfoldable pub add_bootloader_randomness : Bool → List ℕ → Iface W D → Iface W D
  add_bootloader_randomness trust buf s = insert buf (if trust then mul32 (length buf) 8 else 0) s

  -- `random_init_early`, apart from `lrng_rand_initialize_early`, and `add_device_randomness`
  unfoldable pub random_init_early : List ℕ → Iface W D → Iface W D
  random_init_early command_line s = insert command_line 0 s

  unfoldable pub add_device_randomness : List ℕ → Iface W D → Iface W D
  add_device_randomness buf s = insert buf 0 s

  -- `add_vmfork_randomness`, apart from the chain of notifiers
  unfoldable pub add_vmfork_randomness : List ℕ → Iface W D → Iface W D
  unfolding add_device_randomness
  add_vmfork_randomness unique_vm_id s =
      let s' = add_device_randomness unique_vm_id s in
      if s'.lrng.mgr.lrng_operational then record s' { lrng = drng_force_reseed s'.lrng } else s'

  -- `rng_is_initialized` and `execute_with_initialized_rng`
  unfoldable pub rng_is_initialized : Iface W D → Bool
  rng_is_initialized s = s.lrng.mgr.lrng_operational

  unfoldable pub execute_with_initialized_rng : Iface W D → ReadyCall
  unfolding rng_is_initialized
  execute_with_initialized_rng s = if rng_is_initialized s then called else registered

-- `add_input_randomness`: the word for the array of the CPU, if any, and the variable `last_value`, an
-- `unsigned char`.
unfoldable pub add_input_randomness : ℕ → ℕ → ℕ → ℕ → Option ℕ × ℕ
add_input_randomness type code value last_value =
    if value == last_value then (none, last_value) else (
      some (bit_xor (bit_xor (bit_xor (u32 (type * 2 ^ 4)) code) (code / 2 ^ 4)) value),
      value % 256,
    )
