-- ===== src/Interface/Providers.antt =====
-- What the providers inside the kernel add to the entropy of the auxiliary pool.
use lrng.Common.{
  ℕ, ◌+◌, ◌*◌, ◌≤◌, ◌≡◌, ap, Bool, false, if◌then◌else◌, List, length, min, u32, mul32, arith,
  if_intro,
}
use lrng.Config.{Config}
use lrng.Hash.{HashCb}
use lrng.ManagerState.{Manager}
use lrng.DrngMgr.{Setup, drng_force_reseed}
use lrng.Interface.{PoolIn, Iface, noise_source_hw, exseed_set}
use lrng.Interface.Credit.{held, pool_insert_aux-le, force_reseed-mgr}
use lrng.Interface.Kernel.{
  insert, hw_wait, add_hwgenerator_randomness, add_bootloader_randomness, random_init_early,
  add_device_randomness, add_vmfork_randomness,
}

-- Data from a provider: a hardware generator, with its claim of entropy, whether it sleeps, whether its
-- thread shall stop and the states that it finds when woken; the bootloader, trusted or not; the command
-- line; a device; and the hypervisor, after a fork of the machine.
pub data Provider (W D : Type 0) : Type 0 where
  hwgenerator : List ℕ → ℕ → Bool → Bool → List (Iface W D) → Provider W D
  bootloader : Bool → List ℕ → Provider W D
  command_line device vmfork : List ℕ → Provider W D

-- The entropy that it is trusted with: none, apart from a claim within eight bits for each byte.
abbrev pub trusted : {W D : Type 0} → Provider W D → ℕ
trusted (hwgenerator buffer bits sleep stop later) = min bits (8 * length buffer)
trusted (bootloader trust buf) = if trust then 8 * length buf else 0
trusted (command_line buf) = 0
trusted (device buf) = 0
trusted (vmfork id) = 0

module _ {W D S : Type 0} (cfg : Config) (u : Setup W D) (cb : HashCb S) (at : PoolIn W S) where
  abbrev pub provide : Provider W D → Iface W D → Iface W D
  provide (hwgenerator buffer bits sleep stop later) s =
      add_hwgenerator_randomness cfg u cb at buffer bits sleep stop later s
  provide (bootloader trust buf) s = add_bootloader_randomness cfg u cb at trust buf s
  provide (command_line buf) s = random_init_early cfg u cb at buf s
  provide (device buf) s = add_device_randomness cfg u cb at buf s
  provide (vmfork id) s = add_vmfork_randomness cfg u cb at id s

  -- The state in which the data arrives: a hardware generator may have slept before.
  abbrev pub reached : Provider W D → Iface W D → Iface W D
  reached (hwgenerator buffer bits sleep stop later) s = hw_wait cfg u cb at bits sleep stop s later
  reached (bootloader trust buf) s = s
  reached (command_line buf) s = s
  reached (device buf) s = s
  reached (vmfork id) s = s

  exseed_set-lrng :
      (type : Bool) (s : Iface W D) → (exseed_set noise_source_hw type s).lrng ≡ s.lrng
  unfolding exseed_set
  exseed_set-lrng type s = ground arith

  -- Data from a provider raises the entropy count of the auxiliary pool by no more than it is trusted with.
  pub provide-le :
      (p : Provider W D) (s : Iface W D)
      → held cfg u cb at (provide p s).lrng ≤ held cfg u cb at (reached p s).lrng + trusted p
  unfolding add_hwgenerator_randomness add_bootloader_randomness random_init_early
      add_device_randomness add_vmfork_randomness
  provide-le (hwgenerator buffer bits sleep stop later) s =
      let s' = hw_wait cfg u cb at bits sleep stop s later in
      let e : held cfg u cb at (exseed_set noise_source_hw false s').lrng
          ≡ held cfg u cb at s'.lrng =
        ap (held cfg u cb at) (exseed_set-lrng false s') in
      omega (
        arith,
        e,
        pool_insert_aux-le cfg u cb at buffer (u32 bits) (exseed_set noise_source_hw false s').lrng,
      )
  provide-le (bootloader trust buf) s =
      let bits = if trust then mul32 (length buf) 8 else 0 in
      ground (arith, pool_insert_aux-le cfg u cb at buf bits s.lrng)
  provide-le (command_line buf) s = omega (arith, pool_insert_aux-le cfg u cb at buf 0 s.lrng)
  provide-le (device buf) s = omega (arith, pool_insert_aux-le cfg u cb at buf 0 s.lrng)
  provide-le (vmfork id) s =
      let s' = insert cfg u cb at id 0 s in
      let one = pool_insert_aux-le cfg u cb at id 0 s.lrng in
      let same : held cfg u cb at (drng_force_reseed s'.lrng) ≡ held cfg u cb at s'.lrng =
        ap (λ (m : Manager W). (at.pool m.world).aux_entropy_bits)
          (force_reseed-mgr cfg u cb at s'.lrng) in
      if_intro (λ (x : Iface W D). held cfg u cb at x.lrng ≤ held cfg u cb at s.lrng + 0)
        s'.lrng.mgr.lrng_operational (omega (arith, one, same)) (omega (arith, one))
