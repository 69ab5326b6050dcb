-- ===== src/IrqSource/Collect.antt =====
-- lrng_es_irq.c: how a seed is drawn from the pools of all CPUs.
use lrng.Common.{
  ℕ, ◌-◌, ◌*◌, ◌/◌, ◌^◌, Bool, true, false, not, ◌==◌, ltb, if◌then◌else◌, List, [], ◌∷◌, u32,
  add32, min_u32, take,
}
use lrng.Config.{Config}
use lrng.Definitions.{entropy_to_data, data_to_entropy, reduce_by_osr, compress_osr}
use lrng.HealthState.{irq}
use lrng.Health.{startup_complete_es}
use lrng.Hash.{HashCb, overlay}
use lrng.SeedBuffer.{EntropyBuf, set_bits, copy_row, es_irq, words}
use lrng.IrqSource.{Pcpu, IrqState, data_num_values, set_irqs}

-- What `lrng_irq_pool_hash_one` returns and writes.
pub record HashOne (S : Type 0) : Type 0 where
  pub found_irqs : ℕ
  pub digest : List ℕ
  pub digestsize : ℕ
  pub cpu : Pcpu S

-- The loop over the CPUs: what is left of the state when it ends, and whether every call of the hash
-- worked.
pub record Harvest (S : Type 0) : Type 0 where
  pub cpus : List (Pcpu S)
  pub collected_irqs : ℕ
  pub shash : S
  pub digest : List ℕ
  pub ok : Bool

abbrev pub with_cpu : {S : Type 0} → Pcpu S → Harvest S → Harvest S
with_cpu c h = record h { cpus = c ∷ h.cpus }

module _ {S : Type 0} (cfg : Config) where
  -- The events that a pool is good for, by its hash and its array.
  abbrev pub cap_irqs : ℕ → Bool → Pcpu S → ℕ
  cap_irqs rate continuous c =
      let found =
        min_u32 c.irq_array_irqs (entropy_to_data (u32 (c.hash_cb.hash_digestsize * 2 ^ 3)) rate) in
      if continuous then found else min_u32 found (data_num_values cfg)

  -- `lrng_irq_pool_hash_one`; `buffer` is what the digest buffer holds before.
  unfoldable pub irq_pool_hash_one : ℕ → Bool → List ℕ → Pcpu S → HashOne S
  irq_pool_hash_one rate continuous buffer c =
      let size = c.hash_cb.hash_digestsize in
      let (r1, s1) = c.hash_cb.hash_update c.irq_pool (words c.irq_array) in
      let (r2, s2, out) = c.hash_cb.hash_final s1 in
      let digest = overlay out buffer in
      let (r3, s3) = c.hash_cb.hash_init s2 in
      let (r4, s4) = c.hash_cb.hash_update s3 (take size digest) in
      let done : ℕ → List ℕ → S → HashOne S = λ found bytes pool. record {
        found_irqs = found;
        digest = bytes;
        digestsize = size;
        cpu = record c { irq_array_irqs = 0; irq_pool = pool };
      } in
      if not (r1 == 0)
      then done 0 buffer s1
      else if not (r2 == 0)
      then done 0 digest s2
      else if not (r3 == 0)
      then done 0 digest s3
      else if not (r4 == 0)
      then done 0 digest s4
      else done (cap_irqs rate continuous c) digest s4

  module _ (cb : HashCb S) where
    -- The loop over the online CPUs in `lrng_irq_pool_hash`.
    abbrev pub harvest : ℕ → Bool → ℕ → List (Pcpu S) → ℕ → S → List ℕ → Harvest S
    harvest rate continuous requested_irqs [] collected shash digest = record {
      cpus = [];
      collected_irqs = collected;
      shash = shash;
      digest = digest;
      ok = true;
    }
    harvest rate continuous requested_irqs (c ∷ cs) collected shash digest =
        let one = irq_pool_hash_one rate continuous digest c in
        let (ret, shash') = cb.hash_update shash (take one.digestsize one.digest) in
        let sum = add32 collected one.found_irqs in
        let unused = sum - requested_irqs in
        let offline = harvest rate continuous requested_irqs cs collected shash digest in
        let enough = harvest rate continuous requested_irqs cs requested_irqs shash' one.digest in
        let short = harvest rate continuous requested_irqs cs sum shash' one.digest in
        if not c.irq_lock_init
        then with_cpu c offline
        else if not (ret == 0)
        then record {
          cpus = one.cpu ∷ cs;
          collected_irqs = collected;
          shash = shash';
          digest = one.digest;
          ok = false;
        }
        else if ltb requested_irqs sum
        then with_cpu (set_irqs (add32 one.cpu.irq_array_irqs unused) one.cpu) enough
        else with_cpu one.cpu short

    -- `lrng_irq_pool_hash`
    unfoldable pub irq_pool_hash :
        S → List ℕ → ℕ → Bool → EntropyBuf → IrqState S → EntropyBuf × IrqState S
    irq_pool_hash stack buffer requested_bits fully_seeded eb s =
        let digestsize_bits = u32 (cb.hash_digestsize * 2 ^ 3) in
        let requested =
          if ltb digestsize_bits requested_bits then digestsize_bits else requested_bits in
        let requested_irqs = entropy_to_data (add32 requested (compress_osr cfg)) s.entropy_bits in
        let (r1, shash) = cb.hash_init stack in
        let h =
          harvest s.entropy_bits s.continuous_compression requested_irqs s.cpus 0 shash buffer in
        let s' = record s { cpus = h.cpus } in
        let (r2, left, out) = cb.hash_final h.shash in
        let bits = reduce_by_osr cfg (data_to_entropy h.collected_irqs s.entropy_bits) in
        let len = (if fully_seeded then bits else requested) / 2 ^ 3 in
        if not (startup_complete_es cfg s.health irq)
        then (set_bits es_irq 0 eb, s)
        else if not (r1 == 0)
        then (set_bits es_irq 0 eb, s)
        else if not h.ok
        then (set_bits es_irq 0 eb, s')
        else if not (r2 == 0)
        then (set_bits es_irq 0 eb, s')
        else (set_bits es_irq bits (copy_row es_irq (take len (overlay out h.digest)) eb), s')
