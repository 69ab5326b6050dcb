-- ===== src/IrqSource/Source.antt =====
-- The interrupt source as a source of the manager, and what it credits.
use lrng.Common.{
  ℕ, ◌+◌, ◌*◌, ◌^◌, ◌≤◌, ◌≡◌, inl, inr, Bool, ◌==◌, ◌&&◌, ltb, if◌then◌else◌, List, u32, add32,
  arith, Bool-cases, set,
}
use lrng.Config.{Config}
use lrng.Definitions.{entropy_to_data, data_to_entropy, reduce_by_osr, compress_osr}
use lrng.Definitions.Convert.{credit-le, osr-le}
use lrng.HealthState.{irq}
use lrng.Health.{startup_complete_es}
use lrng.Hash.{HashCb}
use lrng.SeedBuffer.{EntropyBuf, es_irq}
use lrng.EntropySource.{EsCb, IsSource}
use lrng.IrqSource.{IrqState, irq_reset, irq_avail_entropy}
use lrng.IrqSource.Collect.{harvest, irq_pool_hash}
use lrng.IrqSource.Ledger.{total, harvest-le, harvest-total}

module _ {S : Type 0} (cfg : Config) (cb : HashCb S) (stack : S) (buffer : List ℕ) where
  -- `digestsize` is that of the auxiliary pool.
  abbrev pub irq_es : ℕ → EsCb (IrqState S)
  irq_es digestsize = record {
    get_ent =
        λ requested_bits seeded eb s. irq_pool_hash cfg cb stack buffer requested_bits seeded eb s;
    curr_entropy = λ thresh s. irq_avail_entropy cfg digestsize s;
    reset = λ s. irq_reset s;
  }

  -- How a call ends: with a credit, or with none.
  record Ending (requested_bits : ℕ) (eb eb' : EntropyBuf) (s s' : IrqState S) : Type 0 where
    pub bits : ℕ
    pub taken : ℕ
    pub asked : bits ≤ requested_bits
    pub written : eb'.e_bits ≡ set eb.e_bits es_irq bits
    pub worth : bits ≤ data_to_entropy taken s.entropy_bits
    pub gone : taken + total s'.cpus ≤ total s.cpus

  pool_hash-Ending :
      (requested_bits : ℕ) (seeded : Bool) (eb : EntropyBuf) (s : IrqState S)
      → let (eb', s') = irq_pool_hash cfg cb stack buffer requested_bits seeded eb s in
        Ending requested_bits eb eb' s s'
  unfolding irq_pool_hash
  pool_hash-Ending requested_bits seeded eb s =
      let digestsize_bits = u32 (cb.hash_digestsize * 2 ^ 3) in
      let requested =
        if ltb digestsize_bits requested_bits then digestsize_bits else requested_bits in
      let asked : requested ≤ requested_bits = ground arith in
      let requested_irqs = entropy_to_data (add32 requested (compress_osr cfg)) s.entropy_bits in
      let (r1, shash) = cb.hash_init stack in
      let hv =
        harvest cfg cb s.entropy_bits s.continuous_compression requested_irqs s.cpus 0 shash
          buffer in
      let within =
        harvest-le cfg cb s.entropy_bits s.continuous_compression requested_irqs s.cpus 0 shash
          buffer (omega arith) in
      let kept =
        harvest-total cfg cb s.entropy_bits s.continuous_compression requested_irqs s.cpus 0 shash
          buffer in
      let credit = credit-le cfg hv.collected_irqs requested s.entropy_bits within in
      let given = osr-le cfg (data_to_entropy hv.collected_irqs s.entropy_bits) in
      elim (Bool-cases (
        startup_complete_es cfg s.health irq
        && r1 == 0
        && hv.ok
        && (cb.hash_final hv.shash).0 == 0)) [
          | inl works ↦ record {
            bits = reduce_by_osr cfg (data_to_entropy hv.collected_irqs s.entropy_bits);
            taken = hv.collected_irqs;
            asked = omega (arith, asked, credit);
            written = ground (arith, works);
            worth = given;
            gone = ground (arith, works, kept);
          }
          | inr fails ↦ record {
            bits = 0;
            taken = 0;
            asked = omega arith;
            written = ground (arith, fails);
            worth = omega arith;
            gone = ground (arith, fails, kept);
          }
        ]

  -- A seed drawn from the interrupts credits at most the request, and at most what the events are worth
  -- that are gone from the pools of the CPUs. It writes no other count in the seed buffer.
  pub irq_pool_hash-credit :
      (requested_bits : ℕ) (seeded : Bool) (eb : EntropyBuf) (s : IrqState S)
      → let (eb', s') = irq_pool_hash cfg cb stack buffer requested_bits seeded eb s in
        (bits : ℕ) × (taken : ℕ) × (eb'.e_bits ≡ set eb.e_bits es_irq bits)
        × (bits ≤ requested_bits)
        × (bits ≤ data_to_entropy taken s.entropy_bits)
        × (taken + total s'.cpus ≤ total s.cpus)
  irq_pool_hash-credit requested_bits seeded eb s =
      let r = pool_hash-Ending requested_bits seeded eb s in
      (r.bits, r.taken, r.written, r.asked, r.worth, r.gone)

  -- The interrupt source keeps the contract that the manager relies on, whatever its hashes do.
  pub irq_es-IsSource : (digestsize : ℕ) → IsSource es_irq (irq_es digestsize)
  irq_es-IsSource digestsize requested_bits seeded eb s h =
      let r = pool_hash-Ending requested_bits seeded eb s in (r.bits, r.asked, r.written)

  pub irq_pool_hash-rate :
      (requested_bits : ℕ) (seeded : Bool) (eb : EntropyBuf) (s : IrqState S)
      → (irq_pool_hash cfg cb stack buffer requested_bits seeded eb s).1.entropy_bits
        ≡ s.entropy_bits
  unfolding irq_pool_hash
  irq_pool_hash-rate requested_bits seeded eb s = ground arith
