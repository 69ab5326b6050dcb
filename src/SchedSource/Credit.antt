-- ===== src/SchedSource/Credit.antt =====
-- What a seed drawn from the scheduler events credits, and the source as a source of the manager.
use lrng.Common.{
  ℕ, ◌+◌, ◌*◌, ◌^◌, ◌≤◌, ◌<◌, ◌≡◌, inl, inr, Bool, ◌&&◌, ◌==◌, ltb, if◌then◌else◌, List, [], ◌∷◌,
  u32, add32, take, arith, Bool-cases, set,
}
use lrng.Config.{Config}
use lrng.Definitions.{entropy_to_data, data_to_entropy, reduce_by_osr, compress_osr}
use lrng.Definitions.Convert.{credit-le, osr-le}
use lrng.Hash.{HashCb}
use lrng.HealthState.{sched}
use lrng.Health.{startup_complete_es}
use lrng.SeedBuffer.{EntropyBuf, es_sched}
use lrng.EntropySource.{EsCb, IsSource}
use lrng.SchedSource.{SchedCpu, SchedState, sched_reset, sched_avail_entropy}
use lrng.SchedSource.Collect.{cap_events, sched_pool_hash_one, sched_harvest, sched_pool_hash}

-- The events counted in all pools.
abbrev pub total_events : {S : Type 0} → List (SchedCpu S) → ℕ
total_events [] = 0
total_events (c ∷ cs) = c.sched_array_events + total_events cs

module _ {S : Type 0} (cfg : Config) (junk rate : ℕ) where
  cap_events-le : (c : SchedCpu S) → cap_events cfg junk rate c ≤ c.sched_array_events
  cap_events-le c = ground arith

  -- What a pool gives and what it still counts is not more than it counted.
  sched_hash_one-le :
      (buffer : List ℕ) (c : SchedCpu S)
      → let one = sched_pool_hash_one cfg junk rate buffer c in
        one.found_events + one.cpu.sched_array_events ≤ c.sched_array_events
  unfolding sched_pool_hash_one
  sched_hash_one-le buffer c = ground (arith, cap_events-le c)

  module _ (cb : HashCb S) (requested_events : ℕ) where
    sched_harvest-le :
        (cs : List (SchedCpu S)) (collected : ℕ) (shash : S) (digest : List ℕ)
        → collected ≤ requested_events
        → (sched_harvest cfg junk rate cb requested_events cs collected shash
            digest).collected_events
          ≤ requested_events
    sched_harvest-le [] collected shash digest h = h
    sched_harvest-le (c ∷ cs) collected shash digest h =
        let one = sched_pool_hash_one cfg junk rate digest c in
        let shash' = (cb.hash_update shash (take one.digestsize one.digest)).1 in
        let sum = add32 collected one.found_events in
        elim (Bool-cases (ltb requested_events sum)) [
          | inl over ↦
              ground (
                arith,
                over,
                h,
                sched_harvest-le cs requested_events shash' one.digest (omega arith),
              )
          | inr within ↦
              let fits : sum ≤ requested_events = ground (arith, within) in
              ground (arith, within, h, sched_harvest-le cs sum shash' one.digest fits)
        ]

    sched_harvest-total :
        (cs : List (SchedCpu S)) (collected : ℕ) (shash : S) (digest : List ℕ)
        → let h = sched_harvest cfg junk rate cb requested_events cs collected shash digest in
          h.collected_events + total_events h.cpus ≤ collected + total_events cs
    sched_harvest-total [] collected shash digest = omega arith
    sched_harvest-total (c ∷ cs) collected shash digest =
        let one = sched_pool_hash_one cfg junk rate digest c in
        let shash' = (cb.hash_update shash (take one.digestsize one.digest)).1 in
        let sum = add32 collected one.found_events in
        let most = sched_hash_one-le digest c in
        let small : sum ≤ collected + one.found_events = omega arith in
        let short = sched_harvest-total cs sum shash' one.digest in
        elim (Bool-cases (ltb requested_events sum)) [
          | inl over ↦
              let past : requested_events < sum = ground (arith, over) in
              let enough = sched_harvest-total cs requested_events shash' one.digest in
              ground (arith, over, past, most, small, enough)
          | inr within ↦ ground (arith, within, most, small, short)
        ]

module _ {S : Type 0} (cfg : Config) (junk : ℕ) (cb : HashCb S) (stack : S) (buffer : List ℕ) where
  -- A seed drawn from the scheduler events credits at most the request, and at most what the events are
  -- worth that are gone from the pools of the CPUs. It writes no other count in the seed buffer.
  pub sched_pool_hash-credit :
      (requested_bits : ℕ) (seeded : Bool) (eb : EntropyBuf) (s : SchedState S)
      → let (eb', s') = sched_pool_hash cfg junk cb stack buffer requested_bits seeded eb s in
        (bits : ℕ) × (taken : ℕ) × (eb'.e_bits ≡ set eb.e_bits es_sched bits)
        × (bits ≤ requested_bits)
        × (bits ≤ data_to_entropy taken s.entropy_bits)
        × (taken + total_events s'.cpus ≤ total_events s.cpus)
  unfolding sched_pool_hash
  sched_pool_hash-credit requested_bits seeded eb s =
      let digestsize_bits = u32 (cb.hash_digestsize * 2 ^ 3) in
      let requested =
        if ltb digestsize_bits requested_bits then digestsize_bits else requested_bits in
      let asked : requested ≤ requested_bits = ground arith in
      let rate = s.entropy_bits in
      let req = entropy_to_data (add32 requested (compress_osr cfg)) rate in
      let (r1, shash) = cb.hash_init stack in
      let hv = sched_harvest cfg junk rate cb req s.cpus 0 shash buffer in
      let within = sched_harvest-le cfg junk rate cb req s.cpus 0 shash buffer (omega arith) in
      let kept = sched_harvest-total cfg junk rate cb req s.cpus 0 shash buffer in
      let credit = credit-le cfg hv.collected_events requested rate within in
      let given = osr-le cfg (data_to_entropy hv.collected_events rate) in
      let works =
        startup_complete_es cfg s.health sched
        && r1 == 0
        && hv.ok
        && (cb.hash_final hv.shash).0 == 0 in
      elim (Bool-cases works) [
        | inl fine ↦ (
          reduce_by_osr cfg (data_to_entropy hv.collected_events rate),
          hv.collected_events,
          ground (arith, fine),
          omega (arith, asked, credit),
          given,
          ground (arith, fine, kept),
        )
        | inr fails ↦
            (0, 0, ground (arith, fails), omega arith, omega arith, ground (arith, fails, kept))
      ]

  -- `digestsize` is that of the auxiliary pool.
  abbrev pub sched_es : ℕ → EsCb (SchedState S)
  sched_es digestsize = record {
    get_ent = λ requested_bits seeded eb s.
        sched_pool_hash cfg junk cb stack buffer requested_bits seeded eb s;
    curr_entropy = λ thresh s. sched_avail_entropy cfg digestsize s;
    reset = λ s. sched_reset s;
  }

  -- The scheduler source keeps the contract that the manager relies on, whatever its hashes do.
  pub sched_es-IsSource : (digestsize : ℕ) → IsSource es_sched (sched_es digestsize)
  sched_es-IsSource digestsize requested_bits seeded eb s h =
      let (bits, taken, written, asked, worth, gone) =
        sched_pool_hash-credit requested_bits seeded eb s in
      (bits, asked, written)
