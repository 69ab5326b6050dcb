-- ===== src/IrqSource/Ledger.antt =====
-- The events that a seed takes from the pools.
use lrng.Common.{
  ℕ, ◌+◌, ◌≤◌, ◌<◌, ◌≡◌, inl, inr, Bool, ltb, List, [], ◌∷◌, add32, take, arith, Bool-cases,
}
use lrng.Config.{Config}
use lrng.Hash.{HashCb}
use lrng.IrqSource.{Pcpu}
use lrng.IrqSource.Collect.{cap_irqs, irq_pool_hash_one, harvest}

-- The events counted in all pools.
abbrev pub total : {S : Type 0} → List (Pcpu S) → ℕ
total [] = 0
total (c ∷ cs) = c.irq_array_irqs + total cs

module _ {S : Type 0} (cfg : Config) where
  cap_irqs-le :
      (rate : ℕ) (continuous : Bool) (c : Pcpu S)
      → cap_irqs cfg rate continuous c ≤ c.irq_array_irqs
  cap_irqs-le rate continuous c = ground arith

  -- A pool gives at most the events counted in it, and then counts none.
  hash_one-le :
      (rate : ℕ) (continuous : Bool) (buffer : List ℕ) (c : Pcpu S)
      → let one = irq_pool_hash_one cfg rate continuous buffer c in
        (one.found_irqs ≤ c.irq_array_irqs) × (one.cpu.irq_array_irqs ≡ 0)
  unfolding irq_pool_hash_one
  hash_one-le rate continuous buffer c = ground (arith, cap_irqs-le rate continuous c)

  module _ (cb : HashCb S) (rate : ℕ) (continuous : Bool) (requested_irqs : ℕ) where
    -- The loop collects no more than what was requested.
    pub harvest-le :
        (cs : List (Pcpu S)) (collected : ℕ) (shash : S) (digest : List ℕ)
        → collected ≤ requested_irqs
        → (harvest cfg cb rate continuous requested_irqs cs collected shash digest).collected_irqs
          ≤ requested_irqs
    harvest-le [] collected shash digest h = h
    harvest-le (c ∷ cs) collected shash digest h =
        let one = irq_pool_hash_one cfg rate continuous digest c in
        let shash' = (cb.hash_update shash (take one.digestsize one.digest)).1 in
        let sum = add32 collected one.found_irqs in
        elim (Bool-cases (ltb requested_irqs sum)) [
          | inl over ↦ ground (
            arith,
            over,
            h,
            harvest-le cs collected shash digest h,
            harvest-le cs requested_irqs shash' one.digest (omega arith),
          )
          | inr within ↦
              let fits : sum ≤ requested_irqs = ground (arith, within) in
              ground (
                arith,
                within,
                h,
                harvest-le cs collected shash digest h,
                harvest-le cs sum shash' one.digest fits,
              )
        ]

    -- What is collected and what the pools still count is not more than there was.
    pub harvest-total :
        (cs : List (Pcpu S)) (collected : ℕ) (shash : S) (digest : List ℕ)
        → let h = harvest cfg cb rate continuous requested_irqs cs collected shash digest in
          h.collected_irqs + total h.cpus ≤ collected + total cs
    harvest-total [] collected shash digest = omega arith
    harvest-total (c ∷ cs) collected shash digest =
        let one = irq_pool_hash_one cfg rate continuous digest c in
        let shash' = (cb.hash_update shash (take one.digestsize one.digest)).1 in
        let sum = add32 collected one.found_irqs in
        let (most, none_left) = hash_one-le rate continuous digest c in
        let exact : sum ≤ collected + one.found_irqs = omega arith in
        let offline = harvest-total cs collected shash digest in
        let short = harvest-total cs sum shash' one.digest in
        elim (Bool-cases (ltb requested_irqs sum)) [
          | inl over ↦
              let past : requested_irqs < sum = ground (arith, over) in
              let enough = harvest-total cs requested_irqs shash' one.digest in
              ground (arith, over, past, most, none_left, exact, offline, enough)
          | inr within ↦ ground (arith, within, most, none_left, exact, offline, short)
        ]
