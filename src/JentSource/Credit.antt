-- ===== src/JentSource/Credit.antt =====
-- What the Jitter RNG source credits, and what a run of its worker leaves.
use mathlib.Core.Path.{subst}
use lrng.Common.{
  ℕ, zero, suc, ◌+◌, ◌≤◌, ◌≡◌, refl, List, arith, Bool, Bool-cases, inl, inr, true, false, set,
  ◌==◌, if◌then◌else◌, add32, ltb, leb, bit_and, not, ◌&&◌, if_intro, ◌-◌, get_or, [], ap,
}
use lrng.Config.{Config}
use lrng.Definitions.{get_seed_entropy_osr}
use lrng.SeedBuffer.{EntropyBuf, es_jitter}
use lrng.JentSource.{
  Jent, JentConfig, Slot, SlotState, buffer_empty, buffer_filling, buffer_filled, is_empty,
  claim_fill, claim_read, fill_block, jent_get_block, jent_get, async_get, jent_get_check,
  async_monitor, monitor_from, set_state, clear_block, copy_block, monitor_slot,
  async_monitor_schedule,
}
use lrng.JentSource.Block.{jent_get_block-le, jent_get_block-slots}

-- The state of a slot after the worker has passed it.
abbrev pub filled_if_empty : SlotState → SlotState
filled_if_empty st = if is_empty st then buffer_filled else st

claim_read-le :
    {R : Type 0} (slot i : ℕ) (j : Jent R) (bound : ℕ)
    → (j.slots i).e_bits ≤ bound
    → ((claim_read slot j).1.slots i).e_bits ≤ bound
unfolding claim_read
claim_read-le slot i j bound h = ground arith

and-false : (b : Bool) → (b && false) ≡ false
and-false true = refl
and-false false = refl

module _ {R : Type 0} (get_bytes : ℕ → R → ℕ × List ℕ × R) where
  -- A seed of at most `req` bits, in the count of this source only, with blocks of at most `bound` bits.
  abbrev pub Credits : ℕ → ℕ → EntropyBuf → EntropyBuf × Jent R → Type 0
  Credits req bound eb p =
      (bits : ℕ) × (bits ≤ req)
      × (p.0.e_bits ≡ set eb.e_bits es_jitter bits)
      × ((i : ℕ) → (p.1.slots i).e_bits ≤ bound)

  jent_get-Credits :
      (req bound : ℕ) (eb : EntropyBuf) (j : Jent R)
      → ((i : ℕ) → (j.slots i).e_bits ≤ bound)
      → Credits req bound eb (jent_get get_bytes req eb j)
  unfolding jent_get
  jent_get-Credits req bound eb j h =
      let e = get_or eb.e es_jitter [] in
      (
        (jent_get_block get_bytes req e j).1,
        jent_get_block-le get_bytes req e j,
        refl,
        λ i.
            rw (ap (λ (f : ℕ → Slot). (f i).e_bits) (jent_get_block-slots get_bytes req e j)) (h i),
      )

  schedule-Credits :
      (req bound : ℕ) (eb eb' : EntropyBuf) (j : Jent R)
      → Credits req bound eb (eb', j)
      → Credits req bound eb (eb', async_monitor_schedule j)
  unfolding async_monitor_schedule
  schedule-Credits req bound eb eb' j h =
      if_intro (λ x. Credits req bound eb (eb', x)) j.async_enabled h h

  module _ (cfg : Config) (jc : JentConfig) where
    async_get-Credits :
        (req : ℕ) (eb : EntropyBuf) (j : Jent R)
        → ((i : ℕ) → (j.slots i).e_bits ≤ req)
        → Credits req req eb (async_get get_bytes cfg jc req eb j)
    unfolding async_get
    async_get-Credits req eb j h =
        let slot = bit_and (add32 j.idx 1) (jc.blocks - 1) in
        let j0 = record j { idx = add32 j.idx 1 } in
        let j1 = (claim_read slot j0).1 in
        let same : (i : ℕ) → (j1.slots i).e_bits ≤ req = λ i. claim_read-le slot i j0 req (h i) in
        let j2 = set_state slot buffer_empty (clear_block cfg slot j1) in
        let served : Credits req req eb (copy_block slot eb j1, j2) =
          ((j1.slots slot).e_bits, same slot, refl, λ i. ground (arith, same i)) in
        if_intro (Credits req req eb) (not j.initialized) (0, omega arith, refl, λ i. h i)
          (if_intro (Credits req req eb) (not (claim_read slot j0).0)
            (schedule-Credits req req eb (jent_get get_bytes req eb j0).0
              (jent_get get_bytes req eb j0).1 (jent_get-Credits req req eb j0 h))
            (if_intro (Credits req req eb) _
              (schedule-Credits req req eb (copy_block slot eb j1) j2 served) served))

    -- If no block holds more than a full seed request, a seed is credited with at most what is requested,
    -- in the count of this source only, and no block holds more afterwards.
    pub jent_get_check-le :
        (digestsize req : ℕ) (eb : EntropyBuf) (j : Jent R)
        → ((i : ℕ) → (j.slots i).e_bits ≤ get_seed_entropy_osr cfg digestsize true)
        → let (eb', j') = jent_get_check get_bytes cfg jc digestsize req eb j in
          (bits : ℕ) × (bits ≤ req)
          × (eb'.e_bits ≡ set eb.e_bits es_jitter bits)
          × ((i : ℕ) → (j'.slots i).e_bits ≤ get_seed_entropy_osr cfg digestsize true)
    unfolding jent_get_check
    jent_get_check-le digestsize req eb j h =
        let bound = get_seed_entropy_osr cfg digestsize true in
        elim (Bool-cases (req == bound)) [
          | inl y ↦
              let e : req ≡ bound = ground (arith, y) in
              if_intro (Credits req bound eb) (j.async_enabled && (req == bound))
                (subst (λ b. Credits req b eb (async_get get_bytes cfg jc req eb j)) e
                  (async_get-Credits req eb j (λ i. ground (arith, e, h i))))
                (jent_get-Credits req bound eb j h)
          | inr n ↦ rw (n, and-false j.async_enabled) (jent_get-Credits req bound eb j h)
        ]

  fill_block-state :
      (req i k : ℕ) (j : Jent R)
      → ((fill_block get_bytes req i j).slots k).state ≡ (j.slots k).state
  unfolding fill_block
  fill_block-state req i k j =
      let r = jent_get_block get_bytes req (j.slots i).e j in
      let same : (r.2.slots k).state ≡ (j.slots k).state =
        ap (λ (f : ℕ → Slot). (f k).state) (jent_get_block-slots get_bytes req (j.slots i).e j) in
      ground (arith, same)

  -- The worker on one slot.
  monitor_slot-state :
      (req i k : ℕ) (j : Jent R)
      → ((monitor_slot get_bytes req i j).slots k).state
        ≡ (if k == i then filled_if_empty (j.slots k).state else (j.slots k).state)
  unfolding claim_fill
  monitor_slot-state req i k j =
      ground (arith, fill_block-state req i k (set_state i buffer_filling j))

  monitor_from-state :
      (req n i k : ℕ) (j : Jent R)
      → ((monitor_from get_bytes req n i j).slots k).state ≡ (
          if leb i k && ltb k (i + n) then filled_if_empty (j.slots k).state else (j.slots k).state)
  monitor_from-state req zero i k j = ground arith
  monitor_from-state req (suc n) i k j = ground (
    arith,
    monitor_from-state req n (i + 1) k (monitor_slot get_bytes req i j),
    monitor_slot-state req i k j,
  )

  -- A run of the worker that nobody interrupts fills every slot of the array that was empty, and changes
  -- the state of no other.
  pub async_monitor-state :
      (cfg : Config) (jc : JentConfig) (digestsize k : ℕ) (j : Jent R)
      → ((async_monitor get_bytes cfg jc digestsize j).slots k).state ≡ (
          if ltb k jc.blocks && is_empty (j.slots k).state
          then buffer_filled
          else (j.slots k).state)
  unfolding async_monitor
  async_monitor-state cfg jc digestsize k j =
      ground (arith, monitor_from-state (get_seed_entropy_osr cfg digestsize true) jc.blocks 0 k j)
