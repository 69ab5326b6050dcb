-- ===== src/JentSource.antt =====
-- lrng_es_jent.c: the Jitter RNG as an entropy source, with the blocks that a worker fills ahead of
-- time. The Jitter RNG is part of the kernel crypto API: `get_bytes` stands for `crypto_rng_get_bytes`.
-- Each access to the state of a slot is atomic in C and a function of its own here. JentSource.Machine
-- lets the steps of the worker and of any number of readers interleave.
pub mod Block
pub mod Machine
pub mod Exclusive
pub mod Ledger
pub mod Credit
mod Tests
use lrng.Common.{
  ℕ, zero, suc, ◌+◌, ◌-◌, ◌/◌, ◌%◌, ◌^◌, Bool, true, false, not, ◌&&◌, ltb, ◌==◌, if◌then◌else◌,
  List, [], ◌∷◌, Option, none, some, add32, bit_and, replicate, get_or,
}
use lrng.Config.{Config}
use lrng.Definitions.{
  drng_security_strength_bits, fast_noise_entropylevel, security_strength, get_seed_entropy_osr,
}
use lrng.Hash.{overlay}
use lrng.SeedBuffer.{EntropyBuf, es_jitter, set_bits, copy_row, init_seed_size_bytes}
use lrng.EntropySource.{EsCb}

-- `enum lrng_jent_async_state`
pub data SlotState : Type 0 where
  buffer_empty buffer_filling buffer_filled buffer_reading : SlotState

-- `struct jent_entropy_es` with its entry of `lrng_jent_async_set`
pub record Slot : Type 0 where
  pub e : List ℕ
  pub e_bits : ℕ
  pub state : SlotState

-- CONFIG_LRNG_JENT_ENTROPY_RATE and CONFIG_LRNG_JENT_ENTROPY_BLOCKS, a power of 2 of at least 4
pub record JentConfig : Type 0 where
  pub jent_entropy_rate : ℕ
  pub blocks : ℕ

-- The calls out of the file: `schedule_work` of the worker and `lrng_force_fully_seeded`.
pub data JentCall : Type 0 where
  schedule_work force_fully_seeded : JentCall

-- The variables of the file. `jent` is the state of the Jitter RNG, `idx` the counter of
-- `lrng_jent_async_get`, and `calls` has the calls made, newest first.
pub record Jent (R : Type 0) : Type 0 where
  pub jent_entropy : ℕ
  pub initialized : Bool
  pub async_enabled : Bool
  pub jent : R
  pub slots : ℕ → Slot
  pub idx : ℕ
  pub calls : List JentCall

abbrev pub is_empty : SlotState → Bool
is_empty buffer_empty = true
is_empty buffer_filling = false
is_empty buffer_filled = false
is_empty buffer_reading = false

abbrev pub is_filled : SlotState → Bool
is_filled buffer_empty = false
is_filled buffer_filling = false
is_filled buffer_filled = true
is_filled buffer_reading = false

module _ {R : Type 0} where
  abbrev pub put_slot : ℕ → Slot → Jent R → Jent R
  put_slot i v j = record j { slots = λ k. if k == i then v else j.slots k }

  -- `atomic_set` of the state of one slot
  abbrev pub set_state : ℕ → SlotState → Jent R → Jent R
  set_state i st j = put_slot i (record (j.slots i) { state = st }) j

  -- The two uses of `atomic_cmpxchg`: the worker takes an empty slot, a reader takes a filled one.
  unfoldable pub claim_fill : ℕ → Jent R → Bool × Jent R
  claim_fill i j =
      if is_empty (j.slots i).state then (true, set_state i buffer_filling j) else (false, j)

  unfoldable pub claim_read : ℕ → Jent R → Bool × Jent R
  claim_read i j =
      if is_filled (j.slots i).state then (true, set_state i buffer_reading j) else (false, j)

  -- `lrng_jent_entropylevel`, and `lrng_jent_poolsize` over the digest size of the auxiliary pool
  unfoldable pub jent_entropylevel : ℕ → Jent R → ℕ
  jent_entropylevel requested_bits j =
      fast_noise_entropylevel (if j.initialized then j.jent_entropy else 0) requested_bits

  unfoldable pub jent_poolsize : ℕ → Jent R → ℕ
  unfolding jent_entropylevel
  jent_poolsize digestsize j = jent_entropylevel (security_strength digestsize) j

  -- `lrng_jent_async_monitor_schedule`
  unfoldable pub async_monitor_schedule : Jent R → Jent R
  async_monitor_schedule j =
      if j.async_enabled then record j { calls = schedule_work ∷ j.calls } else j

  -- `lrng_jent_async_fini`: the blocks are cleared, their states are not touched.
  unfoldable pub async_fini : Config → Jent R → Jent R
  async_fini cfg j =
      let blank = replicate (init_seed_size_bytes cfg) 0 in
      record j { slots = λ i. record (j.slots i) { e = blank; e_bits = 0 } }

  -- `lrng_jent_async_init`
  unfoldable pub async_init : Jent R → Jent R
  async_init j =
      if j.async_enabled
      then record j { slots = λ i. record (j.slots i) { state = buffer_empty } }
      else j

  -- `lrng_jent_async_sysfs_set`, over the kernel's `kstrtobool`: its status and the value.
  unfoldable pub async_sysfs_set :
      Config → (List ℕ → ℕ × Bool) → Option (List ℕ) → Jent R → ℕ × Jent R
  unfolding async_init async_fini async_monitor_schedule
  async_sysfs_set cfg kstrtobool val j =
      let text : List ℕ = elim val [ none ↦ b'1' ∷ [] | some v ↦ v ] in
      let (ret, setting) = kstrtobool text in
      if not (ret == 0)
      then (ret, j)
      else if setting
      then if j.async_enabled
        then (0, j)
        else (0, async_monitor_schedule (async_init (record j { async_enabled = true })))
      else if j.async_enabled
      then (0, async_fini cfg (record j { async_enabled = false }))
      else (0, j)

  -- A reader on a slot that it has taken: the copy into the seed buffer, and the clearing.
  abbrev pub copy_block : ℕ → EntropyBuf → Jent R → EntropyBuf
  copy_block slot eb j =
      set_bits es_jitter (j.slots slot).e_bits (copy_row es_jitter (j.slots slot).e eb)

  abbrev pub clear_block : Config → ℕ → Jent R → Jent R
  clear_block cfg slot j =
      let blank = replicate (init_seed_size_bytes cfg) 0 in
      put_slot slot (record (j.slots slot) { e = blank; e_bits = 0 }) j

  -- `lrng_jent_initialize`; `alloc` is what `crypto_alloc_rng` gives, a generator or an errno.
  unfoldable pub jent_initialize : Config → JentConfig → ℕ × R → Jent R → ℕ × Jent R
  unfolding async_init
  jent_initialize cfg jc alloc j =
      let j1 = record (async_init (record j { jent = alloc.1 })) { initialized = true } in
      let j2 =
        if cfg.fips_enabled
          && ltb 0 jc.jent_entropy_rate
          && (j1.jent_entropy == jc.jent_entropy_rate)
        then record j1 { jent_entropy = drng_security_strength_bits }
        else j1 in
      if not (alloc.0 == 0)
      then (alloc.0, j)
      else if j2.jent_entropy == 0
      then (0, j2)
      else (0, record j2 { calls = force_fully_seeded ∷ j2.calls })

module _ {R : Type 0} (get_bytes : ℕ → R → ℕ × List ℕ × R) where
  -- `__lrng_jent_get`: the buffer, the bits credited, and the state
  unfoldable pub jent_get_block : ℕ → List ℕ → Jent R → List ℕ × ℕ × Jent R
  jent_get_block requested_bits e j =
      let ent_bits = jent_entropylevel requested_bits j in
      let (ret, bytes, r) = get_bytes (requested_bits / 2 ^ 3) j.jent in
      if not j.initialized
      then (e, 0, j)
      else if ret == 0
      then (overlay bytes e, ent_bits, record j { jent = r })
      else (overlay bytes e, 0, record j { jent = r })

  -- `lrng_jent_get`
  unfoldable pub jent_get : ℕ → EntropyBuf → Jent R → EntropyBuf × Jent R
  unfolding jent_get_block
  jent_get requested_bits eb j =
      let (e, bits, j') = jent_get_block requested_bits (get_or eb.e es_jitter []) j in
      (set_bits es_jitter bits (copy_row es_jitter e eb), j')

  -- The worker on a slot that it has taken: the block, then its state.
  unfoldable pub fill_block : ℕ → ℕ → Jent R → Jent R
  unfolding jent_get_block
  fill_block requested_bits i j =
      let (e, bits, j') = jent_get_block requested_bits (j.slots i).e j in
      put_slot i (record (j.slots i) { e = e; e_bits = bits }) j'

  abbrev pub monitor_slot : ℕ → ℕ → Jent R → Jent R
  monitor_slot requested_bits i j =
      let (won, j') = claim_fill i j in
      if won then set_state i buffer_filled (fill_block requested_bits i j') else j'

  -- `lrng_jent_async_monitor`: its loop over the slots from `i` on, `n` of them.
  abbrev pub monitor_from : ℕ → ℕ → ℕ → Jent R → Jent R
  monitor_from requested_bits zero i j = j
  monitor_from requested_bits (suc n) i j =
      monitor_from requested_bits n (i + 1) (monitor_slot requested_bits i j)

  unfoldable pub async_monitor : Config → JentConfig → ℕ → Jent R → Jent R
  async_monitor cfg jc digestsize j =
      monitor_from (get_seed_entropy_osr cfg digestsize true) jc.blocks 0 j

  module _ (cfg : Config) (jc : JentConfig) where
    -- `lrng_jent_async_get`
    unfoldable pub async_get : ℕ → EntropyBuf → Jent R → EntropyBuf × Jent R
    unfolding async_monitor_schedule
    async_get requested_bits eb j =
        let j0 = record j { idx = add32 j.idx 1 } in
        let slot = bit_and j0.idx (jc.blocks - 1) in
        let (won, j1) = claim_read slot j0 in
        let (eb', j') = jent_get requested_bits eb j0 in
        let j2 = set_state slot buffer_empty (clear_block cfg slot j1) in
        if not j.initialized
        then (set_bits es_jitter 0 eb, j)
        else if not won
        then (eb', async_monitor_schedule j')
        else if (slot % (jc.blocks / 4) == 0) && not (slot == 0)
        then (copy_block slot eb j1, async_monitor_schedule j2)
        else (copy_block slot eb j1, j2)

    -- `lrng_jent_get_check`, over the digest size of the auxiliary pool
    unfoldable pub jent_get_check : ℕ → ℕ → EntropyBuf → Jent R → EntropyBuf × Jent R
    unfolding async_get
    jent_get_check digestsize requested_bits eb j =
        if j.async_enabled && (requested_bits == get_seed_entropy_osr cfg digestsize true)
        then async_get requested_bits eb j
        else jent_get requested_bits eb j

    -- `lrng_es_jent`
    abbrev pub jent_es : ℕ → EsCb (Jent R)
    jent_es digestsize = record {
      get_ent = λ req seeded eb j. jent_get_check digestsize req eb j;
      curr_entropy = λ req j. jent_entropylevel req j;
      reset = λ j. j;
    }
