-- ===== src/IrqSource/Traces.antt =====
-- The events and the credit over any run of the source: interrupts on any CPU, seeds drawn, switches of
-- the hash, resets.
use native.Mathlib.Nat.{div-mul-le_self, mul-le-mul_right}
use lrng.Common.{
  ℕ, suc, ◌+◌, ◌*◌, ◌≤◌, ◌≡◌, inl, inr, refl, ◌∙◌, Bool, List, [], ◌∷◌, Option, some, mul32, get_or,
  set, get_or-set_cases, arith, Option-cases, ◌>>=◌,
}
use lrng.Config.{Config}
use lrng.Definitions.{data_to_entropy, drng_security_strength_bits}
use lrng.Hash.{HashCb}
use lrng.SeedBuffer.{EntropyBuf, es_irq}
use lrng.IrqSource.{IrqState, irq_reset}
use lrng.IrqSource.Collect.{irq_pool_hash}
use lrng.IrqSource.Ledger.{total}
use lrng.IrqSource.Source.{irq_pool_hash-credit, irq_pool_hash-rate}
use lrng.IrqSource.Switch.{irq_switch_hash, irq_switch_hash-le}
use lrng.IrqSource.Interrupt.{Hooks, Interrupt, add_interrupt_randomness}
use lrng.IrqSource.Run.{add_interrupt-IsGrown, total-reset}

-- An interrupt, with the CPU it runs on, whether there is a high-resolution timer and whether the LRNG
-- is fully seeded; a seed that is drawn, with the request and the buffer; a switch of the hash of a node;
-- and a reset.
pub data Event (S : Type 0) : Type 0 where
  interrupt : ℕ → Bool → Bool → Interrupt → Event S
  draw : ℕ → Bool → EntropyBuf → Event S
  switch : ℕ → HashCb S → HashCb S → (S → Bool) → List ℕ → Event S
  clear : Event S

abbrev pub interrupts : {S : Type 0} → List (Event S) → ℕ
interrupts [] = 0
interrupts (interrupt cpu highres seeded i ∷ es) = suc (interrupts es)
interrupts (draw n seeded eb ∷ es) = interrupts es
interrupts (switch node new_cb old_cb same stack ∷ es) = interrupts es
interrupts (clear ∷ es) = interrupts es

worth-mul : (bits taken rate : ℕ) → bits ≤ data_to_entropy taken rate → bits * rate ≤ taken * 256
unfolding data_to_entropy
worth-mul bits taken rate h =
    let product = mul32 taken drng_security_strength_bits in
    omega (arith, mul-le-mul_right rate h, div-mul-le_self product rate)

get_or-set_le : (xs : List ℕ) (i v : ℕ) → get_or (set xs i v) i 0 ≤ v
get_or-set_le xs i v = elim (get_or-set_cases xs i v 0) [
  | inl e ↦ omega (arith, e)
  | inr e ↦ omega (arith, e)
]

reset-total : {S : Type 0} → (s : IrqState S) → total (irq_reset s).cpus ≡ 0
unfolding irq_reset
reset-total s = total-reset s.cpus

reset-rate : {S : Type 0} → (s : IrqState S) → (irq_reset s).entropy_bits ≡ s.entropy_bits
unfolding irq_reset
reset-rate s = refl

module _ (cfg : Config) (hooks : Hooks) (gcd : ℕ → ℕ → ℕ) {S : Type 0} (cb : HashCb S) (stack : S)
    (buffer : List ℕ) where
  -- The credit of all seeds on top of `bits`, and the state; no result is a panic.
  abbrev pub run : List (Event S) → ℕ → IrqState S → Option (ℕ × IrqState S)
  run [] bits s = some (bits, s)
  run (interrupt cpu highres seeded i ∷ es) bits s =
      add_interrupt_randomness cfg hooks gcd seeded cpu highres i s >>= λ r. run es bits r.0
  run (draw n seeded eb ∷ es) bits s =
      let (eb', s') = irq_pool_hash cfg cb stack buffer n seeded eb s in
      run es (bits + get_or eb'.e_bits es_irq 0) s'
  run (switch node new_cb old_cb same digest ∷ es) bits s =
      run es bits (irq_switch_hash cfg node new_cb old_cb same digest s).1
  run (clear ∷ es) bits s = run es bits (irq_reset s)

  run_at-ledger :
      (rate : ℕ) (es : List (Event S)) (bits bits' : ℕ) (s s' : IrqState S)
      → s.entropy_bits ≡ rate
      → run es bits s ≡ some (bits', s')
      → bits' * rate + total s'.cpus * 256 ≤ bits * rate + (total s.cpus + interrupts es) * 256
  run_at-ledger rate [] bits bits' s s' same e = ground (arith, e)
  run_at-ledger rate (interrupt cpu highres seeded i ∷ es) bits bits' s s' same e =
      elim (Option-cases (add_interrupt_randomness cfg hooks gcd seeded cpu highres i s)) [
        | inl panic ↦ absurd (ground (arith, panic, e))
        | inr (r, p) ↦
            let g = add_interrupt-IsGrown cfg hooks gcd seeded cpu highres i s r p in
            let later : run es bits r.0 ≡ some (bits', s') = ground (arith, p, e) in
            omega (arith, g.events, run_at-ledger rate es bits bits' r.0 s' (g.rate ∙ same) later)
      ]
  run_at-ledger rate (draw n seeded eb ∷ es) bits bits' s s' same e =
      let (eb', s1) = irq_pool_hash cfg cb stack buffer n seeded eb s in
      let (credit, taken, written, asked, worth, gone) =
        irq_pool_hash-credit cfg cb stack buffer n seeded eb s in
      let given = get_or eb'.e_bits es_irq 0 in
      let most : given ≤ credit = rw written (get_or-set_le eb.e_bits es_irq credit) in
      let value : credit * rate ≤ taken * 256 = worth-mul credit taken rate (rw⁻¹ same worth) in
      let part : given * rate ≤ credit * rate = mul-le-mul_right rate most in
      let sum : (bits + given) * rate ≡ bits * rate + given * rate = omega arith in
      omega (
        arith,
        sum,
        part,
        value,
        gone,
        run_at-ledger rate es (bits + given) bits' s1 s'
            (irq_pool_hash-rate cfg cb stack buffer n seeded eb s ∙ same) e,
      )
  run_at-ledger rate (switch node new_cb old_cb handle digest ∷ es) bits bits' s s' same e =
      let s1 = (irq_switch_hash cfg node new_cb old_cb handle digest s).1 in
      let (fewer, rate_kept) = irq_switch_hash-le cfg node new_cb old_cb handle digest s in
      omega (arith, fewer, run_at-ledger rate es bits bits' s1 s' (rate_kept ∙ same) e)
  run_at-ledger rate (clear ∷ es) bits bits' s s' same e = omega (
    arith,
    reset-total s,
    run_at-ledger rate es bits bits' (irq_reset s) s' (reset-rate s ∙ same) e,
  )

  -- Over any run of interrupts on all CPUs, seeds, hash switches and resets, each bit of entropy that the
  -- source credits is covered by its share of events: the credited bits at the rate of the source, and the
  -- events that are still counted, are at most the events counted at the start and one for each
  -- interrupt.
  pub run-ledger :
      (es : List (Event S)) (bits bits' : ℕ) (s s' : IrqState S)
      → run es bits s ≡ some (bits', s')
      → bits' * s.entropy_bits + total s'.cpus * 256
        ≤ bits * s.entropy_bits + (total s.cpus + interrupts es) * 256
  run-ledger es bits bits' s s' e = run_at-ledger s.entropy_bits es bits bits' s s' refl e
