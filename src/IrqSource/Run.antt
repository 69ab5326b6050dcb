-- ===== src/IrqSource/Run.antt =====
-- How many events an interrupt counts.
use lrng.Common.{
  ℕ, zero, suc, ◌+◌, ◌/◌, ◌≤◌, ◌≡◌, inl, inr, refl, ◌∙◌, Bool, true, false, if◌then◌else◌, List, [],
  ◌∷◌, none, some, add32, bit_and, get_elem?, set, arith, Bool-cases, Option-cases, map,
}
use lrng.Config.{Config}
use lrng.HealthState.{HealthRes, pass, fail_use, fail_drop, irq}
use lrng.Health.{health_test}
use lrng.Timer.{gcd_tested, gcd_add_value}
use lrng.IrqSource.{Pcpu, IrqState, set_irqs}
use lrng.IrqSource.Ledger.{total}
use lrng.IrqSource.Insert.{
  Insertion, irq_array_compress, irq_array_to_hash, irq_array_add_u32_always, irq_array_add_slot,
}
use lrng.IrqSource.Interrupt.{
  Hooks, Interrupt, on_cpu, add_u32, add_slot, process_tested, time_process_common, time_process,
  add_interrupt_randomness, insertion, unless, other_word,
}

choose-le :
    {S : Type 0}
    → (b : Bool) (p q : Pcpu S × Bool) (n : ℕ) → p.0.irq_array_irqs ≤ n
    → q.0.irq_array_irqs ≤ n
    → (if b then p else q).0.irq_array_irqs ≤ n
choose-le true p q n h k = h
choose-le false p q n h k = k

module _ (cfg : Config) {S : Type 0} (ins : Insertion) where
  -- No insertion counts an event.
  to_hash-le :
      (ptr : ℕ) (c : Pcpu S) → (irq_array_to_hash cfg ins ptr c).0.irq_array_irqs ≤ c.irq_array_irqs
  unfolding irq_array_to_hash irq_array_compress
  to_hash-le ptr c = ground arith

  add_u32-le :
      (word : ℕ) (c : Pcpu S)
      → (irq_array_add_u32_always cfg ins word c).0.irq_array_irqs ≤ c.irq_array_irqs
  unfolding irq_array_add_u32_always
  add_u32-le word c = choose-le _ _ _ c.irq_array_irqs (to_hash-le _ _) (to_hash-le _ _)

  add_slot-le :
      (time : ℕ) (c : Pcpu S)
      → (irq_array_add_slot cfg ins time c).0.irq_array_irqs ≤ c.irq_array_irqs
  unfolding irq_array_add_slot
  add_slot-le time c = to_hash-le _ _

total-set :
    {S : Type 0}
    → (cs : List (Pcpu S)) (k n : ℕ) (c c' : Pcpu S) → get_elem? cs k ≡ some c
    → c'.irq_array_irqs ≤ c.irq_array_irqs + n
    → total (set cs k c') ≤ total cs + n
total-set [] k n c c' e h = omega arith
total-set (x ∷ cs) zero n c c' e h = ground (arith, e, h)
total-set (x ∷ cs) (suc k) n c c' e h = omega (arith, total-set cs k n c c' e h)

pub total-reset : {S : Type 0} → (cs : List (Pcpu S)) → total (map (set_irqs 0) cs) ≡ 0
total-reset [] = refl
total-reset (c ∷ cs) = omega (arith, total-reset cs)

-- At most `n` events more, at the same rate.
pub record IsGrown {S : Type 0} (n : ℕ) (s s' : IrqState S) : Type 0 where
  pub events : total s'.cpus ≤ total s.cpus + n
  pub rate : s'.entropy_bits ≡ s.entropy_bits

IsGrown-refl : {S : Type 0} → (n : ℕ) (s : IrqState S) → IsGrown n s s
IsGrown-refl n s = record { events = omega arith; rate = refl }

IsGrown-trans :
    {S : Type 0}
    → (n m k : ℕ) (s t u : IrqState S) → IsGrown n s t
    → IsGrown m t u
    → n + m ≤ k
    → IsGrown k s u
IsGrown-trans n m k s t u a b h = record {
  events = omega (arith, a.events, b.events);
  rate = b.rate ∙ a.rate;
}

module _ (cfg : Config) (hooks : Hooks) (gcd : ℕ → ℕ → ℕ) {S : Type 0} (lrng_seeded : Bool)
    (cpu : ℕ) where
  on_cpu-IsGrown :
      (n : ℕ) (f : Pcpu S → Pcpu S × Bool) (s : IrqState S)
      → ((c : Pcpu S) → (f c).0.irq_array_irqs ≤ c.irq_array_irqs + n)
      → IsGrown n s (on_cpu cfg hooks gcd lrng_seeded cpu f s).0
  on_cpu-IsGrown n f s h = elim (Option-cases (get_elem? s.cpus cpu)) [
    | inl offline ↦ rw (on_cpu, offline) (IsGrown-refl n s)
    | inr (c, e) ↦
        rw (on_cpu, e) (record { events = total-set s.cpus cpu n c (f c).0 e (h c); rate = refl })
  ]

  add_u32-IsGrown :
      (word : ℕ) (s : IrqState S) → IsGrown 0 s (add_u32 cfg hooks gcd lrng_seeded cpu word s).0
  add_u32-IsGrown word s =
      let ins = insertion cfg hooks gcd lrng_seeded cpu s in
      on_cpu-IsGrown 0 (irq_array_add_u32_always cfg ins word) s
        (λ c. omega (arith, add_u32-le cfg ins word c))

  add_slot-IsGrown :
      (time : ℕ) (s : IrqState S) → IsGrown 0 s (add_slot cfg hooks gcd lrng_seeded cpu time s).0
  add_slot-IsGrown time s =
      let ins = insertion cfg hooks gcd lrng_seeded cpu s in
      on_cpu-IsGrown 0 (irq_array_add_slot cfg ins time) s
        (λ c. omega (arith, add_slot-le cfg ins time c))

  module _ (add_time : ℕ → IrqState S → IrqState S × Bool)
      (counts_none : (time : ℕ) (s : IrqState S) → IsGrown 0 s (add_time time s).0) where
    tested-IsGrown :
        (time : ℕ) (res : HealthRes) (s : IrqState S)
        → IsGrown 1 s (process_tested cfg hooks gcd lrng_seeded cpu add_time time res s).0
    unfolding process_tested
    tested-IsGrown time pass s =
        let count : Pcpu S → Pcpu S × Bool = λ c. (set_irqs (add32 c.irq_array_irqs 1) c, false) in
        let s1 = (on_cpu cfg hooks gcd lrng_seeded cpu count s).0 in
        IsGrown-trans 1 0 1 s s1 (add_time time s1).0 (on_cpu-IsGrown 1 count s (λ c. omega arith))
          (counts_none time s1) (omega arith)
    tested-IsGrown time fail_use s =
        IsGrown-trans 0 0 1 s s (add_time time s).0 (IsGrown-refl 0 s) (counts_none time s)
          (omega arith)
    tested-IsGrown time fail_drop s = IsGrown-refl 1 s

    common-IsGrown :
        (time : ℕ) (s : IrqState S) (r : IrqState S × Bool)
        → time_process_common cfg hooks gcd lrng_seeded cpu time add_time s ≡ some r
        → IsGrown 1 s r.0
    unfolding time_process_common
    common-IsGrown time s r e = elim (Bool-cases (hooks.raw_hires time)) [
      | inl raw ↦ let q : r ≡ (s, false) = ground (arith, raw, e) in rw q (IsGrown-refl 1 s)
      | inr kept ↦ elim (Option-cases (get_elem? s.cpus cpu)) [
        | inl offline ↦ absurd (ground (arith, kept, offline, e))
        | inr (c, p) ↦ elim (Option-cases (health_test cfg s.health c.stuck_test time irq)) [
          | inl panic ↦ absurd (ground (arith, kept, p, panic, e))
          | inr (h, tested) ↦
              let s1 : IrqState S = record s {
                health = h.1;
                cpus = set s.cpus cpu (record c { stuck_test = h.2 });
              } in
              let q : r ≡ process_tested cfg hooks gcd lrng_seeded cpu add_time time h.0 s1 =
                ground (arith, kept, p, tested, e) in
              let first : IsGrown 0 s s1 = record {
                events = total-set s.cpus cpu 0 c (record c { stuck_test = h.2 }) p (omega arith);
                rate = refl;
              } in
              rw q (
                IsGrown-trans 0 1 1 s s1
                  (process_tested cfg hooks gcd lrng_seeded cpu add_time time h.0 s1).0 first
                  (tested-IsGrown time h.0 s1) (omega arith))
        ]
      ]
    ]

  time_process-IsGrown :
      (now_time : ℕ) (s : IrqState S) (r : IrqState S × Bool)
      → time_process cfg hooks gcd lrng_seeded cpu now_time s ≡ some r
      → IsGrown 1 s r.0
  unfolding time_process
  time_process-IsGrown now_time s r e =
      let word : ℕ → IrqState S → IrqState S × Bool = add_u32 cfg hooks gcd lrng_seeded cpu in
      let slot : ℕ → IrqState S → IrqState S × Bool = add_slot cfg hooks gcd lrng_seeded cpu in
      let time = bit_and (now_time / s.gcd.gcd_timer) 255 in
      elim (Bool-cases (gcd_tested s.gcd)) [
        | inl known ↦ common-IsGrown slot add_slot-IsGrown time s r (ground (arith, known, e))
        | inr unknown ↦
            elim (Option-cases
              (time_process_common cfg hooks gcd lrng_seeded cpu now_time word s)) [
                | inl panic ↦ absurd (ground (arith, unknown, panic, e))
                | inr (x, p) ↦
                    let q : r ≡ (record (x.0) { gcd = gcd_add_value gcd now_time x.0.gcd }, x.1) =
                      ground (arith, unknown, p, e) in
                    let g = common-IsGrown word add_u32-IsGrown now_time s x p in
                    rw q (record { events = g.events; rate = g.rate })
              ]
      ]

  -- The register word of an interrupt.
  abbrev first_word : Interrupt → IrqState S → IrqState S × Bool
  first_word i s = elim i.regs [
    | none ↦ (s, false)
    | some r ↦ add_u32 cfg hooks gcd lrng_seeded cpu (unless hooks.raw_regs r.0) s
  ]

  first_word-IsGrown : (i : Interrupt) (s : IrqState S) → IsGrown 0 s (first_word i s).0
  first_word-IsGrown i s = elim (Option-cases i.regs) [
    | inl none_there ↦ rw (first_word, none_there) (IsGrown-refl 0 s)
    | inr (w, p) ↦ rw (first_word, p) (add_u32-IsGrown (unless hooks.raw_regs w.0) s)
  ]

  -- An interrupt counts one event at most.
  pub add_interrupt-IsGrown :
      (highres_timer : Bool) (i : Interrupt) (s : IrqState S) (r : IrqState S × Bool)
      → add_interrupt_randomness cfg hooks gcd lrng_seeded cpu highres_timer i s ≡ some r
      → IsGrown 1 s r.0
  unfolding add_interrupt_randomness
  add_interrupt-IsGrown true i s r e = time_process-IsGrown i.now_time s r e
  add_interrupt-IsGrown false i s r e =
      let word : ℕ → IrqState S → IrqState S × Bool = add_u32 cfg hooks gcd lrng_seeded cpu in
      let s1 = (first_word i s).0 in
      let tmp = other_word hooks i in
      elim (Option-cases (time_process cfg hooks gcd lrng_seeded cpu i.now_time s1)) [
        | inl panic ↦ absurd (ground (arith, panic, e))
        | inr (x, p) ↦
            let q : r.0 ≡ (word tmp x.0).0 = ground (arith, p, e) in
            let upto =
              IsGrown-trans 0 1 1 s s1 x.0 (first_word-IsGrown i s)
                (time_process-IsGrown i.now_time s1 x p) (omega arith) in
            rw q (
              IsGrown-trans 1 0 1 s x.0 (word tmp x.0).0 upto (add_u32-IsGrown tmp x.0)
                (omega arith))
      ]
