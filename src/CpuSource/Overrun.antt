-- ===== src/CpuSource/Overrun.antt =====
-- The loop over the instructions of the processor: it ends, and what it writes where.
use native.Mathlib.Nat.{mod-eq_of_lt, div-eq_of_lt, div-le_self}
use lrng.Common.{
  ℕ, zero, suc, ◌+◌, ◌-◌, ◌/◌, ◌%◌, ◌^◌, ◌≤◌, ◌<◌, ◌≡◌, refl, ap, ◌∙◌, true, false, ◌&&◌, ltb, leb,
  List, [], ◌∷◌, some, add32, arith,
}
use lrng.CpuSource.{Cpu}
use lrng.CpuSource.Collect.{Memory, CpuData, byte_of, write_longs, cpu_data_loop, get_cpu_data}

module _ {T : Type 0} (value : T → ℕ) (later : T → T) (random_longs : ℕ → T → List ℕ × T) where
  -- A processor with an instruction that gives one long at each call.
  abbrev pub one_long : ℕ → T → List ℕ × T
  one_long room t = (value t ∷ [], later t)

  abbrev pub nth : ℕ → T → ℕ
  nth zero t = value t
  nth (suc k) t = nth k (later t)

  -- The memory after `n` longs, each at one byte further than the last.
  abbrev pub staggered : ℕ → ℕ → Memory → T → Memory
  staggered zero i mem t = mem
  staggered (suc n) i mem t = staggered n (i + 1) (write_longs i (value t ∷ []) mem) (later t)

  staggered-below : (n i : ℕ) (mem : Memory) (t : T) (k : ℕ) → k < i → staggered n i mem t k ≡ mem k
  staggered-below zero i mem t k l = refl
  staggered-below (suc n) i mem t k l =
      staggered-below n (i + 1) (write_longs i (value t ∷ []) mem) (later t) k (omega arith)
      ∙ ground (arith, l)

  write_one :
      (i v e q : ℕ) (mem : Memory) → q ≡ i + e → e < 8 → write_longs i (v ∷ []) mem q ≡ byte_of v e
  write_one i v e q mem s l =
      let off : q - i ≡ e = omega arith in
      let none_before : (q - i) / 8 ≡ 0 = div-eq_of_lt (omega arith) in
      let same : (q - i) % 8 ≡ e = mod-eq_of_lt (omega arith) ∙ off in
      let inside : (leb i q && ltb q (i + 8)) ≡ true = ground (arith, s, l) in
      rw (inside, none_before, same) refl

  staggered-low :
      (n i : ℕ) (mem : Memory) (t : T) (k q : ℕ)
      → q ≡ i + k
      → k < n
      → staggered n i mem t q ≡ byte_of (nth k t) 0
  staggered-low zero i mem t k q s l = absurd (omega arith)
  staggered-low (suc n) i mem t zero q s l =
      staggered-below n (i + 1) (write_longs i (value t ∷ []) mem) (later t) q (omega arith)
      ∙ write_one i (value t) 0 q mem s (omega arith)
  staggered-low (suc n) i mem t (suc k) q s l =
      staggered-low n (i + 1) (write_longs i (value t ∷ []) mem) (later t) k q (omega arith)
        (omega arith)

  staggered-end :
      (n i : ℕ) (mem : Memory) (t : T) (e q : ℕ)
      → q ≡ i + n + e
      → e < 8
      → staggered (suc n) i mem t q ≡ byte_of (nth n t) e
  staggered-end zero i mem t e q s l = write_one i (value t) e q mem (omega arith) l
  staggered-end (suc n) i mem t e q s l =
      staggered-end n (i + 1) (write_longs i (value t ∷ []) mem) (later t) e q (omega arith) l

  loop-staggered :
      (n fuel bits req i : ℕ) (mem : Memory) (c : Cpu) (t : T)
      → i + n ≡ req
      → n < fuel
      → req < 2 ^ 32
      → (d : CpuData T) × (cpu_data_loop one_long random_longs fuel bits req i mem c t ≡ some d)
        × (d.ent_bits ≡ bits)
        × (d.outbuf ≡ staggered n i mem t)
  loop-staggered zero zero bits req i mem c t e l h = absurd (omega arith)
  loop-staggered (suc n) zero bits req i mem c t e l h = absurd (omega arith)
  loop-staggered zero (suc fuel) bits req i mem c t e l h =
      let stop : ltb i req ≡ false = ground (arith, e) in
      (record { ent_bits = bits; outbuf = mem; cpu = c; world = t }, rw stop refl, refl, refl)
  loop-staggered (suc n) (suc fuel) bits req i mem c t e l h =
      let on : ltb i req ≡ true = ground (arith, e) in
      let step : add32 i 1 ≡ i + 1 = mod-eq_of_lt (omega arith) in
      let (d, r, b, m) =
        loop-staggered n fuel bits req (i + 1) (write_longs i (value t ∷ []) mem) c (later t)
          (omega arith) (omega arith) h in
      let turn =
        ap
          (λ j.
            cpu_data_loop one_long random_longs fuel bits req j (write_longs i (value t ∷ []) mem) c
              (later t))
          step in
      (d, rw on (turn ∙ r), b, m)

  -- If an instruction of the processor gives one long at each call, a request for some bytes is reported as
  -- served in full; each byte of it is the lowest byte of a long of its own, and the seven bytes behind
  -- the request are overwritten with the rest of the last long.
  pub get_cpu_data-overrun :
      (bits n e k : ℕ) (outbuf : Memory) (c : Cpu) (t : T)
      → bits / 2 ^ 3 ≡ suc n
      → bits < 2 ^ 32
      → e < 8
      → k ≤ n
      → (d : CpuData T) × (get_cpu_data one_long random_longs bits outbuf c t ≡ some d)
        × (d.ent_bits ≡ bits)
        × (d.outbuf k ≡ byte_of (nth k t) 0)
        × (d.outbuf (n + e) ≡ byte_of (nth n t) e)
  unfolding get_cpu_data
  get_cpu_data-overrun bits n e k outbuf c t s h l m =
      let (d, r, b, w) =
        loop-staggered (suc n) (suc (suc n)) bits (suc n) 0 outbuf c t (omega arith) (omega arith)
          (omega (arith, s, div-le_self bits 8)) in
      (
        d,
        ap (λ q. cpu_data_loop one_long random_longs (suc q) bits q 0 outbuf c t) s ∙ r,
        b,
        ap (λ (f : Memory). f k) w
            ∙ staggered-low (suc n) 0 outbuf t k k (omega arith) (omega arith),
        ap (λ (f : Memory). f (n + e)) w ∙ staggered-end n 0 outbuf t e (n + e) (omega arith) l,
      )
