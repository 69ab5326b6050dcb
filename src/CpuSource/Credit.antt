-- ===== src/CpuSource/Credit.antt =====
-- What a seed from the processor is credited with.
use lrng.Common.{
  ℕ, zero, suc, ◌+◌, ◌-◌, ◌*◌, ◌/◌, ◌^◌, ◌≤◌, ◌<◌, ◌≡◌, refl, Bool, true, false, ◌&&◌, not, ltb,
  leb, ◌==◌, if◌then◌else◌, if_intro, if_intro_on, List, Option, some, ◌>>=◌, length, u32, sub32,
  mul32, add32, min_u32, arith,
}
use lrng.Config.{Config}
use lrng.Definitions.{sp80090c_compliant, oversample_es_bits}
use lrng.Definitions.Convert.{fast_noise_entropylevel-le}
use lrng.Hash.{HashCb}
use lrng.CpuSource.{Cpu, CpuConfig, cpu_multiplier, cpu_entropylevel}
use lrng.CpuSource.Collect.{Memory, CpuData, write_longs, cpu_data_loop, get_cpu_data}
use lrng.CpuSource.Compress.{Rounds, hash_rounds, hash_end, get_cpu_data_compress, cpu_get}

-- A call that returned, and credits no more than `bound`.
pub data Within {T : Type 0} (bound : ℕ) : Option (CpuData T) → Type 0 where
  within : (d : CpuData T) → d.ent_bits ≤ bound → Within bound (some d)

weaken : {T : Type 0} {a b : ℕ} {x : Option (CpuData T)} → a ≤ b → Within a x → Within b x
weaken l (within d h) = within d (omega arith)

with_bits :
    {T : Type 0} {bound : ℕ} (d : CpuData T) (n : ℕ) (mem : Memory) (c : Cpu)
    → n ≤ bound
    → Within bound (some (record { ent_bits = n; outbuf = mem; cpu = c; world = d.world }))
with_bits d n mem c h = within _ h

partial_lt : (sp : Bool) (n m : ℕ) → (if sp then sub32 n m else 0) < 2 ^ 32
partial_lt true n m = omega arith
partial_lt false n m = omega arith

-- A chain of two calls of which the first returned
pub bind-Within :
    {T B : Type 0} (P : Option B → Type 0) {bound : ℕ} {x : Option (CpuData T)}
    (f : CpuData T → Option B)
    → Within bound x
    → ((d : CpuData T) → d.ent_bits ≤ bound → P (f d))
    → P (x >>= f)
bind-Within P f (within d h) k = k d h

module _ {T : Type 0} (seed_longs random_longs : ℕ → T → List ℕ × T)
    (room_seed : (n : ℕ) (t : T) → length (seed_longs n t).0 ≤ n)
    (room_random : (n : ℕ) (t : T) → length (random_longs n t).0 ≤ n) where
  cpu_data_loop-Within :
      (fuel bits req i : ℕ) (mem : Memory) (c : Cpu) (t : T)
      → req < 2 ^ 32
      → req < fuel + i
      → i ≤ req
      → Within bits (cpu_data_loop seed_longs random_longs fuel bits req i mem c t)
  cpu_data_loop-Within zero bits req i mem c t h l m = absurd (omega arith)
  cpu_data_loop-Within (suc fuel) bits req i mem c t h l m =
      let (vs, t1) = seed_longs (req - i) t in
      let (ws, t2) = random_longs (req - i) t1 in
      let longs : List ℕ × T = if length vs == 0 then (ws, t2) else (vs, t1) in
      let room : length longs.0 ≤ req - i =
        if_intro (λ (p : List ℕ × T). length p.0 ≤ req - i) (length vs == 0)
          (room_random (req - i) t1) (room_seed (req - i) t) in
      let n = length longs.0 in
      if_intro_on (Within bits) (not (ltb i req)) (λ _. within _ (omega arith))
        (λ on.
          if_intro_on (Within bits) (n == 0) (λ _. within _ (omega arith))
            (λ more.
              let step : add32 i n ≡ i + n = ground (arith, room, h, m) in
              cpu_data_loop-Within fuel bits req (add32 i n) (write_longs i longs.0 mem) c longs.1 h
                (ground (arith, step, more, l)) (ground (arith, step, room, m))))

  get_cpu_data-Within :
      (bits : ℕ) (mem : Memory) (c : Cpu) (t : T)
      → bits < 2 ^ 32
      → Within bits (get_cpu_data seed_longs random_longs bits mem c t)
  unfolding get_cpu_data
  get_cpu_data-Within bits mem c t h =
      let req = bits / 2 ^ 3 in
      cpu_data_loop-Within (suc req) bits req 0 mem c t (omega arith) (omega arith) (omega arith)

module _ {T S : Type 0} (seed_longs random_longs : ℕ → T → List ℕ × T) (cb : HashCb S)
    (room_seed : (n : ℕ) (t : T) → length (seed_longs n t).0 ≤ n)
    (room_random : (n : ℕ) (t : T) → length (random_longs n t).0 ≤ n) where
  -- The rounds return, with no more than `bound` bits drawn.
  data Hashed (bound : ℕ) : Option (Rounds T S) → Type 0 where
    hashed : (q : Rounds T S) → q.drawn.ent_bits ≤ bound → Hashed bound (some q)

  bind-Hashed :
      {bound k : ℕ} {x : Option (Rounds T S)} (f : Rounds T S → Option (CpuData T))
      → Hashed bound x
      → ((q : Rounds T S) → q.drawn.ent_bits ≤ bound → Within k (f q))
      → Within k (x >>= f)
  bind-Hashed f (hashed q h) k = k q h

  hash_rounds-Hashed :
      (n bits : ℕ) (d : CpuData T) (s : S)
      → bits < 2 ^ 32
      → d.ent_bits ≤ bits
      → Hashed bits (hash_rounds seed_longs random_longs cb n bits d s)
  unfolding hash_rounds
  hash_rounds-Hashed zero bits d s h l = hashed _ l
  hash_rounds-Hashed (suc n) bits d s h l =
      bind-Within (Hashed bits) _
        (get_cpu_data-Within seed_longs random_longs room_seed room_random bits d.outbuf d.cpu
          d.world h)
        (λ d' l'.
          let none_credited : 0 ≤ bits = omega arith in
          if_intro (Hashed bits) (d'.ent_bits == 0) (hashed _ l') (
            if_intro (Hashed bits) _ (hash_rounds-Hashed n bits d' _ h l')
              (hashed _ none_credited)))

  hash_end-Within :
      (bits digestsize_bits partial_bits : ℕ) (q : Rounds T S)
      → partial_bits < 2 ^ 32
      → Within bits (hash_end seed_longs random_longs cb bits digestsize_bits partial_bits q)
  unfolding hash_end
  hash_end-Within bits digestsize_bits partial_bits q h =
      bind-Within (Within bits) _
        (get_cpu_data-Within seed_longs random_longs room_seed room_random partial_bits
          q.drawn.outbuf q.drawn.cpu q.drawn.world h)
        (λ d' _.
          let none_credited : 0 ≤ bits = omega arith in
          let all_credited : bits ≤ bits = omega arith in
          if_intro (Within bits) _ (with_bits d' 0 _ _ none_credited) (
            if_intro (Within bits) _ (with_bits d' bits _ _ all_credited)
              (with_bits d' 0 _ _ none_credited)))

  get_cpu_data_compress-Within :
      (cfg : Config) (bits multiplier : ℕ) (mem : Memory) (c : Cpu) (t : T) (hash : S)
      → bits < 2 ^ 32
      → Within bits
          (get_cpu_data_compress seed_longs random_longs cb cfg bits multiplier mem c t hash)
  unfolding get_cpu_data_compress
  get_cpu_data_compress-Within cfg bits multiplier mem c t hash h =
      let digestsize_bits = u32 (cb.hash_digestsize * 2 ^ 3) in
      let req = min_u32 digestsize_bits bits in
      let req_le : req ≤ bits = ground arith in
      let sp = sp80090c_compliant cfg in
      let full = add32 (mul32 req multiplier) (mul32 (oversample_es_bits cfg) multiplier) in
      let rounds = if sp then full / req else multiplier in
      let partial = if sp then sub32 full (mul32 rounds req) else 0 in
      let after : Rounds T S → Option (CpuData T) = λ q.
        if q.going
        then hash_end seed_longs random_longs cb req digestsize_bits partial q
        else some q.drawn in
      let d : CpuData T = record { ent_bits = 0; outbuf = mem; cpu = c; world = t } in
      if_intro (Within bits) ((cb.hash_init hash).0 == 0)
        (weaken req_le (
          bind-Hashed after
            (hash_rounds-Hashed rounds req d (cb.hash_init hash).1 (omega arith) (omega arith))
            (λ q l.
              if_intro (Within req) q.going
                (hash_end-Within req digestsize_bits partial q
                  (partial_lt sp full (mul32 rounds req)))
                (within q.drawn l))))
        (within d (omega arith))

  -- A request for a seed from the processor returns, whatever its instructions give within the room that
  -- they are told, and is credited with no more than what is requested.
  pub cpu_get-le :
      (cfg : Config) (arch : CpuConfig) (bits : ℕ) (mem : Memory) (c : Cpu) (t : T) (hash : S)
      → bits < 2 ^ 32
      → (n : ℕ) × (d : CpuData T) × (cpu_get seed_longs random_longs cb cfg arch bits mem c t hash
          ≡ some (n, d))
        × (n ≤ bits)
  unfolding cpu_get cpu_entropylevel
  cpu_get-le cfg arch bits mem c t hash h =
      let (probe, t1) = seed_longs 1 t in
      let (multiplier, c') = cpu_multiplier arch (length probe) c in
      let t' = if not (ltb 0 c.data_multiplier) && arch.x86 then t1 else t in
      let drawn =
        if_intro (Within bits) (leb multiplier 1)
          (get_cpu_data-Within seed_longs random_longs room_seed room_random bits mem c' t' h)
          (get_cpu_data_compress-Within cfg bits multiplier mem c' t' hash h) in
      bind-Within (λ x. (n : ℕ) × (d : CpuData T) × (x ≡ some (n, d)) × (n ≤ bits)) _ drawn
        (λ d l.
          let top = fast_noise_entropylevel-le d.cpu.cpu_entropy d.ent_bits in
          (cpu_entropylevel d.ent_bits d.cpu, d, refl, omega (arith, top, l)))
