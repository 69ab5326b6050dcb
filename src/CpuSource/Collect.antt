-- ===== src/CpuSource/Collect.antt =====
-- lrng_es_cpu.c: the data drawn from the processor. The two instructions are parameters: for the number of
-- longs that there is room for, they give the longs that they write, least significant byte first.
use lrng.Common.{
  ℕ, zero, suc, ◌+◌, ◌-◌, ◌*◌, ◌/◌, ◌%◌, ◌^◌, ◌&&◌, not, ltb, leb, ◌==◌, if◌then◌else◌, List,
  Option, none, some, get_or, length, add32,
}
use lrng.CpuSource.{Cpu}

-- The memory from the output buffer on, also behind its end.
abbrev pub Memory : Type 0
Memory = ℕ → ℕ

abbrev pub byte_of : ℕ → ℕ → ℕ
byte_of v j = v / 256 ^ j % 256

-- Longs written at byte `i`
abbrev pub write_longs : ℕ → List ℕ → Memory → Memory
write_longs i vs mem k =
    if leb i k && ltb k (i + 8 * length vs)
    then byte_of (get_or vs ((k - i) / 8) 0) ((k - i) % 8)
    else mem k

-- What a call returns and leaves.
pub record CpuData (T : Type 0) : Type 0 where
  pub ent_bits : ℕ
  pub outbuf : Memory
  pub cpu : Cpu
  pub world : T

module _ {T : Type 0} (seed_longs random_longs : ℕ → T → List ℕ × T) where
  -- The loop of `lrng_get_cpu_data`, on fuel.
  abbrev pub cpu_data_loop : ℕ → ℕ → ℕ → ℕ → Memory → Cpu → T → Option (CpuData T)
  cpu_data_loop zero requested_bits req i outbuf c t = none
  cpu_data_loop (suc fuel) requested_bits req i outbuf c t =
      let (vs, t1) = seed_longs (req - i) t in
      let (ws, t2) = random_longs (req - i) t1 in
      let (longs, t') : List ℕ × T = if length vs == 0 then (ws, t2) else (vs, t1) in
      let rest =
        cpu_data_loop fuel requested_bits req (add32 i (length longs)) (write_longs i longs outbuf)
          c t' in
      if not (ltb i req)
      then some (record { ent_bits = requested_bits; outbuf = outbuf; cpu = c; world = t })
      else if length longs == 0
      then some
          (record { ent_bits = 0; outbuf = outbuf; cpu = record c { cpu_entropy = 0 }; world = t' })
      else rest

  -- `lrng_get_cpu_data`; one turn for each byte is enough.
  unfoldable pub get_cpu_data : ℕ → Memory → Cpu → T → Option (CpuData T)
  get_cpu_data requested_bits outbuf c t =
      let req = requested_bits / 2 ^ 3 in cpu_data_loop (suc req) requested_bits req 0 outbuf c t
