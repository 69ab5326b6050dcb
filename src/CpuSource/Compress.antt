-- ===== src/CpuSource/Compress.antt =====
-- lrng_es_cpu.c: the compression of the data of the processor with the hash of an instance, and the seed.
use lrng.Common.{
  ℕ, zero, suc, ◌+◌, ◌*◌, ◌/◌, ◌^◌, Bool, true, false, ◌&&◌, not, ltb, leb, ◌==◌, if◌then◌else◌,
  List, [], ◌∷◌, Option, some, ◌>>=◌, get_or, length, take, u32, add32, sub32, mul32, min_u32,
}
use lrng.Config.{Config}
use lrng.Definitions.{sp80090c_compliant, oversample_es_bits}
use lrng.Hash.{HashCb}
use lrng.CpuSource.{Cpu, CpuConfig, cpu_multiplier, cpu_entropylevel}
use lrng.CpuSource.Collect.{Memory, CpuData, get_cpu_data}

-- The first bytes of the memory, and bytes copied to its start.
abbrev pub window : ℕ → Memory → List ℕ
window zero mem = []
window (suc n) mem = mem 0 ∷ window n (λ k. mem (k + 1))

abbrev pub write_bytes : List ℕ → Memory → Memory
write_bytes bs mem k = if ltb k (length bs) then get_or bs k 0 else mem k

-- The hash goes on, or the function is left.
pub record Rounds (T S : Type 0) : Type 0 where
  pub going : Bool
  pub drawn : CpuData T
  pub shash : S

module _ {T S : Type 0} (seed_longs random_longs : ℕ → T → List ℕ × T) (cb : HashCb S) where
  -- The loop of `lrng_get_cpu_data_compress`
  unfoldable pub hash_rounds : ℕ → ℕ → CpuData T → S → Option (Rounds T S)
  hash_rounds zero requested_bits d s = some (record { going = true; drawn = d; shash = s })
  hash_rounds (suc n) requested_bits d s =
      get_cpu_data seed_longs random_longs requested_bits d.outbuf d.cpu d.world >>= λ d'.
      let (r, s') = cb.hash_update s (window (d'.ent_bits / 2 ^ 3) d'.outbuf) in
      let rest = hash_rounds n requested_bits d' s' in
      if d'.ent_bits == 0
      then some (record { going = false; drawn = d'; shash = s })
      else if r == 0
      then rest
      else some (record { going = false; drawn = record d' { ent_bits = 0 }; shash = s' })

  -- The end of it: the partial block and the digest.
  unfoldable pub hash_end : ℕ → ℕ → ℕ → Rounds T S → Option (CpuData T)
  hash_end requested_bits digestsize_bits partial_bits q =
      let d = q.drawn in
      get_cpu_data seed_longs random_longs partial_bits d.outbuf d.cpu d.world >>= λ d'.
      let (r, s) = cb.hash_update q.shash (window (d'.ent_bits / 2 ^ 3) d'.outbuf) in
      let (rf, _, digest) = cb.hash_final (if d'.ent_bits == 0 then q.shash else s) in
      let size =
        if ltb requested_bits digestsize_bits then requested_bits / 2 ^ 3 else cb.hash_digestsize in
      if not (d'.ent_bits == 0) && not (r == 0)
      then some (record d' { ent_bits = 0 })
      else if rf == 0
      then some (record d' {
        ent_bits = requested_bits;
        outbuf = write_bytes (take size digest) d'.outbuf;
      })
      else some (record d' { ent_bits = 0 })

  -- `lrng_get_cpu_data_compress`, for a request of some bits and a hash with a digest
  unfoldable pub get_cpu_data_compress : Config → ℕ → ℕ → Memory → Cpu → T → S → Option (CpuData T)
  unfolding hash_rounds hash_end
  get_cpu_data_compress cfg bits multiplier outbuf c t hash =
      let digestsize_bits = u32 (cb.hash_digestsize * 2 ^ 3) in
      let requested_bits = min_u32 digestsize_bits bits in
      let sp = sp80090c_compliant cfg in
      let full = mul32 requested_bits multiplier in
      let full_bits = add32 full (mul32 (oversample_es_bits cfg) multiplier) in
      let rounds = if sp then full_bits / requested_bits else multiplier in
      let partial_bits = if sp then sub32 full_bits (mul32 rounds requested_bits) else 0 in
      let (r, s) = cb.hash_init hash in
      let d : CpuData T = record { ent_bits = 0; outbuf = outbuf; cpu = c; world = t } in
      let hashed = hash_rounds rounds requested_bits d s >>= λ q.
      let done = hash_end requested_bits digestsize_bits partial_bits q in
      if q.going then done else some q.drawn in
      if r == 0 then hashed else some d

  -- `lrng_cpu_get`: the bits it credits, and what it leaves.
  unfoldable pub cpu_get : Config → CpuConfig → ℕ → Memory → Cpu → T → S → Option (ℕ × CpuData T)
  unfolding get_cpu_data_compress
  cpu_get cfg arch requested_bits outbuf c t hash =
      let (probe, t1) = seed_longs 1 t in
      let (multiplier, c') = cpu_multiplier arch (length probe) c in
      let t' = if not (ltb 0 c.data_multiplier) && arch.x86 then t1 else t in
      let plain = get_cpu_data seed_longs random_longs requested_bits outbuf c' t' in
      let pressed = get_cpu_data_compress cfg requested_bits multiplier outbuf c' t' hash in
      (if leb multiplier 1 then plain else pressed) >>= λ d.
      some (cpu_entropylevel d.ent_bits d.cpu, d)
