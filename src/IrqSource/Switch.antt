-- ===== src/IrqSource/Switch.antt =====
-- lrng_es_irq.c: the switch of the hash of the pools of a node. `same` says whether a pool has the new
-- handle already. The callbacks of the node's DRNG are replaced by the caller, afterwards.
use lrng.Common.{
  ℕ, ◌*◌, ◌^◌, ◌≤◌, ◌≡◌, Bool, not, ◌||◌, ◌==◌, if◌then◌else◌, List, [], ◌∷◌, u32, add32, min_u32,
  arith,
}
use lrng.Config.{Config}
use lrng.Definitions.{entropy_to_data}
use lrng.Hash.{HashCb, overlay}
use lrng.AuxPool.{eopnotsupp}
use lrng.IrqSource.{Pcpu, IrqState}
use lrng.IrqSource.Ledger.{total}

module _ {S : Type 0} (rate node : ℕ) (new_cb old_cb : HashCb S) (same : S → Bool) where
  -- The loop over the online CPUs, with what the digest buffer holds.
  abbrev pub switch_cpus : List ℕ → List (Pcpu S) → ℕ × List (Pcpu S)
  switch_cpus buffer [] = (0, [])
  switch_cpus buffer (c ∷ cs) =
      let digestsize_irqs = entropy_to_data (u32 (old_cb.hash_digestsize * 2 ^ 3)) rate in
      let (r1, s1, out) = old_cb.hash_final c.irq_pool in
      let digest = overlay out buffer in
      let (r2, s2) = new_cb.hash_init s1 in
      let (r3, s3) = new_cb.hash_update s2 digest in
      let passed = switch_cpus buffer cs in
      let switched = switch_cpus digest cs in
      let found = min_u32 c.irq_array_irqs digestsize_irqs in
      if not (c.node == node) || not c.irq_lock_init
      then (passed.0, c ∷ passed.1)
      else if same c.irq_pool
      then (passed.0, c ∷ passed.1)
      else if not (r1 == 0)
      then (r1, record c { irq_pool = s1 } ∷ cs)
      else if not (r2 == 0)
      then (r2, record c { irq_pool = s2 } ∷ cs)
      else if not (r3 == 0)
      then (r3, record c { irq_pool = s3 } ∷ cs)
      else (switched.0, record c { irq_array_irqs = add32 0 found; irq_pool = s3 } ∷ switched.1)

  -- The switch adds no events.
  switch_cpus-le :
      (buffer : List ℕ) (cs : List (Pcpu S)) → total (switch_cpus buffer cs).1 ≤ total cs
  switch_cpus-le buffer [] = omega arith
  switch_cpus-le buffer (c ∷ cs) =
      let digest = overlay (old_cb.hash_final c.irq_pool).2 buffer in
      let found =
        min_u32 c.irq_array_irqs (entropy_to_data (u32 (old_cb.hash_digestsize * 2 ^ 3)) rate) in
      let most : found ≤ c.irq_array_irqs = ground arith in
      ground (arith, most, switch_cpus-le buffer cs, switch_cpus-le digest cs)

module _ {S : Type 0} (cfg : Config) where
  -- `lrng_irq_switch_hash`
  unfoldable pub irq_switch_hash :
      ℕ → HashCb S → HashCb S → (S → Bool) → List ℕ → IrqState S → ℕ × IrqState S
  irq_switch_hash node new_cb old_cb same stack s =
      let (ret, cs) = switch_cpus s.entropy_bits node new_cb old_cb same stack s.cpus in
      if not cfg.switch then (eopnotsupp, s) else (ret, record s { cpus = cs })

  pub irq_switch_hash-le :
      (node : ℕ) (new_cb old_cb : HashCb S) (same : S → Bool) (stack : List ℕ) (s : IrqState S)
      → let s' = (irq_switch_hash node new_cb old_cb same stack s).1 in
        (total s'.cpus ≤ total s.cpus) × (s'.entropy_bits ≡ s.entropy_bits)
  unfolding irq_switch_hash
  irq_switch_hash-le node new_cb old_cb same stack s =
      ground (arith, switch_cpus-le s.entropy_bits node new_cb old_cb same stack s.cpus)
