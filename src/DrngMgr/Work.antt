-- ===== src/DrngMgr/Work.antt =====
-- lrng_drng_mgr.c: the seed work, which seeds the first instance that is not fully seeded, and the
-- forced seeding that the interfaces start with. `waiting` says whether anyone sleeps on
-- `lrng_init_wait`.
use lrng.Common.{
  ℕ, suc, ◌+◌, ◌*◌, ◌%◌, ◌^◌, Bool, true, false, not, ◌||◌, if◌then◌else◌, List, [], ◌∷◌, Option,
  none, some, ◌>>=◌,
}
use lrng.Config.{Config}
use lrng.ManagerState.{pool_unlock, pool_all_numa_nodes_seeded}
use lrng.Manager.{init_ops}
use lrng.Drng.{seed_es_nolock}
use lrng.DrngMgr.{LrngState, Setup, env_of, put, put_mgr, drng_init, drng_pr, drng_atomic}
use lrng.DrngMgr.Generate.{Got, drng_seed}

module _ {W D : Type 0} where
  -- The first node, counted from `node`, whose instance is not fully seeded, with that instance.
  abbrev pub first_unseeded : ℕ → List (Option ℕ) → LrngState W D → Option (ℕ × ℕ)
  first_unseeded node [] s = none
  first_unseeded node (none ∷ ns) s = first_unseeded (suc node) ns s
  first_unseeded node (some i ∷ ns) s =
      if (s.drngs i).fully_seeded then first_unseeded (suc node) ns s else some (node, i)

  -- The instance that the seed work is for, of those that serve regular requests.
  abbrev pub regular_target : LrngState W D → Option (ℕ × ℕ)
  regular_target s = elim s.nodes [
    | none ↦ if (s.drngs drng_init).fully_seeded then none else some (0, drng_init)
    | some ns ↦ first_unseeded 0 ns s
  ]

  abbrev pub work_target : LrngState W D → Option (ℕ × ℕ)
  work_target s = elim (regular_target s) [
    | some t ↦ some t
    | none ↦ if (s.drngs drng_pr).fully_seeded then none else some (0, drng_pr)
  ]

  -- `force_reseed |= force`
  abbrev pub or_force : Bool → ℕ → LrngState W D → LrngState W D
  or_force force i s =
      put i (record (s.drngs i) { force_reseed = (s.drngs i).force_reseed || force }) s

module _ {W D : Type 0} (cfg : Config) (u : Setup W D) where
  -- `lrng_drng_seed_work_one`
  unfoldable pub drng_seed_work_one :
      (ℕ → ℕ → LrngState W D → Got W D) → ℕ → ℕ → LrngState W D → Option (LrngState W D)
  drng_seed_work_one get node i s = drng_seed cfg u get i s >>= λ s'.
      let d = s'.drngs i in
      some (
        if d.fully_seeded
        then put i (record d { last_seeded = (d.last_seeded + node * 100 * cfg.hz) % 2 ^ 64 }) s'
        else s')

  -- `__lrng_drng_seed_work` before the LRNG is available: only the atomic DRNG is seeded.
  unfoldable pub early_seed_work : Bool → Bool → LrngState W D → Option (LrngState W D)
  early_seed_work waiting force s =
      let s1 = or_force force drng_atomic s in
      let seeded : Option (LrngState W D) =
        seed_es_nolock cfg (env_of u drng_atomic) 384 false s1.stack (s1.drngs drng_atomic) s1.mgr
        >>= λ r. some (record (put drng_atomic r.drng s1) { mgr = r.mgr; stack = r.seedbuf }) in
      if waiting
      then some (put_mgr (init_ops cfg u.src none s.mgr) s)
      else if (s.drngs drng_atomic).fully_seeded
      then some s
      else seeded

  -- `__lrng_drng_seed_work`
  unfoldable pub seed_work :
      (ℕ → ℕ → LrngState W D → Got W D) → Bool → Bool → LrngState W D → Option (LrngState W D)
  seed_work get waiting force s =
      let work : Option (LrngState W D) = elim (work_target s) [
        | none ↦ some (put_mgr (pool_all_numa_nodes_seeded true s.mgr) s)
        | some (node, i) ↦ drng_seed_work_one get node i (or_force force i s)
      ] in
      if not s.avail then early_seed_work waiting force s else work

  -- `lrng_drng_seed_work`
  unfoldable pub drng_seed_work :
      (ℕ → ℕ → LrngState W D → Got W D) → Bool → LrngState W D → Option (LrngState W D)
  drng_seed_work get waiting s =
      seed_work get waiting false s >>= λ s'. some (put_mgr (pool_unlock s'.mgr) s')

  -- `lrng_force_fully_seeded`, from when the pool is free
  unfoldable pub force_fully_seeded :
      (ℕ → ℕ → LrngState W D → Got W D) → Bool → LrngState W D → Option (LrngState W D)
  force_fully_seeded get waiting s =
      let locked = put_mgr (record (s.mgr) { reseed_in_progress = true }) s in
      let work : Option (LrngState W D) =
        seed_work get waiting true locked >>= λ s'. some (put_mgr (pool_unlock s'.mgr) s') in
      if s.mgr.all_nodes_seeded then some s else work
