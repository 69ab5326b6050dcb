-- ===== src/DrngMgr/Generate.antt =====
-- lrng_drng_mgr.c and lrng_drng_atomic.c: `lrng_drng_get`, and the seeding of a DRNG and from it of
-- the atomic DRNG, which call each other.
use lrng.Common.{
  ℕ, zero, suc, ◌-◌, ◌/◌, ◌^◌, Bool, true, false, not, ltb, ◌==◌, if◌then◌else◌, List, [], ◌++◌,
  Option, none, some, add32, sub32, min_u32, ◌>>=◌,
}
use lrng.Config.{Config}
use lrng.Definitions.{drng_max_reqsize, drng_security_strength_bytes, security_strength}
use lrng.ManagerState.{pool_trylock, pool_unlock}
use lrng.DrngState.{drng_must_reseed, drng_atomic_must_reseed, drng_inject}
use lrng.DrngMgr.{
  LrngState, Setup, Ret, count, errno, put, put_mgr, now, drng_pr, drng_atomic,
  drng_unset_fully_seeded, drng_seed_es,
}

abbrev pub efault : ℕ
efault = 14

abbrev pub eopnotsupp : ℕ
eopnotsupp = 95

-- The variables of the loop: what is left, what was processed and written.
pub record Request : Type 0 where
  pub outbuflen : ℕ
  pub processed : ℕ
  pub outbuf : List ℕ

-- One turn of the loop returns, or goes on.
pub data Turn (W D : Type 0) : Type 0 where
  return : Ret → Request → LrngState W D → Turn W D
  more : Request → LrngState W D → Turn W D

-- What the seeding inside a turn decides: to return what there is, to try again, or how much to do.
pub data Plan (W D : Type 0) : Type 0 where
  stop retry : LrngState W D → Plan W D
  todo : ℕ → LrngState W D → Plan W D

-- The result, the bytes written, and the state.
abbrev pub Got : Type 0 → Type 0 → Type 0
Got W D = Option (Ret × List ℕ × LrngState W D)

module _ {W D : Type 0} (cfg : Config) (u : Setup W D) where
  -- `lrng_drng_get` in normal operation: the check whether to reseed; `seed` is `lrng_drng_seed`.
  unfoldable pub reseed_check :
      (ℕ → LrngState W D → Option (LrngState W D)) → ℕ → LrngState W D → Option (LrngState W D)
  reseed_check seed i s =
      let (must, d) = drng_must_reseed cfg (now cfg u s) (s.drngs i) in
      let (locked, m) = pool_trylock s.mgr in
      let seeded : Option (LrngState W D) =
        seed i (put_mgr m (put i d s)) >>= λ s'. some (put_mgr (pool_unlock s'.mgr) s') in
      if not must
      then some (put i d s)
      else if not locked
      then some (put i (record d { force_reseed = true }) s)
      else seeded

  -- The prediction resistance DRNG: seeds it if it is not fully seeded, and limits the output.
  unfoldable pub pr_plan : ℕ → ℕ → LrngState W D → Option (Plan W D)
  pr_plan i want s =
      let (locked, m) = pool_trylock s.mgr in
      let cap : LrngState W D → ℕ =
        λ s'. security_strength (u.src.digestsize s'.mgr.world) / 2 ^ 3 in
      let seeded : Option (Plan W D) = drng_seed_es cfg u i (put_mgr m s) >>= λ r.
      let s' = put_mgr (pool_unlock r.1.mgr) r.1 in
      some
        (if r.0 == 0 then stop s' else todo (min_u32 (min_u32 want (r.0 / 2 ^ 3)) (cap s')) s') in
      if (s.drngs i).fully_seeded
      then some (todo (min_u32 want (cap s)) s)
      else if not locked
      then some (retry s)
      else seeded

  -- The call of `drng_generate`, and what follows it.
  unfoldable pub generate : ℕ → Bool → ℕ → Request → LrngState W D → Turn W D
  generate i pr want r s =
      let d = s.drngs i in
      let (ret, bytes, handle) = (u.cbs i).drng_generate d.drng want in
      let s' = put i (record d { drng = handle }) s in
      let r' : Request = record {
        outbuflen = sub32 r.outbuflen ret;
        processed = add32 r.processed ret;
        outbuf = r.outbuf ++ bytes;
      } in
      if ret == 0
      then return (errno efault) r s'
      else more r' (if pr then drng_unset_fully_seeded cfg u i s' else s')

  -- One turn of the loop of `lrng_drng_get`.
  unfoldable pub get_turn :
      (ℕ → LrngState W D → Option (LrngState W D)) → ℕ → Request → LrngState W D → Option (Turn W D)
  get_turn seed i r s =
      let want = min_u32 r.outbuflen drng_max_reqsize in
      let pr_turn : Option (Turn W D) = pr_plan i want s >>= λ p. some (elim p [
        | stop s' ↦ return (count r.processed) r s'
        | retry s' ↦ more r s'
        | todo n s' ↦ generate i true n r s'
      ]) in
      let normal_turn : Option (Turn W D) =
        reseed_check seed i s >>= λ s'. some (generate i false want r s') in
      if i == drng_pr then pr_turn else normal_turn

  -- What follows a turn; `loop` is the rest of the loop.
  abbrev pub resume : (Request → LrngState W D → Got W D) → Option (Turn W D) → Got W D
  resume loop none = none
  resume loop (some (return ret r s)) = some (ret, r.outbuf, s)
  resume loop (some (more r s)) = loop r s

  -- The loop, on fuel.
  abbrev pub get_loop :
      (ℕ → LrngState W D → Option (LrngState W D)) → ℕ → ℕ → Request → LrngState W D → Got W D
  get_loop seed zero i r s = none
  get_loop seed (suc fuel) i r s =
      let rest = resume (get_loop seed fuel i) (get_turn seed i r s) in
      if r.outbuflen == 0 then some (count r.processed, r.outbuf, s) else rest

  abbrev pub request : ℕ → Request
  request outbuflen = record { outbuflen = outbuflen; processed = 0; outbuf = [] }

  -- `lrng_drng_get`, with a buffer. The size is cut to INT_MAX.
  unfoldable pub drng_get_with :
      (ℕ → LrngState W D → Option (LrngState W D)) → ℕ → ℕ → ℕ → LrngState W D → Got W D
  drng_get_with seed fuel i outbuflen s =
      let s' =
        if ltb cfg.max_wo_reseed (s.drngs i).requests_since_fully_seeded
        then drng_unset_fully_seeded cfg u i s
        else s in
      let loop = get_loop seed fuel i (request (min_u32 outbuflen (2 ^ 31 - 1))) s' in
      if outbuflen == 0
      then some (count 0, [], s)
      else if not s.avail
      then some (errno eopnotsupp, [], s)
      else loop

  -- `lrng_drng_atomic_seed_drng`; `get` is `lrng_drng_get` on the regular DRNG `i`.
  unfoldable pub drng_atomic_seed_drng :
      (ℕ → ℕ → LrngState W D → Got W D) → ℕ → LrngState W D → Option (LrngState W D)
  drng_atomic_seed_drng get i s =
      let seeded : Option (LrngState W D) =
        get i drng_security_strength_bytes s >>= λ (ret, seedbuf, s'). some (elim ret [
          | errno e ↦ s'
          | count n ↦
              put drng_atomic
                (drng_inject (u.cbs drng_atomic) (now cfg u s') seedbuf (s'.drngs i).fully_seeded
                  (s'.drngs drng_atomic))
                s'
        ]) in
      if drng_atomic_must_reseed cfg (now cfg u s) (s.drngs drng_atomic) then seeded else some s

  -- `lrng_drng_seed`
  unfoldable pub drng_seed :
      (ℕ → ℕ → LrngState W D → Got W D) → ℕ → LrngState W D → Option (LrngState W D)
  drng_seed get i s = drng_seed_es cfg u i s >>= λ r. drng_atomic_seed_drng get i r.1

  -- `lrng_drng_get`, with the number of nested calls and the turns of each loop.
  unfoldable pub drng_get : ℕ → ℕ → ℕ → ℕ → LrngState W D → Got W D
  drng_get zero fuel i outbuflen s = none
  drng_get (suc depth) fuel i outbuflen s =
      drng_get_with (drng_seed (drng_get depth fuel)) fuel i outbuflen s
