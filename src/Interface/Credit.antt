-- ===== src/Interface/Credit.antt =====
-- What user space can add to the entropy of the auxiliary pool.
use mathlib.Core.Path.{subst}
use lrng.Common.{
  ℕ, zero, suc, ◌+◌, ◌-◌, ◌*◌, ◌^◌, ◌≤◌, ◌<◌, ◌≡◌, refl, ap, Bool, true, false, ltb, ◌==◌,
  if◌then◌else◌, List, leb, [], ◌∷◌, none, Option, Option-cases, some, min, min_u32, sub32, length,
  take, drop, arith, inl, inr, if_intro, ◌∙◌, sym, ◌&&◌, add32, ◌%◌,
}
use lrng.Config.{Config}
use lrng.Hash.{HashCb}
use lrng.AuxPool.{Pool, get_digestsize, set_entropy, aux_pool_insert_locked}
use lrng.AuxPool.Credit.{insert-le}
use lrng.ManagerState.{Manager, pool_trylock}
use lrng.Manager.{es_add_entropy}
use lrng.DrngState.{Drng, force_reseed_one}
use lrng.DrngMgr.{LrngState, Setup, Ret, drng_force_reseed, on_nodes, put}
use lrng.Interface.{PoolIn, pool_of, pool_insert_aux, get_aux_ent, add64, pattern64}
use lrng.Start.{is_zero}
use lrng.Interface.Write.{write_loop, write_from, drng_write_common}
use lrng.Interface.Ioctl.{
  rndaddentropy, add_to_entcnt, add_entropy, lrng_ioctl, is_negative, min_int,
}

module _ {W D S : Type 0} (cfg : Config) (u : Setup W D) (cb : HashCb S) (at : PoolIn W S) where
  abbrev pub held : LrngState W D → ℕ
  held s = (pool_of cfg u cb at s).aux_entropy_bits

  es_add_entropy-world : (m : Manager W) → (es_add_entropy cfg u.src m).world ≡ m.world
  unfolding es_add_entropy pool_trylock
  es_add_entropy-world m = ground arith

  pub pool_insert_aux-le :
      (inbuf : List ℕ) (bits : ℕ) (s : LrngState W D)
      → held (pool_insert_aux cfg u cb at inbuf bits s).1 ≤ held s + min bits (8 * length inbuf)
  unfolding pool_insert_aux
  pool_insert_aux-le inbuf bits s =
      let (ret, p) = aux_pool_insert_locked cfg cb inbuf bits (pool_of cfg u cb at s) in
      let m = record (s.mgr) { world = at.set_pool p s.mgr.world } in
      let e : held (pool_insert_aux cfg u cb at inbuf bits s).1 ≡ p.aux_entropy_bits =
        ap (λ (w : W). (at.pool w).aux_entropy_bits) (es_add_entropy-world m)
        ∙ ap (λ (q : Pool S). q.aux_entropy_bits) (at.pool-set_pool p s.mgr.world) in
      omega (arith, e, insert-le cfg cb inbuf bits (pool_of cfg u cb at s))

  write_loop-le :
      (fuel : ℕ) (p : List ℕ) (count bits ret : ℕ) (s : LrngState W D)
      → bits < 2 ^ 32
      → held (write_loop cfg u cb at fuel p count bits ret s).2 ≤ held s + min bits (8 * count)
  write_loop-le zero p count bits ret s l = omega arith
  write_loop-le (suc fuel) p count bits ret s l =
      let bytes = min count 64 in
      let ent = min_u32 (bytes * 2 ^ 3) bits in
      let s' = (pool_insert_aux cfg u cb at (take bytes p) ent s).1 in
      let left : sub32 bits ent ≡ bits - ent = ground arith in
      let one = pool_insert_aux-le (take bytes p) ent s in
      let rest =
        write_loop-le fuel (drop bytes p) (count - bytes) (sub32 bits ent) (add64 ret bytes) s'
          (omega arith) in
      let total : held
            (write_loop cfg u cb at fuel (drop bytes p) (count - bytes) (sub32 bits ent)
              (add64 ret bytes) s').2
          ≤ held s + min bits (8 * count) =
        ground (arith, left, one, rest) in
      if_intro (λ (x : ℕ × Bool × LrngState W D). held x.2 ≤ held s + min bits (8 * count))
        (count == 0) (omega arith)
        (if_intro (λ (x : ℕ × Bool × LrngState W D). held x.2 ≤ held s + min bits (8 * count))
          (ltb (length p) bytes) (omega arith) total)

  on_nodes-mgr :
      (f : Drng D → Drng D) (ns : List (Option ℕ)) (s : LrngState W D)
      → (on_nodes f ns s).mgr ≡ s.mgr
  on_nodes-mgr f [] s = refl
  on_nodes-mgr f (none ∷ ns) s = on_nodes-mgr f ns s
  on_nodes-mgr f (some i ∷ ns) s = on_nodes-mgr f ns (put i (f (s.drngs i)) s)

  pub force_reseed-mgr : (s : LrngState W D) → (drng_force_reseed s).mgr ≡ s.mgr
  unfolding drng_force_reseed
  force_reseed-mgr s = elim (Option-cases s.nodes) [
    | inl n ↦ rw n refl
    | inr (ns, n) ↦ ground (arith, n, on_nodes-mgr force_reseed_one ns s)
  ]

  pub write_common-on :
      (initalize : LrngState W D → Ret × LrngState W D) (buffer : List ℕ) (count bits : ℕ)
      (s : LrngState W D)
      → s.avail ≡ true
      → drng_write_common cfg u cb at initalize buffer count bits s
        ≡ write_from cfg u cb at buffer count bits 0 s
  unfolding drng_write_common
  write_common-on initalize buffer count bits s on =
      let (r, s1) = initalize s in
      let go = write_from cfg u cb at buffer count bits in
      ap (λ (b : Bool). if b then go 0 s else if is_zero r then (0, s1) else go (pattern64 r) s1) on

  -- While the LRNG is available, a write of `count` bytes with a claim of entropy raises the count of the
  -- auxiliary pool by at most the claim and at most eight bits for each byte, however it ends.
  pub drng_write_common-credit :
      (initalize : LrngState W D → Ret × LrngState W D) (buffer : List ℕ) (count bits : ℕ)
      (s : LrngState W D)
      → s.avail ≡ true
      → bits < 2 ^ 32
      → held (drng_write_common cfg u cb at initalize buffer count bits s).1
        ≤ held s + min bits (8 * count)
  unfolding write_from
  drng_write_common-credit initalize buffer count bits s on small =
      let n = min count (2 ^ 31 - 1) in
      let w = write_loop-le (suc n) buffer n bits 0 s small in
      let r = write_loop cfg u cb at (suc n) buffer n bits 0 s in
      let s2 = r.2 in
      let f : held (drng_force_reseed s2) ≡ held s2 =
        ap (λ (m : Manager W). (at.pool m.world).aux_entropy_bits) (force_reseed-mgr s2) in
      let P : ℕ × LrngState W D → Type 0 = λ x. held x.1 ≤ held s + min bits (8 * count) in
      subst P (sym (write_common-on initalize buffer count bits s on))
        (if_intro P (r.1 && (bits == 0)) (omega (arith, w, f)) (omega (arith, w)))

  -- RNDADDTOENTCNT with a count that is not negative: the sum of the entropy that is available and the
  -- count, up to the digest size; where the sum overflows an `int`, the pool is left with no entropy.
  pub add_to_entcnt-outcome :
      (n : ℕ) (s : LrngState W D)
      → n < 2 ^ 31
      → get_aux_ent cfg u cb at s < 2 ^ 31
      → held (add_to_entcnt cfg u cb at n s).lrng ≡ (
          if leb (2 ^ 31) (get_aux_ent cfg u cb at s + n)
          then 0
          else min (get_aux_ent cfg u cb at s + n) (get_digestsize (pool_of cfg u cb at s)))
  unfolding add_to_entcnt set_entropy
  add_to_entcnt-outcome n s l k =
      let p = pool_of cfg u cb at s in
      let sum = add32 (get_aux_ent cfg u cb at s) n in
      let positive = if is_negative sum then 0 else sum in
      let bits = if ltb (get_digestsize p) positive then get_digestsize p else positive in
      let e : held (add_to_entcnt cfg u cb at n s).lrng ≡ bits =
        ap (λ (q : Pool S). q.aux_entropy_bits)
          (at.pool-set_pool (set_entropy bits p) s.mgr.world) in
      ground (arith, e, l, k)

  -- RNDADDENTROPY with 2 ^ 28 bytes or more, and less than 2 ^ 29: whatever entropy is claimed, also none,
  -- the write is made with eight bits for each byte.
  pub ioctl_addentropy_ignores_claim :
      (initalize : LrngState W D → Ret × LrngState W D) (n size : ℕ) (bytes : List ℕ)
      (s : LrngState W D)
      → n < 2 ^ 31
      → 2 ^ 28 ≤ size
      → size < 2 ^ 29
      → (lrng_ioctl cfg u cb at initalize rndaddentropy true
          (record { ent_count = some n; size = some size; bytes = bytes; writable = true })
          s).lrng
        ≡ (drng_write_common cfg u cb at initalize bytes size (8 * size) s).1
  unfolding lrng_ioctl add_entropy
  ioctl_addentropy_ignores_claim initalize n size bytes s l low high =
      let all : min_int n (size * 2 ^ 3 % 2 ^ 32) ≡ 8 * size = ground (arith, l, low, high) in
      let some_data : is_negative size ≡ false = ground (arith, high) in
      let claim : is_negative n ≡ false = ground (arith, l) in rw (claim, some_data, all) refl
