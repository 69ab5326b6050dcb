-- ===== src/Interface/Write.antt =====
-- lrng_interface_dev_common.c: `lrng_drng_write_common`, the data that user space provides. The bytes that
-- user space can read are a list: a copy beyond its end faults.
use lrng.Common.{
  ℕ, zero, suc, ◌-◌, ◌*◌, ◌^◌, Bool, true, false, ◌&&◌, ltb, ◌==◌, if◌then◌else◌, List, min,
  min_u32, sub32, length, take, drop,
}
use lrng.Config.{Config}
use lrng.Hash.{HashCb}
use lrng.DrngMgr.{LrngState, Setup, Ret, drng_force_reseed}
use lrng.Start.{is_zero}
use lrng.Interface.{PoolIn, pool_insert_aux, add64, negative64, pattern64}

abbrev pub efault : ℕ
efault = 14

module _ {W D S : Type 0} (cfg : Config) (u : Setup W D) (cb : HashCb S) (at : PoolIn W S) where
  -- The loop, on fuel: what is left of the buffer, of `count` and of `entropy_bits`, and `ret`.
  abbrev pub write_loop : ℕ → List ℕ → ℕ → ℕ → ℕ → LrngState W D → ℕ × Bool × LrngState W D
  write_loop zero p count entropy_bits ret s = (ret, true, s)
  write_loop (suc fuel) p count entropy_bits ret s =
      let bytes = min count 64 in
      let ent = min_u32 (bytes * 2 ^ 3) entropy_bits in
      let s' = (pool_insert_aux cfg u cb at (take bytes p) ent s).1 in
      let rest =
        write_loop fuel (drop bytes p) (count - bytes) (sub32 entropy_bits ent) (add64 ret bytes)
          s' in
      if count == 0
      then (ret, true, s)
      else if ltb (length p) bytes
      then (negative64 efault, false, s)
      else rest

  -- The end of `lrng_drng_write_common`: a write with no claim of entropy forces a reseed, unless it faulted.
  abbrev pub after_write : ℕ → ℕ × Bool × LrngState W D → ℕ × LrngState W D
  after_write entropy_bits (ret, done, s) =
      if done && (entropy_bits == 0) then (ret, drng_force_reseed s) else (ret, s)

  -- Its loop with what follows, from a start value of `ret`. The count is cut to INT_MAX.
  unfoldable pub write_from : List ℕ → ℕ → ℕ → ℕ → LrngState W D → ℕ × LrngState W D
  write_from buffer count entropy_bits ret s =
      let n = min count (2 ^ 31 - 1) in
      after_write entropy_bits (write_loop (suc n) buffer n entropy_bits ret s)

  -- `lrng_drng_write_common`; `initalize` is `lrng_drng_initalize`.
  unfoldable pub drng_write_common :
      (LrngState W D → Ret × LrngState W D) → List ℕ → ℕ → ℕ → LrngState W D → ℕ × LrngState W D
  unfolding write_from
  drng_write_common initalize buffer count entropy_bits s =
      let (r, s1) = initalize s in
      if s.avail
      then write_from buffer count entropy_bits 0 s
      else if is_zero r
      then (0, s1)
      else write_from buffer count entropy_bits (pattern64 r) s1

  -- `lrng_drng_write`
  unfoldable pub drng_write :
      (LrngState W D → Ret × LrngState W D) → List ℕ → ℕ → LrngState W D → ℕ × LrngState W D
  unfolding drng_write_common
  drng_write initalize buffer count s = drng_write_common initalize buffer count 0 s
