-- ===== src/AtomicDrng.antt =====
-- lrng_drng_atomic.c: the generation of random numbers by the atomic DRNG, an instance that is usable
-- in atomic context. Its seeding from a regular DRNG is not part of the model.
pub mod Output
mod Tests
use lrng.Common.{
  ℕ, zero, suc, ◌-◌, ◌^◌, ◌==◌, if◌then◌else◌, List, [], ◌++◌, Option, none, some, sub32, min_u32,
}
use lrng.Definitions.{drng_max_reqsize}
use lrng.DrngState.{Drng, DrngCb, drng_reset, force_reseed_one}

abbrev pub int_max : ℕ
int_max = 2 ^ 31 - 1

module _ {D : Type 0} where
  -- `lrng_drng_atomic_reset` and `lrng_drng_atomic_force_reseed`
  unfoldable pub drng_atomic_reset : ℕ → Drng D → Drng D
  unfolding drng_reset
  drng_atomic_reset jiffies d = drng_reset jiffies d

  unfoldable pub drng_atomic_force_reseed : Drng D → Drng D
  unfolding force_reseed_one
  drng_atomic_force_reseed d = force_reseed_one d

  -- The loop of `lrng_drng_atomic_get`, with the bytes that were written.
  abbrev pub get_loop : DrngCb D → ℕ → ℕ → Drng D → List ℕ → Option (List ℕ × Drng D)
  get_loop cb zero outbuflen d out = none
  get_loop cb (suc fuel) outbuflen d out =
      let (ret, bytes, handle) = cb.drng_generate d.drng (min_u32 outbuflen drng_max_reqsize) in
      let d' = record d { drng = handle; requests = sub32 d.requests 1 } in
      let rest = get_loop cb fuel (sub32 outbuflen ret) d' (out ++ bytes) in
      if outbuflen == 0 then some (out, d) else if ret == 0 then some (out, d') else rest

  -- `lrng_drng_atomic_get`, with a buffer
  unfoldable pub drng_atomic_get : DrngCb D → ℕ → ℕ → Drng D → Option (List ℕ × Drng D)
  drng_atomic_get cb fuel outbuflen d =
      if outbuflen == 0 then some ([], d) else get_loop cb fuel (min_u32 outbuflen int_max) d []
