-- ===== src/DrngState.antt =====
-- `struct lrng_drng` of lrng_drng_mgr.h and what lrng_drng_mgr.c and lrng_drng_atomic.c do to one
-- instance. The DRNG behind it is given by its callbacks, over a state `D`; its hash callback and
-- the locks are not part of the record.
pub mod Cadence
use lrng.Common.{
  ℕ, ◌+◌, ◌-◌, ◌*◌, ◌%◌, ◌^◌, Bool, true, false, not, ◌||◌, ◌==◌, leb, if◌then◌else◌, List, add32,
  sub32,
}
use lrng.Config.{Config}
use lrng.Definitions.{drng_reseed_thresh}

-- `struct lrng_drng_cb` of lrng.h, as far as an allocated DRNG uses it.
pub record DrngCb (D : Type 0) : Type 0 where
  -- whether seeding failed (a negative result), and the state
  pub drng_seed : D → List ℕ → Bool × D
  -- the number of bytes that were generated, 0 for any result that is not positive, and the bytes
  pub drng_generate : D → ℕ → ℕ × List ℕ × D

pub record Drng (D : Type 0) : Type 0 where
  pub drng : D
  pub requests : ℕ
  pub requests_since_fully_seeded : ℕ
  pub last_seeded : ℕ
  pub fully_seeded : Bool
  pub force_reseed : Bool

-- `LRNG_DRNG_STATE_INIT`
abbrev pub drng_state_init : {D : Type 0} → D → Drng D
drng_state_init d = record {
  drng = d;
  requests = drng_reseed_thresh;
  requests_since_fully_seeded = 0;
  last_seeded = 0;
  fully_seeded = false;
  force_reseed = true;
}

-- The kernel's `time_after` on `unsigned long` of 64 bits: the difference is negative as a `long`.
abbrev pub time_after : ℕ → ℕ → Bool
time_after a b = leb (2 ^ 63) ((b + 2 ^ 64 - a % 2 ^ 64) % 2 ^ 64)

module _ {D : Type 0} where
  -- `lrng_drng_reset`
  unfoldable pub drng_reset : ℕ → Drng D → Drng D
  drng_reset jiffies d = record d {
    requests = 1;
    requests_since_fully_seeded = 0;
    last_seeded = jiffies;
    fully_seeded = false;
    force_reseed = false;
  }

  -- `lrng_drng_inject`: what a seeding that worked sets, and the whole.
  abbrev pub injected : ℕ → Bool → D → Drng D → Drng D
  injected jiffies fully_seeded handle d = record d {
    drng = handle;
    requests_since_fully_seeded =
        if fully_seeded
        then 0
        else add32 d.requests_since_fully_seeded (sub32 drng_reseed_thresh d.requests);
    last_seeded = jiffies;
    requests = drng_reseed_thresh;
    force_reseed = false;
    fully_seeded = if d.fully_seeded then true else fully_seeded;
  }

  unfoldable pub drng_inject : DrngCb D → ℕ → List ℕ → Bool → Drng D → Drng D
  drng_inject cb jiffies inbuf fully_seeded d =
      let (failed, handle) = cb.drng_seed d.drng inbuf in
      if failed
      then record d { drng = handle; force_reseed = true }
      else injected jiffies fully_seeded handle d

  -- `lrng_drng_must_reseed`: the answer, and the instance with one request less.
  unfoldable pub drng_must_reseed : Config → ℕ → Drng D → Bool × Drng D
  drng_must_reseed cfg jiffies d =
      let left = sub32 d.requests 1 in
      (
        left == 0
            || d.force_reseed
            || time_after jiffies ((d.last_seeded + cfg.reseed_max_time * cfg.hz) % 2 ^ 64),
        record d { requests = left },
      )

  -- `lrng_drng_atomic_must_reseed`, and one instance of `lrng_drng_force_reseed`
  unfoldable pub drng_atomic_must_reseed : Config → ℕ → Drng D → Bool
  drng_atomic_must_reseed cfg jiffies d =
      not d.fully_seeded
      || d.requests == 0
      || d.force_reseed
      || time_after jiffies ((d.last_seeded + cfg.reseed_max_time * cfg.hz) % 2 ^ 64)

  unfoldable pub force_reseed_one : Drng D → Drng D
  force_reseed_one d = record d { force_reseed = d.fully_seeded }
