-- ===== src/Start.antt =====
-- lrng_drng_mgr.c: the allocation of a DRNG, the start of the LRNG with its first seeding, and the
-- interface to the DRNGs that starts it on demand. Numa has the instances of the nodes.
pub mod Sleep
mod Tests
use lrng.Common.{
  ℕ, Bool, true, false, not, ◌&&◌, ◌==◌, if◌then◌else◌, List, [], Option, none, some, get_or, ◌>>=◌,
}
use lrng.Config.{Config}
use lrng.Definitions.{drng_security_strength_bytes}
use lrng.ManagerState.{pool_trylock}
use lrng.DrngState.{Drng, drng_reset}
use lrng.DrngMgr.{LrngState, Setup, Ret, count, errno, put, put_mgr, now, drng_init, drng_pr}
use lrng.DrngMgr.Generate.{Got}
use lrng.DrngMgr.Work.{drng_seed_work}

abbrev pub einval : ℕ
einval = 22

-- The LRNG with what is known of the pointers to the DRNGs: whether that of an instance is neither NULL
-- nor an error.
pub record Boot (W D : Type 0) : Type 0 where
  pub lrng : LrngState W D
  pub allocated : ℕ → Bool

-- A result is 0, as opposed to an error or a positive number.
abbrev pub is_zero : Ret → Bool
is_zero (count n) = n == 0
is_zero (errno e) = false

module _ {W D : Type 0} (cfg : Config) (u : Setup W D) where
  -- `lrng_drng_alloc_common`; `drng_alloc` is the callback of `drng_cb`, which gives an errno, or 0 and the
  -- new DRNG. An errno is returned as the positive number that `-PTR_ERR` is.
  unfoldable pub alloc_common : Option (ℕ → ℕ × D) → ℕ → Boot W D → Ret × Boot W D
  alloc_common none i b = (errno einval, b)
  alloc_common (some drng_alloc) i b =
      let (err, handle) = drng_alloc drng_security_strength_bytes in
      let d : Drng D = record (b.lrng.drngs i) { drng = handle } in
      if b.allocated i
      then (count 0, b)
      else if err == 0
      then (
        count 0,
        record b {
          lrng = put i (drng_reset (now cfg u b.lrng) d) b.lrng;
          allocated = λ j. if j == i then true else b.allocated j;
        },
      )
      else (count err, b)

  -- The part of `lrng_drng_initalize` under the locks: the DRNGs are there, or the error.
  unfoldable pub make_available : (ℕ → ℕ × D) → Boot W D → Ret × Boot W D
  unfolding alloc_common
  make_available drng_alloc b =
      let (r1, b1) = alloc_common (some drng_alloc) drng_pr b in
      let (r2, b2) = alloc_common (some drng_alloc) drng_init b1 in
      if not (is_zero r1)
      then (r1, b1)
      else if not (is_zero r2)
      then (r2, b2)
      else (count 0, record b2 { lrng = record (b2.lrng) { avail = true } })

  -- `lrng_drng_initalize`; `drng_alloc` is that of the default callbacks, and `waiting` says whether
  -- someone waits for the LRNG.
  unfoldable pub drng_initalize :
      (ℕ → ℕ → LrngState W D → Got W D) → (ℕ → ℕ × D) → Bool → Boot W D → Option (Ret × Boot W D)
  unfolding make_available
  drng_initalize get drng_alloc waiting b =
      let (r, b1) = make_available drng_alloc b in
      let (locked, m) = pool_trylock b1.lrng.mgr in
      let seeded : Option (Ret × Boot W D) =
        drng_seed_work cfg u get waiting (put_mgr m b1.lrng) >>= λ s.
        some (count 0, record b1 { lrng = s }) in
      if b.lrng.avail
      then some (count 0, b)
      else if not (is_zero r)
      then some (r, b1)
      else if locked
      then seeded
      else some (count 0, b1)

  -- The instance that `lrng_drng_get_sleep` takes on node `node`.
  unfoldable pub sleep_instance : ℕ → Bool → LrngState W D → ℕ
  sleep_instance node pr s =
      let own : Option ℕ = elim s.nodes [ none ↦ none | some ns ↦ get_or ns node none ] in
      let regular : ℕ = elim own [
        | none ↦ drng_init
        | some i ↦ if (s.drngs i).fully_seeded then i else drng_init
      ] in
      if pr then drng_pr else regular

  -- `lrng_drng_get_sleep`; `get` is `lrng_drng_get`.
  unfoldable pub drng_get_sleep :
      (ℕ → ℕ → LrngState W D → Got W D)
      → (ℕ → ℕ × D)
      → Bool
      → ℕ
      → Bool
      → ℕ
      → Boot W D
      → Option (Ret × List ℕ × Boot W D)
  unfolding drng_initalize sleep_instance
  drng_get_sleep get drng_alloc waiting node pr outbuflen b =
      let i = sleep_instance node pr b.lrng in
      drng_initalize get drng_alloc waiting b >>= λ (r, b').
      let served : Option (Ret × List ℕ × Boot W D) =
        get i outbuflen b'.lrng >>= λ (ret, out, s). some (ret, out, record b' { lrng = s }) in
      if is_zero r then served else some (r, [], b')
