-- ===== src/EntropySource.antt =====
-- `struct lrng_es_cb` of lrng_es_mgr_cb.h: an entropy source as the manager sees it, over the state
-- `W` of all sources, and what the manager relies on.
use lrng.Common.{ℕ, ◌≤◌, ◌<◌, ◌≡◌, Bool, length, set}
use lrng.SeedBuffer.{EntropyBuf}

pub record EsCb (W : Type 0) : Type 0 where
  -- fills the buffer, from the requested bits and whether the LRNG is fully seeded
  pub get_ent : ℕ → Bool → EntropyBuf → W → EntropyBuf × W
  -- the entropy available for a request
  pub curr_entropy : ℕ → W → ℕ
  -- drops all entropy; a NULL callback does nothing
  pub reset : W → W

-- Source `i` writes its own count and no other, at most what was requested.
abbrev pub IsSource : {W : Type 0} → ℕ → EsCb W → Type 0
IsSource {W} i cb =
    (requested_bits : ℕ) (seeded : Bool) (eb : EntropyBuf) (w : W)
    → i < length eb.e_bits
    → let eb' = (cb.get_ent requested_bits seeded eb w).0 in
      (bits : ℕ) × (bits ≤ requested_bits) × (eb'.e_bits ≡ set eb.e_bits i bits)
