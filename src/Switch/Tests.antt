-- ===== src/Switch/Tests.antt =====
-- The switches over DRNGs that are numbers and two sources that each keep the number of their callbacks.
use lrng.Common.{
  ℕ, ◌+◌, ◌≡◌, refl, true, false, List, [], ◌∷◌, Option, none, some, arith, ◌==◌, if◌then◌else◌,
  replicate,
}
use lrng.Samples.{fips}
use lrng.SampleSources.{blank}
use lrng.Config.{Config}
use lrng.ManagerState.{manager_init}
use lrng.Manager.{es_add_entropy, avail_entropy}
use lrng.DrngState.{drng_state_init}
use lrng.DrngMgr.{Setup}
use lrng.Switch.{Impls, SwitchState, is_negative, switch_all}
use lrng.Switch.Drngs.{drng_switch, set_drng_cb}
use lrng.Switch.Hashes.{SwitchHash, hash_switch, set_hash_cb}
use lrng.Switch.Results.{set_drng_cb-all}
use lrng.Switch.Seeded.{drng_switch-Seeded}
use lrng.Switch.Rollback.{Keeps}
use lrng.Switch.Consistent.{hash_switch-IsConsistent, IsConsistent}

abbrev plain : Config
plain = record fips { crypto_fips = false; fips_enabled = false }

abbrev setup : Setup (ℕ × ℕ) ℕ
setup = record {
  src = record { es = []; digestsize = λ w. 256 };
  cycles = λ w. 0;
  jiffies = λ w. 7;
  cbs = λ i. record {
    drng_seed = λ d bytes. (false, d);
    drng_generate = λ d n. (n, replicate n 1, d);
  };
}

-- A DRNG made by callbacks `c` is the number `c`, plus 100 once it was seeded.
abbrev impls : Impls ℕ ℕ
impls = record {
  switch_drng = true;
  switch_hash = true;
  drng_impl = λ c. record {
    drng_alloc = λ strength. (0, c);
    drng_seed = λ d bytes. (0, d + 100);
    drng_generate = λ d n. (n, replicate n 1, d);
  };
  hash_impl = λ c. record { hash_alloc = (0, c); hash_digestsize = λ h. 32 };
}

abbrev start : SwitchState (ℕ × ℕ) ℕ ℕ
start = record {
  lrng = record {
    mgr = manager_init (0, 0);
    drngs = λ i. record (drng_state_init i) { fully_seeded = true };
    nodes = some (some 0 ∷ none ∷ some 3 ∷ []);
    avail = true;
    stack = blank;
  };
  drng_cbs = λ i. 0;
  hashes = λ i. 0;
  hash_cbs = λ i. 0;
  freed_drngs = [];
  freed_hashes = [];
}

-- The second source refuses callbacks 9.
abbrev first_source : SwitchHash (ℕ × ℕ) ℕ
first_source i n new h old w = (0, (new, w.1))

abbrev second_source : SwitchHash (ℕ × ℕ) ℕ
second_source i n new h old w = if new == 9 then (5, w) else (0, (w.0, new))

abbrev two_sources : List (Option (SwitchHash (ℕ × ℕ) ℕ))
two_sources = some first_source ∷ none ∷ some second_source ∷ []

-- What the second source refuses is rolled back in the first, and the handle for it is not released.
refused :
    let r = hash_switch plain setup impls two_sources 0 9 0 (some 0) start in
    (r.0 ≡ 5) × (r.1.lrng.mgr.world ≡ (0, 0)) × (r.1.freed_hashes ≡ [])
unfolding hash_switch
refused = (refl, refl, refl)

-- All regular instances get the hash, the prediction resistance DRNG has none of its own.
registered :
    let r = set_hash_cb plain setup impls two_sources 0 (some 4) start in
    (r.0 ≡ 0) × (r.1.hash_cbs 3 ≡ 4) × (r.1.hash_cbs 1 ≡ 0) × (r.1.lrng.mgr.world ≡ (4, 4))
unfolding set_hash_cb hash_switch switch_all es_add_entropy avail_entropy
registered = (refl, refl, refl, refl)

-- The new DRNG of node 2 is seeded from the old one; a second set of callbacks is refused.
switched_3 : ((set_drng_cb plain setup impls (some 4) start).1.lrng.drngs 3).drng ≡ 104
unfolding set_drng_cb drng_switch switch_all
switched_3 = refl

set_drng_cb-all_example : (set_drng_cb plain setup impls (some 4) start).1.drng_cbs 3 ≡ 4
unfolding set_drng_cb drng_switch switch_all
set_drng_cb-all_example = set_drng_cb-all plain setup impls (some 4) start 3 (omega arith) refl refl

drng_switch-Seeded_example :
    ((start.lrng.drngs 3).fully_seeded ≡ true)
    × (plain.crypto_fips ≡ false)
    × (start.lrng.avail ≡ true)
    × (is_negative 32 ≡ false)
    × (is_negative 0 ≡ false)
    × (((drng_switch plain setup impls 4 3 (some 2) start).1.lrng.drngs 3).drng ≡ 104)
unfolding drng_switch
drng_switch-Seeded_example = drng_switch-Seeded plain setup impls 4 3 (some 2) start refl refl

second_keeps : Keeps (λ (c : ℕ) (w : ℕ × ℕ). w.0 ≡ c) (some second_source)
second_keeps i n a h b c w e = ground (arith, e)

hash_switch-IsConsistent_example :
    IsConsistent plain setup impls
      (λ c w. w.0 ≡ c)
      []
      (none ∷ some second_source ∷ [])
      first_source
      0
      9
      0
      0
      start
      tt
      (tt, (second_keeps, tt))
      9
      (hash_switch plain setup impls two_sources 0 9 0 (some 0) start)
hash_switch-IsConsistent_example =
    hash_switch-IsConsistent plain setup impls (λ c w. w.0 ≡ c) [] (none ∷ some second_source ∷ [])
      first_source 0 9 0 0 start tt (tt, (second_keeps, tt)) (λ w e z. refl) (λ w e. refl) refl
