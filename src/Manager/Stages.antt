-- ===== src/Manager/Stages.antt =====
-- What each seeding stage takes: which entropy moves the LRNG to it, and what the thresholds become.
use lrng.Common.{
  ℕ, ◌≤◌, ◌<◌, ◌≡◌, ◌↔◌, ◌⊎◌, true, false, not, ◌&&◌, Option, some, arith, if◌then◌else◌,
}
use lrng.Config.{Config}
use lrng.Definitions.{get_seed_entropy_osr}
use lrng.SeedBuffer.{EntropyBuf, entropy_rate_eb}
use lrng.ManagerState.{Manager, Sources, count_ntg1}
use lrng.Manager.{init_ops, es_add_entropy, avail_entropy, fully_seeded, requested}

-- The stages of seeding as numbers: nothing, minimally seeded, fully seeded, operational.
abbrev pub level : {W : Type 0} → Manager W → ℕ
level m =
    if m.lrng_operational
    then 3
    else if m.lrng_fully_seeded
    then 2
    else if m.lrng_min_seeded
    then 1
    else 0

module _ {W : Type 0} (cfg : Config) (src : Sources W) where
  -- The entropy that a full seed takes: two sources with 240 bits each under NTG.1 while not all nodes
  -- are seeded, and otherwise the security strength with its oversampling.
  abbrev pub Enough : EntropyBuf → Manager W → Type 0
  Enough eb m =
      ((not m.all_nodes_seeded && cfg.ntg1 ≡ true) × (2 ≤ count_ntg1 eb.e_bits))
      ⊎ ((not m.all_nodes_seeded && cfg.ntg1 ≡ false)
          × (get_seed_entropy_osr cfg (src.digestsize m.world) m.all_nodes_seeded
              ≤ entropy_rate_eb eb))

  -- A seed makes an LRNG that is neither fully seeded nor operational operational exactly if it carries
  -- enough entropy.
  pub operational_iff :
      (eb : EntropyBuf) (m : Manager W)
      → m.lrng_fully_seeded ≡ false
      → m.lrng_operational ≡ false
      → ((init_ops cfg src (some eb) m).lrng_operational ≡ true) ↔ Enough eb m
  unfolding init_ops fully_seeded
  operational_iff eb m fresh off = (ground arith, ground arith)

  -- In an LRNG without any seed, one that is not enough for a full seed makes it minimally seeded from 128 bits on, moves the
  -- threshold for the next reseed to 128 bits from 32 bits on, and changes neither below.
  pub init_ops_min :
      (eb : EntropyBuf) (m : Manager W)
      → level m ≡ 0
      → ¬ Enough eb m
      → let m' = init_ops cfg src (some eb) m in
        ((128 ≤ entropy_rate_eb eb)
          × (level m' ≡ 1)
          × (m'.boot_entropy_thresh ≡ requested cfg src m))
        ⊎ ((32 ≤ entropy_rate_eb eb)
            × (entropy_rate_eb eb < 128)
            × (level m' ≡ 0)
            × (m'.boot_entropy_thresh ≡ 128))
        ⊎ ((entropy_rate_eb eb < 32) × (m' ≡ m))
  unfolding init_ops fully_seeded
  init_ops_min eb m low short = ground arith

  -- `lrng_init_ops` never takes a stage back.
  pub level-init_ops :
      (eb : Option EntropyBuf) (m : Manager W) → level m ≤ level (init_ops cfg src eb m)
  unfolding init_ops
  level-init_ops eb m = ground arith

  -- New entropy starts seeding, by taking the lock for it, exactly if not all nodes are seeded, the
  -- available entropy reaches the threshold and no seeding is under way.
  pub es_add_entropy_iff :
      (m : Manager W)
      → (not m.reseed_in_progress && (es_add_entropy cfg src m).reseed_in_progress ≡ true) ↔ (
          (m.all_nodes_seeded ≡ false)
          × (m.boot_entropy_thresh ≤ avail_entropy cfg src m)
          × (m.reseed_in_progress ≡ false))
  unfolding es_add_entropy
  es_add_entropy_iff m = (ground arith, ground arith)
