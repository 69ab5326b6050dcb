-- ===== src/Manager.antt =====
-- lrng_es_mgr.c: the manager of the entropy sources, with the seeding state of the whole LRNG. It
-- works on a list of entropy sources over their common state `W`. The calls that leave the file are
-- recorded; a source's `curr_entropy` is a read.
pub mod State
pub mod Stages
pub mod Seeding
mod Tests
use lrng.Common.{
  ℕ, zero, suc, ◌+◌, ◌-◌, ◌≤◌, Bool, true, false, not, ◌&&◌, ltb, leb, if◌then◌else◌, List, [], ◌∷◌,
  map, Option, none, some, add32, get_or,
}
use lrng.Config.{Config}
use lrng.Definitions.{
  security_strength, sp80090c_compliant, get_seed_entropy_osr, seed_buffer_init_add_bits,
  min_seed_entropy_bits, init_entropy_bits, ais2031_nptrng_min_entropy,
}
use lrng.SeedBuffer.{EntropyBuf, sum32_from, entropy_rate_eb, es_aux}
use lrng.EntropySource.{EsCb}
use lrng.ManagerState.{
  Call, Manager, Sources, manager_init, call, pool_trylock, pool_unlock, set_entropy_thresh,
  pool_all_numa_nodes_seeded, set_operational, count_ntg1, reset_all, get_all, init_wakeup,
  wake_up_all, invalidate_batched, schedule_seed_work, seed_work, exseed_allow_all, writer_wakeup,
}

module _ {W : Type 0} (cfg : Config) (src : Sources W) where
  -- `lrng_reset_state`
  unfoldable pub reset_state : Manager W → Manager W
  reset_state m = record m {
    lrng_operational = false;
    lrng_fully_seeded = false;
    lrng_min_seeded = false;
    all_nodes_seeded = false;
    world = reset_all src.es m.world;
  }

  -- `lrng_avail_entropy_thresh`
  unfoldable pub avail_entropy_thresh : Manager W → ℕ
  unfolding security_strength sp80090c_compliant
  avail_entropy_thresh m =
      let ent_thresh = security_strength (src.digestsize m.world) in
      if sp80090c_compliant cfg && not m.all_nodes_seeded
      then add32 ent_thresh (seed_buffer_init_add_bits cfg)
      else ent_thresh

  -- The available entropy of each source.
  abbrev pub curr_all : Manager W → List ℕ
  curr_all m = map (λ s. s.curr_entropy (avail_entropy_thresh m) m.world) src.es

  -- `lrng_avail_entropy` and `lrng_avail_entropy_aux`
  unfoldable pub avail_entropy : Manager W → ℕ
  avail_entropy m = sum32_from 0 (curr_all m)

  unfoldable pub avail_entropy_aux : Manager W → ℕ
  avail_entropy_aux m = get_or (curr_all m) es_aux 0

  -- `lrng_fully_seeded`
  unfoldable pub fully_seeded : Bool → ℕ → Option EntropyBuf → Manager W → Bool
  unfolding get_seed_entropy_osr
  fully_seeded seeded collected_entropy eb m =
      let per_source : List ℕ = elim eb [ none ↦ curr_all m | some b ↦ b.e_bits ] in
      if not seeded && cfg.ntg1
      then leb 2 (count_ntg1 per_source)
      else leb (get_seed_entropy_osr cfg (src.digestsize m.world) seeded) collected_entropy

  -- `lrng_es_add_entropy`. The seed work, scheduled or called, is recorded; it is an operation of its own,
  -- `drng_seed_work` of DrngMgr.Work, and the pool stays locked until then.
  unfoldable pub es_add_entropy : Manager W → Manager W
  unfolding pool_trylock
  es_add_entropy m =
      let (locked, m') = pool_trylock m in
      if m.all_nodes_seeded
      then m
      else if ltb (avail_entropy m) m.boot_entropy_thresh
      then m
      else if not locked
      then m
      else if m.perform_seedwork
      then call schedule_seed_work m'
      else call seed_work m'

  -- `lrng_unset_fully_seeded`, without the flag of the DRNG itself; `is_init` says that it is the
  -- initial DRNG.
  unfoldable pub unset_fully_seeded : Bool → Manager W → Manager W
  unfolding pool_all_numa_nodes_seeded
  unset_fully_seeded is_init m =
      let m' = pool_all_numa_nodes_seeded false m in
      if is_init && m'.lrng_operational
      then es_add_entropy (record m' { lrng_operational = false; lrng_fully_seeded = false })
      else m'

  -- The three steps of `lrng_init_ops` that change the state: a full seed is known, a full seed
  -- arrives, and what else the entropy suffices for.
  unfoldable pub reach_full : ℕ → Manager W → Manager W
  unfolding set_operational set_entropy_thresh
  reach_full requested_bits m =
      let m1 = if m.can_invalidate then call invalidate_batched m else m in
      let m2 = set_operational (record m1 { lrng_fully_seeded = true }) in
      set_entropy_thresh requested_bits (record m2 { lrng_min_seeded = true })

  unfoldable pub reach_min : ℕ → ℕ → Manager W → Manager W
  unfolding set_entropy_thresh
  reach_min seed_bits requested_bits m =
      let m1 = if m.can_invalidate then call invalidate_batched m else m in
      if leb min_seed_entropy_bits seed_bits
      then call init_wakeup
          (set_entropy_thresh requested_bits (record m1 { lrng_min_seeded = true }))
      else if leb init_entropy_bits seed_bits
      then set_entropy_thresh min_seed_entropy_bits m
      else m

  abbrev pub requested : Manager W → ℕ
  requested m =
      if cfg.ntg1
      then add32 (avail_entropy m) ais2031_nptrng_min_entropy
      else get_seed_entropy_osr cfg (src.digestsize m.world) m.all_nodes_seeded

  abbrev pub seed_bits_of : Option EntropyBuf → Manager W → ℕ
  seed_bits_of eb m = elim eb [ none ↦ sum32_from 0 (curr_all m) | some b ↦ entropy_rate_eb b ]

  -- `lrng_init_ops`
  unfoldable pub init_ops : Option EntropyBuf → Manager W → Manager W
  unfolding set_operational set_entropy_thresh reach_full reach_min
  init_ops eb m =
      let seed_bits = seed_bits_of eb m in
      let requested_bits = requested m in
      if m.lrng_operational
      then m
      else if m.lrng_fully_seeded
      then set_entropy_thresh requested_bits (set_operational m)
      else if fully_seeded m.all_nodes_seeded seed_bits eb m
      then reach_full requested_bits m
      else if not m.lrng_min_seeded
      then reach_min seed_bits requested_bits m
      else m

  -- `lrng_rand_initialize`, behind the insertions into the auxiliary pool
  unfoldable pub rand_initialize : Manager W → Manager W
  rand_initialize m = record (call invalidate_batched (record m { perform_seedwork = true })) {
    can_invalidate = true;
  }

  -- `lrng_fill_seed_buffer`; `now` is `random_get_entropy()`.
  unfoldable pub fill_seed_buffer : ℕ → EntropyBuf → ℕ → Bool → Manager W → EntropyBuf × Manager W
  unfolding sp80090c_compliant security_strength
  fill_seed_buffer now eb requested_bits force m =
      let req_ent =
        if sp80090c_compliant cfg
        then security_strength (src.digestsize m.world)
        else min_seed_entropy_bits in
      let eb0 = record eb { now = now } in
      let (eb1, w) = get_all src.es requested_bits m.lrng_fully_seeded eb0 m.world in
      if not force && m.lrng_fully_seeded && ltb (avail_entropy m) req_ent
      then (record eb0 { e_bits = map (λ _. 0) eb0.e_bits }, call writer_wakeup m)
      else (eb1, call writer_wakeup (call exseed_allow_all (record m { world = w })))
