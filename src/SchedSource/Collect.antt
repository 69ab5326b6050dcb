-- ===== src/SchedSource/Collect.antt =====
-- lrng_es_sched.c: how a seed is drawn from the pools of all CPUs. `junk` is what the variable for the
-- digest size holds before it is written.
use lrng.Common.{
  ℕ, ◌-◌, ◌*◌, ◌/◌, ◌^◌, Bool, true, false, not, ◌&&◌, ◌==◌, ltb, if◌then◌else◌, List, [], ◌∷◌, u32,
  add32, min_u32, take,
}
use lrng.Config.{Config}
use lrng.Definitions.{entropy_to_data, data_to_entropy, reduce_by_osr, compress_osr}
use lrng.Hash.{HashCb, overlay}
use lrng.HealthState.{sched}
use lrng.Health.{startup_complete_es}
use lrng.SeedBuffer.{EntropyBuf, set_bits, copy_row, es_sched, words}
use lrng.IrqSource.{data_num_values}
use lrng.SchedSource.{SchedCpu, SchedState, set_events}

-- What `lrng_sched_pool_hash_one` returns and writes.
pub record SchedHash (S : Type 0) : Type 0 where
  pub found_events : ℕ
  pub digest : List ℕ
  pub digestsize : ℕ
  pub cpu : SchedCpu S

-- The loop over the CPUs, and whether every call of the hash worked.
pub record SchedHarvest (S : Type 0) : Type 0 where
  pub cpus : List (SchedCpu S)
  pub collected_events : ℕ
  pub shash : S
  pub digest : List ℕ
  pub ok : Bool

abbrev pub with_sched_cpu : {S : Type 0} → SchedCpu S → SchedHarvest S → SchedHarvest S
with_sched_cpu c h = record h { cpus = c ∷ h.cpus }

module _ {S : Type 0} (cfg : Config) (junk : ℕ) (rate : ℕ) where
  -- The events that a pool is good for, by its hash and its array.
  abbrev pub cap_events : SchedCpu S → ℕ
  cap_events c =
      min_u32
        (min_u32 c.sched_array_events
          (entropy_to_data (u32 (c.hash_cb.hash_digestsize * 2 ^ 3)) rate))
        (data_num_values cfg)

  -- `lrng_sched_pool_hash_one`; `buffer` is what the digest buffer holds before.
  unfoldable pub sched_pool_hash_one : List ℕ → SchedCpu S → SchedHash S
  sched_pool_hash_one buffer c =
      let size = c.hash_cb.hash_digestsize in
      let (r0, fresh) = c.hash_cb.hash_init c.sched_pool in
      let pool = if c.sched_lock_init then c.sched_pool else fresh in
      let (r1, s1) = c.hash_cb.hash_update pool (words c.sched_array) in
      let (r2, s2, out) = c.hash_cb.hash_final s1 in
      let digest = overlay out buffer in
      let (r3, s3) = c.hash_cb.hash_init s2 in
      let (r4, s4) = c.hash_cb.hash_update s3 (take size digest) in
      let done : ℕ → List ℕ → S → SchedHash S = λ found bytes s. record {
        found_events = found;
        digest = bytes;
        digestsize = size;
        cpu = record c { sched_array_events = 0; sched_pool = s; sched_lock_init = true };
      } in
      if not c.sched_lock_init && not (r0 == 0)
      then record {
        found_events = 0;
        digest = buffer;
        digestsize = junk;
        cpu = record c { sched_pool = fresh };
      }
      else if not (r1 == 0)
      then done 0 buffer s1
      else if not (r2 == 0)
      then done 0 digest s2
      else if not (r3 == 0)
      then done 0 digest s3
      else if not (r4 == 0)
      then done 0 digest s4
      else done (cap_events c) digest s4

  -- The loop over the online CPUs in `lrng_sched_pool_hash`.
  abbrev pub sched_harvest : HashCb S → ℕ → List (SchedCpu S) → ℕ → S → List ℕ → SchedHarvest S
  sched_harvest cb requested_events [] collected shash digest = record {
    cpus = [];
    collected_events = collected;
    shash = shash;
    digest = digest;
    ok = true;
  }
  sched_harvest cb requested_events (c ∷ cs) collected shash digest =
      let one = sched_pool_hash_one digest c in
      let (ret, shash') = cb.hash_update shash (take one.digestsize one.digest) in
      let sum = add32 collected one.found_events in
      let unused = sum - requested_events in
      let enough = sched_harvest cb requested_events cs requested_events shash' one.digest in
      let short = sched_harvest cb requested_events cs sum shash' one.digest in
      if not (ret == 0)
      then record {
        cpus = one.cpu ∷ cs;
        collected_events = collected;
        shash = shash';
        digest = one.digest;
        ok = false;
      }
      else if ltb requested_events sum
      then with_sched_cpu (set_events (add32 one.cpu.sched_array_events unused) one.cpu) enough
      else with_sched_cpu one.cpu short

-- `lrng_sched_pool_hash`
unfoldable pub sched_pool_hash :
    {S : Type 0}
    → Config
    → ℕ
    → HashCb S
    → S
    → List ℕ
    → ℕ
    → Bool
    → EntropyBuf
    → SchedState S
    → EntropyBuf × SchedState S
sched_pool_hash cfg junk cb stack buffer requested_bits fully_seeded eb s =
    let digestsize_bits = u32 (cb.hash_digestsize * 2 ^ 3) in
    let requested =
      if ltb digestsize_bits requested_bits then digestsize_bits else requested_bits in
    let requested_events = entropy_to_data (add32 requested (compress_osr cfg)) s.entropy_bits in
    let (r1, shash) = cb.hash_init stack in
    let h = sched_harvest cfg junk s.entropy_bits cb requested_events s.cpus 0 shash buffer in
    let s' = record s { cpus = h.cpus } in
    let (r2, left, out) = cb.hash_final h.shash in
    let bits = reduce_by_osr cfg (data_to_entropy h.collected_events s.entropy_bits) in
    let len = (if fully_seeded then bits else requested) / 2 ^ 3 in
    if not (startup_complete_es cfg s.health sched)
    then (set_bits es_sched 0 eb, s)
    else if not (r1 == 0)
    then (set_bits es_sched 0 eb, s)
    else if not h.ok
    then (set_bits es_sched 0 eb, s')
    else if not (r2 == 0)
    then (set_bits es_sched 0 eb, s')
    else (set_bits es_sched bits (copy_row es_sched (take len (overlay out h.digest)) eb), s')
