-- ===== src/DrngMgr/Seed.antt =====
-- lrng_drng_mgr.c: the sleeping interfaces and `lrng_get_seed`. What other threads do to the LRNG while a
-- call sleeps is a parameter: `on_seeded` until the condition on `lrng_init_wait` holds, `on_lock` until
-- the pool lock is free, `on_schedule` in `schedule()`. `eb_size` is the size of `struct entropy_buf`.
use lrng.Common.{
  ℕ, zero, suc, ◌+◌, ◌*◌, Bool, true, false, not, ◌||◌, ◌==◌, ltb, if◌then◌else◌, Option, none,
  some, ◌>>=◌,
}
use lrng.Config.{Config}
use lrng.Definitions.{get_seed_entropy_osr}
use lrng.SeedBuffer.{EntropyBuf, entropy_rate_eb}
use lrng.ManagerState.{pool_unlock}
use lrng.Manager.{fill_seed_buffer}
use lrng.DrngMgr.{LrngState, Setup, Ret, count, errno, put_mgr}
use lrng.DrngMgr.Generate.{Got}
use lrng.DrngMgr.Work.{force_fully_seeded}

abbrev pub eagain : ℕ
eagain = 11

abbrev pub einval : ℕ
einval = 22

abbrev pub emsgsize : ℕ
emsgsize = 90

abbrev pub erestartsys : ℕ
erestartsys = 512

-- The result of `lrng_get_seed`, the two words that it writes in front of the buffer, the buffer, and
-- the state.
pub record Seeded (W D : Type 0) : Type 0 where
  pub ret : Ret
  pub size_word : Option ℕ
  pub bits_word : Option ℕ
  pub seed : EntropyBuf
  pub lrng : LrngState W D

module _ {W D : Type 0} (cfg : Config) (u : Setup W D) (get : ℕ → ℕ → LrngState W D → Got W D)
    (waiting : Bool) (on_seeded on_lock on_schedule : LrngState W D → LrngState W D) where
  -- `lrng_drng_sleep_while_not_all_nodes_seeded`; how its sleep ends is not looked at.
  unfoldable pub sleep_while_not_all_nodes_seeded :
      Bool → LrngState W D → Option (ℕ × LrngState W D)
  sleep_while_not_all_nodes_seeded nonblock s = force_fully_seeded cfg u get waiting s >>= λ s'.
      some (
        if s'.mgr.all_nodes_seeded
        then (0, s')
        else if nonblock
        then (eagain, s')
        else (0, on_seeded s'))

  -- `lrng_drng_sleep_while_nonoperational` and `lrng_drng_sleep_while_non_min_seeded`; `interrupted` is
  -- whether a signal ends the sleep.
  unfoldable pub sleep_while_nonoperational :
      Bool → Bool → LrngState W D → Option (ℕ × LrngState W D)
  sleep_while_nonoperational interrupted nonblock s =
      force_fully_seeded cfg u get waiting s >>= λ s'. some (
        if s'.mgr.lrng_operational
        then (0, s')
        else if nonblock
        then (eagain, s')
        else (if interrupted then erestartsys else 0, on_seeded s'))

  unfoldable pub sleep_while_non_min_seeded : Bool → LrngState W D → Option (ℕ × LrngState W D)
  sleep_while_non_min_seeded interrupted s = force_fully_seeded cfg u get waiting s >>= λ s'. some (
      if s'.mgr.lrng_min_seeded
      then (0, s')
      else (if interrupted then erestartsys else 0, on_seeded s'))

  module _ (eb_size : ℕ) where
    abbrev pub seed_buflen : ℕ
    seed_buflen = eb_size + 2 * 8

    -- The loop of `lrng_get_seed`, on fuel, with what follows it.
    abbrev pub get_seed_loop : ℕ → Bool → Bool → EntropyBuf → LrngState W D → Option (Seeded W D)
    get_seed_loop zero nonblock seeded eb s = none
    get_seed_loop (suc fuel) nonblock seeded eb s =
        let request = get_seed_entropy_osr cfg (u.src.digestsize s.mgr.world) seeded in
        let (eb', m) = fill_seed_buffer cfg u.src (u.cycles s.mgr.world) eb request false s.mgr in
        let collected = entropy_rate_eb eb' in
        let rest = get_seed_loop fuel nonblock seeded eb' (on_schedule (put_mgr m s)) in
        if not (collected == 0) || not m.all_nodes_seeded || nonblock
        then some (record {
          ret = count seed_buflen;
          size_word = some seed_buflen;
          bits_word = some collected;
          seed = eb';
          lrng = put_mgr (pool_unlock m) s;
        })
        else rest

    abbrev pub refuse : Ret → Option ℕ → EntropyBuf → LrngState W D → Option (Seeded W D)
    refuse ret size_word eb s =
        some (record { ret = ret; size_word = size_word; bits_word = none; seed = eb; lrng = s })

    -- `lrng_get_seed`
    unfoldable pub get_seed : ℕ → ℕ → Bool → Bool → EntropyBuf → LrngState W D → Option (Seeded W D)
    get_seed fuel nbytes nonblock seeded eb s =
        let drawn : Option (Seeded W D) = sleep_while_not_all_nodes_seeded nonblock s >>= λ r.
        let locked0 = on_lock r.1 in
        let locked = put_mgr (record (locked0.mgr) { reseed_in_progress = true }) locked0 in
        let result = get_seed_loop fuel nonblock seeded eb locked in
        if not (r.0 == 0)
        then refuse (errno r.0) (some seed_buflen) eb r.1
        else if not locked.mgr.all_nodes_seeded
        then refuse (count 0) (some seed_buflen) eb (put_mgr (pool_unlock locked.mgr) locked)
        else result in
        if ltb nbytes 8
        then refuse (errno einval) none eb s
        else if ltb nbytes seed_buflen
        then refuse (errno emsgsize) (some seed_buflen) eb s
        else drawn
