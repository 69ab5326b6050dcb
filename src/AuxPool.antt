-- ===== src/AuxPool.antt =====
-- lrng_es_aux.c: the auxiliary entropy pool. Its data is the state of a hash, which the callbacks
-- `cb` work on; the pool keeps the count of the entropy in it. Locks only serialise the operations,
-- each of which is one step here. `write_wakeup_bits` and `max_write_thresh` are the variables
-- `lrng_write_wakeup_bits` of lrng_es_mgr.c and `lrng_max_write_thresh` of lrng_sysctl.c.
pub mod Credit
pub mod Source
mod Tests
use lrng.Common.{
  ℕ, ◌+◌, ◌-◌, ◌*◌, ◌/◌, ◌^◌, Bool, true, false, not, ◌==◌, ltb, if◌then◌else◌, List, [], ◌∷◌, ◌++◌,
  Option, none, some, u32, add32, min_u32, length, take, drop,
}
use lrng.Config.{Config}
use lrng.Definitions.{reduce_by_osr, compress_osr, max_digestsize, atomic_digest_size}
use lrng.Hash.{HashCb, overlay}
use lrng.SeedBuffer.{EntropyBuf, set_bits, copy_row, eb_bytes, es_aux}

-- `struct lrng_pool`, with the two write thresholds
pub record Pool (S : Type 0) : Type 0 where
  pub aux_pool : S
  pub aux_entropy_bits : ℕ
  pub digestsize : ℕ
  pub initialized : Bool
  pub write_wakeup_bits : ℕ
  pub max_write_thresh : ℕ

abbrev pub eopnotsupp : ℕ
eopnotsupp = 95

module _ {S : Type 0} where
  -- `lrng_get_digestsize`, in bits
  unfoldable pub get_digestsize : Pool S → ℕ
  get_digestsize p = u32 (p.digestsize * 2 ^ 3)

  -- `lrng_pool_set_entropy` and `lrng_aux_reset`
  unfoldable pub set_entropy : ℕ → Pool S → Pool S
  set_entropy entropy_bits p = record p { aux_entropy_bits = entropy_bits }

  unfoldable pub aux_reset : Pool S → Pool S
  unfolding set_entropy
  aux_reset p = set_entropy 0 p

module _ {S : Type 0} (cfg : Config) where
  -- `lrng_pool` after boot: `lrng_init_wakeup_bits` sets the write thresholds.
  unfoldable pub pool_init : S → Pool S
  pool_init s =
      let bits = reduce_by_osr cfg (u32 (atomic_digest_size cfg * 2 ^ 3)) in
      record {
        aux_pool = s;
        aux_entropy_bits = 0;
        digestsize = atomic_digest_size cfg;
        initialized = false;
        write_wakeup_bits = bits;
        max_write_thresh = bits;
      }

  -- `lrng_aux_avail_entropy`
  unfoldable pub aux_avail_entropy : Pool S → ℕ
  unfolding get_digestsize
  aux_avail_entropy p = reduce_by_osr cfg (min_u32 (get_digestsize p) p.aux_entropy_bits)

  -- `lrng_set_digestsize`
  unfoldable pub set_digestsize : ℕ → Pool S → Pool S
  unfolding get_digestsize
  set_digestsize digestsize p =
      let bits = reduce_by_osr cfg (u32 (digestsize * 2 ^ 3)) in
      record p {
        digestsize = digestsize;
        aux_entropy_bits = min_u32 p.aux_entropy_bits (get_digestsize p);
        write_wakeup_bits = bits;
        max_write_thresh = bits;
      }

  -- `lrng_aux_switch_hash`. `is_init` says that the switched DRNG is the initial one, and `stack`
  -- is what the digest buffer of LRNG_MAX_DIGESTSIZE bytes held before.
  unfoldable pub aux_switch_hash : Bool → HashCb S → HashCb S → List ℕ → Pool S → ℕ × Pool S
  unfolding set_digestsize
  aux_switch_hash is_init new_cb old_cb stack p =
      if not cfg.switch
      then (eopnotsupp, p)
      else if not p.initialized
      then (0, p)
      else if not is_init
      then (0, p)
      else let (r1, s1, digest) = old_cb.hash_final p.aux_pool in
        let (r2, s2) = new_cb.hash_init s1 in
        let (r3, s3) = new_cb.hash_update s2 (overlay digest stack) in
        if not (r1 == 0)
        then (r1, record p { aux_pool = s1 })
        else if not (r2 == 0)
        then (r2, record p { aux_pool = s2 })
        else if not (r3 == 0)
        then (r3, record p { aux_pool = s3 })
        else (0, set_digestsize new_cb.hash_digestsize (record p { aux_pool = s3 }))

  module _ (cb : HashCb S) where
    -- `lrng_aux_pool_insert_locked`, from the update on
    unfoldable pub insert_update : List ℕ → ℕ → Pool S → ℕ × Pool S
    insert_update inbuf entropy_bits p =
        let (ret, s) = cb.hash_update p.aux_pool inbuf in
        let bits = add32 entropy_bits p.aux_entropy_bits in
        if ret == 0
        then (
          0,
          record p {
            aux_pool = s;
            aux_entropy_bits = min_u32 bits (u32 (cb.hash_digestsize * 2 ^ 3));
          },
        )
        else (ret, record p { aux_pool = s })

    -- `lrng_aux_pool_insert_locked`
    unfoldable pub aux_pool_insert_locked : List ℕ → ℕ → Pool S → ℕ × Pool S
    unfolding insert_update
    aux_pool_insert_locked inbuf entropy_bits p =
        let ent = min_u32 entropy_bits (u32 (length inbuf * 2 ^ 3)) in
        let (ret, s) = cb.hash_init p.aux_pool in
        if p.initialized
        then insert_update inbuf ent p
        else if ret == 0
        then insert_update inbuf ent (record p { aux_pool = s; initialized = true })
        else (ret, record p { aux_pool = s })

    -- The bits that `lrng_aux_get_pool` may take: the request, capped by the digest and the buffer.
    unfoldable pub cap_requested : ℕ → ℕ
    cap_requested requested_bits =
        let digestsize_bits = u32 (cb.hash_digestsize * 2 ^ 3) in
        let capped =
          if ltb digestsize_bits requested_bits then digestsize_bits else requested_bits in
        min_u32 capped (u32 (max_digestsize cfg * 2 ^ 3))

    -- The counters of `lrng_aux_get_pool`: what is collected, and what is put back.
    unfoldable pub collect : ℕ → Pool S → ℕ × Pool S
    collect requested_bits_osr p =
        let collected = min_u32 (u32 (cb.hash_digestsize * 2 ^ 3)) p.aux_entropy_bits in
        if ltb requested_bits_osr collected
        then (requested_bits_osr, record p { aux_entropy_bits = collected - requested_bits_osr })
        else (collected, record p { aux_entropy_bits = 0 })

    -- `lrng_aux_get_pool`: the credited bits, the bytes copied to `outbuf`, and the pool.
    unfoldable pub aux_get_pool : ℕ → Pool S → ℕ × List ℕ × Pool S
    unfolding cap_requested collect
    aux_get_pool requested_bits p =
        let req = cap_requested requested_bits in
        let (collected, p') = collect (add32 req (compress_osr cfg)) p in
        let (r1, s1, aux_output) = cb.hash_final p.aux_pool in
        let (r2, s2) = cb.hash_init s1 in
        if not p.initialized
        then (0, [], p)
        else if not (r1 == 0)
        then (0, [], record p' { aux_pool = s1 })
        else if not (r2 == 0)
        then (0, [], record p' { aux_pool = s2 })
        else (
          reduce_by_osr cfg collected,
          take (req / 2 ^ 3) aux_output,
          record p' { aux_pool = s2 },
        )

    -- `lrng_aux_get_backtrack`: the extracted data is mixed back with no entropy.
    unfoldable pub aux_get_backtrack : ℕ → EntropyBuf → Pool S → EntropyBuf × Pool S
    aux_get_backtrack requested_bits eb p =
        let (bits, bytes, p') = aux_get_pool requested_bits p in
        let eb' = set_bits es_aux bits (copy_row es_aux bytes eb) in
        (eb', (aux_pool_insert_locked (eb_bytes eb') 0 p').1)
