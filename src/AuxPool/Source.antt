-- ===== src/AuxPool/Source.antt =====
-- `lrng_es_aux` of lrng_es_aux.c: the auxiliary pool as an entropy source of the manager.
use lrng.Common.{refl}
use lrng.Config.{Config}
use lrng.Hash.{HashCb}
use lrng.SeedBuffer.{es_aux}
use lrng.EntropySource.{EsCb, IsSource}
use lrng.AuxPool.{Pool, aux_reset, aux_avail_entropy, aux_get_pool, aux_get_backtrack}
use lrng.AuxPool.Credit.{aux_get_pool_credit}

module _ {S : Type 0} (cfg : Config) (cb : HashCb S) where
  abbrev pub aux_es : EsCb (Pool S)
  aux_es = record {
    get_ent = λ requested_bits fully_seeded eb p. aux_get_backtrack cfg cb requested_bits eb p;
    curr_entropy = λ thresh p. aux_avail_entropy cfg p;
    reset = λ p. aux_reset p;
  }

  -- The auxiliary pool keeps the contract that the manager relies on, whatever its hash does: it writes
  -- its own count in the seed buffer and no other, and never more than was requested.
  pub aux_es-IsSource : IsSource es_aux aux_es
  unfolding aux_get_backtrack
  aux_es-IsSource requested_bits seeded eb p h = (
    (aux_get_pool cfg cb requested_bits p).0,
    (aux_get_pool_credit cfg cb requested_bits p).0,
    refl,
  )
