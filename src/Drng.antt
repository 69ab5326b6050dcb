-- ===== src/Drng.antt =====
-- lrng_drng_mgr.c: the seeding of a DRNG from the entropy sources. `Env` holds the sources, the cycle
-- counter and `jiffies` as readings of the sources' state, and the DRNG implementation.
pub mod Seeding
pub mod Termination
pub mod Keeps
mod Tests
use lrng.Common.{
  ℕ, zero, suc, ◌+◌, ◌≤◌, Bool, true, false, not, ◌&&◌, ◌==◌, leb, if◌then◌else◌, List, [], ◌∷◌,
  map, Option, none, some, add32,
}
use lrng.Config.{Config}
use lrng.Definitions.{get_seed_entropy_osr}
use lrng.SeedBuffer.{EntropyBuf, eb_bytes, entropy_rate_eb}
use lrng.ManagerState.{Manager, Sources}
use lrng.Manager.{fill_seed_buffer, fully_seeded, init_ops}
use lrng.DrngState.{Drng, DrngCb, drng_inject}

pub record Env (W D : Type 0) : Type 0 where
  pub src : Sources W
  pub cycles : W → ℕ
  pub jiffies : W → ℕ
  pub cb : DrngCb D

-- The variables of `lrng_drng_seed_es_nolock`, with the DRNG and the manager that it works on.
pub record SeedRun (W D : Type 0) : Type 0 where
  pub drng : Drng D
  pub mgr : Manager W
  pub seedbuf : EntropyBuf
  pub collected_seedbuf : EntropyBuf
  pub collected_entropy : ℕ
  pub num_es_delivered : ℕ

-- The sums of the counts, source by source, and how many sources delivered entropy.
abbrev pub add_counts : List ℕ → List ℕ → List ℕ
add_counts [] ys = []
add_counts (x ∷ xs) [] = x ∷ xs
add_counts (x ∷ xs) (y ∷ ys) = add32 x y ∷ add_counts xs ys

abbrev pub delivered : List ℕ → ℕ
delivered [] = 0
delivered (x ∷ xs) = if x == 0 then delivered xs else suc (delivered xs)

module _ {W D : Type 0} (cfg : Config) (env : Env W D) where
  -- The call of `lrng_fill_seed_buffer` in the loop.
  unfoldable pub turn_fill : Bool → SeedRun W D → EntropyBuf × Manager W
  turn_fill forced s =
      let w = s.mgr.world in
      fill_seed_buffer cfg env.src (env.cycles w) s.seedbuf
        (get_seed_entropy_osr cfg (env.src.digestsize w) s.drng.fully_seeded)
        (forced && not s.drng.fully_seeded) s.mgr

  -- One turn of the loop; `init` says whether the state of the LRNG is set.
  unfoldable pub seed_turn : Bool → Bool → SeedRun W D → SeedRun W D
  seed_turn init forced s =
      let src = env.src in
      let (eb, m) = turn_fill forced s in
      let total = add32 s.collected_entropy (entropy_rate_eb eb) in
      let sums = record (s.collected_seedbuf) {
        e_bits = add_counts s.collected_seedbuf.e_bits eb.e_bits;
      } in
      let full = fully_seeded cfg src s.drng.fully_seeded total (some sums) m in
      record {
        drng = drng_inject env.cb (env.jiffies m.world) (eb_bytes eb) full s.drng;
        mgr = if init then init_ops cfg src (some sums) m else m;
        seedbuf = eb;
        collected_seedbuf = sums;
        collected_entropy = total;
        num_es_delivered = delivered eb.e_bits;
      }

  -- Whether the loop goes on.
  abbrev pub again : Bool → SeedRun W D → Bool
  again forced s =
      cfg.force_seeding
      && forced
      && not s.drng.fully_seeded
      && leb (if cfg.ntg1 then 2 else 1) s.num_es_delivered

  abbrev pub seed_loop : ℕ → Bool → Bool → SeedRun W D → Option (SeedRun W D)
  seed_loop zero init forced s = none
  seed_loop (suc fuel) init forced s =
      let s' = seed_turn init forced s in
      let rest = seed_loop fuel init forced s' in if again forced s' then rest else some s'

  -- The state before the loop; `stack` is what the two buffers held before.
  abbrev pub seed_start : EntropyBuf → Drng D → Manager W → SeedRun W D
  seed_start stack d m = record {
    drng = d;
    mgr = m;
    seedbuf = stack;
    collected_seedbuf = record stack { e_bits = map (λ _. 0) stack.e_bits };
    collected_entropy = 0;
    num_es_delivered = 0;
  }

  -- `lrng_drng_seed_es_nolock`
  unfoldable pub seed_es_nolock : ℕ → Bool → EntropyBuf → Drng D → Manager W → Option (SeedRun W D)
  seed_es_nolock fuel init stack d m = seed_loop fuel init d.force_reseed (seed_start stack d m)
