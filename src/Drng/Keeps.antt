-- ===== src/Drng/Keeps.antt =====
-- What the seeding of a DRNG leaves alone: the lock on the pool, and the shape of the seed buffer.
use lrng.Common.{
  ℕ, zero, suc, ◌≡◌, Bool, true, false, Option, some, arith, ◌∙◌, sym, length, inl, inr, not, ◌&&◌,
}
use mathlib.Core.Path.{subst}
use lrng.Config.{Config}
use lrng.Definitions.{get_seed_entropy_osr}
use lrng.SeedBuffer.{EntropyBuf}
use lrng.ManagerState.{Manager}
use lrng.Manager.{fill_seed_buffer, init_ops}
use lrng.Manager.Seeding.{AllSources, fill_seed_buffer-Below}
use lrng.Drng.{Env, SeedRun, turn_fill, seed_turn, seed_loop}
use lrng.Drng.Seeding.{seed_loop_cases}

module _ {W D : Type 0} (cfg : Config) (env : Env W D) where
  init_ops-lock :
      (eb : Option EntropyBuf) (m : Manager W)
      → (init_ops cfg env.src eb m).reseed_in_progress ≡ m.reseed_in_progress
  unfolding init_ops
  init_ops-lock eb m = ground arith

  turn_fill-lock :
      (forced : Bool) (s : SeedRun W D)
      → (turn_fill cfg env forced s).1.reseed_in_progress ≡ s.mgr.reseed_in_progress
  unfolding turn_fill fill_seed_buffer
  turn_fill-lock forced s = ground arith

  seed_turn-lock :
      (init forced : Bool) (s : SeedRun W D)
      → (seed_turn cfg env init forced s).mgr.reseed_in_progress ≡ s.mgr.reseed_in_progress
  unfolding seed_turn
  seed_turn-lock true forced s =
      init_ops-lock _ (turn_fill cfg env forced s).1 ∙ turn_fill-lock forced s
  seed_turn-lock false forced s = turn_fill-lock forced s

  module _ (ok : AllSources 0 env.src.es) where
    seed_turn-fit :
        (init forced : Bool) (s : SeedRun W D)
        → length env.src.es ≡ length s.seedbuf.e_bits
        → length env.src.es ≡ length (seed_turn cfg env init forced s).seedbuf.e_bits
    unfolding seed_turn turn_fill
    seed_turn-fit init forced s fit =
        fit
        ∙ sym
            (fill_seed_buffer-Below cfg env.src (env.cycles s.mgr.world) s.seedbuf
              (get_seed_entropy_osr cfg (env.src.digestsize s.mgr.world) s.drng.fully_seeded)
              (forced && not s.drng.fully_seeded) s.mgr ok fit).0

    -- A seeding leaves the lock on the pool as it was, and a buffer with a count for each source.
    pub seed_loop-keeps :
        (fuel : ℕ) (init forced : Bool) (s s' : SeedRun W D)
        → length env.src.es ≡ length s.seedbuf.e_bits
        → seed_loop cfg env fuel init forced s ≡ some s'
        → (s'.mgr.reseed_in_progress ≡ s.mgr.reseed_in_progress)
          × (length env.src.es ≡ length s'.seedbuf.e_bits)
    seed_loop-keeps zero init forced s s' fit e = ground arith
    seed_loop-keeps (suc fuel) init forced s s' fit e =
        let t = seed_turn cfg env init forced s in
        let lock = seed_turn-lock init forced s in
        let fit' = seed_turn-fit init forced s fit in
        elim (seed_loop_cases cfg env fuel init forced s s' e) [
          | inl (y, rest) ↦
              let (l, f) = seed_loop-keeps fuel init forced t s' fit' rest in (l ∙ lock, f)
          | inr (n, same) ↦ (
            subst (λ (r : SeedRun W D). r.mgr.reseed_in_progress ≡ s.mgr.reseed_in_progress) same
                lock,
            subst (λ (r : SeedRun W D). length env.src.es ≡ length r.seedbuf.e_bits) same fit',
          )
        ]
