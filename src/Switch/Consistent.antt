-- ===== src/Switch/Consistent.antt =====
-- After a switch of the hash each source works with the callbacks that the instance names.
use lrng.Common.{
  ℕ, ◌≡◌, refl, ◌⊎◌, inl, inr, List, Option, ◌∷◌, ◌++◌, some, arith, length, ltb, if_intro,
  if◌then◌else◌, ◌==◌, not, ap, ◌∙◌,
}
use lrng.Config.{Config}
use lrng.Definitions.{max_digestsize}
use lrng.DrngMgr.{Setup}
use lrng.Switch.{Impls, SwitchState}
use lrng.Switch.Hashes.{SwitchHash, Switched, switch_sources, hash_switch_locked, hash_switch}
use lrng.Switch.Rollback.{AllKeep, run-behind, revert-front, revert-behind}

if_self : (i a b : ℕ) → (if i == i then a else b) ≡ a
if_self i a b = ground arith

module _ {W D H : Type 0} (cfg : Config) (u : Setup W D) (im : Impls D H) (Fits : ℕ → W → Type 0)
    (before after : List (Option (SwitchHash W H))) (f : SwitchHash W H) (stack new_cb i node : ℕ)
    (s : SwitchState W D H) (before_keep : AllKeep Fits before)
    (after_keep : AllKeep Fits after) where
  abbrev pub all : List (Option (SwitchHash W H))
  all = before ++ (some f ∷ after)

  abbrev pub loop : H → Switched W
  loop new_hash = switch_sources i node new_cb new_hash (s.hash_cbs i) stack 0 all s.lrng.mgr.world

  -- The instance has the new callbacks and so has the source; or it keeps its own, and the source has
  -- them too unless it is the one that failed.
  abbrev pub IsConsistent : H → ℕ × SwitchState W D H → Type 0
  IsConsistent new_hash p =
      ((p.0 ≡ 0) × (p.1.hash_cbs i ≡ new_cb) × Fits new_cb p.1.lrng.mgr.world)
      ⊎ ((p.1.hash_cbs i ≡ s.hash_cbs i)
          × (p.1.hashes i ≡ s.hashes i)
          × (Fits (s.hash_cbs i) p.1.lrng.mgr.world
              ⊎ ((loop new_hash).failed ≡ some (length before))))

  module _ (new_hash : H)
      (forth : (w : W)
        → Fits (s.hash_cbs i) w
        → (f i node new_cb new_hash (s.hash_cbs i) w).0 ≡ 0
        → Fits new_cb (f i node new_cb new_hash (s.hash_cbs i) w).1)
      (back : (w : W)
        → Fits new_cb w
        → Fits (s.hash_cbs i) (f i node (s.hash_cbs i) (s.hashes i) new_cb w).1)
      (fits : Fits (s.hash_cbs i) s.lrng.mgr.world) where
    locked-IsConsistent :
        IsConsistent new_hash (hash_switch_locked cfg u im all stack new_cb i node new_hash s)
    unfolding hash_switch_locked
    locked-IsConsistent =
        elim (run-behind Fits i node new_cb new_hash (s.hash_cbs i) f after forth after_keep before
          stack 0 (length before) s.lrng.mgr.world (omega arith) before_keep fits) [
            | inl (e, z, h) ↦ inl (
              rw (hash_switch_locked, e) z,
              rw (hash_switch_locked, e) (if_self i new_cb (s.hash_cbs i)),
              rw (hash_switch_locked, e) h,
            )
            | inr (m, e, inl (l, h)) ↦ inr (
              rw (hash_switch_locked, e) refl,
              rw (hash_switch_locked, e) refl,
              inl (
                  rw (hash_switch_locked, e)
                    (revert-front Fits i node new_cb new_hash (s.hash_cbs i) f after forth
                      after_keep (s.hashes i) back m before _ _ (omega arith) before_keep h)),
            )
            | inr (m, e, inr (inl same)) ↦ inr (
              rw (hash_switch_locked, e) refl,
              rw (hash_switch_locked, e) refl,
              inr (e ∙ ap some same),
            )
            | inr (m, e, inr (inr (l, h))) ↦ inr (
              rw (hash_switch_locked, e) refl,
              rw (hash_switch_locked, e) refl,
              inl (
                  rw (hash_switch_locked, e)
                    (revert-behind Fits i node new_cb new_hash (s.hash_cbs i) f after forth
                      after_keep (s.hashes i) back m before _ l before_keep h)),
            )
          ]

  -- The switch of the hash of an instance on a node, over sources of which no other touches the data of
  -- this one, where this one is switched if its callback reports success, and can be switched back: the
  -- instance has the new callbacks and the data of the source is of them; or the instance keeps its
  -- callbacks and handle, and the data is of these, unless this source is the one that failed.
  pub hash_switch-IsConsistent :
      (forth : (w : W)
        → Fits (s.hash_cbs i) w
        → (f i node new_cb (im.hash_impl new_cb).hash_alloc.1 (s.hash_cbs i) w).0 ≡ 0
        → Fits new_cb (f i node new_cb (im.hash_impl new_cb).hash_alloc.1 (s.hash_cbs i) w).1)
      (back : (w : W)
        → Fits new_cb w
        → Fits (s.hash_cbs i) (f i node (s.hash_cbs i) (s.hashes i) new_cb w).1)
      → Fits (s.hash_cbs i) s.lrng.mgr.world
      → IsConsistent
          (im.hash_impl new_cb).hash_alloc.1
          (hash_switch cfg u im all stack new_cb i (some node) s)
  unfolding hash_switch
  hash_switch-IsConsistent forth back fits =
      let new_hash = (im.hash_impl new_cb).hash_alloc.1 in
      if_intro (IsConsistent new_hash) (not ((im.hash_impl new_cb).hash_alloc.0 == 0))
        (inr (refl, refl, inl fits))
        (if_intro (IsConsistent new_hash)
          (ltb (max_digestsize cfg) ((im.hash_impl new_cb).hash_digestsize new_hash))
          (inr (refl, refl, inl fits)) (locked-IsConsistent new_hash forth back fits))
