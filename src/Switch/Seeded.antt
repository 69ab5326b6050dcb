-- ===== src/Switch/Seeded.antt =====
-- What the switch of a DRNG leaves of its seeding.
use lrng.Common.{
  ℕ, ◌≡◌, Bool, true, false, not, ◌&&◌, ◌||◌, ltb, if◌then◌else◌, Option, take, arith, ap, sym, ◌∙◌,
}
use lrng.Config.{Config}
use lrng.Definitions.{drng_security_strength_bytes, security_strength, get_seed_entropy_osr}
use lrng.ManagerState.{set_entropy_thresh}
use lrng.DrngState.{Drng, drng_reset}
use lrng.DrngMgr.{LrngState, Setup, put, put_mgr, now, drng_unset_fully_seeded}
use lrng.Switch.{DrngImpl, Impls, SwitchState, is_negative}
use lrng.Switch.Drngs.{Reseeded, seed_from_old, install, drng_switch}

module _ {W D H : Type 0} (cfg : Config) (u : Setup W D) (im : Impls D H) where
  unset-seeded :
      (i : ℕ) (s : LrngState W D)
      → (((drng_unset_fully_seeded cfg u i s).drngs i).fully_seeded ≡ false)
        × (((drng_unset_fully_seeded cfg u i s).drngs i).drng ≡ (s.drngs i).drng)
  unfolding drng_unset_fully_seeded
  unset-seeded i s = ground arith

  -- The two last steps of the installation: they leave the DRNG, and its seeding or nothing of it.
  finish-drng :
      (i bits : ℕ) (handle : D) (seeded : Bool) (s1 : LrngState W D)
      → (s1.drngs i).drng ≡ handle
      → (s1.drngs i).fully_seeded ≡ seeded
      → let s2 = if cfg.crypto_fips then drng_unset_fully_seeded cfg u i s1 else s1 in
        let s3 =
          if s2.mgr.lrng_min_seeded then put_mgr (set_entropy_thresh bits s2.mgr) s2 else s2 in
        ((s3.drngs i).drng ≡ handle) × ((s3.drngs i).fully_seeded ≡ (not cfg.crypto_fips && seeded))
  finish-drng i bits handle seeded s1 p q = ground (arith, unset-seeded i s1)

  -- The instance after the new DRNG is in place.
  install-drng :
      (i cb strength : ℕ) (n : Reseeded D) (s : SwitchState W D H)
      → let d' = (install cfg u im i cb strength n s).lrng.drngs i in
        (d'.drng ≡ n.new_drng)
        × (d'.fully_seeded
            ≡ (not cfg.crypto_fips && (not n.reset_drng && (s.lrng.drngs i).fully_seeded)))
  unfolding install drng_reset
  install-drng i cb strength n s =
      let d : Drng D = s.lrng.drngs i in
      let d' = if n.reset_drng then drng_reset (now cfg u s.lrng) d else d in
      let digestsize = u.src.digestsize s.lrng.mgr.world in
      let force = d'.force_reseed || ltb strength (security_strength digestsize) in
      let new = record d' { drng = n.new_drng; force_reseed = force } in
      let s1 = put i new s.lrng in
      let at_i : s1.drngs i ≡ new = ground arith in
      let s2 = if cfg.crypto_fips then drng_unset_fully_seeded cfg u i s1 else s1 in
      let bits = get_seed_entropy_osr cfg digestsize (s2.drngs i).fully_seeded in
      finish-drng i bits n.new_drng (not n.reset_drng && d.fully_seeded) s1
        (ap (λ (x : Drng D). x.drng) at_i) (ap (λ (x : Drng D). x.fully_seeded) at_i ∙ ground arith)

  -- No reset is asked for only if the old DRNG gave its output and the new one took it.
  seed_from_old_works :
      (old new : DrngImpl D) (old_drng new_drng : D) (reset : Bool)
      → (seed_from_old cfg u im old new old_drng new_drng reset).reset_drng ≡ false
      → let (ret, seed, _) = old.drng_generate old_drng drng_security_strength_bytes in
        let (r, handle) = new.drng_seed new_drng (take ret seed) in
        (reset ≡ false)
        × (is_negative ret ≡ false)
        × (is_negative r ≡ false)
        × ((seed_from_old cfg u im old new old_drng new_drng reset).new_drng ≡ handle)
  unfolding seed_from_old
  seed_from_old_works old new old_drng new_drng reset h = ground arith

  and_parts :
      (a b c : Bool) → (not a && (not b && c)) ≡ true → (a ≡ false) × (b ≡ false) × (c ≡ true)
  and_parts a b c h = ground arith

  -- An instance that counts as fully seeded after the switch of its DRNG did so before, in a build without
  -- FIPS and with the LRNG available; the old DRNG gave its output and the new one was seeded with it.
  pub drng_switch-Seeded :
      (cb i : ℕ) (node : Option ℕ) (s : SwitchState W D H)
      → ((im.drng_impl cb).drng_alloc drng_security_strength_bytes).0 ≡ 0
      → ((drng_switch cfg u im cb i node s).1.lrng.drngs i).fully_seeded ≡ true
      → let new = im.drng_impl cb in
        let (ret, seed, _) =
          (im.drng_impl (s.drng_cbs i)).drng_generate
            (s.lrng.drngs i).drng
            drng_security_strength_bytes in
        let (r, handle) =
          new.drng_seed (new.drng_alloc drng_security_strength_bytes).1 (take ret seed) in
        ((s.lrng.drngs i).fully_seeded ≡ true)
        × (cfg.crypto_fips ≡ false)
        × (s.lrng.avail ≡ true)
        × (is_negative ret ≡ false)
        × (is_negative r ≡ false)
        × (((drng_switch cfg u im cb i node s).1.lrng.drngs i).drng ≡ handle)
  unfolding drng_switch
  drng_switch-Seeded cb i node s ok full =
      let new = im.drng_impl cb in
      let old = im.drng_impl (s.drng_cbs i) in
      let new_drng = (new.drng_alloc drng_security_strength_bytes).1 in
      let strength = security_strength (u.src.digestsize s.lrng.mgr.world) in
      let old_drng = (s.lrng.drngs i).drng in
      let n = seed_from_old cfg u im old new old_drng new_drng (not s.lrng.avail) in
      let e : (drng_switch cfg u im cb i node s).1 ≡ install cfg u im i cb strength n s =
        ground (arith, ok) in
      let d = install-drng i cb strength n s in
      let parts =
        and_parts cfg.crypto_fips n.reset_drng (s.lrng.drngs i).fully_seeded (
          sym d.1 ∙ sym (ap (λ (x : SwitchState W D H). (x.lrng.drngs i).fully_seeded) e) ∙ full) in
      let w = seed_from_old_works old new old_drng new_drng (not s.lrng.avail) parts.1 in
      (
        parts.2,
        parts.0,
        ground (arith, w.0),
        w.1,
        w.2,
        ap (λ (x : SwitchState W D H). (x.lrng.drngs i).drng) e ∙ (d.0 ∙ w.3),
      )
