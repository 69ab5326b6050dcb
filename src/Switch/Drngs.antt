-- ===== src/Switch/Drngs.antt =====
-- lrng_switch.c: the switch of the DRNG of all instances.
use lrng.Common.{ℕ, Bool, true, not, ◌&&◌, ◌||◌, ◌==◌, ltb, if◌then◌else◌, ◌∷◌, Option, take}
use lrng.Config.{Config}
use lrng.Definitions.{drng_security_strength_bytes, security_strength, get_seed_entropy_osr}
use lrng.ManagerState.{set_entropy_thresh}
use lrng.Manager.{es_add_entropy}
use lrng.DrngState.{Drng, drng_reset}
use lrng.DrngMgr.{Setup, put, put_mgr, now, drng_unset_fully_seeded, drng_init}
use lrng.Switch.{
  DrngImpl, Impls, SwitchState, default_cb, requested_cb, einval, eopnotsupp, negative, is_negative,
  switch_all,
}

-- What seeding the new DRNG from the old one gives: the result, the new handle, and whether the
-- instance is to be reset.
pub record Reseeded (D : Type 0) : Type 0 where
  pub ret : ℕ
  pub new_drng : D
  pub reset_drng : Bool

module _ {W D H : Type 0} (cfg : Config) (u : Setup W D) (im : Impls D H) where
  -- The part of `lrng_drng_switch` that pulls from the old DRNG.
  unfoldable pub seed_from_old : DrngImpl D → DrngImpl D → D → D → Bool → Reseeded D
  seed_from_old old new old_drng new_drng reset =
      let (ret, seed, _) = old.drng_generate old_drng drng_security_strength_bytes in
      let (r, handle) = new.drng_seed new_drng (take ret seed) in
      if is_negative ret
      then record { ret = ret; new_drng = new_drng; reset_drng = true }
      else record { ret = r; new_drng = handle; reset_drng = reset || is_negative r }

  -- The part of `lrng_drng_switch` that sets the new DRNG; `strength` is the security strength before.
  unfoldable pub install : ℕ → ℕ → ℕ → Reseeded D → SwitchState W D H → SwitchState W D H
  install i cb strength n s =
      let d : Drng D = s.lrng.drngs i in
      let d' = if n.reset_drng then drng_reset (now cfg u s.lrng) d else d in
      let digestsize = u.src.digestsize s.lrng.mgr.world in
      let force = d'.force_reseed || ltb strength (security_strength digestsize) in
      let s1 = put i (record d' { drng = n.new_drng; force_reseed = force }) s.lrng in
      let s2 = if cfg.crypto_fips then drng_unset_fully_seeded cfg u i s1 else s1 in
      let bits = get_seed_entropy_osr cfg digestsize (s2.drngs i).fully_seeded in
      let s3 = if s2.mgr.lrng_min_seeded then put_mgr (set_entropy_thresh bits s2.mgr) s2 else s2 in
      record s {
        lrng = s3;
        drng_cbs = λ j. if j == i then cb else s.drng_cbs j;
        freed_drngs = d.drng ∷ s.freed_drngs;
      }

  -- `lrng_drng_switch`
  unfoldable pub drng_switch : ℕ → ℕ → Option ℕ → SwitchState W D H → ℕ × SwitchState W D H
  unfolding seed_from_old install
  drng_switch cb i of_node s =
      let new = im.drng_impl cb in
      let old = im.drng_impl (s.drng_cbs i) in
      let (err, new_drng) = new.drng_alloc drng_security_strength_bytes in
      let strength = security_strength (u.src.digestsize s.lrng.mgr.world) in
      let n = seed_from_old old new (s.lrng.drngs i).drng new_drng (not s.lrng.avail) in
      if err == 0 then (n.ret, install i cb strength n s) else (negative err, s)

  -- `lrng_set_drng_cb`; no callback stands for NULL.
  unfoldable pub set_drng_cb : Option ℕ → SwitchState W D H → ℕ × SwitchState W D H
  set_drng_cb drng_cb s =
      let cb = requested_cb drng_cb in
      let (ret, s') = switch_all (drng_switch cb) s in
      let added = put_mgr (es_add_entropy cfg u.src s'.lrng.mgr) s'.lrng in
      if not im.switch_drng
      then (negative eopnotsupp, s)
      else if not (cb == default_cb) && not (s.drng_cbs drng_init == default_cb)
      then (negative einval, s)
      else if ret == 0
      then (0, record s' { lrng = added })
      else (ret, s')
