-- ===== src/Switch/Hashes.antt =====
-- lrng_switch.c: the switch of the hash of all instances, with its roll-back.
use lrng.Common.{
  ℕ, zero, suc, ◌+◌, not, ◌&&◌, ◌==◌, ltb, if◌then◌else◌, List, [], ◌∷◌, Option, none, some,
}
use lrng.Config.{Config}
use lrng.Definitions.{max_digestsize}
use lrng.ManagerState.{call, writer_wakeup}
use lrng.Manager.{es_add_entropy}
use lrng.DrngMgr.{Setup, put_mgr, drng_init}
use lrng.Switch.{
  Impls, SwitchState, default_cb, requested_cb, einval, eopnotsupp, negative, switch_all,
}

-- The callback `switch_hash` of a source: on the instance, the node, the new callbacks, the new handle
-- and the old callbacks.
abbrev pub SwitchHash : Type 0 → Type 0 → Type 0
SwitchHash W H = ℕ → ℕ → ℕ → H → ℕ → W → ℕ × W

-- The result of the loop over the sources: its status, the source that failed, and their states.
pub record Switched (W : Type 0) : Type 0 where
  pub ret : ℕ
  pub failed : Option ℕ
  pub world : W

module _ {W H : Type 0} where
  -- The loop over the sources from source `j` on.
  unfoldable pub switch_sources :
      ℕ → ℕ → ℕ → H → ℕ → ℕ → ℕ → List (Option (SwitchHash W H)) → W → Switched W
  switch_sources i node new_cb new_hash old_cb ret j [] w = record {
    ret = ret;
    failed = none;
    world = w;
  }
  switch_sources i node new_cb new_hash old_cb ret j (none ∷ ss) w =
      switch_sources i node new_cb new_hash old_cb ret (j + 1) ss w
  switch_sources i node new_cb new_hash old_cb ret j (some f ∷ ss) w =
      let (r, w') = f i node new_cb new_hash old_cb w in
      let rest = switch_sources i node new_cb new_hash old_cb r (j + 1) ss w' in
      if r == 0 then rest else record { ret = r; failed = some j; world = w' }

  -- The first `n` sources go back to the old callbacks.
  unfoldable pub revert_sources : ℕ → ℕ → ℕ → H → ℕ → ℕ → List (Option (SwitchHash W H)) → W → W
  revert_sources i node old_cb old_hash new_cb zero ss w = w
  revert_sources i node old_cb old_hash new_cb (suc n) [] w = w
  revert_sources i node old_cb old_hash new_cb (suc n) (none ∷ ss) w =
      revert_sources i node old_cb old_hash new_cb n ss w
  revert_sources i node old_cb old_hash new_cb (suc n) (some f ∷ ss) w =
      revert_sources i node old_cb old_hash new_cb n ss (f i node old_cb old_hash new_cb w).1

module _ {W D H : Type 0} (cfg : Config) (u : Setup W D) (im : Impls D H)
    (sources : List (Option (SwitchHash W H))) where
  abbrev pub with_world : W → SwitchState W D H → SwitchState W D H
  with_world w s = record s { lrng = put_mgr (record s.lrng.mgr { world = w }) s.lrng }

  -- The part of `lrng_hash_switch` under the lock; `stack` is what the variable `ret` held before.
  unfoldable pub hash_switch_locked : ℕ → ℕ → ℕ → ℕ → H → SwitchState W D H → ℕ × SwitchState W D H
  unfolding switch_sources revert_sources
  hash_switch_locked stack new_cb i node new_hash s =
      let old_cb = s.hash_cbs i in
      let old_hash = s.hashes i in
      let r = switch_sources i node new_cb new_hash old_cb stack 0 sources s.lrng.mgr.world in
      elim r.failed [
        | some j ↦
            (r.ret, with_world (revert_sources i node old_cb old_hash new_cb j sources r.world) s)
        | none ↦ (
          r.ret,
          record (with_world r.world s) {
            hashes = λ k. if k == i then new_hash else s.hashes k;
            hash_cbs = λ k. if k == i then new_cb else s.hash_cbs k;
            freed_hashes = old_hash ∷ s.freed_hashes;
          },
        )
      ]

  -- `lrng_hash_switch`
  unfoldable pub hash_switch : ℕ → ℕ → ℕ → Option ℕ → SwitchState W D H → ℕ × SwitchState W D H
  unfolding hash_switch_locked
  hash_switch stack new_cb i none s = (0, s)
  hash_switch stack new_cb i (some node) s =
      let new = im.hash_impl new_cb in
      let (err, new_hash) = new.hash_alloc in
      if not (err == 0)
      then (negative err, s)
      else if ltb (max_digestsize cfg) (new.hash_digestsize new_hash)
      then (negative einval, record s { freed_hashes = new_hash ∷ s.freed_hashes })
      else hash_switch_locked stack new_cb i node new_hash s

  -- `lrng_set_hash_cb`; no callback stands for NULL.
  unfoldable pub set_hash_cb : ℕ → Option ℕ → SwitchState W D H → ℕ × SwitchState W D H
  set_hash_cb stack hash_cb s =
      let cb = requested_cb hash_cb in
      let (ret, s') = switch_all (hash_switch stack cb) s in
      let added = call writer_wakeup (es_add_entropy cfg u.src s'.lrng.mgr) in
      if not im.switch_hash
      then (negative eopnotsupp, s)
      else if not (cb == default_cb) && not (s.hash_cbs drng_init == default_cb)
      then (negative einval, s)
      else if ret == 0
      then (0, record s' { lrng = put_mgr added s'.lrng })
      else (ret, s')
