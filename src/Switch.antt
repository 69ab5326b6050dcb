-- ===== src/Switch.antt =====
-- lrng_switch.c: the DRNG or the hash of all instances is replaced at runtime. A set of callbacks is
-- known by a number, as the code knows it by its address, and 0 is the default one; what it does is a
-- parameter. An `int` result is its bit pattern, so that `|=` of results is the one of the code.
-- Switch.Drngs has the switch of the DRNG, Switch.Hashes that of the hash, and the theorems are in
-- Switch.Seeded, Rollback, Consistent and Results.
pub mod Drngs
pub mod Hashes
pub mod Results
pub mod Seeded
pub mod Rollback
pub mod Consistent
mod Tests
use lrng.Common.{
  ℕ, ◌+◌, ◌-◌, ◌^◌, Bool, true, false, not, ◌&&◌, ◌==◌, leb, if◌then◌else◌, List, [], ◌∷◌, Option,
  none, some, bit_or,
}
use lrng.DrngMgr.{LrngState, drng_init, drng_pr}

-- `struct lrng_drng_cb` and, as far as the switch uses it, `struct lrng_hash_cb` of lrng.h; the result
-- of an allocation has an errno, or 0 and the handle.
pub record DrngImpl (D : Type 0) : Type 0 where
  pub drng_alloc : ℕ → ℕ × D
  pub drng_seed : D → List ℕ → ℕ × D
  pub drng_generate : D → ℕ → ℕ × List ℕ × D

pub record HashImpl (H : Type 0) : Type 0 where
  pub hash_alloc : ℕ × H
  pub hash_digestsize : H → ℕ

-- CONFIG_LRNG_SWITCH_DRNG and CONFIG_LRNG_SWITCH_HASH, and what each set of callbacks does.
pub record Impls (D H : Type 0) : Type 0 where
  pub switch_drng : Bool
  pub switch_hash : Bool
  pub drng_impl : ℕ → DrngImpl D
  pub hash_impl : ℕ → HashImpl H

-- All instances with the callbacks and hash handles that their records hold, and the handles that were
-- released, newest first.
pub record SwitchState (W D H : Type 0) : Type 0 where
  pub lrng : LrngState W D
  pub drng_cbs : ℕ → ℕ
  pub hashes : ℕ → H
  pub hash_cbs : ℕ → ℕ
  pub freed_drngs : List D
  pub freed_hashes : List H

abbrev pub default_cb : ℕ
default_cb = 0

-- The callbacks that a request names: no request stands for NULL.
abbrev pub requested_cb : Option ℕ → ℕ
requested_cb none = default_cb
requested_cb (some c) = c

abbrev pub einval : ℕ
einval = 22

abbrev pub eopnotsupp : ℕ
eopnotsupp = 95

-- `-e` as an `int`, and the test `ret < 0`.
abbrev pub negative : ℕ → ℕ
negative e = 2 ^ 32 - e

abbrev pub is_negative : ℕ → Bool
is_negative ret = leb (2 ^ 31) ret

-- A function that switches one instance, on a node or, with node -1, the prediction resistance DRNG.
abbrev pub InstanceSwitch : Type 0 → Type 0 → Type 0 → Type 0
InstanceSwitch W D H = ℕ → Option ℕ → SwitchState W D H → ℕ × SwitchState W D H

module _ {W D H : Type 0} where
  -- The loop of `lrng_switch` over the nodes from `node` on.
  pub switch_nodes :
      InstanceSwitch W D H → ℕ → List (Option ℕ) → ℕ → SwitchState W D H → ℕ × SwitchState W D H
  switch_nodes switcher node [] ret s = (ret, s)
  switch_nodes switcher node (none ∷ ns) ret s = switch_nodes switcher (node + 1) ns ret s
  switch_nodes switcher node (some i ∷ ns) ret s =
      let (r, s') = switcher i (some node) s in
      switch_nodes switcher (node + 1) ns (bit_or ret r) s'

  -- The first half of `lrng_switch`: the instances of the nodes, or the initial one.
  unfoldable pub switch_regular :
      InstanceSwitch W D H → Option (List (Option ℕ)) → SwitchState W D H → ℕ × SwitchState W D H
  unfolding switch_nodes
  switch_regular switcher none s = let (r, s') = switcher drng_init (some 0) s in (bit_or 0 r, s')
  switch_regular switcher (some ns) s = switch_nodes switcher 0 ns 0 s

  -- `lrng_switch`
  unfoldable pub switch_all : InstanceSwitch W D H → SwitchState W D H → ℕ × SwitchState W D H
  unfolding switch_regular
  switch_all switcher s =
      let (ret, s1) = switch_regular switcher s.lrng.nodes s in
      let (r, s2) = switcher drng_pr none s1 in (bit_or ret r, s2)
