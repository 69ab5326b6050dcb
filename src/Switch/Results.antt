-- ===== src/Switch/Results.antt =====
-- What a switch that reports success has done to all instances.
use mathlib.Core.Path.{subst}
use lrng.Common.{
  ℕ, ◌+◌, ◌<◌, ◌≡◌, refl, ap, ◌∙◌, Bool, true, ◌||◌, ◌==◌, List, [], ◌∷◌, Option, none, some,
  bit_or, arith, Bool-cases, inl, inr,
}
use lrng.Common.Bits.{bit_or-eq_zero}
use lrng.Config.{Config}
use lrng.Definitions.{drng_security_strength_bytes}
use lrng.DrngMgr.{Setup, drng_init, drng_pr}
use lrng.DrngMgr.Reset.{names}
use lrng.Switch.{
  Impls, SwitchState, InstanceSwitch, requested_cb, switch_nodes, switch_regular, switch_all,
}
use lrng.Switch.Drngs.{drng_switch, install, set_drng_cb}

-- The instances that serve the nodes, and those that a switch of the DRNG reaches.
abbrev pub regular : Option (List (Option ℕ)) → ℕ → Bool
regular none j = j == drng_init
regular (some ns) j = names ns j

abbrev pub switched : Option (List (Option ℕ)) → ℕ → Bool
switched nodes j = j == drng_pr || regular nodes j

module _ {W D H : Type 0} (switcher : InstanceSwitch W D H) (Q : ℕ → SwitchState W D H → Type 0)
    (sets : (i n : ℕ) (s : SwitchState W D H)
      → (switcher i (some n) s).0 ≡ 0
      → Q i (switcher i (some n) s).1)
    (keeps : (j i : ℕ) (node : Option ℕ) (s : SwitchState W D H)
      → Q j s
      → Q j (switcher i node s).1) where
  switch_nodes-keeps :
      (node : ℕ) (ns : List (Option ℕ)) (ret j : ℕ) (s : SwitchState W D H)
      → Q j s
      → Q j (switch_nodes switcher node ns ret s).1
  unfolding switch_nodes
  switch_nodes-keeps node [] ret j s q = q
  switch_nodes-keeps node (none ∷ ns) ret j s q = switch_nodes-keeps (node + 1) ns ret j s q
  switch_nodes-keeps node (some i ∷ ns) ret j s q =
      let (r, s') = switcher i (some node) s in
      switch_nodes-keeps (node + 1) ns (bit_or ret r) j s' (keeps j i (some node) s q)

  -- The results are joined by `|`, so one that is not 0 is not lost.
  switch_nodes-ret :
      (node : ℕ) (ns : List (Option ℕ)) (ret : ℕ) (s : SwitchState W D H)
      → (switch_nodes switcher node ns ret s).0 ≡ 0
      → ret ≡ 0
  unfolding switch_nodes
  switch_nodes-ret node [] ret s h = h
  switch_nodes-ret node (none ∷ ns) ret s h = switch_nodes-ret (node + 1) ns ret s h
  switch_nodes-ret node (some i ∷ ns) ret s h =
      let (r, s') = switcher i (some node) s in
      (bit_or-eq_zero ret r (switch_nodes-ret (node + 1) ns (bit_or ret r) s' h)).0

  switch_nodes-sets :
      (node : ℕ) (ns : List (Option ℕ)) (ret j : ℕ) (s : SwitchState W D H)
      → (switch_nodes switcher node ns ret s).0 ≡ 0
      → names ns j ≡ true
      → Q j (switch_nodes switcher node ns ret s).1
  unfolding switch_nodes
  switch_nodes-sets node [] ret j s h e = absurd (cc e)
  switch_nodes-sets node (none ∷ ns) ret j s h e = switch_nodes-sets (node + 1) ns ret j s h e
  switch_nodes-sets node (some i ∷ ns) ret j s h e =
      let (r, s') = switcher i (some node) s in
      let zero_r = (bit_or-eq_zero ret r (switch_nodes-ret (node + 1) ns (bit_or ret r) s' h)).1 in
      elim (Bool-cases (j == i)) [
        | inl y ↦
            let same : i ≡ j = ground (arith, y) in
            switch_nodes-keeps (node + 1) ns (bit_or ret r) j s'
              (subst (λ k. Q k s') same (sets i node s zero_r))
        | inr n ↦ switch_nodes-sets (node + 1) ns (bit_or ret r) j s' h (ground (arith, n, e))
      ]

  switch_regular-sets :
      (nodes : Option (List (Option ℕ))) (s : SwitchState W D H) (j : ℕ)
      → (switch_regular switcher nodes s).0 ≡ 0
      → regular nodes j ≡ true
      → Q j (switch_regular switcher nodes s).1
  unfolding switch_regular
  switch_regular-sets none s j h e =
      let same : drng_init ≡ j = ground (arith, e) in
      let (r, s') = switcher drng_init (some 0) s in
      subst (λ k. Q k s') same (sets drng_init 0 s (bit_or-eq_zero 0 r h).1)
  switch_regular-sets (some ns) s j h e = switch_nodes-sets 0 ns 0 j s h e

  -- A switch of all that reports success has set every instance that serves nodes, and the switch of the
  -- prediction resistance DRNG reported success.
  switch_all-sets :
      (s : SwitchState W D H) (j : ℕ)
      → (switch_all switcher s).0 ≡ 0
      → regular s.lrng.nodes j ≡ true
      → Q j (switch_all switcher s).1
  unfolding switch_all
  switch_all-sets s j h e =
      let (ret, s1) = switch_regular switcher s.lrng.nodes s in
      let z = bit_or-eq_zero ret (switcher drng_pr none s1).0 h in
      keeps j drng_pr none s1 (switch_regular-sets s.lrng.nodes s j z.0 e)

  switch_all-pr :
      (s : SwitchState W D H)
      → (switch_all switcher s).0 ≡ 0
      → (s1 : SwitchState W D H) × ((switcher drng_pr none s1).0 ≡ 0)
        × ((switch_all switcher s).1 ≡ (switcher drng_pr none s1).1)
  unfolding switch_all
  switch_all-pr s h =
      let (ret, s1) = switch_regular switcher s.lrng.nodes s in
      (s1, (bit_or-eq_zero ret (switcher drng_pr none s1).0 h).1, refl)

module _ {W D H : Type 0} (cfg : Config) (u : Setup W D) (im : Impls D H) where
  drng_switch-sets :
      (cb i : ℕ) (of_node : Option ℕ) (s : SwitchState W D H)
      → ((im.drng_impl cb).drng_alloc drng_security_strength_bytes).0 < 4096
      → (drng_switch cfg u im cb i of_node s).0 ≡ 0
      → (drng_switch cfg u im cb i of_node s).1.drng_cbs i ≡ cb
  unfolding drng_switch install
  drng_switch-sets cb i of_node s l h = ground (arith, h)

  drng_switch-keeps :
      (cb j i : ℕ) (of_node : Option ℕ) (s : SwitchState W D H)
      → s.drng_cbs j ≡ cb
      → (drng_switch cfg u im cb i of_node s).1.drng_cbs j ≡ cb
  unfolding drng_switch install
  drng_switch-keeps cb j i of_node s h = ground (arith, h)

  drng_switch_all :
      (cb : ℕ) (s : SwitchState W D H) (j : ℕ)
      → ((im.drng_impl cb).drng_alloc drng_security_strength_bytes).0 < 4096
      → (switch_all (drng_switch cfg u im cb) s).0 ≡ 0
      → switched s.lrng.nodes j ≡ true
      → (switch_all (drng_switch cfg u im cb) s).1.drng_cbs j ≡ cb
  drng_switch_all cb s j l z e =
      let sw = drng_switch cfg u im cb in
      elim (Bool-cases (j == drng_pr)) [
        | inl y ↦
            let same : drng_pr ≡ j = ground (arith, y) in
            let (s1, zero_r, last) =
              switch_all-pr sw (λ k (x : SwitchState W D H). x.drng_cbs k ≡ cb)
                (λ i n x. drng_switch-sets cb i (some n) x l)
                (λ k i of_node x. drng_switch-keeps cb k i of_node x) s z in
            subst (λ k. (switch_all sw s).1.drng_cbs k ≡ cb) same
              (ap (λ (x : SwitchState W D H). x.drng_cbs drng_pr) last
                ∙ drng_switch-sets cb drng_pr none s1 l zero_r)
        | inr n ↦
            switch_all-sets sw (λ k (x : SwitchState W D H). x.drng_cbs k ≡ cb)
              (λ i n x. drng_switch-sets cb i (some n) x l)
              (λ k i node x. drng_switch-keeps cb k i node x) s j z (ground (arith, n, e))
      ]

  -- If the registration of DRNG callbacks reports success, the prediction resistance DRNG and every
  -- instance that serves nodes has them, provided that the errno of an allocation is one of the kernel's.
  pub set_drng_cb-all :
      (drng_cb : Option ℕ) (s : SwitchState W D H) (j : ℕ)
      → ((im.drng_impl (requested_cb drng_cb)).drng_alloc drng_security_strength_bytes).0 < 4096
      → (set_drng_cb cfg u im drng_cb s).0 ≡ 0
      → switched s.lrng.nodes j ≡ true
      → (set_drng_cb cfg u im drng_cb s).1.drng_cbs j ≡ requested_cb drng_cb
  unfolding set_drng_cb
  set_drng_cb-all drng_cb s j l h e =
      let cb = requested_cb drng_cb in
      let sw = drng_switch cfg u im cb in
      let z : (switch_all sw s).0 ≡ 0 = ground (arith, h) in
      let all : (switch_all sw s).1.drng_cbs j ≡ cb = drng_switch_all cb s j l z e in
      ground (arith, h, all)
