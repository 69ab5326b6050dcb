-- ===== src/Drng/Seeding.antt =====
-- What the seeding of a DRNG promises: when it ends, and when the DRNG counts as fully seeded.
use lrng.Common.{
  ℕ, zero, suc, ◌≤◌, ◌≡◌, ◌⊎◌, Bool, true, false, List, [], ◌∷◌, map, Option, some, ◌+◌,
  if◌then◌else◌, Bool-cases, refl, inl, inr, ap, ◌∙◌, arith,
}
use mathlib.Core.Path.{subst}
use lrng.Config.{Config}
use lrng.Definitions.{get_seed_entropy_osr}
use lrng.SeedBuffer.{EntropyBuf, entropy_rate_eb}
use lrng.ManagerState.{Manager, count_ntg1}
use lrng.Manager.{fully_seeded, init_ops}
use lrng.DrngState.{Drng, drng_inject}
use lrng.Drng.{
  Env, SeedRun, add_counts, turn_fill, seed_turn, again, seed_loop, seed_start, seed_es_nolock,
}

-- The entropy in seed buffers, and their counts added to `counts` source by source.
abbrev pub total : List EntropyBuf → ℕ
total [] = 0
total (eb ∷ ebs) = entropy_rate_eb eb + total ebs

abbrev pub tally : List ℕ → List EntropyBuf → List ℕ
tally counts [] = counts
tally counts (eb ∷ ebs) = tally (add_counts counts eb.e_bits) ebs

module _ {W D : Type 0} (cfg : Config) (env : Env W D) where
  -- The entropy that a full seed takes, as far as it has been collected: two sources with 240 bits
  -- each under NTG.1, and otherwise what a first seed takes at the size of the digest in use.
  abbrev Collected : SeedRun W D → Type 0
  Collected s =
      ((cfg.ntg1 ≡ true) × (2 ≤ count_ntg1 s.collected_seedbuf.e_bits))
      ⊎ ((cfg.ntg1 ≡ false)
          × (get_seed_entropy_osr cfg (env.src.digestsize s.mgr.world) false ≤ s.collected_entropy))

  world-init_ops :
      (eb : Option EntropyBuf) (m : Manager W) → (init_ops cfg env.src eb m).world ≡ m.world
  unfolding init_ops
  world-init_ops eb m = ground arith

  inject-full :
      (jiffies : ℕ) (inbuf : List ℕ) (full : Bool) (d : Drng D)
      → d.fully_seeded ≡ false
      → (drng_inject env.cb jiffies inbuf full d).fully_seeded ≡ true
      → full ≡ true
  unfolding drng_inject
  inject-full jiffies inbuf full d off on = ground arith

  fully_seeded-Collected :
      (s : SeedRun W D) (m : Manager W)
      → s.mgr.world ≡ m.world
      → fully_seeded cfg env.src false s.collected_entropy (some s.collected_seedbuf) m ≡ true
      → Collected s
  unfolding fully_seeded
  fully_seeded-Collected s m same full =
      let size : env.src.digestsize s.mgr.world ≡ env.src.digestsize m.world =
        ap env.src.digestsize same in
      elim (Bool-cases cfg.ntg1) [
        | inl y ↦ inl (y, ground arith)
        | inr n ↦ inr (n, rw size (ground arith))
      ]

  world-seed_turn :
      (init forced : Bool) (s : SeedRun W D)
      → (seed_turn cfg env init forced s).mgr.world ≡ (turn_fill cfg env forced s).1.world
  unfolding seed_turn
  world-seed_turn true forced s = world-init_ops _ (turn_fill cfg env forced s).1
  world-seed_turn false forced s = refl

  -- A turn makes a DRNG fully seeded only with that.
  seed_turn-Collected :
      (init forced : Bool) (s : SeedRun W D)
      → s.drng.fully_seeded ≡ false
      → (seed_turn cfg env init forced s).drng.fully_seeded ≡ true
      → Collected (seed_turn cfg env init forced s)
  unfolding seed_turn
  seed_turn-Collected init forced s off on =
      let s' = seed_turn cfg env init forced s in
      let m = (turn_fill cfg env forced s).1 in
      let full = inject-full _ _ _ s.drng off on in
      fully_seeded-Collected s' m (world-seed_turn init forced s) (
        subst
          (λ b.
            fully_seeded cfg env.src b s'.collected_entropy (some s'.collected_seedbuf) m ≡ true)
          off full)

  -- The two ways that the loop goes on from a turn.
  pub seed_loop_cases :
      (fuel : ℕ) (init forced : Bool) (s s' : SeedRun W D)
      → seed_loop cfg env (suc fuel) init forced s ≡ some s'
      → let t = seed_turn cfg env init forced s in
        ((again cfg env forced t ≡ true) × (seed_loop cfg env fuel init forced t ≡ some s'))
        ⊎ ((again cfg env forced t ≡ false) × (t ≡ s'))
  seed_loop_cases fuel init forced s s' e = ground arith

  again-off :
      (forced : Bool) (s : SeedRun W D)
      → again cfg env forced s ≡ true
      → s.drng.fully_seeded ≡ false
  again-off forced s y = ground arith

  seed_loop-Collected :
      (fuel : ℕ) (init forced : Bool) (s s' : SeedRun W D)
      → s.drng.fully_seeded ≡ false
      → seed_loop cfg env fuel init forced s ≡ some s'
      → s'.drng.fully_seeded ≡ true
      → Collected s'
  seed_loop-Collected zero init forced s s' off e on = ground arith
  seed_loop-Collected (suc fuel) init forced s s' off e on =
      let t = seed_turn cfg env init forced s in
      elim (seed_loop_cases fuel init forced s s' e) [
        | inl (y, rest) ↦ seed_loop-Collected fuel init forced t s' (again-off forced t y) rest on
        | inr (n, same) ↦ subst Collected same (
            seed_turn-Collected init forced s off
              (ap (λ (r : SeedRun W D). r.drng.fully_seeded) same ∙ on))
      ]

  -- The seed buffers that the turns of the loop fill.
  abbrev pub drawn : ℕ → Bool → Bool → SeedRun W D → List EntropyBuf
  drawn zero init forced s = []
  drawn (suc fuel) init forced s =
      let t = seed_turn cfg env init forced s in
      let rest = drawn fuel init forced t in
      (turn_fill cfg env forced s).0 ∷ (if again cfg env forced t then rest else [])

  -- A turn adds to its two records what it fills.
  seed_turn-drawn :
      (init forced : Bool) (s : SeedRun W D)
      → let t = seed_turn cfg env init forced s in
        let eb = (turn_fill cfg env forced s).0 in
        (t.collected_entropy ≤ s.collected_entropy + entropy_rate_eb eb)
        × (t.collected_seedbuf.e_bits ≡ add_counts s.collected_seedbuf.e_bits eb.e_bits)
  unfolding seed_turn
  seed_turn-drawn init forced s = (omega arith, refl)

  -- A run adds to its two records what is in these buffers, and nothing else.
  seed_loop-drawn :
      (fuel : ℕ) (init forced : Bool) (s s' : SeedRun W D)
      → seed_loop cfg env fuel init forced s ≡ some s'
      → (s'.collected_entropy ≤ s.collected_entropy + total (drawn fuel init forced s))
        × (s'.collected_seedbuf.e_bits
            ≡ tally s.collected_seedbuf.e_bits (drawn fuel init forced s))
  seed_loop-drawn zero init forced s s' e = ground arith
  seed_loop-drawn (suc fuel) init forced s s' e =
      let t = seed_turn cfg env init forced s in
      let eb = (turn_fill cfg env forced s).0 in
      let (most, counts) = seed_turn-drawn init forced s in
      elim (seed_loop_cases fuel init forced s s' e) [
        | inl (y, rest) ↦
            let (more, sums) = seed_loop-drawn fuel init forced t s' rest in
            let all : drawn (suc fuel) init forced s ≡ eb ∷ drawn fuel init forced t =
              ap (λ b. eb ∷ (if b then drawn fuel init forced t else [])) y in
            (
              omega (arith, more, most, ap total all),
              rw all (sums ∙ ap (λ c. tally c (drawn fuel init forced t)) counts),
            )
        | inr (n, same) ↦
            let all : drawn (suc fuel) init forced s ≡ eb ∷ [] =
              ap (λ b. eb ∷ (if b then drawn fuel init forced t else [])) n in
            let entropy = ap (λ (r : SeedRun W D). r.collected_entropy) same in
            (omega (arith, most, entropy, ap total all), rw (all, ← same) counts)
      ]

  -- A DRNG that was not fully seeded counts as fully seeded after a seeding only if the seed buffers that
  -- this seeding filled, in however many turns, carry the entropy for it: under NTG.1 there are two
  -- sources with 240 bits each when the counts of the buffers are added up source by source, and
  -- otherwise the buffers have the security strength, for the digest in use, with its oversampling.
  pub seed_es_nolock-Collected :
      (fuel : ℕ) (init : Bool) (stack : EntropyBuf) (d : Drng D) (m : Manager W) (s' : SeedRun W D)
      → d.fully_seeded ≡ false
      → seed_es_nolock cfg env fuel init stack d m ≡ some s'
      → s'.drng.fully_seeded ≡ true
      → let ebs = drawn fuel init d.force_reseed (seed_start cfg env stack d m) in
        ((cfg.ntg1 ≡ true) × (2 ≤ count_ntg1 (tally (map (λ _. 0) stack.e_bits) ebs)))
        ⊎ ((cfg.ntg1 ≡ false)
            × (get_seed_entropy_osr cfg (env.src.digestsize s'.mgr.world) false ≤ total ebs))
  unfolding seed_es_nolock
  seed_es_nolock-Collected fuel init stack d m s' off e on =
      let start = seed_start cfg env stack d m in
      let (most, counts) = seed_loop-drawn fuel init d.force_reseed start s' e in
      elim (seed_loop-Collected fuel init d.force_reseed start s' off e on) [
        | inl (y, two) ↦ inl (y, rw (← counts) two)
        | inr (n, enough) ↦ inr (n, omega (arith, enough, most))
      ]
