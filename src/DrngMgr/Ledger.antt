-- ===== src/DrngMgr/Ledger.antt =====
-- What a request to the prediction resistance DRNG gives for the entropy that it collects.
use lrng.Common.{
  ℕ, zero, suc, ◌+◌, ◌*◌, ◌≤◌, ◌≡◌, inl, inr, refl, true, not, ◌==◌, List, if◌then◌else◌, Option,
  none, some, min_u32, arith, Option-cases,
}
use lrng.Config.{Config}
use lrng.Definitions.{security_strength}
use lrng.ManagerState.{pool_trylock}
use lrng.DrngState.{DrngCb}
use lrng.DrngMgr.{
  LrngState, Setup, count, errno, put, put_mgr, drng_pr, drng_unset_fully_seeded, drng_seed_es,
}
use lrng.DrngMgr.Generate.{
  Request, return, more, stop, retry, todo, pr_plan, generate, get_turn, get_loop,
}

-- A generator does not report more bytes than it was asked for.
abbrev pub IsBounded : {D : Type 0} → DrngCb D → Type 0
IsBounded {D} cb = (d : D) (n : ℕ) → (cb.drng_generate d n).0 ≤ n

security_strength-le : (digestsize : ℕ) → security_strength digestsize ≤ 256
unfolding security_strength
security_strength-le digestsize = ground arith

module _ {W D : Type 0} (cfg : Config) (u : Setup W D) where
  -- The entropy that a turn collects, from the state it starts in.
  abbrev pub turn_entropy : LrngState W D → ℕ
  turn_entropy s =
      if (s.drngs drng_pr).fully_seeded
      then 0
      else if not (pool_trylock s.mgr).0
      then 0
      else elim (drng_seed_es cfg u drng_pr (put_mgr (pool_trylock s.mgr).1 s)) [
        | none ↦ 0
        | some r ↦ r.0
      ]

  -- What a seed received before is good for: one output of the security strength.
  abbrev pub credit : LrngState W D → ℕ
  credit s = if (s.drngs drng_pr).fully_seeded then 256 else 0

  module _ (seed : ℕ → LrngState W D → Option (LrngState W D)) where
    -- The entropy that the turns of a request collect.
    abbrev pub loop_entropy : ℕ → Request → LrngState W D → ℕ
    loop_entropy zero r s = 0
    loop_entropy (suc fuel) r s =
        let rest : ℕ = elim (get_turn cfg u seed drng_pr r s) [
          | none ↦ 0
          | some (return ret r' s') ↦ 0
          | some (more r' s') ↦ loop_entropy fuel r' s'
        ] in
        if r.outbuflen == 0 then 0 else turn_entropy s + rest

  unset-credit : (s : LrngState W D) → credit (drng_unset_fully_seeded cfg u drng_pr s) ≡ 0
  unfolding drng_unset_fully_seeded
  unset-credit s = refl

  plan-le :
      (want n : ℕ) (s s1 : LrngState W D)
      → pr_plan cfg u drng_pr want s ≡ some (todo n s1)
      → n * 8 ≤ turn_entropy s + credit s
  unfolding pr_plan
  plan-le want n s s1 e = ground (arith, security_strength-le (u.src.digestsize s.mgr.world))

  plan-retry :
      (want : ℕ) (s s1 : LrngState W D) → pr_plan cfg u drng_pr want s ≡ some (retry s1) → s1 ≡ s
  unfolding pr_plan
  plan-retry want s s1 e = ground arith

  generate-le :
      (n : ℕ) (r r' : Request) (s s' : LrngState W D)
      → IsBounded (u.cbs drng_pr)
      → generate cfg u drng_pr true n r s ≡ more r' s'
      → (r'.processed ≤ r.processed + n) × (credit s' ≡ 0)
  unfolding generate
  generate-le n r r' s s' bound e = ground (
    arith,
    bound (s.drngs drng_pr).drng n,
    unset-credit (
        put drng_pr
          (record (s.drngs drng_pr) {
            drng = ((u.cbs drng_pr).drng_generate (s.drngs drng_pr).drng n).2;
          })
          s),
  )

  module _ (seed : ℕ → LrngState W D → Option (LrngState W D))
      (bound : IsBounded (u.cbs drng_pr)) where
    turn-le :
        (r r' : Request) (s s' : LrngState W D)
        → get_turn cfg u seed drng_pr r s ≡ some (more r' s')
        → r'.processed * 8 + credit s' ≤ r.processed * 8 + turn_entropy s + credit s
    unfolding get_turn
    turn-le r r' s s' e =
        let want = min_u32 r.outbuflen 4096 in
        elim (Option-cases (pr_plan cfg u drng_pr want s)) [
          | inl no_plan ↦ ground (arith, no_plan)
          | inr (todo n s1, p) ↦
              let g : generate cfg u drng_pr true n r s1 ≡ more r' s' = ground (arith, p, e) in
              omega (arith, plan-le want n s s1 p, generate-le n r r' s1 s' bound g)
          | inr (retry s1, p) ↦ ground (arith, p, e, plan-retry want s s1 p)
          | inr (stop s1, p) ↦ ground (arith, p, e)
        ]

    return-le :
        (n : ℕ) (r r' : Request) (s s' : LrngState W D)
        → get_turn cfg u seed drng_pr r s ≡ some (return (count n) r' s')
        → n ≡ r.processed
    unfolding get_turn generate
    return-le n r r' s s' e = ground arith

    -- The result of a request to the prediction resistance DRNG is at most a bit for each bit of entropy
    -- that its turns collect, beside one output of the security strength if the DRNG was fully seeded
    -- before. (The generator reports no more bytes than it was asked for.)
    pub get_loop-le :
        (fuel : ℕ) (r : Request) (s s' : LrngState W D) (n : ℕ) (out : List ℕ)
        → get_loop cfg u seed fuel drng_pr r s ≡ some (count n, out, s')
        → n * 8 ≤ r.processed * 8 + loop_entropy seed fuel r s + credit s
    get_loop-le zero r s s' n out e = ground arith
    get_loop-le (suc fuel) r s s' n out e = elim (Option-cases (get_turn cfg u seed drng_pr r s)) [
      | inl none_left ↦ ground (arith, none_left)
      | inr (return (count k) r' s1, p) ↦ ground (arith, p, return-le k r r' s s1 p)
      | inr (return (errno k) r' s1, p) ↦ ground (arith, p)
      | inr (more r' s1, p) ↦
          ground (arith, p, turn-le r r' s s1 p, get_loop-le fuel r' s1 s' n out)
    ]
