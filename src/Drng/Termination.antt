-- ===== src/Drng/Termination.antt =====
-- The emergency seeding ends: each turn that the loop goes on from has collected at least one bit,
-- and a full seed takes at most 384.
use mathlib.Core.Path.{subst}
use lrng.Common.{
  ℕ, zero, suc, ◌+◌, ◌*◌, ◌≤◌, ◌<◌, ◌^◌, ◌≡◌, ◌⊎◌, refl, Bool, true, false, not, ◌&&◌, List, [],
  ◌∷◌, some, Bool-cases, inl, inr, ◌∙◌, add32, arith, length, sym,
}
use lrng.Config.{Config}
use lrng.Definitions.{get_seed_entropy_osr}
use lrng.SeedBuffer.{EntropyBuf, sum32_from, entropy_rate_eb, es_last}
use lrng.ManagerState.{Manager}
use lrng.Manager.{fully_seeded}
use lrng.Manager.Seeding.{AllSources, Below, fill_seed_buffer-Below, fill_seed_buffer-le}
use lrng.DrngState.{Drng, drng_inject}
use lrng.Drng.{
  Env, SeedRun, delivered, turn_fill, seed_turn, again, seed_loop, seed_start, seed_es_nolock,
}

osr-le :
    (cfg : Config) (digestsize : ℕ) (full : Bool) → get_seed_entropy_osr cfg digestsize full ≤ 384
unfolding get_seed_entropy_osr
osr-le cfg digestsize full = ground arith

-- Without wrap-around, every source that delivers adds at least one bit to the sum.
sum32_from-ge :
    (req acc : ℕ) (xs : List ℕ)
    → Below req (length xs) xs
    → acc + length xs * req < 2 ^ 32
    → acc + delivered xs ≤ sum32_from acc xs
sum32_from-ge req acc [] b low = omega arith
sum32_from-ge req acc (x ∷ xs) b low =
    ground (arith, sum32_from-ge req (add32 acc x) xs b.1 (omega (arith, b.0)))

product-le : (a b : ℕ) → a ≡ 6 → b ≤ 384 → a * b ≤ 6 * 384
product-le a b six low = rw six (omega arith)

module _ {W D : Type 0} (cfg : Config) (env : Env W D) where
  -- What one turn collects from sources that keep their contract.
  turn_fill-bits :
      (forced : Bool) (s : SeedRun W D)
      → AllSources 0 env.src.es
      → length env.src.es ≡ length s.seedbuf.e_bits
      → length env.src.es ≡ es_last
      → let eb = (turn_fill cfg env forced s).0 in
        (length env.src.es ≡ length eb.e_bits)
        × (delivered eb.e_bits ≤ entropy_rate_eb eb)
        × (entropy_rate_eb eb ≤ 6 * 384)
  unfolding turn_fill entropy_rate_eb
  turn_fill-bits forced s ok fit few =
      let w = s.mgr.world in
      let req = get_seed_entropy_osr cfg (env.src.digestsize w) s.drng.fully_seeded in
      let force = forced && not s.drng.fully_seeded in
      let (len, all) =
        fill_seed_buffer-Below cfg env.src (env.cycles w) s.seedbuf req force s.mgr ok fit in
      let le = fill_seed_buffer-le cfg env.src (env.cycles w) s.seedbuf req force s.mgr ok fit in
      let low = osr-le cfg (env.src.digestsize w) s.drng.fully_seeded in
      let counts = (turn_fill cfg env forced s).0.e_bits in
      let same : length env.src.es ≡ length counts = fit ∙ sym len in
      let six : length counts ≡ 6 = sym same ∙ few in
      let ge =
        sum32_from-ge req 0 counts (subst (λ n. Below req n counts) (sym len) all)
          (omega (arith, product-le (length counts) req six low)) in
      (same, omega (arith, ge), omega (arith, le, product-le (length env.src.es) req few low))

  -- A seeding that works leaves a DRNG unseeded only if it lacks entropy.
  unseeded-le :
      (jiffies total : ℕ) (inbuf : List ℕ) (sums : EntropyBuf) (d : Drng D) (m : Manager W)
      → cfg.ntg1 ≡ false
      → ((h : D) (bytes : List ℕ) → (env.cb.drng_seed h bytes).0 ≡ false)
      → let full = fully_seeded cfg env.src d.fully_seeded total (some sums) m in
        (drng_inject env.cb jiffies inbuf full d).fully_seeded ≡ false → total < 384
  unfolding drng_inject fully_seeded
  unseeded-le jiffies total inbuf sums d m plain works off =
      ground (arith, works d.drng inbuf, osr-le cfg (env.src.digestsize m.world) d.fully_seeded)

  again-more :
      (forced : Bool) (t : SeedRun W D)
      → again cfg env forced t ≡ true
      → (t.drng.fully_seeded ≡ false) × (1 ≤ t.num_es_delivered)
  again-more forced t more = ground arith

  again-stop :
      (forced : Bool) (t : SeedRun W D)
      → cfg.ntg1 ≡ false
      → again cfg env forced t ≡ false
      → (cfg.force_seeding && forced ≡ false)
        ⊎ (t.drng.fully_seeded ≡ true)
        ⊎ (t.num_es_delivered ≡ 0)
  again-stop forced t plain stop = ground arith

  -- A turn that the loop goes on from has collected at least one bit more, and still lacks some.
  seed_turn-more :
      (init forced : Bool) (s : SeedRun W D)
      → cfg.ntg1 ≡ false
      → ((h : D) (bytes : List ℕ) → (env.cb.drng_seed h bytes).0 ≡ false)
      → AllSources 0 env.src.es
      → length env.src.es ≡ es_last
      → length env.src.es ≡ length s.seedbuf.e_bits
      → s.collected_entropy < 384
      → let t = seed_turn cfg env init forced s in
        again cfg env forced t ≡ true
        → (length env.src.es ≡ length t.seedbuf.e_bits)
          × (s.collected_entropy < t.collected_entropy)
          × (t.collected_entropy < 384)
  unfolding seed_turn
  seed_turn-more init forced s plain works ok few fit low more =
      let t = seed_turn cfg env init forced s in
      let m = (turn_fill cfg env forced s).1 in
      let (off, some_es) = again-more forced t more in
      let (same, up, down) = turn_fill-bits forced s ok fit few in
      let lacks =
        unseeded-le (env.jiffies m.world) t.collected_entropy _ t.collected_seedbuf s.drng m plain
          works off in
      (same, omega (arith, some_es, up, down), lacks)

  module _ (plain : cfg.ntg1 ≡ false)
      (works : (h : D) (bytes : List ℕ) → (env.cb.drng_seed h bytes).0 ≡ false)
      (ok : AllSources 0 env.src.es) (few : length env.src.es ≡ es_last) where
    seed_loop-total :
        (fuel : ℕ) (init forced : Bool) (s : SeedRun W D)
        → length env.src.es ≡ length s.seedbuf.e_bits
        → s.collected_entropy < 384
        → 384 ≤ fuel + s.collected_entropy
        → (s' : SeedRun W D) × (seed_loop cfg env fuel init forced s ≡ some s')
          × (again cfg env forced s' ≡ false)
    seed_loop-total zero init forced s fit low enough = elim (let q : ⊥ = omega arith in q) [ ]
    seed_loop-total (suc fuel) init forced s fit low enough =
        let t = seed_turn cfg env init forced s in
        elim (Bool-cases (again cfg env forced t)) [
          | inl y ↦
              let (fit', up, low') = seed_turn-more init forced s plain works ok few fit low y in
              let (s', e, n) = seed_loop-total fuel init forced t fit' low' (omega arith) in
              (s', rw y e, n)
          | inr n ↦ (t, rw n refl, n)
        ]

    -- Seeding from six sources that keep their contract ends within 384 turns, forced or not, as long as
    -- the DRNG takes its seed and NTG.1 seeding is off. A forced seeding then ends with a DRNG that is
    -- fully seeded or with sources that deliver nothing.
    pub seed_es_nolock-total :
        (init : Bool) (stack : EntropyBuf) (d : Drng D) (m : Manager W)
        → length stack.e_bits ≡ es_last
        → (s' : SeedRun W D) × (seed_es_nolock cfg env 384 init stack d m ≡ some s')
          × ((cfg.force_seeding && d.force_reseed ≡ false)
              ⊎ (s'.drng.fully_seeded ≡ true)
              ⊎ (s'.num_es_delivered ≡ 0))
    unfolding seed_es_nolock
    seed_es_nolock-total init stack d m six =
        let (s', e, n) =
          seed_loop-total 384 init d.force_reseed (seed_start cfg env stack d m) (few ∙ sym six)
            (omega arith) (omega arith) in
        (s', e, again-stop d.force_reseed s' plain n)
