-- ===== src/Manager/Seeding.antt =====
-- The seed buffer: what the manager collects from sources that keep the contract of `EsCb`.
use lrng.Common.{
  ℕ, zero, suc, ◌+◌, ◌*◌, ◌≤◌, ◌<◌, ◌≡◌, refl, Bool, true, false, List, [], ◌∷◌, map, arith, length,
  set, length-set, add32, if◌then◌else◌, ap, ◌∙◌, sym,
}
use mathlib.Core.Path.{subst}
use lrng.Config.{Config}
use lrng.SeedBuffer.{EntropyBuf, sum32_from, entropy_rate_eb}
use lrng.EntropySource.{EsCb, IsSource}
use lrng.ManagerState.{Manager, Sources, get_all}
use lrng.Manager.{fill_seed_buffer}

-- Every source from index `i` on keeps the contract at its own index.
abbrev pub AllSources : {W : Type 0} → ℕ → List (EsCb W) → Type 0
AllSources i [] = Unit
AllSources i (s ∷ ss) = IsSource i s × AllSources (suc i) ss

-- What holds of both results of a test holds of the one that is taken.
if_pair :
    {A B : Type 0} (P : A → Type 0) (b : Bool) (x y : A × B)
    → P x.0
    → P y.0
    → P (if b then x else y).0
if_pair P true x y p q = p
if_pair P false x y p q = q

-- The first `n` counts are at most `req`.
abbrev pub Below : ℕ → ℕ → List ℕ → Type 0
Below req zero xs = Unit
Below req (suc n) [] = ⊥
Below req (suc n) (x ∷ xs) = (x ≤ req) × Below req n xs

Below-set :
    (req n v : ℕ) (xs : List ℕ)
    → n < length xs
    → v ≤ req
    → Below req n xs
    → Below req (suc n) (set xs n v)
Below-set req n v [] h k b = elim h [ ]
Below-set req zero v (x ∷ xs) h k b = (k, tt)
Below-set req (suc n) v (x ∷ xs) h k b = (b.0, Below-set req n v xs (omega arith) k b.1)

sum32_from-le :
    (req acc : ℕ) (xs : List ℕ)
    → Below req (length xs) xs
    → sum32_from acc xs ≤ acc + length xs * req
sum32_from-le req acc [] b = omega arith
sum32_from-le req acc (x ∷ xs) b = omega (arith, sum32_from-le req (add32 acc x) xs b.1, b.0)

module _ {W : Type 0} where
  get_all-Below :
      (ss : List (EsCb W)) (i req : ℕ) (seeded : Bool) (eb : EntropyBuf) (w : W)
      → AllSources i ss
      → i + length ss ≡ length eb.e_bits
      → Below req i eb.e_bits
      → let eb' = (get_all ss req seeded eb w).0 in
        (length eb'.e_bits ≡ length eb.e_bits) × Below req (length eb.e_bits) eb'.e_bits
  get_all-Below [] i req seeded eb w ok fit b =
      (refl, subst (λ n. Below req n eb.e_bits) (let q : i ≡ length eb.e_bits = omega arith in q) b)
  get_all-Below (s ∷ ss) i req seeded eb w ok fit b =
      let (eb1, w1) = s.get_ent req seeded eb w in
      let (bits, low, e) = ok.0 req seeded eb w (omega arith) in
      let same : length eb1.e_bits ≡ length eb.e_bits = ap length e ∙ length-set eb.e_bits i bits in
      let wrote : Below req (suc i) eb1.e_bits =
        rw e (Below-set req i bits eb.e_bits (omega arith) low b) in
      let (len, all) = get_all-Below ss (suc i) req seeded eb1 w1 ok.1 (omega arith) wrote in
      (len ∙ same, subst (λ n. Below req n (get_all ss req seeded eb1 w1).0.e_bits) same all)

length-zeros : (xs : List ℕ) → length (map (λ (_ : ℕ). zero) xs) ≡ length xs
length-zeros [] = refl
length-zeros (x ∷ xs) = ap suc (length-zeros xs)

Below-zeros : (req : ℕ) (xs : List ℕ) → Below req (length xs) (map (λ (_ : ℕ). zero) xs)
Below-zeros req [] = tt
Below-zeros req (x ∷ xs) = (omega arith, Below-zeros req xs)

module _ {W : Type 0} (cfg : Config) (src : Sources W) where
  pub fill_seed_buffer-Below :
      (now : ℕ) (eb : EntropyBuf) (req : ℕ) (force : Bool) (m : Manager W)
      → AllSources 0 src.es
      → length src.es ≡ length eb.e_bits
      → let eb' = (fill_seed_buffer cfg src now eb req force m).0 in
        (length eb'.e_bits ≡ length eb.e_bits) × Below req (length eb.e_bits) eb'.e_bits
  unfolding fill_seed_buffer
  fill_seed_buffer-Below now eb req force m ok fit =
      if_pair
        (λ (eb' : EntropyBuf).
          (length eb'.e_bits ≡ length eb.e_bits) × Below req (length eb.e_bits) eb'.e_bits)
        _ _ _ (length-zeros eb.e_bits, Below-zeros req eb.e_bits)
        (get_all-Below src.es 0 req m.lrng_fully_seeded (record eb { now = now }) m.world ok
          (omega arith) tt)

  -- The entropy recorded in a seed buffer is at most what was requested of each source, for any
  -- sources that keep the contract of the entropy source callbacks.
  pub fill_seed_buffer-le :
      (now : ℕ) (eb : EntropyBuf) (req : ℕ) (force : Bool) (m : Manager W)
      → AllSources 0 src.es
      → length src.es ≡ length eb.e_bits
      → entropy_rate_eb (fill_seed_buffer cfg src now eb req force m).0 ≤ length src.es * req
  unfolding entropy_rate_eb
  fill_seed_buffer-le now eb req force m ok fit =
      let (len, all) = fill_seed_buffer-Below now eb req force m ok fit in
      let counts = (fill_seed_buffer cfg src now eb req force m).0.e_bits in
      let le = sum32_from-le req 0 counts (subst (λ n. Below req n counts) (sym len) all) in
      rw (fit ∙ sym len) (omega (arith, le))
