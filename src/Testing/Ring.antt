-- ===== src/Testing/Ring.antt =====
-- The ring buffer as a queue, as long as it has not come round: the samples from the reader's index up
-- to the writer's.
use mathlib.Core.List.{append-nil, append_assoc}
use lrng.Common.{
  ℕ, zero, suc, ◌+◌, ◌-◌, ◌≤◌, ◌<◌, ◌≡◌, refl, sym, ◌∙◌, ap, true, List, [], ◌∷◌, ◌++◌, some, ◌⊎◌,
  inl, inr, length-take, length-drop, length, set, take, drop, get_elem?, length-set, add32, arith,
}
use lrng.Testing.{Testing, ringbuffer_size, testing_store, stores}

-- What the reader can still fetch.
abbrev pub view : Testing → List ℕ
view d = drop d.rb_reader (take d.rb_writer d.lrng_testing_rb)

-- The buffer has its size, the reader is not ahead of the writer, and nothing was overwritten.
pub record IsFlat (d : Testing) : Type 0 where
  pub size : length d.lrng_testing_rb ≡ ringbuffer_size
  pub behind : d.rb_reader ≤ d.rb_writer
  pub below : d.rb_writer ≤ ringbuffer_size

module _ {ℓ} {A : Type ℓ} where
  take-set :
      (xs : List A) (w : ℕ) (v : A)
      → w < length xs
      → take (suc w) (set xs w v) ≡ take w xs ++ (v ∷ [])
  take-set [] w v h = ground arith
  take-set (x ∷ xs) zero v h = refl
  take-set (x ∷ xs) (suc w) v h = ap (◌∷◌ x) (take-set xs w v (omega arith))

  drop-append : (r : ℕ) (xs ys : List A) → r ≤ length xs → drop r (xs ++ ys) ≡ drop r xs ++ ys
  drop-append zero xs ys h = refl
  drop-append (suc r) [] ys h = ground arith
  drop-append (suc r) (x ∷ xs) ys h = drop-append r xs ys (omega arith)

  drop-nil : (r : ℕ) → drop {A = A} r [] ≡ []
  drop-nil zero = refl
  drop-nil (suc r) = refl

  -- The first element of what is left, and what is left behind it.
  drop-uncons :
      (xs : List A) (r : ℕ) (v : A) (q : List A)
      → drop r xs ≡ v ∷ q
      → (get_elem? xs r ≡ some v) × (drop (suc r) xs ≡ q)
  drop-uncons [] r v q e = let n = drop-nil r in ground (arith, n)
  drop-uncons (x ∷ xs) zero v q e = ground arith
  drop-uncons (x ∷ xs) (suc r) v q e = drop-uncons xs r v q e

  get_elem?-take :
      (w : ℕ) (xs : List A) (r : ℕ) (v : A)
      → get_elem? (take w xs) r ≡ some v
      → get_elem? xs r ≡ some v
  get_elem?-take zero xs r v e = ground arith
  get_elem?-take (suc w) [] r v e = e
  get_elem?-take (suc w) (x ∷ xs) zero v e = e
  get_elem?-take (suc w) (x ∷ xs) (suc r) v e = get_elem?-take w xs r v e

-- The state with one sample more, and with one sample fetched, where no index wraps.
abbrev pub push : ℕ → Testing → Testing
push v d = record d {
  lrng_testing_rb = set d.lrng_testing_rb d.rb_writer v;
  rb_writer = suc d.rb_writer;
}

abbrev pub pop : Testing → Testing
pop d = record d { rb_reader = suc d.rb_reader }

pub testing_store-push :
    (v boot : ℕ) (d : Testing)
    → d.rb_writer < ringbuffer_size
    → (d.lrng_testing_enabled ≡ true) ⊎ (boot ≡ 1)
    → testing_store v boot d ≡ (true, boot, push v d)
unfolding testing_store
testing_store-push v boot d room (inl on) = ground (arith, on)
testing_store-push v boot d room (inr b) = ground (arith, b)

pub push-IsFlat :
    (v : ℕ) (d : Testing) → IsFlat d → d.rb_writer < ringbuffer_size → IsFlat (push v d)
push-IsFlat v d flat room = record {
  size = length-set d.lrng_testing_rb d.rb_writer v ∙ flat.size;
  behind = omega (arith, flat.behind);
  below = room;
}

pub view-push :
    (v : ℕ) (d : Testing)
    → IsFlat d
    → d.rb_writer < ringbuffer_size
    → view (push v d) ≡ view d ++ (v ∷ [])
view-push v d flat room =
    let fits : d.rb_reader ≤ length (take d.rb_writer d.lrng_testing_rb) =
      omega
        (arith, length-take d.rb_writer d.lrng_testing_rb, flat.size, flat.behind, flat.below) in
    ap (drop d.rb_reader) (take-set d.lrng_testing_rb d.rb_writer v (omega (arith, flat.size)))
    ∙ drop-append d.rb_reader (take d.rb_writer d.lrng_testing_rb) (v ∷ []) fits

pub length-view : (d : Testing) → IsFlat d → length (view d) ≡ d.rb_writer - d.rb_reader
length-view d flat = omega (
  arith,
  length-drop d.rb_reader (take d.rb_writer d.lrng_testing_rb),
  length-take d.rb_writer d.lrng_testing_rb,
  flat.size,
  flat.below,
)

-- The reader fetches the sample at the front of the queue, and it is gone from there.
pub view-uncons :
    (v : ℕ) (q : List ℕ) (d : Testing)
    → IsFlat d
    → view d ≡ v ∷ q
    → (get_elem? d.lrng_testing_rb d.rb_reader ≡ some v)
      × IsFlat (pop d)
      × (view (pop d) ≡ q)
      × (add32 d.rb_reader 1 ≡ suc d.rb_reader)
view-uncons v q d flat e =
    let (here, left) = drop-uncons (take d.rb_writer d.lrng_testing_rb) d.rb_reader v q e in
    let more : suc (length q) ≡ d.rb_writer - d.rb_reader =
      sym (ap length e) ∙ length-view d flat in
    (
      get_elem?-take d.rb_writer d.lrng_testing_rb d.rb_reader v here,
      record { size = flat.size; behind = omega (arith, more); below = flat.below },
      left,
      omega (arith, more, flat.below),
    )

-- The same for a run of samples.
abbrev pub pushes : List ℕ → Testing → Testing
pushes [] d = d
pushes (v ∷ vs) d = pushes vs (push v d)

pub stores-pushes :
    (vs : List ℕ) (boot : ℕ) (d : Testing)
    → d.rb_writer + length vs ≤ ringbuffer_size
    → (d.lrng_testing_enabled ≡ true) ⊎ (boot ≡ 1)
    → stores vs boot d ≡ (boot, pushes vs d)
stores-pushes [] boot d room on = refl
stores-pushes (v ∷ vs) boot d room on =
    rw (testing_store-push v boot d (omega arith) on)
      (stores-pushes vs boot (push v d) (omega arith) on)

-- The queue with a run of samples behind it; the flags and the reader stay.
pub record IsPushed (d d' : Testing) (vs : List ℕ) : Type 0 where
  pub flat : IsFlat d'
  pub queue : view d' ≡ view d ++ vs
  pub writer : d'.rb_writer ≡ d.rb_writer + length vs
  pub reader : d'.rb_reader ≡ d.rb_reader
  pub enabled : d'.lrng_testing_enabled ≡ d.lrng_testing_enabled

pub pushes-IsPushed :
    (vs : List ℕ) (d : Testing)
    → IsFlat d
    → d.rb_writer + length vs ≤ ringbuffer_size
    → IsPushed d (pushes vs d) vs
pushes-IsPushed [] d flat room = record {
  flat = flat;
  queue = sym (append-nil (view d));
  writer = omega arith;
  reader = refl;
  enabled = refl;
}
pushes-IsPushed (v ∷ vs) d flat room =
    let one : d.rb_writer < ringbuffer_size = omega arith in
    let rest = pushes-IsPushed vs (push v d) (push-IsFlat v d flat one) (omega arith) in
    record {
      flat = rest.flat;
      queue = rest.queue ∙ ap (◌++ vs) (view-push v d flat one) ∙ append_assoc (view d) (v ∷ []) vs;
      writer = omega (arith, rest.writer);
      reader = rest.reader;
      enabled = rest.enabled;
    }
