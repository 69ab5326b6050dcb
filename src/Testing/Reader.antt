-- ===== src/Testing/Reader.antt =====
-- What a read at runtime returns: the samples that come in while it sleeps, first in, first out.
use mathlib.Core.List.{append-nil, append_assoc}
use lrng.Common.{
  ℕ, zero, suc, ◌+◌, ◌-◌, ◌*◌, ◌≤◌, ◌<◌, ◌≡◌, inl, inr, refl, sym, ◌∙◌, ap, true, false, ◌==◌, List,
  [], ◌∷◌, ◌++◌, some, length, take, length-append, arith, map, min, Bool-cases, ◌||◌, ltb,
  List-cases,
}
use lrng.Testing.{
  Testing, ringbuffer_size, testing_have_data, Event, stored, wait, collected, Read, reader_loop,
  testing_reader, testing_init, testing_fini, testing_reset, finish,
}
use lrng.Testing.Ring.{
  view, IsFlat, pop, pushes, stores-pushes, pushes-IsPushed, length-view, view-uncons,
}

-- The samples of all batches.
abbrev pub concat : List (List ℕ) → List ℕ
concat [] = []
concat (b ∷ bs) = b ++ concat bs

-- A recording at runtime: the buffer has not come round, and will not with the samples to come.
pub record IsRecording (d : Testing) (bs : List (List ℕ)) : Type 0 where
  pub flat : IsFlat d
  pub enabled : d.lrng_testing_enabled ≡ true
  pub room : d.rb_writer + length (concat bs) < ringbuffer_size

-- All samples, those in the queue first.
abbrev pub pending : Testing → List (List ℕ) → List ℕ
pending d bs = view d ++ concat bs

have_data-some :
    (d : Testing) (bs : List (List ℕ))
    → IsRecording d bs
    → testing_have_data d ≡ true
    → 1 ≤ length (view d)
have_data-some d bs rec_ now =
    ground (arith, now, length-view d rec_.flat, rec_.flat.behind, rec_.room)

have_data-true :
    (d : Testing) (bs : List (List ℕ))
    → IsRecording d bs
    → 1 ≤ length (view d)
    → testing_have_data d ≡ true
have_data-true d bs rec_ left = ground (arith, length-view d rec_.flat, rec_.flat.behind, rec_.room)

-- What a sleep leaves: a sample to fetch, and the same samples in the same order.
pub record IsWoken (d : Testing) (bs : List (List ℕ)) : Type 0 where
  pub state : Testing
  pub batches : List (List ℕ)
  pub woke : wait (map stored bs) 0 d ≡ some (false, map stored batches, 0, state)
  pub recording : IsRecording state batches
  pub same : pending state batches ≡ pending d bs
  pub left : 1 ≤ length (view state)

wait-IsWoken :
    (bs : List (List ℕ)) (d : Testing) → IsRecording d bs → 1 ≤ length (pending d bs) → IsWoken d bs
wait-IsWoken [] d r some_left =
    let left : 1 ≤ length (view d) = omega (arith, length-append (view d) []) in
    record {
      state = d;
      batches = [];
      woke = rw (have_data-true d [] r left) refl;
      recording = r;
      same = refl;
      left = left;
    }
wait-IsWoken (b ∷ bs) d r some_left = elim (Bool-cases (testing_have_data d)) [
  | inl now ↦ record {
    state = d;
    batches = b ∷ bs;
    woke = rw now refl;
    recording = r;
    same = refl;
    left = have_data-some d (b ∷ bs) r now;
  }
  | inr later ↦
      let d' = pushes b d in
      let fits : d.rb_writer + length b ≤ ringbuffer_size =
        omega (arith, r.room, length-append b (concat bs)) in
      let p = pushes-IsPushed b d r.flat fits in
      let r' : IsRecording d' bs = record {
        flat = p.flat;
        enabled = p.enabled ∙ r.enabled;
        room = omega (arith, r.room, length-append b (concat bs), p.writer);
      } in
      let same' : pending d' bs ≡ pending d (b ∷ bs) =
        ap (◌++ concat bs) p.queue ∙ append_assoc (view d) b (concat bs) in
      let rest = wait-IsWoken bs d' r' (rw same' some_left) in
      record {
        state = rest.state;
        batches = rest.batches;
        woke = rw (later, stores-pushes b 0 d fits (inl r.enabled)) rest.woke;
        recording = rest.recording;
        same = rest.same ∙ same';
        left = rest.left;
      }
]

-- The outcome of a read: the bytes and the samples it returns, and a buffer that is switched off.
pub record IsServed (r : Read) (n : ℕ) (samples : List ℕ) : Type 0 where
  pub outcome : r.outcome ≡ collected n
  pub outbuf : r.outbuf ≡ samples
  pub off : r.data_after.lrng_testing_enabled ≡ false
  pub empty : r.data_after.rb_writer ≡ 0

finish-IsServed :
    (n : ℕ) (out : List ℕ) (es : List Event) (d : Testing)
    → IsServed (finish (collected n) out es 0 d) n out
unfolding testing_fini
finish-IsServed n out es d = record { outcome = refl; outbuf = refl; off = refl; empty = refl }

-- A turn that has a sample to fetch.
pub loop-copy :
    (fuel n got v : ℕ) (q out : List ℕ) (es : List Event) (boot : ℕ) (d : Testing)
    → IsFlat d
    → view d ≡ v ∷ q
    → reader_loop (suc fuel) (suc n * 4) got out es boot d
      ≡ reader_loop fuel (n * 4) (got + 4) (out ++ (v ∷ [])) es boot (pop d)
unfolding reader_loop
loop-copy fuel n got v q out es boot d flat e =
    let (here, flat', rest, step) = view-uncons v q d flat e in
    let ahead : suc (length q) ≡ d.rb_writer - d.rb_reader =
      sym (ap length e) ∙ length-view d flat in
    let some_left : (suc n * 4 == 0) ≡ false = ground arith in
    let unread : (d.rb_writer == 0 || d.rb_writer == d.rb_reader) ≡ false = ground (arith, ahead) in
    let word : ltb (suc n * 4) 4 ≡ false = ground arith in
    let less : suc n * 4 - 4 ≡ n * 4 = omega arith in
    rw (some_left, unread, word, here, step, less) refl

-- A turn that sleeps.
loop-wait :
    (fuel n got : ℕ) (out : List ℕ) (bs : List (List ℕ)) (d : Testing) (w : IsWoken d bs)
    → IsFlat d
    → length (view d) ≡ 0
    → reader_loop (suc fuel) (suc n * 4) got out (map stored bs) 0 d
      ≡ reader_loop fuel (suc n * 4) got out (map stored w.batches) 0 w.state
unfolding reader_loop
loop-wait fuel n got out bs d w flat e =
    let some_left : (suc n * 4 == 0) ≡ false = ground arith in
    let unread : (d.rb_writer == 0 || d.rb_writer == d.rb_reader) ≡ true =
      ground (arith, e, length-view d flat, flat.behind) in
    rw (some_left, unread, w.woke) refl

module _ (n0 : ℕ) (samples : List ℕ) where
  loop-IsServed :
      (fuel n got : ℕ) (out : List ℕ) (bs : List (List ℕ)) (d : Testing)
      → IsRecording d bs
      → n ≤ length (pending d bs)
      → 2 * n + 2 ≤ fuel + min 1 (length (view d))
      → got + n * 4 ≡ n0
      → out ++ take n (pending d bs) ≡ samples
      → IsServed (reader_loop fuel (n * 4) got out (map stored bs) 0 d) n0 samples
  unfolding reader_loop testing_fini
  loop-IsServed zero n got out bs d r enough turns total all = absurd (omega arith)
  loop-IsServed (suc fuel) zero got out bs d r enough turns total all = record {
    outcome = ap collected (omega (arith, total));
    outbuf = sym (append-nil out) ∙ all;
    off = refl;
    empty = refl;
  }
  loop-IsServed (suc fuel) (suc n) got out bs d r enough turns total all =
      elim (List-cases (view d)) [
        | inl none_left ↦
            let gone : length (view d) ≡ 0 = ap length none_left in
            let w = wait-IsWoken bs d r (omega (arith, enough)) in
            rw (loop-wait fuel n got out bs d w r.flat gone) (
              loop-IsServed fuel (suc n) got out w.batches w.state w.recording (rw w.same enough)
                (omega (arith, turns, gone, w.left)) total (rw w.same all))
        | inr (v, q, e) ↦
            let (here, flat', rest, step) = view-uncons v q d r.flat e in
            let split : pending d bs ≡ v ∷ pending (pop d) bs =
              ap (◌++ concat bs) (e ∙ ap (◌∷◌ v) (sym rest)) in
            let all' =
              append_assoc out (v ∷ []) (take n (pending (pop d) bs))
              ∙ sym (ap (λ p. out ++ take (suc n) p) split)
              ∙ all in
            rw (loop-copy fuel n got v q out (map stored bs) 0 d r.flat e) (
              loop-IsServed fuel n (got + 4) (out ++ (v ∷ [])) bs (pop d)
                (record { flat = flat'; enabled = r.enabled; room = r.room })
                (omega (arith, enough, ap length split)) (omega (arith, turns, ap length e))
                (omega (arith, total)) all')
      ]

-- A read at runtime, while less than 1024 samples come in, returns the first samples in the order in
-- which they came in, sleeping until there are enough, and then the recording is off. Two turns of the
-- loop for each sample and two more are enough.
pub testing_reader-IsServed :
    (fuel n : ℕ) (bs : List (List ℕ)) (d : Testing)
    → length d.lrng_testing_rb ≡ ringbuffer_size
    → length (concat bs) < ringbuffer_size
    → n ≤ length (concat bs)
    → 2 * n + 2 ≤ fuel
    → IsServed (testing_reader fuel (n * 4) (map stored bs) 0 d) (n * 4) (take n (concat bs))
unfolding testing_reader testing_init
testing_reader-IsServed fuel n bs d size room enough turns =
    let d0 = record (testing_reset d) { lrng_testing_enabled = true } in
    let r : IsRecording d0 bs = record {
      flat = record { size = size; behind = omega arith; below = omega arith };
      enabled = refl;
      room = omega (arith, room);
    } in
    loop-IsServed (n * 4) (take n (concat bs)) fuel n 0 [] bs d0 r enough (omega arith)
      (omega arith) refl
