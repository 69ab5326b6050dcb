-- ===== src/Testing/Boot.antt =====
-- The recording at boot time: it stops by itself, one sample late.
use lrng.Common.{
  ℕ, zero, suc, ◌+◌, ◌-◌, ◌*◌, ◌%◌, ◌≤◌, ◌<◌, ◌≡◌, inl, inr, refl, ◌≢◌, ◌∙◌, ap, true, false, ◌==◌,
  ◌||◌, List, [], ◌∷◌, ◌++◌, none, some, length, arith, min, get_elem?, set, length-set, Bool-cases,
  add32, ltb, if◌then◌else◌,
}
use lrng.Testing.{
  Testing, ringbuffer_size, stores, testing_store, Event, collected, out_of_array, asleep, Read,
  reader_loop, testing_reader, testing_init, testing_fini, stuck,
}

module _ {ℓ} {A : Type ℓ} where
  get_elem?-some : (xs : List A) (i : ℕ) → i < length xs → (x : A) × (get_elem? xs i ≡ some x)
  get_elem?-some [] i h = absurd (omega arith)
  get_elem?-some (x ∷ xs) zero h = (x, refl)
  get_elem?-some (x ∷ xs) (suc i) h = get_elem?-some xs i (omega arith)

  get_elem?-none : (xs : List A) (i : ℕ) → length xs ≤ i → get_elem? xs i ≡ none
  get_elem?-none [] i h = refl
  get_elem?-none (x ∷ xs) zero h = absurd (omega arith)
  get_elem?-none (x ∷ xs) (suc i) h = get_elem?-none xs i (omega arith)

-- A buffer at boot time: runtime recording is off.
pub record IsBooting (d : Testing) : Type 0 where
  pub size : length d.lrng_testing_rb ≡ ringbuffer_size
  pub off : d.lrng_testing_enabled ≡ false
  pub unread : d.rb_reader ≡ 0

store-completed : (v : ℕ) (d : Testing) → IsBooting d → testing_store v 2 d ≡ (false, 2, d)
unfolding testing_store
store-completed v d b = ground (arith, b.off)

store-last : (v : ℕ) (d : Testing) → 1024 < d.rb_writer → testing_store v 1 d ≡ (false, 2, d)
unfolding testing_store
store-last v d full = ground arith

-- The state with one sample more; the slot comes round.
abbrev boot_push : ℕ → Testing → Testing
boot_push v d = record d {
  lrng_testing_rb = set d.lrng_testing_rb (d.rb_writer % ringbuffer_size) v;
  rb_writer = suc d.rb_writer;
}

store-boot_push :
    (v : ℕ) (d : Testing) → d.rb_writer ≤ 1024 → testing_store v 1 d ≡ (true, 1, boot_push v d)
unfolding testing_store
store-boot_push v d room = ground arith

boot_push-IsBooting : (v : ℕ) (d : Testing) → IsBooting d → IsBooting (boot_push v d)
boot_push-IsBooting v d b = record {
  size = length-set d.lrng_testing_rb (d.rb_writer % ringbuffer_size) v ∙ b.size;
  off = b.off;
  unread = b.unread;
}

-- Once the test is completed nothing is stored.
stores-completed : (vs : List ℕ) (d : Testing) → IsBooting d → stores vs 2 d ≡ (2, d)
stores-completed [] d b = refl
stores-completed (v ∷ vs) d b = rw (store-completed v d b) (stores-completed vs d b)

-- However many samples come at boot time, 1025 of them are stored, one more than there are slots, and
-- the next one completes the test.
pub stores-boot :
    (vs : List ℕ) (d : Testing)
    → IsBooting d
    → d.rb_writer ≤ 1025
    → let (boot, d') = stores vs 1 d in
      IsBooting d'
      × (d'.rb_writer ≡ min (d.rb_writer + length vs) 1025)
      × (boot ≡ (if ltb 1025 (d.rb_writer + length vs) then 2 else 1))
stores-boot [] d b h = (b, omega (arith, h), ground (arith, h))
stores-boot (v ∷ vs) d b h = elim (Bool-cases (ltb 1024 d.rb_writer)) [
  | inl full ↦
      let late : 1024 < d.rb_writer = ground (arith, full) in
      rw (stores, store-last v d late, stores-completed vs d b)
        (b, omega (arith, h, late), ground (arith, late))
  | inr fits ↦
      let room : d.rb_writer ≤ 1024 = ground (arith, fits) in
      let (b', w, done) =
        stores-boot vs (boot_push v d) (boot_push-IsBooting v d b) (omega (arith, room)) in
      rw (stores, store-boot_push v d room) (b', omega (arith, w), ground (arith, done))
]

fini-boot : (boot : ℕ) (d : Testing) → boot ≢ 0 → testing_fini boot d ≡ d
unfolding testing_fini
fini-boot boot d b = ground arith

init-boot : (boot : ℕ) (d : Testing) → boot ≢ 0 → testing_init boot d ≡ d
unfolding testing_init
init-boot boot d b = ground arith

-- The reader has moved on, to `end`, with nothing else changed.
abbrev moved : ℕ → Testing → Testing
moved end d = record d { rb_reader = end }

-- The loop at boot time, on a recording that is complete.
module _ (es : List Event) (boot : ℕ) (b : boot ≢ 0) where
  -- A turn copies a sample.
  loop-boot_turn :
      (fuel n got : ℕ) (out : List ℕ) (d : Testing)
      → length d.lrng_testing_rb ≡ ringbuffer_size
      → d.rb_writer ≡ 1025
      → d.rb_reader < 1024
      → (v : ℕ) × (reader_loop (suc fuel) (suc n * 4) got out es boot d
          ≡ reader_loop fuel
              (n * 4)
              (got + 4)
              (out ++ (v ∷ []))
              es
              boot
              (moved (suc d.rb_reader) d))
  unfolding reader_loop
  loop-boot_turn fuel n got out d size last fits =
      let (v, here) = get_elem?-some d.lrng_testing_rb d.rb_reader (omega (arith, size)) in
      let some_left : (suc n * 4 == 0) ≡ false = ground arith in
      let unread : (d.rb_writer == 0 || d.rb_writer == d.rb_reader) ≡ false =
        ground (arith, last) in
      let word : ltb (suc n * 4) 4 ≡ false = ground arith in
      let less : suc n * 4 - 4 ≡ n * 4 = omega arith in
      let step : add32 d.rb_reader 1 ≡ suc d.rb_reader = omega arith in
      (v, rw (some_left, unread, word, here, step, less) refl)

  -- Enough samples: the request is served, and the reader moves on.
  loop-boot :
      (fuel n got total end : ℕ) (out : List ℕ) (d : Testing)
      → length d.lrng_testing_rb ≡ ringbuffer_size
      → d.rb_writer ≡ 1025
      → d.rb_reader + n ≡ end
      → end ≤ 1024
      → got + n * 4 ≡ total
      → n < fuel
      → (out' : List ℕ) × (reader_loop fuel (n * 4) got out es boot d
          ≡ stuck (collected total) out' es boot (moved end d))
  unfolding reader_loop
  loop-boot zero n got total end out d size last fits top sum h = absurd (omega arith)
  loop-boot (suc fuel) zero got total end out d size last fits top sum h =
      let here : moved end d ≡ d = ap (λ r. moved r d) (omega (arith, fits)) in
      let all : collected got ≡ collected total = ap collected (omega (arith, sum)) in
      (out, rw (all, fini-boot boot d b, here) refl)
  loop-boot (suc fuel) (suc n) got total end out d size last fits top sum h =
      let (v, turn) = loop-boot_turn fuel n got out d size last (omega arith) in
      let (out', e) =
        loop-boot fuel n (got + 4) total end (out ++ (v ∷ [])) (moved (suc d.rb_reader) d) size last
          (omega (arith, fits)) top (omega (arith, sum)) (omega arith) in
      (out', turn ∙ e)

  -- The last sample but for the one that overwrote the first: the reader leaves the array.
  loop-out_of_array :
      (fuel n got : ℕ) (out : List ℕ) (d : Testing)
      → length d.lrng_testing_rb ≡ ringbuffer_size
      → d.rb_writer ≡ 1025
      → d.rb_reader ≡ 1024
      → reader_loop (suc fuel) (suc n * 4) got out es boot d ≡ stuck out_of_array out es boot d
  unfolding reader_loop
  loop-out_of_array fuel n got out d size last end =
      let nothing = get_elem?-none d.lrng_testing_rb d.rb_reader (omega (arith, size, end)) in
      let some_left : (suc n * 4 == 0) ≡ false = ground arith in
      let unread : (d.rb_writer == 0 || d.rb_writer == d.rb_reader) ≡ false =
        ground (arith, last, end) in
      let word : ltb (suc n * 4) 4 ≡ false = ground arith in
      rw (some_left, unread, word, nothing) refl

-- Calls for 1024 bytes, one after the other, as `lrng_testing_extract_user` makes them.
abbrev pub call : ℕ → Read → Read
call fuel r = testing_reader fuel 1024 r.events r.boot r.data_after

-- A complete recording of which `k` samples have been read.
record IsRead (k : ℕ) (r : Read) : Type 0 where
  pub size : length r.data_after.lrng_testing_rb ≡ ringbuffer_size
  pub complete : r.data_after.rb_writer ≡ 1025
  pub reader : r.data_after.rb_reader ≡ k
  pub booting : r.boot ≢ 0

call-IsRead :
    (fuel k : ℕ) (r : Read)
    → IsRead k r
    → k + 256 ≤ 1024
    → 256 < fuel
    → IsRead (k + 256) (call fuel r) × ((call fuel r).outcome ≡ collected 1024)
unfolding testing_reader
call-IsRead fuel k r p fits enough =
    let d = r.data_after in
    let (out, e) =
      loop-boot r.events r.boot p.booting fuel 256 0 1024 (k + 256) [] d p.size p.complete
        (omega (arith, p.reader)) fits refl enough in
    let whole : call fuel r ≡ stuck (collected 1024) out r.events r.boot (moved (k + 256) d) =
      rw (init-boot r.boot d p.booting) e in
    rw whole
      (record { size = p.size; complete = p.complete; reader = refl; booting = p.booting }, refl)

call-out_of_array :
    (fuel : ℕ) (r : Read) → IsRead 1024 r → 256 < fuel → (call fuel r).outcome ≡ out_of_array
unfolding testing_reader
call-out_of_array zero r p enough = absurd (omega arith)
call-out_of_array (suc fuel) r p enough =
    let d = r.data_after in
    let e =
      loop-out_of_array r.events r.boot p.booting fuel 255 0 [] d p.size p.complete p.reader in
    rw (init-boot r.boot d p.booting) (ap (λ x. x.outcome) e)

-- At boot time, if 1025 samples or more come in, four calls for 1024 bytes return all slots, and the
-- next call reads behind the end of the array.
pub testing_reader-out_of_array :
    (fuel : ℕ) (vs : List ℕ) (es : List Event) (d : Testing)
    → IsBooting d
    → d.rb_writer ≡ 0
    → 1025 ≤ length vs
    → 256 < fuel
    → let (boot, d') = stores vs 1 d in
      let r4 = call fuel (call fuel (call fuel (call fuel (stuck asleep [] es boot d')))) in
      (r4.outcome ≡ collected 1024) × ((call fuel r4).outcome ≡ out_of_array)
testing_reader-out_of_array fuel vs es d b fresh many enough =
    let (boot, d') = stores vs 1 d in
    let (b', w, done) = stores-boot vs d b (omega (arith, fresh)) in
    let r0 = stuck asleep [] es boot d' in
    let p0 : IsRead 0 r0 = record {
      size = b'.size;
      complete = omega (arith, w, fresh);
      reader = b'.unread;
      booting = ground (arith, done);
    } in
    let (p1, e1) = call-IsRead fuel 0 r0 p0 (omega arith) enough in
    let (p2, e2) = call-IsRead fuel 256 (call fuel r0) p1 (omega arith) enough in
    let (p3, e3) = call-IsRead fuel 512 (call fuel (call fuel r0)) p2 (omega arith) enough in
    let (p4, e4) =
      call-IsRead fuel 768 (call fuel (call fuel (call fuel r0))) p3 (omega arith) enough in
    (e4, call-out_of_array fuel (call fuel (call fuel (call fuel (call fuel r0)))) p4 enough)
