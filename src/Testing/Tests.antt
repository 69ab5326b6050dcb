-- ===== src/Testing/Tests.antt =====
-- Recordings at runtime and at boot time, and the theorems about the reader applied there.
use lrng.Common.{ℕ, ◌*◌, ◌≡◌, refl, false, List, [], ◌∷◌, arith, map, replicate, length-replicate}
use lrng.Testing.{
  Testing, stored, signal, collected, restartsys, out_of_array, asleep, stuck, stores,
  testing_reader, testing_init, testing_fini, reader_loop, testing_store,
}
use lrng.Testing.Reader.{IsServed, testing_reader-IsServed}
use lrng.Testing.Boot.{call, testing_reader-out_of_array}

abbrev empty_buffer : Testing
empty_buffer = record {
  lrng_testing_rb = replicate 1024 0;
  rb_reader = 0;
  rb_writer = 0;
  lrng_testing_enabled = false;
}

abbrev batches : List (List ℕ)
batches = (5 ∷ 6 ∷ []) ∷ [] ∷ (7 ∷ 8 ∷ []) ∷ []

-- A signal while the reader sleeps ends the call, with the sample that was copied lost.
interrupted :
    (testing_reader 9 8 (stored (5 ∷ []) ∷ signal ∷ []) 0 empty_buffer).outcome ≡ restartsys
unfolding testing_reader reader_loop testing_init testing_fini testing_store
interrupted = refl

testing_reader-IsServed_example :
    IsServed (testing_reader 8 (3 * 4) (map stored batches) 0 empty_buffer) (3 * 4) (5 ∷ 6 ∷ 7 ∷ [])
testing_reader-IsServed_example =
    testing_reader-IsServed 8 3 batches empty_buffer refl (omega arith) (omega arith) (omega arith)

testing_reader-out_of_array_example :
    let (boot, d') = stores (replicate 1030 3) 1 empty_buffer in
    let r4 = call 257 (call 257 (call 257 (call 257 (stuck asleep [] [] boot d')))) in
    (r4.outcome ≡ collected 1024) × ((call 257 r4).outcome ≡ out_of_array)
testing_reader-out_of_array_example =
    testing_reader-out_of_array 257 (replicate 1030 3) [] empty_buffer
      (record { size = refl; off = refl; unread = refl }) refl
      (let n : ℕ = 3 in omega (arith, length-replicate 1030 n)) (omega arith)
