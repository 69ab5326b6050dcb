-- ===== src/Testing.antt =====
-- lrng_testing.c: the ring buffer in which raw time stamps are recorded, with its reader. While the
-- reader sleeps others store samples or send a signal: `Event` says which.
pub mod Ring
pub mod Reader
pub mod Boot
mod Tests
use lrng.Common.{
  ℕ, zero, suc, ◌+◌, ◌-◌, ◌%◌, Bool, true, false, not, ◌&&◌, ◌||◌, ltb, ◌==◌, if◌then◌else◌, List,
  [], ◌∷◌, ◌++◌, Option, none, some, set, get_elem?, add32,
}

abbrev pub ringbuffer_size : ℕ
ringbuffer_size = 1024

pub record Testing : Type 0 where
  pub lrng_testing_rb : List ℕ
  pub rb_reader : ℕ
  pub rb_writer : ℕ
  pub lrng_testing_enabled : Bool

-- `lrng_testing_reset`
abbrev pub testing_reset : Testing → Testing
testing_reset d = record d { rb_reader = 0; rb_writer = 0 }

-- `lrng_testing_init`
unfoldable pub testing_init : ℕ → Testing → Testing
testing_init boot d =
    if boot == 0 then record (testing_reset d) { lrng_testing_enabled = true } else d

-- `lrng_testing_fini`
unfoldable pub testing_fini : ℕ → Testing → Testing
testing_fini boot d =
    if boot == 0 then testing_reset (record d { lrng_testing_enabled = false }) else d

-- `lrng_testing_store`: whether the value was stored, the boot variable and the state.
unfoldable pub testing_store : ℕ → ℕ → Testing → Bool × ℕ × Testing
testing_store value boot d =
    if not d.lrng_testing_enabled && not (boot == 1)
    then (false, boot, d)
    else if not (boot == 0) && ltb ringbuffer_size d.rb_writer
    then (false, 2, d)
    else (
      true,
      boot,
      record d {
        lrng_testing_rb = set d.lrng_testing_rb (d.rb_writer % ringbuffer_size) value;
        rb_writer = add32 d.rb_writer 1;
      },
    )

-- One sample after the other.
abbrev pub stores : List ℕ → ℕ → Testing → ℕ × Testing
stores [] boot d = (boot, d)
stores (v ∷ vs) boot d = let (ok, boot', d') = testing_store v boot d in stores vs boot' d'

-- `lrng_testing_have_data`
abbrev pub testing_have_data : Testing → Bool
testing_have_data d = not (d.rb_writer % ringbuffer_size == d.rb_reader % ringbuffer_size)

-- What happens while the reader sleeps.
pub data Event : Type 0 where
  stored : List ℕ → Event
  signal : Event

-- `wait_event_interruptible`: whether a signal ended it, the events left, and the state; it sleeps on
-- if nothing is left to happen.
abbrev pub wait : List Event → ℕ → Testing → Option (Bool × List Event × ℕ × Testing)
wait [] boot d = if testing_have_data d then some (false, [], boot, d) else none
wait (signal ∷ es) boot d =
    if testing_have_data d then some (false, signal ∷ es, boot, d) else some (true, es, boot, d)
wait (stored vs ∷ es) boot d =
    let (boot', d') = stores vs boot d in
    let rest = wait es boot' d' in
    if testing_have_data d then some (false, stored vs ∷ es, boot, d) else rest

-- How a call of the reader ends: with a count of bytes, interrupted, asleep, with a read out of the
-- array, or short of fuel in the model.
pub data Outcome : Type 0 where
  collected : ℕ → Outcome
  restartsys asleep out_of_array out_of_fuel : Outcome

pub record Read : Type 0 where
  pub outcome : Outcome
  pub outbuf : List ℕ
  pub events : List Event
  pub boot : ℕ
  pub data_after : Testing

-- The end of the function, from `out` on.
abbrev pub finish : Outcome → List ℕ → List Event → ℕ → Testing → Read
finish o out es boot d = record {
  outcome = o;
  outbuf = out;
  events = es;
  boot = boot;
  data_after = testing_fini boot d;
}

abbrev pub stuck : Outcome → List ℕ → List Event → ℕ → Testing → Read
stuck o out es boot d = record {
  outcome = o;
  outbuf = out;
  events = es;
  boot = boot;
  data_after = d;
}

-- The loop of `lrng_testing_reader`, on fuel, with the samples copied so far.
unfoldable pub reader_loop : ℕ → ℕ → ℕ → List ℕ → List Event → ℕ → Testing → Read
reader_loop zero outbuflen got out es boot d = stuck out_of_fuel out es boot d
reader_loop (suc fuel) outbuflen got out es boot d =
    let after_wait : Read = elim (wait es boot d) [
      | none ↦ stuck asleep out es boot d
      | some (signalled, es', boot', d') ↦ elim signalled [
        | true ↦ finish restartsys out es' boot' d'
        | false ↦ reader_loop fuel outbuflen got out es' boot' d'
      ]
    ] in
    let copied : Read = elim (get_elem? d.lrng_testing_rb d.rb_reader) [
      | none ↦ stuck out_of_array out es boot d
      | some v ↦
          reader_loop fuel (outbuflen - 4) (got + 4) (out ++ (v ∷ [])) es boot
            (record d { rb_reader = add32 d.rb_reader 1 })
    ] in
    if outbuflen == 0
    then finish (collected got) out es boot d
    else if d.rb_writer == 0 || d.rb_writer == d.rb_reader
    then (if not (boot == 0) then finish (collected got) out es 0 d else after_wait)
    else if ltb outbuflen 4
    then finish (collected got) out es boot d
    else copied

-- `lrng_testing_reader`
unfoldable pub testing_reader : ℕ → ℕ → List Event → ℕ → Testing → Read
testing_reader fuel outbuflen es boot d =
    reader_loop fuel outbuflen 0 [] es boot (testing_init boot d)
