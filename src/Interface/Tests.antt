-- ===== src/Interface/Tests.antt =====
-- The interfaces over the sample sources, of which the auxiliary pool is the whole state.
use lrng.Common.{
  ℕ, ◌+◌, ◌-◌, ◌*◌, ◌^◌, ◌≤◌, ◌<◌, ◌≡◌, refl, Bool, true, false, List, [], ◌∷◌, some, none, arith,
  min, length, replicate, length-replicate, if◌then◌else◌, leb,
}
use lrng.Samples.{fips}
use lrng.SampleSources.{echo, six, pool, blank}
use lrng.Definitions.{reduce_by_osr}
use lrng.AuxPool.{Pool, get_digestsize, aux_avail_entropy}
use lrng.ManagerState.{manager_init}
use lrng.DrngState.{drng_state_init}
use lrng.DrngMgr.{LrngState, Setup, Ret, count}
use lrng.Interface.{PoolIn, Iface, get_aux_ent, pool_of}
use lrng.Interface.Write.{drng_write_common}
use lrng.Interface.Ioctl.{rndaddentropy, Arg, lrng_ioctl, add_to_entcnt}
use lrng.Interface.Read.{ReadTurn, read_common}
use lrng.Interface.Kernel.{add_input_randomness}
use lrng.Interface.Credit.{
  held, drng_write_common-credit, add_to_entcnt-outcome, ioctl_addentropy_ignores_claim,
}
use lrng.Interface.Delivery.{IsAnswer, IsServed, read_common-Complete}
use lrng.Interface.Providers.{vmfork, provide, provide-le}

abbrev setup : Setup (Pool (List ℕ)) ℕ
setup = record {
  src = six;
  cycles = λ w. 9;
  jiffies = λ w. 1000;
  cbs = λ i. record { drng_seed = λ d bytes. (false, 0); drng_generate = λ d n. (n, [], d) };
}

abbrev whole : PoolIn (Pool (List ℕ)) (List ℕ)
whole = record { pool = λ w. w; set_pool = λ p w. p; pool-set_pool = λ p w. refl }

abbrev start : LrngState (Pool (List ℕ)) ℕ
start = record {
  mgr = manager_init pool;
  drngs = λ i. drng_state_init 0;
  nodes = none;
  avail = true;
  stack = blank;
}

abbrev iface : Iface (Pool (List ℕ)) ℕ
iface = record { lrng = start; seed_hw = true; seed_user = true }

abbrev no_start : LrngState (Pool (List ℕ)) ℕ → Ret × LrngState (Pool (List ℕ)) ℕ
no_start s = (count 0, s)

-- A write that finds the LRNG not available and starts it inserts nothing.
write_starts :
    let off = record start { avail = false } in
    (drng_write_common fips setup echo whole no_start (1 ∷ 2 ∷ []) 2 16 off).0 ≡ 0
unfolding drng_write_common
write_starts = refl

drng_write_common-credit_example :
    held fips setup echo whole
      (drng_write_common fips setup echo whole no_start (1 ∷ 2 ∷ []) 2 100 start).1
    ≤ held fips setup echo whole start + min 100 (8 * 2)
drng_write_common-credit_example =
    drng_write_common-credit fips setup echo whole no_start (1 ∷ 2 ∷ []) 2 100 start refl
      (omega arith)

-- The largest count empties a pool that had entropy.
add_to_entcnt-outcome_example :
    held fips setup echo whole (add_to_entcnt fips setup echo whole (2 ^ 31 - 1) start).lrng ≡ (
      if leb (2 ^ 31) (get_aux_ent fips setup echo whole start + (2 ^ 31 - 1))
      then 0
      else min
          (get_aux_ent fips setup echo whole start + (2 ^ 31 - 1))
          (get_digestsize (pool_of fips setup echo whole start)))
unfolding get_aux_ent aux_avail_entropy reduce_by_osr
add_to_entcnt-outcome_example =
    add_to_entcnt-outcome fips setup echo whole (2 ^ 31 - 1) start (omega arith) (omega arith)

ioctl_addentropy_ignores_claim_example :
    (lrng_ioctl fips setup echo whole no_start rndaddentropy true
      (record { ent_count = some 0; size = some (2 ^ 28); bytes = []; writable = true })
      start).lrng
    ≡ (drng_write_common fips setup echo whole no_start [] (2 ^ 28) (8 * 2 ^ 28) start).1
ioctl_addentropy_ignores_claim_example =
    ioctl_addentropy_ignores_claim fips setup echo whole no_start 0 (2 ^ 28) [] start (omega arith)
      (omega arith) (omega arith)

abbrev no_arg : Arg
no_arg = record { ent_count = none; size = none; bytes = []; writable = true }

provide-le_example :
    held fips setup echo whole (provide fips setup echo whole (vmfork (7 ∷ [])) iface).lrng
    ≤ held fips setup echo whole start + 0
provide-le_example = provide-le fips setup echo whole (vmfork (7 ∷ [])) iface

-- A DRNG that gives all, and turns without a signal.
abbrev give : ℕ → Bool → ℕ → Ret × List ℕ × ℕ
give n pr t = (count n, replicate n t, t + 1)

abbrev calm : ℕ → ReadTurn
calm k = record { resched = true; signal = false; copied = true }

give-IsAnswer : (n : ℕ) (pr : Bool) (t : ℕ) → IsAnswer n (give n pr t)
give-IsAnswer n pr t = (omega arith, length-replicate n t)

give-IsServed : (n : ℕ) (pr : Bool) (t : ℕ) → 0 < n → IsServed n (give n pr t)
give-IsServed n pr t h = (omega arith, omega arith, length-replicate n t)

-- Without a large buffer 100 bytes take two turns.
two_turns : (read_common give calm true true 100 false 0).2 ≡ 2
unfolding read_common
two_turns = refl

read_common-Complete_example :
    let (ret, out, _) = read_common give calm false true 100 false 0 in
    (ret ≡ 100) × (length out ≡ 100)
read_common-Complete_example =
    read_common-Complete give calm give-IsServed (λ k. refl) (λ k. refl) false true 100 false 0
      (omega arith)

-- Autorepeat is only seen for values that fit an `unsigned char`.
repeated : (add_input_randomness 1 2 300 44).0 ≡ some 318
unfolding add_input_randomness
repeated = refl
