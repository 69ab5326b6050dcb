-- ===== src/Start/Tests.antt =====
-- The start of the LRNG over the DRNGs and sources of the sample set.
use lrng.Common.{
  length, replicate, length-replicate, ◌≢◌, ◌↔◌, ℕ, ◌≡◌, refl, true, false, [], none, some, List,
}
use lrng.Samples.{fips}
use lrng.SampleSources.{six, pool, blank}
use lrng.AuxPool.{Pool}
use lrng.ManagerState.{manager_init}
use lrng.DrngState.{drng_state_init}
use lrng.DrngMgr.{LrngState, Setup, count}
use lrng.DrngMgr.Generate.{Got}
use lrng.Start.{Boot, make_available, drng_get_sleep}
use lrng.Start.Sleep.{fails_to_start, get_sleep-count_iff}

abbrev setup : Setup (Pool (List ℕ)) ℕ
setup = record {
  src = six;
  cycles = λ w. 9;
  jiffies = λ w. 1000;
  cbs = λ i. record { drng_seed = λ d bytes. (false, 0); drng_generate = λ d n. (n, [], d) };
}

abbrev off : Boot (Pool (List ℕ)) ℕ
off = record {
  lrng = record {
    mgr = manager_init pool;
    drngs = λ i. drng_state_init 0;
    nodes = none;
    avail = false;
    stack = blank;
  };
  allocated = λ i. false;
}

-- A start that finds memory makes the LRNG available.
works : (make_available fips setup (λ n. (0, 5)) off).1.lrng.avail ≡ true
unfolding make_available
works = refl

-- No memory (ENOMEM is 12): a request for 32 bytes seems to have got 12.
abbrev sevens : ℕ → ℕ → LrngState (Pool (List ℕ)) ℕ → Got (Pool (List ℕ)) ℕ
sevens i n s = some (count n, replicate n 7, s)

abbrev nothing : List ℕ
nothing = []

no_memory :
    drng_get_sleep fips setup sevens (λ n. (12, 0)) false 0 false 32 off ≡ some (count 12, [], off)
unfolding drng_get_sleep
no_memory = refl

get_sleep-count_iff_example : (length nothing ≢ 12) ↔ (fails_to_start (λ n. (12, 0)) off ≡ true)
get_sleep-count_iff_example =
    get_sleep-count_iff fips setup sevens (λ n. (12, 0)) false 0 false 32 12 nothing off off
      (λ i n s. length-replicate n 7) no_memory
