-- ===== src/Numa/Tests.antt =====
-- Three nodes, of which the second is not online.
use lrng.Common.{ℕ, ◌≡◌, refl, Bool, true, false, [], ◌∷◌, none, some, List, ◌==◌, if◌then◌else◌}
use lrng.Samples.{fips}
use lrng.SampleSources.{six, pool, blank}
use lrng.AuxPool.{Pool}
use lrng.ManagerState.{manager_init}
use lrng.DrngState.{drng_state_init}
use lrng.DrngMgr.{Setup, count}
use lrng.Start.{alloc_common}
use lrng.Numa.{NumaState, NumaResult, stored, failed, drngs_numa_alloc, alloc_node}
use lrng.Numa.Outcome.{count as count_of, numa_alloc-released}

abbrev setup : Setup (Pool (List ℕ)) ℕ
setup = record {
  src = six;
  cycles = λ w. 9;
  jiffies = λ w. 1000;
  cbs = λ i. record { drng_seed = λ d bytes. (false, 0); drng_generate = λ d n. (n, [], d) };
}

abbrev start : NumaState (Pool (List ℕ)) ℕ
start = record {
  boot = record {
    lrng = record {
      mgr = manager_init pool;
      drngs = λ i. drng_state_init 0;
      nodes = none;
      avail = true;
      stack = blank;
    };
    allocated = λ i. false;
  };
  numa_drngs = 1;
  made = [];
  freed = [];
}

abbrev online : List Bool
online = true ∷ false ∷ true ∷ true ∷ []

abbrev get_drng : ℕ → ℕ → ℕ × ℕ
get_drng node strength = (0, node)

abbrev state_of : NumaResult (Pool (List ℕ)) ℕ → NumaState (Pool (List ℕ)) ℕ
state_of (NumaResult.present s) = s
state_of (stored s) = s
state_of (failed s) = s
state_of NumaResult.undefined = start

abbrev all_made : NumaResult (Pool (List ℕ)) ℕ
all_made = drngs_numa_alloc fips setup get_drng (λ node. 0) (count 0) online start

-- The hash of the last node cannot be allocated.
abbrev one_missing : NumaResult (Pool (List ℕ)) ℕ
one_missing =
    drngs_numa_alloc fips setup get_drng (λ node. if node == 3 then 12 else 0) (count 0) online
      start

entries_stored : (state_of all_made).boot.lrng.nodes ≡ some (some 0 ∷ none ∷ some 5 ∷ some 6 ∷ [])
unfolding drngs_numa_alloc alloc_node alloc_common
entries_stored = refl

both_released : (state_of one_missing).freed ≡ 5 ∷ 6 ∷ []
unfolding drngs_numa_alloc alloc_node alloc_common
both_released = refl

numa_alloc-released_example :
    (count_of 6 (state_of one_missing).freed ≡ count_of 6 (state_of one_missing).made)
    × ((state_of one_missing).boot.lrng.nodes ≡ none)
unfolding drngs_numa_alloc alloc_node alloc_common
numa_alloc-released_example =
    numa_alloc-released fips setup get_drng (λ node. if node == 3 then 12 else 0) (count 0) online 6
      start (state_of one_missing) refl refl refl
