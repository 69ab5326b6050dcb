-- ===== src/Interface/Read.antt =====
-- lrng_interface_dev_common.c: the output to user space, and getrandom of lrng_interface_random_user.c.
-- `get` is `lrng_drng_get_sleep` over the state `T` of the LRNG. What happens in each turn of the copying
-- loop is an argument: whether to reschedule, whether a signal is pending, whether the copy works.
use lrng.Common.{
  ℕ, zero, suc, ◌+◌, ◌-◌, ◌^◌, Bool, false, not, ◌&&◌, ltb, ◌==◌, if◌then◌else◌, List, [], ◌++◌,
  min, min_u32, take, u32,
}
use lrng.Definitions.{drng_max_reqsize}
use lrng.DrngMgr.{Ret, count, errno}
use lrng.Interface.{add64, negative64, pattern64}
use lrng.Interface.Write.{efault}

abbrev pub erestartsys : ℕ
erestartsys = 512

abbrev pub einval : ℕ
einval = 22

abbrev pub emsgsize : ℕ
emsgsize = 90

abbrev pub drng_blocksize : ℕ
drng_blocksize = 64

pub record ReadTurn : Type 0 where
  pub resched : Bool
  pub signal : Bool
  pub copied : Bool

-- The result, what was copied to user space, and the state.
abbrev pub Output : Type 0 → Type 0
Output T = ℕ × List ℕ × T

-- The flags of getrandom; `other` says that any other bit is set.
pub record Flags : Type 0 where
  pub nonblock : Bool
  pub random : Bool
  pub insecure : Bool
  pub seed : Bool
  pub fully_seeded : Bool
  pub other : Bool

module _ {T : Type 0} (get : ℕ → Bool → T → Ret × List ℕ × T) (turn : ℕ → ReadTurn) where
  -- What follows the request of one turn; `go` is the rest of the loop.
  abbrev pub after_get :
      (ℕ → ℕ → List ℕ → T → Output T) → Bool → ℕ → ℕ → List ℕ → Ret × List ℕ × T → Output T
  after_get go copied nbytes ret out (errno e, bytes, t) = (negative64 e, out, t)
  after_get go copied nbytes ret out (count n, bytes, t) =
      if n == 0
      then (ret, out, t)
      else if copied
      then go (nbytes - n) (add64 ret n) (out ++ take n bytes) t
      else (negative64 efault, out, t)

  -- The loop of `lrng_read_common`, on fuel, in turn `k`; `large` says that a large buffer is there.
  abbrev pub read_loop : ℕ → ℕ → Bool → ℕ → Bool → ℕ → ℕ → List ℕ → T → Output T
  read_loop zero k large tmplen pr nbytes ret out t = (ret, out, t)
  read_loop (suc fuel) k large tmplen pr nbytes ret out t =
      let todo = min_u32 (u32 nbytes) tmplen in
      let served =
        after_get (read_loop fuel (k + 1) large tmplen pr) (turn k).copied nbytes ret out
          (get todo pr t) in
      if nbytes == 0
      then (ret, out, t)
      else if large && (turn k).resched && (turn k).signal
      then (if ret == 0 then negative64 erestartsys else ret, out, t)
      else served

  -- `lrng_read_common`; `base_small` is CONFIG_BASE_SMALL, and `kmalloc` says whether the large buffer
  -- can be had.
  unfoldable pub read_common : Bool → Bool → ℕ → Bool → T → Output T
  read_common base_small kmalloc nbytes pr t =
      let large = not base_small && ltb drng_blocksize nbytes && kmalloc in
      let tmplen = if large then min_u32 (u32 nbytes) drng_max_reqsize else drng_blocksize in
      if nbytes == 0 then (0, [], t) else read_loop (suc nbytes) 0 large tmplen pr nbytes 0 [] t

  -- `lrng_read_common_block`; `sleep` is `lrng_drng_sleep_while_nonoperational`.
  unfoldable pub read_common_block :
      Bool → Bool → (Bool → T → Ret × T) → Bool → Bool → ℕ → T → Output T
  unfolding read_common
  read_common_block base_small kmalloc sleep nonblock pr nbytes t =
      let (r, t') = sleep nonblock t in
      if nbytes == 0
      then (0, [], t)
      else if not (pattern64 r == 0)
      then (pattern64 r, [], t')
      else read_common base_small kmalloc nbytes pr t'

  -- `lrng_read_seed`: `get_seed` is `lrng_get_seed` on the buffer size, whether not to block and whether
  -- to ask for a full seed, and gives the result and the buffer, `size` bytes long.
  unfoldable pub read_seed :
      (ℕ → Bool → Bool → T → Ret × List ℕ × T) → ℕ → Bool → ℕ → Bool → Bool → T → Output T
  read_seed get_seed size copied nbytes nonblock seeded t =
      let (r, buffer, t') = get_seed (min nbytes size) nonblock seeded t in
      elim r [
        | errno e ↦
            if e == emsgsize
            then (if copied then (negative64 e, take 8 buffer, t') else (negative64 efault, [], t'))
            else (negative64 e, [], t')
        | count n ↦
            if n == 0
            then (0, [], t')
            else if copied
            then (n, take n buffer, t')
            else (negative64 efault, [], t')
      ]

  -- The system call getrandom.
  unfoldable pub getrandom :
      Bool
      → Bool
      → (Bool → T → Ret × T)
      → (ℕ → Bool → Bool → T → Ret × List ℕ × T)
      → ℕ
      → ℕ
      → Flags
      → T
      → Output T
  unfolding read_common read_common_block read_seed
  getrandom base_small kmalloc sleep get_seed size n flags t =
      let nbytes = min n (2 ^ 31 - 1) in
      if flags.other
      then (negative64 einval, [], t)
      else if flags.insecure && flags.random
      then (negative64 einval, [], t)
      else if flags.insecure && flags.seed
      then (negative64 einval, [], t)
      else if flags.random && flags.seed
      then (negative64 einval, [], t)
      else if flags.insecure
      then read_common base_small kmalloc nbytes false t
      else if flags.seed
      then read_seed get_seed size (turn 0).copied nbytes flags.nonblock flags.fully_seeded t
      else read_common_block base_small kmalloc sleep flags.nonblock flags.random nbytes t
