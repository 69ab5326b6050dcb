-- ===== src/Interface/Delivery.antt =====
-- What a read delivers.
use lrng.Common.{
  ℕ, zero, suc, ◌+◌, ◌-◌, ◌^◌, ◌≤◌, ◌<◌, ◌≡◌, ◌⊎◌, inl, inr, refl, Bool, true, false, not, ◌==◌,
  ltb, ◌&&◌, if◌then◌else◌, List, [], ◌++◌, min_u32, u32, length, length-append, length-take, take,
  arith, Bool-cases, if_intro, if_intro_on,
}
use lrng.Definitions.{drng_max_reqsize}
use lrng.DrngMgr.{Ret, count, errno}
use lrng.Interface.{add64, is_negative64}
use lrng.Interface.Read.{ReadTurn, Output, after_get, read_loop, read_common, drng_blocksize}

-- What a DRNG answers to a request for `n` bytes: as many bytes as it counts, `n` at most, or an errno.
abbrev pub IsAnswer : {T : Type 0} → ℕ → Ret × List ℕ × T → Type 0
IsAnswer n (count m, bytes, t) = (m ≤ n) × (length bytes ≡ m)
IsAnswer n (errno e, bytes, t) = (1 ≤ e) × (e < 4096)

-- The count that a read returns is that of the bytes it copied, `n` at most, unless it returns an error.
abbrev pub IsHonest : {T : Type 0} → ℕ → Output T → Type 0
IsHonest n (ret, out, t) = (length out ≤ n) × ((ret ≡ length out) ⊎ (is_negative64 ret ≡ true))

module _ {T : Type 0} (get : ℕ → Bool → T → Ret × List ℕ × T) (turn : ℕ → ReadTurn)
    (answers : (n : ℕ) (pr : Bool) (t : T) → IsAnswer n (get n pr t)) where
  after_get-IsHonest :
      (go : ℕ → ℕ → List ℕ → T → Output T) (copied : Bool) (todo nbytes ret n : ℕ) (out : List ℕ)
      (a : Ret × List ℕ × T)
      → ((m : ℕ) (bytes : List ℕ) (t : T)
          → m ≤ todo
          → length bytes ≡ m
          → IsHonest n (go (nbytes - m) (add64 ret m) (out ++ take m bytes) t))
      → IsAnswer todo a
      → length out ≤ n
      → ret ≡ length out
      → IsHonest n (after_get get turn go copied nbytes ret out a)
  after_get-IsHonest go copied todo nbytes ret n out (errno e, bytes, t) h a l e' =
      (l, inr (ground (arith, a)))
  after_get-IsHonest go copied todo nbytes ret n out (count m, bytes, t) h a l e' =
      if_intro (IsHonest n) (m == 0) (l, inl e')
        (if_intro (IsHonest n) copied (h m bytes t a.0 a.1) (l, inr refl))

  read_loop-IsHonest :
      (fuel k : ℕ) (large : Bool) (tmplen : ℕ) (pr : Bool) (nbytes ret n : ℕ) (out : List ℕ) (t : T)
      → ret ≡ length out
      → length out + nbytes ≤ n
      → n < 2 ^ 32
      → IsHonest n (read_loop get turn fuel k large tmplen pr nbytes ret out t)
  read_loop-IsHonest zero k large tmplen pr nbytes ret n out t e l s = (omega arith, inl e)
  read_loop-IsHonest (suc fuel) k large tmplen pr nbytes ret n out t e l s =
      let todo = min_u32 (u32 nbytes) tmplen in
      let bound : todo ≤ nbytes = ground arith in
      let small : length out ≤ n = omega arith in
      if_intro (IsHonest n) (nbytes == 0) (small, inl e)
        (if_intro (IsHonest n) _
          (
            small,
            if_intro (λ (r : ℕ). (r ≡ length out) ⊎ (is_negative64 r ≡ true)) (ret == 0) (inr refl)
                (inl e),
          )
          (after_get-IsHonest (read_loop get turn fuel (k + 1) large tmplen pr) (turn k).copied todo
            nbytes ret n out (get todo pr t)
            (λ m bytes t' a b.
              let len : length (out ++ take m bytes) ≡ length out + m =
                omega (arith, length-append out (take m bytes), length-take m bytes, b) in
              read_loop-IsHonest fuel (k + 1) large tmplen pr (nbytes - m) (add64 ret m) n
                (out ++ take m bytes) t' (omega (arith, len, e)) (omega (arith, len)) s)
            (answers todo pr t) small e))

  -- Whatever happens in its turns, a read of `nbytes` bytes, less than 2 ^ 32, copies no more than that,
  -- and what it returns is the count of the bytes it copied, or an error.
  pub read_common-IsHonest :
      (base_small kmalloc : Bool) (nbytes : ℕ) (pr : Bool) (t : T)
      → nbytes < 2 ^ 32
      → IsHonest nbytes (read_common get turn base_small kmalloc nbytes pr t)
  unfolding read_common
  read_common-IsHonest base_small kmalloc nbytes pr t s =
      if_intro (IsHonest nbytes) (nbytes == 0) (omega arith, inl refl)
        (read_loop-IsHonest (suc nbytes) 0 _ _ pr nbytes 0 nbytes [] t refl (omega arith) s)

-- A DRNG that always gives something.
abbrev pub IsServed : {T : Type 0} → ℕ → Ret × List ℕ × T → Type 0
IsServed n (count m, bytes, t) = (1 ≤ m) × (m ≤ n) × (length bytes ≡ m)
IsServed n (errno e, bytes, t) = ⊥

module _ {T : Type 0} (get : ℕ → Bool → T → Ret × List ℕ × T) (turn : ℕ → ReadTurn)
    (serves : (n : ℕ) (pr : Bool) (t : T) → 0 < n → IsServed n (get n pr t))
    (quiet : (k : ℕ) → (turn k).signal ≡ false) (copies : (k : ℕ) → (turn k).copied ≡ true) where
  -- All of what is asked for has been copied and is reported.
  abbrev Complete : ℕ → Output T → Type 0
  Complete n (ret, out, t) = (ret ≡ n) × (length out ≡ n)

  after_get-Complete :
      (go : ℕ → ℕ → List ℕ → T → Output T) (todo nbytes ret n : ℕ) (out : List ℕ)
      (a : Ret × List ℕ × T)
      → ((m : ℕ) (bytes : List ℕ) (t : T)
          → 1 ≤ m
          → m ≤ todo
          → length bytes ≡ m
          → Complete n (go (nbytes - m) (add64 ret m) (out ++ take m bytes) t))
      → IsServed todo a
      → Complete n (after_get get turn go true nbytes ret out a)
  after_get-Complete go todo nbytes ret n out (errno e, bytes, t) h a = absurd a
  after_get-Complete go todo nbytes ret n out (count m, bytes, t) h a =
      let more : (m == 0) ≡ false = ground (arith, a) in rw more (h m bytes t a.0 a.1 a.2)

  read_loop-Complete :
      (fuel k : ℕ) (large : Bool) (tmplen : ℕ) (pr : Bool) (nbytes ret n : ℕ) (out : List ℕ) (t : T)
      → nbytes < fuel
      → 0 < tmplen
      → ret ≡ length out
      → length out + nbytes ≡ n
      → n < 2 ^ 32
      → Complete n (read_loop get turn fuel k large tmplen pr nbytes ret out t)
  read_loop-Complete zero k large tmplen pr nbytes ret n out t f p e l s = absurd (omega arith)
  read_loop-Complete (suc fuel) k large tmplen pr nbytes ret n out t f p e l s =
      let todo = min_u32 (u32 nbytes) tmplen in
      let bound : todo ≤ nbytes = ground arith in
      let no_signal : (large && (turn k).resched && (turn k).signal) ≡ false =
        ground (arith, quiet k) in
      elim (Bool-cases (nbytes == 0)) [
        | inl y ↦ rw y (ground (arith, y), ground (arith, y))
        | inr more ↦
            let some_todo : 0 < todo = ground (arith, more) in
            rw (more, no_signal, copies k)
              (after_get-Complete (read_loop get turn fuel (k + 1) large tmplen pr) todo nbytes ret
                n out (get todo pr t)
                (λ m bytes t' one a b.
                  let len : length (out ++ take m bytes) ≡ length out + m =
                    omega (arith, length-append out (take m bytes), length-take m bytes, b) in
                  read_loop-Complete fuel (k + 1) large tmplen pr (nbytes - m) (add64 ret m) n
                    (out ++ take m bytes) t' (omega arith) p (omega (arith, len, e))
                    (omega (arith, len)) s)
                (serves todo pr t some_todo))
      ]

  -- A read of less than 2 ^ 32 bytes that no signal interrupts and whose copies to user space all succeed,
  -- from a DRNG that always gives something, delivers all bytes that are asked for, with a large buffer
  -- or without.
  pub read_common-Complete :
      (base_small kmalloc : Bool) (nbytes : ℕ) (pr : Bool) (t : T)
      → nbytes < 2 ^ 32
      → let (ret, out, _) = read_common get turn base_small kmalloc nbytes pr t in
        (ret ≡ nbytes) × (length out ≡ nbytes)
  unfolding read_common
  read_common-Complete base_small kmalloc nbytes pr t s =
      let large = not base_small && ltb drng_blocksize nbytes && kmalloc in
      let tmplen = if large then min_u32 (u32 nbytes) drng_max_reqsize else drng_blocksize in
      if_intro_on (Complete nbytes) (nbytes == 0) (λ y. (ground (arith, y), ground (arith, y)))
        (λ more.
          read_loop-Complete (suc nbytes) 0 large tmplen pr nbytes 0 nbytes [] t (omega arith)
            (ground (arith, more, s)) refl (omega arith) s)
