-- ===== src/DrngMgr/Deliver.antt =====
-- A request to a regular DRNG is served to the last byte.
use lrng.Common.{
  ℕ, zero, suc, ◌+◌, ◌^◌, ◌≤◌, ◌<◌, ◌≡◌, ◌≢◌, inl, inr, ◌==◌, List, ◌++◌, Option, some, min_u32,
  sub32, add32, arith, Bool-cases, length, length-append,
}
use lrng.Config.{Config}
use lrng.DrngState.{Drng}
use lrng.AtomicDrng.Output.{IsGenerator}
use lrng.DrngMgr.{LrngState, Setup, count, put, drng_pr}
use lrng.DrngMgr.Generate.{Request, more, reseed_check, generate, get_turn, get_loop}

module _ {W D : Type 0} (cfg : Config) (u : Setup W D)
    (seed : ℕ → LrngState W D → Option (LrngState W D)) (i : ℕ) (P : LrngState W D → Type 0)
    (regular : i ≢ drng_pr) (gen : IsGenerator (u.cbs i))
    (P-put : (d : Drng D) (s : LrngState W D) → P s → P (put i d s))
    (check : (s : LrngState W D)
      → P s
      → (s' : LrngState W D) × (reseed_check cfg u seed i s ≡ some s') × P s') where
  -- One turn writes between one byte and all that is left.
  turn-more :
      (r : Request) (s : LrngState W D)
      → P s
      → 1 ≤ r.outbuflen
      → r.outbuflen + r.processed < 2 ^ 32
      → (r' : Request) × (s' : LrngState W D) × (get_turn cfg u seed i r s ≡ some (more r' s'))
        × P s'
        × (r'.outbuflen < r.outbuflen)
        × (r'.processed + r'.outbuflen ≡ r.processed + r.outbuflen)
        × (length r'.outbuf + r'.outbuflen ≡ length r.outbuf + r.outbuflen)
  unfolding get_turn generate
  turn-more r s p some_left word =
      let (s1, e, p1) = check s p in
      let want = min_u32 r.outbuflen 4096 in
      let d = s1.drngs i in
      let (ret, bytes, handle) = (u.cbs i).drng_generate d.drng want in
      let one : 1 ≤ want = ground arith in
      let within : want ≤ r.outbuflen = ground arith in
      let (least, most, len) = gen d.drng want one in
      let r' : Request = record {
        outbuflen = sub32 r.outbuflen ret;
        processed = add32 r.processed ret;
        outbuf = r.outbuf ++ bytes;
      } in
      let s' = put i (record d { drng = handle }) s1 in
      (
        r',
        s',
        ground (arith, e, least),
        P-put (record d { drng = handle }) s1 p1,
        omega (arith, least, most, within),
        omega (arith, least, most, within),
        omega (arith, least, most, within, len, length-append r.outbuf bytes),
      )

  pub get_loop-total :
      (fuel : ℕ) (r : Request) (s : LrngState W D)
      → P s
      → r.outbuflen < fuel
      → r.outbuflen + r.processed < 2 ^ 32
      → (out : List ℕ) × (s' : LrngState W D) × (get_loop cfg u seed fuel i r s
          ≡ some (count (r.processed + r.outbuflen), out, s'))
        × (length out ≡ length r.outbuf + r.outbuflen)
        × P s'
  get_loop-total zero r s p enough word = elim (let q : ⊥ = omega arith in q) [ ]
  get_loop-total (suc fuel) r s p enough word = elim (Bool-cases (r.outbuflen == 0)) [
    | inl y ↦ (r.outbuf, s, ground arith, ground arith, p)
    | inr n ↦
        let (r', s', e, p', less, sum, len) = turn-more r s p (ground arith) word in
        let (out, s2, e2, len2, p2) = get_loop-total fuel r' s' p' (omega arith) (omega arith) in
        (out, s2, ground (arith, e, e2, sum), omega (arith, len, len2), p2)
  ]
