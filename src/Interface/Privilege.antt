-- ===== src/Interface/Privilege.antt =====
-- Who may change the LRNG through lrng_ioctl, and that a write takes all data.
use lrng.Common.{
  ℕ, zero, suc, ◌+◌, ◌-◌, ◌*◌, ◌^◌, ◌≤◌, ◌<◌, ◌≡◌, ◌≢◌, ◌⊎◌, inl, inr, refl, Bool, true, false,
  ◌==◌, ltb, List, min, min_u32, sub32, length, take, drop, arith, length-drop, ap, ◌∙◌, Bool-cases,
}
use lrng.Config.{Config}
use lrng.Hash.{HashCb}
use lrng.DrngMgr.{LrngState, Setup, Ret}
use lrng.Interface.{PoolIn, pool_insert_aux, add64, negative64}
use lrng.Interface.Write.{write_loop, write_from, drng_write_common}
use lrng.Interface.Credit.{write_common-on}
use lrng.Interface.Ioctl.{
  Cmd, rndgetentcnt, rndaddtoentcnt, rndaddentropy, rndzapentcnt, rndclearpool, rndreseedcrng,
  unknown, Arg, lrng_ioctl, eperm,
}

-- The commands that only read.
abbrev pub reads : Cmd → Bool
reads rndgetentcnt = true
reads rndaddtoentcnt = false
reads rndaddentropy = false
reads rndzapentcnt = false
reads rndclearpool = false
reads rndreseedcrng = false
reads unknown = true

module _ {W D S : Type 0} (cfg : Config) (u : Setup W D) (cb : HashCb S) (at : PoolIn W S) where
  -- A caller without CAP_SYS_ADMIN changes nothing by any command, whatever its argument, and gets EPERM
  -- for each that does not only read.
  pub ioctl_unprivileged :
      (initalize : LrngState W D → Ret × LrngState W D) (cmd : Cmd) (arg : Arg) (s : LrngState W D)
      → let r = lrng_ioctl cfg u cb at initalize cmd false arg s in
        (r.lrng ≡ s) × ((reads cmd ≡ true) ⊎ (r.ret ≡ negative64 eperm))
  unfolding lrng_ioctl
  ioctl_unprivileged initalize rndgetentcnt arg s = elim (Bool-cases arg.writable) [
    | inl y ↦ (rw y refl, inl refl)
    | inr n ↦ (rw n refl, inl refl)
  ]
  ioctl_unprivileged initalize rndaddtoentcnt arg s = (refl, inr refl)
  ioctl_unprivileged initalize rndaddentropy arg s = (refl, inr refl)
  ioctl_unprivileged initalize rndzapentcnt arg s = (refl, inr refl)
  ioctl_unprivileged initalize rndclearpool arg s = (refl, inr refl)
  ioctl_unprivileged initalize rndreseedcrng arg s = (refl, inr refl)
  ioctl_unprivileged initalize unknown arg s = (refl, inl refl)

  write_loop_complete :
      (fuel : ℕ) (p : List ℕ) (count bits ret : ℕ) (s : LrngState W D)
      → count < fuel
      → count ≤ length p
      → ret + count < 2 ^ 64
      → let (r, done, _) = write_loop cfg u cb at fuel p count bits ret s in
        (r ≡ ret + count) × (done ≡ true)
  write_loop_complete zero p count bits ret s f l k = absurd (omega arith)
  write_loop_complete (suc fuel) p count bits ret s f l k = elim (Bool-cases (count == 0)) [
    | inl y ↦ (ground (arith, y), ground (arith, y))
    | inr n ↦
        let bytes = min count 64 in
        let ent = min_u32 (bytes * 2 ^ 3) bits in
        let s' = (pool_insert_aux cfg u cb at (take bytes p) ent s).1 in
        let some_left : count ≢ 0 = ground (arith, n) in
        let len = length-drop bytes p in
        let fine : ltb (length p) bytes ≡ false = ground (arith, l) in
        let sum : add64 ret bytes ≡ ret + bytes = omega arith in
        let rest =
          write_loop_complete fuel (drop bytes p) (count - bytes) (sub32 bits ent) (add64 ret bytes)
            s' (omega arith) (omega (arith, len)) (omega (arith, sum)) in
        rw (n, fine) (omega (arith, rest, sum), rest.1)
  ]

  -- While the LRNG is available, a write whose buffer can be read is taken to the last byte, up to INT_MAX
  -- bytes.
  pub drng_write_common_complete :
      (initalize : LrngState W D → Ret × LrngState W D) (buffer : List ℕ) (count bits : ℕ)
      (s : LrngState W D)
      → s.avail ≡ true
      → count ≤ length buffer
      → (drng_write_common cfg u cb at initalize buffer count bits s).0 ≡ min count (2 ^ 31 - 1)
  unfolding write_from
  drng_write_common_complete initalize buffer count bits s on l =
      let n = min count (2 ^ 31 - 1) in
      let w =
        write_loop_complete (suc n) buffer n bits 0 s (omega arith) (omega arith) (omega arith) in
      ap (λ (x : ℕ × LrngState W D). x.0)
        (write_common-on cfg u cb at initalize buffer count bits s on)
      ∙ ground (arith, w)
