-- ===== src/Health/Stuck.antt =====
-- The stuck test against its description in the time stamps themselves.
use lrng.Common.{ℕ, ◌+◌, ◌*◌, ◌%◌, ◌^◌, ◌<◌, ◌≡◌, ◌↔◌, ◌⊎◌, true, arith}
use lrng.HealthState.{StuckTest}
use lrng.Health.{irq_stuck_test}

-- Four time stamps, in order, of which the last gives a vanishing first, second or third
-- derivative modulo 2 ^ 32.
abbrev pub Vanishing : ℕ → ℕ → ℕ → ℕ → Type 0
Vanishing a b c d =
    (d ≡ c) ⊎ ((d + b) % 2 ^ 32 ≡ (2 * c) % 2 ^ 32) ⊎ ((d + 3 * b) % 2 ^ 32 ≡ (3 * c + a) % 2 ^ 32)

-- The state of the stuck test after three time stamps.
abbrev pub after : StuckTest → ℕ → ℕ → ℕ → StuckTest
after st a b c = (irq_stuck_test (irq_stuck_test (irq_stuck_test st a).1 b).1 c).1

-- After any three time stamps, whatever came before them, the fourth is stuck exactly when one of
-- the three derivatives of the four time stamps vanishes modulo 2 ^ 32.
pub irq_stuck_test_iff :
    (st : StuckTest) (a b c d : ℕ)
    → a < 2 ^ 32
    → b < 2 ^ 32
    → c < 2 ^ 32
    → d < 2 ^ 32
    → ((irq_stuck_test (after st a b c) d).0 ≡ true) ↔ Vanishing a b c d
unfolding irq_stuck_test
irq_stuck_test_iff st a b c d ha hb hc hd = (ground arith, ground arith)
