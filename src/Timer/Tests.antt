-- ===== src/Timer/Tests.antt =====
-- The common divisor over a concrete function, and the slots of an index.
use lrng.Common.{ℕ, List, replicate}

-- 101 equal time stamps.
abbrev stamps : List ℕ
stamps = replicate 101 24
