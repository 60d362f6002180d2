-- ===== src/Common/Table.antt =====
-- A table of truth values: a test that is made of all bytes, or of all numbers below a small bound.
use Prim.Native.Nat.{ℕ, zero, suc, ◌<◌}
use mathlib.Core.Path.{◌≡◌}
use mathlib.Core.Bool.{Bool, true, false}
use native.Mathlib.Omega.{arith}
use pkt.Common.Tests.{if◌then◌else◌}

unfoldable pub table : (ℕ → Bool) → ℕ → Bool
table test zero = true
table test (suc k) = let lower = table test k in if test k then lower else false

pub table-entry :
    (test : ℕ → Bool) (k entry : ℕ) → entry < k → table test k ≡ true → test entry ≡ true
unfolding table
table-entry test zero entry small h = absurd (omega arith)
table-entry test (suc k) entry small h = ground (arith, table-entry test k entry)
