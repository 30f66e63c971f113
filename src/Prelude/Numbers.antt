-- ===== src/Prelude/Numbers.antt =====
-- Machine words as natural numbers with their range written out.
use Prim.Native.Nat.{ℕ, ◌+◌, ◌≤◌, min}
use mathlib.Core.Path.{◌≡◌}
use mathlib.Core.Option.{Option, none, some}
use native.Mathlib.Omega.{arith}
use flowsplice_rust.Prelude.Tests.{leb, if◌then◌else◌}

-- `u64::MAX`
abbrev pub u64_max : ℕ
u64_max = 18446744073709551615

abbrev pub IsU64 : ℕ → Type 0
IsU64 n = n ≤ u64_max

-- `u64::saturating_add`
unfoldable pub saturating_add : ℕ → ℕ → ℕ
saturating_add a b = min (a + b) u64_max

-- `u64::checked_add`
unfoldable pub checked_add : ℕ → ℕ → Option ℕ
checked_add a b = if leb (a + b) u64_max then some (a + b) else none

pub saturating_add_lem : (a b : ℕ) → saturating_add a b ≡ min (a + b) u64_max
unfolding saturating_add
saturating_add_lem a b = omega arith

pub checked_add_lem : (a b c : ℕ) → checked_add a b ≡ some c → (c ≡ a + b) × (c ≤ u64_max)
unfolding checked_add
checked_add_lem a b c h = ground arith
