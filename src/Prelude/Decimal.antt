-- ===== src/Prelude/Decimal.antt =====
-- `str(n)`: the decimal digits of a number.
use Prim.Native.Nat.{ℕ, zero, suc, ◌+◌, ◌/◌, ◌%◌}
use mathlib.Core.Bool.{Bool, true, false}
use mathlib.Core.List.{[], ◌∷◌}
use relops_bootstrap.Prelude.Tests.{ltb}
use relops_bootstrap.Prelude.Strings.{Text}

unfoldable pub stop_if : Bool → Text → (Unit {0} → Text) → Text
stop_if true s rest = s
stop_if false s rest = rest tt

-- The digits of `n` before those that are there. `fuel` is at least the number of digits.
unfoldable pub digits_before : ℕ → ℕ → Text → Text
unfolding stop_if
digits_before zero n s = s
digits_before (suc fuel) n s =
    stop_if (ltb n 10) ((48 + n % 10) ∷ s) (λ u. digits_before fuel (n / 10) ((48 + n % 10) ∷ s))

unfoldable pub decimal : ℕ → Text
unfolding digits_before
decimal n = digits_before (suc n) n []
