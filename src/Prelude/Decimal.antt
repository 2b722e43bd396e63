-- ===== src/Prelude/Decimal.antt =====
-- `Display` of an `i64`. Twenty digits hold every one of them.
use Prim.Native.Nat.{ℕ, zero, suc, ◌+◌, ◌/◌, ◌%◌}
use mathlib.Core.List.{[], ◌∷◌}
use birthday_role.Prelude.Tests.{ltb, if◌then◌else◌}
use birthday_role.Prelude.Texts.{Text}
use birthday_role.Prelude.Int.{ℤ, pos, negsuc}

-- The digits of `n` in front of a text.
unfoldable pub digits_before : ℕ → ℕ → Text → Text
digits_before zero n s = s
digits_before (suc places) n s =
    let longer = digits_before places (n / 10) ((48 + n % 10) ∷ s) in
    if ltb n 10 then (48 + n) ∷ s else longer

unfoldable pub print_i64 : ℤ → Text
print_i64 (pos n) = digits_before 20 n []
print_i64 (negsuc n) = 45 ∷ digits_before 20 (suc n) []
