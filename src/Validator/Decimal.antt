-- ===== src/Validator/Decimal.antt =====
-- A printed `i64` is read back by `str::parse::<i64>`.
use birthday_role.Prelude.{
  ℕ, zero, suc, ◌+◌, ◌/◌, ◌%◌, ◌^◌, ◌<◌, ◌≡◌, refl, ap, ◌∙◌, arith, true, some, [], ◌∷◌, Text,
}
use birthday_role.Prelude.Options.{map_option}
use birthday_role.Prelude.Int.{ℤ, pos, negsuc, sub_ℕ}
use birthday_role.Prelude.Split.{lacks}
use birthday_role.Prelude.Decimal.{digits_before, print_i64}
use birthday_role.Models.Json.{is_i64}
use birthday_role.Validator.{parse_digits, parse_unsigned, parse_integer, in_i64, parse_i64}

parse_digits-digits_before :
    (places n : ℕ) (s : Text)
    → n < 10 ^ suc places
    → parse_digits 0 (digits_before (suc places) n s) ≡ parse_digits n s
unfolding digits_before
parse_digits-digits_before zero n s h = ground arith
parse_digits-digits_before (suc places) n s h =
    ground (arith, parse_digits-digits_before places (n / 10) ((48 + n % 10) ∷ s))

-- The first place is a digit.
digits_before-IsDigits :
    (places n : ℕ) (s : Text)
    → parse_unsigned (digits_before (suc places) n s)
      ≡ parse_digits 0 (digits_before (suc places) n s)
unfolding digits_before
digits_before-IsDigits zero n s = ground arith
digits_before-IsDigits (suc places) n s =
    ground (arith, digits_before-IsDigits places (n / 10) ((48 + n % 10) ∷ s))

parse_integer-digits_before :
    (places n : ℕ) (s : Text)
    → parse_integer (digits_before (suc places) n s)
      ≡ map_option pos (parse_unsigned (digits_before (suc places) n s))
unfolding digits_before
parse_integer-digits_before zero n s = ground arith
parse_integer-digits_before (suc places) n s =
    ground (arith, parse_integer-digits_before places (n / 10) ((48 + n % 10) ∷ s))

parse_unsigned-digits_before :
    (n : ℕ) → n < 10 ^ 20 → parse_unsigned (digits_before 20 n []) ≡ some n
parse_unsigned-digits_before n h =
    digits_before-IsDigits 19 n [] ∙ parse_digits-digits_before 19 n [] h

in_i64-some : (n : ℤ) → is_i64 n ≡ true → in_i64 (some n) ≡ some n
in_i64-some n h = rw h refl

negated : (n : ℕ) → sub_ℕ 0 (suc n) ≡ negsuc n
negated n = ground arith

pub parse_i64-print_i64 : (n : ℤ) → is_i64 n ≡ true → parse_i64 (print_i64 n) ≡ some n
unfolding parse_i64 print_i64
parse_i64-print_i64 (pos n) h =
    ap in_i64 (
      parse_integer-digits_before 19 n []
      ∙ ap (map_option pos) (parse_unsigned-digits_before n (ground arith)))
    ∙ in_i64-some _ h
parse_i64-print_i64 (negsuc n) h =
    ap in_i64 (
      ap (map_option (sub_ℕ 0)) (parse_unsigned-digits_before (suc n) (ground arith))
      ∙ ap some (negated n))
    ∙ in_i64-some _ h

digits_before-Lacks :
    (places n : ℕ) (s : Text) → lacks 58 s ≡ true → lacks 58 (digits_before places n s) ≡ true
unfolding digits_before
digits_before-Lacks zero n s h = h
digits_before-Lacks (suc places) n s h =
    ground (arith, digits_before-Lacks places (n / 10) ((48 + n % 10) ∷ s))

-- A printed number has no colon.
pub print_i64-Lacks : (n : ℤ) → lacks 58 (print_i64 n) ≡ true
unfolding print_i64
print_i64-Lacks (pos n) = digits_before-Lacks 20 n [] refl
print_i64-Lacks (negsuc n) = digits_before-Lacks 20 (suc n) [] refl
