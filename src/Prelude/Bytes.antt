-- ===== src/Prelude/Bytes.antt =====
-- Bytes: the UTF-8 encoding of a text, and the tests for zero of `bit_or` and `bit_xor`.
use Prim.Native.Nat.{
  ℕ, zero, suc, ◌+◌, ◌/◌, ◌%◌, ◌≤◌, max, differ, digits, bit_or, bit_xor, bit_or-bitwise,
  bit_xor-bitwise,
}
use mathlib.Core.Path.{◌≡◌, refl, sym}
use mathlib.Core.Logic.{◌≢◌}
use mathlib.Core.List.{List, [], ◌∷◌, ◌++◌}
use native.Mathlib.Omega.{arith}
use birthday_role.Prelude.Tests.{ltb, if◌then◌else◌}
use birthday_role.Prelude.Texts.{Text}

-- `char::encode_utf8`
unfoldable pub encode_utf8 : ℕ → List ℕ
encode_utf8 c =
    if ltb c 128
    then c ∷ []
    else if ltb c 2048
    then (192 + c / 64) ∷ (128 + c % 64) ∷ []
    else if ltb c 65536
    then (224 + c / 4096) ∷ (128 + c / 64 % 64) ∷ (128 + c % 64) ∷ []
    else (240 + c / 262144) ∷ (128 + c / 4096 % 64) ∷ (128 + c / 64 % 64) ∷ (128 + c % 64) ∷ []

-- `str::as_bytes`
unfoldable pub as_bytes : Text → List ℕ
as_bytes [] = []
as_bytes (c ∷ s) = encode_utf8 c ++ as_bytes s

encode_utf8-inj :
    (c d : ℕ) (s t : List ℕ) → encode_utf8 c ++ s ≡ encode_utf8 d ++ t → (c ≡ d) × (s ≡ t)
unfolding encode_utf8
encode_utf8-inj c d s t e = ground arith

encode_utf8-nonempty : (c : ℕ) (s : List ℕ) → encode_utf8 c ++ s ≢ []
unfolding encode_utf8
encode_utf8-nonempty c s = ground arith

pub as_bytes-inj : (s t : Text) → as_bytes s ≡ as_bytes t → s ≡ t
unfolding as_bytes
as_bytes-inj [] [] e = refl
as_bytes-inj [] (d ∷ t) e = absurd (encode_utf8-nonempty d (as_bytes t) (sym e))
as_bytes-inj (c ∷ s) [] e = absurd (encode_utf8-nonempty c (as_bytes s) e)
as_bytes-inj (c ∷ s) (d ∷ t) e =
    let (first, rest) = encode_utf8-inj c d _ _ e in cc (first, as_bytes-inj s t rest)

-- Digits are the same when they do not differ.
differ-zero : (x y : ℕ) → differ x y ≡ 0 → x ≡ y
differ-zero zero y e = cc
differ-zero (suc x) zero e = omega arith
differ-zero (suc x) (suc y) e = omega (arith, differ-zero x y e)

differ_refl : (x : ℕ) → differ x x ≡ 0
differ_refl zero = refl
differ_refl (suc x) = differ_refl x

xor_digits-zero : (n a b : ℕ) → a ≤ n → digits (λ b. b) differ n a b ≡ 0 → a ≡ b
xor_digits-zero zero zero b h e = cc
xor_digits-zero zero (suc a) b h e = absurd (omega arith)
xor_digits-zero (suc n) zero b h e = cc
xor_digits-zero (suc n) (suc a) b h e = omega (
  arith,
  xor_digits-zero n (suc a / 2) (b / 2) (omega arith) (omega arith),
  differ-zero (suc a % 2) (b % 2) (omega arith),
)

xor_digits_refl : (n a : ℕ) → a ≤ n → digits (λ b. b) differ n a a ≡ 0
xor_digits_refl zero zero h = refl
xor_digits_refl zero (suc a) h = absurd (omega arith)
xor_digits_refl (suc n) zero h = refl
xor_digits_refl (suc n) (suc a) h =
    omega (arith, xor_digits_refl n (suc a / 2) (omega arith), differ_refl (suc a % 2))

or_digits-zero : (n a b : ℕ) → a ≤ n → digits (λ b. b) max n a b ≡ 0 → (a ≡ 0) × (b ≡ 0)
or_digits-zero zero zero b h e = (refl, e)
or_digits-zero zero (suc a) b h e = absurd (omega arith)
or_digits-zero (suc n) zero b h e = (refl, e)
or_digits-zero (suc n) (suc a) b h e =
    let (half, _) = or_digits-zero n (suc a / 2) (b / 2) (omega arith) (omega arith) in
    absurd (omega arith)

pub bit_xor-zero : (a b : ℕ) → bit_xor a b ≡ 0 → a ≡ b
bit_xor-zero a b e = xor_digits-zero a a b (omega arith) (omega (arith, bit_xor-bitwise a b))

pub bit_xor_refl : (a : ℕ) → bit_xor a a ≡ 0
bit_xor_refl a = omega (arith, bit_xor-bitwise a a, xor_digits_refl a a (omega arith))

pub bit_or-zero : (a b : ℕ) → bit_or a b ≡ 0 → (a ≡ 0) × (b ≡ 0)
bit_or-zero a b e = or_digits-zero a a b (omega arith) (omega (arith, bit_or-bitwise a b))
