-- ===== src/Tokens.antt =====
-- src/services/rl_token.rs and src/services/session.rs: the tokens that the plugin signs or checks. HMAC-
-- SHA256, hex and base64 are parameters, as are serde's readings of the two parts of a JWT and the
-- decoding of a cookie's name. The clock is an argument, in seconds.
pub mod Sessions
pub mod Jwt
pub mod Equal
pub mod Accepted
pub mod Cookie
pub mod Audience
pub mod Authentic
use birthday_role.Prelude.{
  ℕ, ◌+◌, ◌-◌, ◌^◌, ltb, Bool, true, false, List, [], ◌∷◌, ◌++◌, Text, length, not, ◌==◌,
  if◌then◌else◌, Option, codes, trim_end_matches, text_eq,
}
use birthday_role.Prelude.Int.{ℤ, pos, sub_ℕ, ◌+ℤ◌, rem_euclid}
use birthday_role.Prelude.Bytes.{as_bytes}
use Prim.Native.Nat.{bit_or, bit_xor}

-- `a + b` of two `i64`, as a release build wraps it.
abbrev pub wrap_i64 : ℤ → ℤ
wrap_i64 n =
    let r = rem_euclid n 18446744073709551616 in
    if ltb r 9223372036854775808 then pos r else sub_ℕ r 18446744073709551616

abbrev pub add_i64 : ℤ → ℤ → ℤ
add_i64 a b = wrap_i64 (a +ℤ b)

-- The bytes of the two slices that differ, gathered.
unfoldable pub gather : ℕ → List ℕ → List ℕ → ℕ
gather diff [] bs = diff
gather diff (a ∷ s) [] = diff
gather diff (a ∷ s) (b ∷ t) = gather (bit_or diff (bit_xor a b)) s t

unfoldable pub constant_time_eq : List ℕ → List ℕ → Bool
constant_time_eq a b = if not (length a == length b) then false else gather 0 a b == 0

unfoldable pub aud_matches : Text → Text → Bool
aud_matches claim expected =
    text_eq (trim_end_matches (λ c. c == 47) claim) (trim_end_matches (λ c. c == 47) expected)

-- The hex digits of a text's signature.
module _ (hmac_sha256 : List ℕ → List ℕ → List ℕ) (hex_encode : List ℕ → Text) where
  abbrev pub signature : Text → Text → Text
  signature secret payload = hex_encode (hmac_sha256 (as_bytes secret) (as_bytes payload))
