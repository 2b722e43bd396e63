-- ===== src/Tokens/Jwt.antt =====
-- src/services/rl_token.rs, `verify`.
use birthday_role.Prelude.{
  ℕ, Bool, false, List, [], ◌∷◌, ◌++◌, Text, codes, not, Option, text_eq, to_ascii_lowercase,
}
use birthday_role.Prelude.Options.{map_or}
use birthday_role.Prelude.Results.{Result, ok, err, ◌>>=◌, ok_or, refuse_if}
use birthday_role.Prelude.Int.{ℤ, pos, ltb_ℤ}
use birthday_role.Prelude.Bytes.{as_bytes}
use birthday_role.Prelude.Split.{splitn}
use birthday_role.Tokens.{add_i64, aud_matches}

abbrev pub allowed_skew_secs : ℤ
allowed_skew_secs = pos 60

pub data RlTokenError : Type 0 where
  malformed bad_signature expired wrong_audience wrong_issuer : RlTokenError

pub record Header : Type 0 where
  pub alg : Text
  pub typ : Option Text

pub record Claims : Type 0 where
  pub iss : Text
  pub aud : Text
  pub sub : Text
  pub guild_id : Text
  pub role_id : Text
  pub exp : ℤ
  pub read_only : Bool
  pub act : Option Text

pub record Verified : Type 0 where
  pub discord_id : Text
  pub guild_id : Text
  pub role_id : Text
  pub read_only : Bool
  pub actor_id : Option Text

-- A type that is given and is not JWT, in any case.
abbrev pub is_other_typ : Option Text → Bool
is_other_typ typ =
    map_or false (λ t. not (text_eq (to_ascii_lowercase t) (to_ascii_lowercase (codes "JWT")))) typ

abbrev pub verified : Claims → Verified
verified claims = record {
  discord_id = claims.sub;
  guild_id = claims.guild_id;
  role_id = claims.role_id;
  read_only = claims.read_only;
  actor_id = claims.act;
}

-- The checks on the claims, in their order.
unfoldable pub check_claims : ℤ → Text → Claims → Result RlTokenError Verified
check_claims now expected_aud claims = do
  _ ← refuse_if (not (text_eq claims.iss (codes "rolelogic"))) wrong_issuer
  _ ← refuse_if (not (aud_matches claims.aud expected_aud)) wrong_audience
  _ ← refuse_if (ltb_ℤ (add_i64 claims.exp allowed_skew_secs) now) expired
  ok (verified claims)

module _ (hmac_sha256 : List ℕ → List ℕ → List ℕ) (b64_decode : Text → Option (List ℕ))
    (read_header : List ℕ → Option Header) (read_claims : List ℕ → Option Claims) where
  unfoldable pub verify_jwt_parts : ℤ → Text → Text → List Text → Result RlTokenError Verified
  verify_jwt_parts now role_link_token expected_aud (header_b64 ∷ payload_b64 ∷ sig_b64 ∷ []) = do
    header_bytes ← ok_or malformed (b64_decode header_b64)
    payload_bytes ← ok_or malformed (b64_decode payload_b64)
    sig_bytes ← ok_or malformed (b64_decode sig_b64)
    header ← ok_or malformed (read_header header_bytes)
    _ ← refuse_if (not (text_eq header.alg (codes "HS256"))) bad_signature
    _ ← refuse_if (is_other_typ header.typ) malformed
    _ ←
        refuse_if
          (not (
            text_eq sig_bytes
              (hmac_sha256 (as_bytes role_link_token) (as_bytes (header_b64 ++ 46 ∷ payload_b64)))))
          bad_signature
    claims ← ok_or malformed (read_claims payload_bytes)
    check_claims now expected_aud claims
  verify_jwt_parts now role_link_token expected_aud other = err malformed

  unfoldable pub verify : ℤ → Text → Text → Text → Result RlTokenError Verified
  verify now token role_link_token expected_aud =
      verify_jwt_parts now role_link_token expected_aud (splitn 3 46 token)
