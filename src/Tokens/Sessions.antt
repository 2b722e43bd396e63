-- ===== src/Tokens/Sessions.antt =====
-- src/services/rl_token.rs, the sessions of the embedded page, and src/services/session.rs, the cookie.
use birthday_role.Prelude.{
  ℕ, Bool, true, false, List, [], ◌∷◌, ◌++◌, Text, codes, not, if◌then◌else◌, Option, none, some,
  text_eq,
}
use birthday_role.Prelude.Options.{◌>>=◌}
use birthday_role.Prelude.Int.{ℤ, pos, ltb_ℤ}
use birthday_role.Prelude.Bytes.{as_bytes}
use birthday_role.Prelude.Split.{strip_prefix, splitn, joined}
use birthday_role.Prelude.Decimal.{print_i64}
use birthday_role.Validator.{parse_i64}
use birthday_role.Tokens.{add_i64, constant_time_eq, signature}

pub record IframeSession : Type 0 where
  pub discord_id : Text
  pub guild_id : Text
  pub role_id : Text
  pub read_only : Bool

abbrev pub iframe_prefix : Text
iframe_prefix = codes "ifs:"

abbrev pub iframe_ttl_secs : ℤ
iframe_ttl_secs = pos 3600

-- `if read_only { "1" } else { "0" }`, and the `match` that reads it.
abbrev pub ro_text : Bool → Text
ro_text read_only = if read_only then codes "1" else codes "0"

abbrev pub ro_flag : Text → Option Bool
ro_flag ro =
    if text_eq ro (codes "0")
    then some false
    else if text_eq ro (codes "1")
    then some true
    else none

-- `None` once the clock is past `exp`.
abbrev pub unless_expired {ℓ} : {A : Type ℓ} → ℤ → ℤ → Option A → Option A
unless_expired now exp o = if ltb_ℤ exp now then none else o

abbrev pub iframe_payload : Text → Text → Text → Text → Text → Text
iframe_payload discord_id guild_id role_id ro exp =
    joined 58 (discord_id ∷ guild_id ∷ role_id ∷ ro ∷ exp ∷ [])

module _ (hmac_sha256 : List ℕ → List ℕ → List ℕ) (hex_encode : List ℕ → Text) where
  abbrev pub if_signed {ℓ} : {A : Type ℓ} → Text → Text → Text → Option A → Option A
  if_signed secret payload sig o =
      if not (
        constant_time_eq (as_bytes sig)
          (as_bytes (signature hmac_sha256 hex_encode secret payload)))
      then none
      else o

  unfoldable pub mint_iframe_session : ℤ → Text → Text → Text → Bool → Text → Text
  mint_iframe_session now discord_id guild_id role_id read_only secret =
      let exp = print_i64 (add_i64 now iframe_ttl_secs) in
      let payload = iframe_payload discord_id guild_id role_id (ro_text read_only) exp in
      iframe_prefix ++ payload ++ 58 ∷ signature hmac_sha256 hex_encode secret payload

  unfoldable pub verify_iframe_parts : ℤ → Text → List Text → Option IframeSession
  verify_iframe_parts now secret (discord_id ∷ guild_id ∷ role_id ∷ ro ∷ exp_str ∷ sig ∷ []) =
      ro_flag ro >>= λ read_only. parse_i64 exp_str >>= λ exp. unless_expired now exp (
        if_signed secret (iframe_payload discord_id guild_id role_id ro exp_str) sig (
          some (record {
            discord_id = discord_id;
            guild_id = guild_id;
            role_id = role_id;
            read_only = read_only;
          })))
  verify_iframe_parts now secret other = none

  unfoldable pub verify_iframe_session : ℤ → Text → Text → Option IframeSession
  verify_iframe_session now token secret =
      strip_prefix iframe_prefix token >>= λ rest. verify_iframe_parts now secret (splitn 6 58 rest)

  module _ (url_decode : Text → Option Text) where
    unfoldable pub verify_cookie_parts : ℤ → Text → List Text → Option (Text × Text)
    verify_cookie_parts now secret (discord_id ∷ encoded_name ∷ expires_str ∷ sig ∷ []) =
        parse_i64 expires_str >>= λ expires. unless_expired now expires (
          if_signed secret (joined 58 (discord_id ∷ encoded_name ∷ expires_str ∷ [])) sig
            (url_decode encoded_name >>= λ name. some (discord_id, name)))
    verify_cookie_parts now secret other = none

    unfoldable pub verify_session : ℤ → Text → Text → Option (Text × Text)
    verify_session now cookie_value secret =
        verify_cookie_parts now secret (splitn 4 58 cookie_value)
