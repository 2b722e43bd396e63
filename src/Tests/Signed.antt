-- ===== src/Tests/Signed.antt =====
-- src/services/rl_token.rs, session.rs and csrf.rs, at a concrete signature and a concrete JWT.
use birthday_role.Prelude.{
  ℕ, ◌≡◌, refl, true, Option, none, some, List, [], ◌∷◌, ◌++◌, Text, codes, text_eq, if◌then◌else◌,
}
use birthday_role.Prelude.Results.{ok}
use birthday_role.Prelude.Int.{pos, ◌+ℤ◌}
use birthday_role.Prelude.Bytes.{as_bytes, encode_utf8}
use birthday_role.Prelude.Split.{splitn, split_once}
use birthday_role.Validator.{parse_i64}
use birthday_role.Tokens.{constant_time_eq, gather, aud_matches}
use birthday_role.Tokens.Equal.{constant_time_eq_iff}
use birthday_role.Tokens.Sessions.{
  IframeSession, iframe_prefix, mint_iframe_session, verify_iframe_session, verify_cookie_parts,
  verify_session,
}
use birthday_role.Tokens.Jwt.{Header, Claims, Verified, verify, verify_jwt_parts, check_claims}
use birthday_role.Tokens.Accepted.{
  IsIframeToken, verify_iframe_session-mint_iframe_session, verify_iframe_session-IsIframeToken,
}
use birthday_role.Tokens.Cookie.{IsCookie, verify_session-IsCookie}
use birthday_role.Tokens.Authentic.{IsAuthentic, verify_iff}
use birthday_role.Origin.{IsAllowed, verify_origin, verify_origin_iff}

-- A stand-in for HMAC: the key, then the message.
abbrev pub mac : List ℕ → List ℕ → List ℕ
mac key message = key ++ message

abbrev pub same : List ℕ → Text
same bytes = bytes

abbrev session : IframeSession
session = record {
  discord_id = codes "42";
  guild_id = codes "g";
  role_id = codes "r";
  read_only = true;
}

abbrev token : Text
token =
    mint_iframe_session mac same (pos 1000) (codes "42") (codes "g") (codes "r") true (codes "key")

minted_accepted : verify_iframe_session mac same (pos 4600) token (codes "key") ≡ some session
unfolding ◌+ℤ◌
minted_accepted =
    verify_iframe_session-mint_iframe_session mac same (pos 1000) (pos 4600) (codes "42")
      (codes "g") (codes "r") true (codes "key") refl

minted_expired : verify_iframe_session mac same (pos 4601) token (codes "key") ≡ none
unfolding ◌+ℤ◌
minted_expired =
    verify_iframe_session-mint_iframe_session mac same (pos 1000) (pos 4601) (codes "42")
      (codes "g") (codes "r") true (codes "key") refl

verify_iframe_session-mint_iframe_session_example :
    verify_iframe_session mac same
      (pos 4600)
      (mint_iframe_session mac same
        (pos 1000)
        (codes "42")
        (codes "g")
        (codes "r")
        true
        (codes "key"))
      (codes "key")
    ≡ some session
unfolding ◌+ℤ◌
verify_iframe_session-mint_iframe_session_example =
    verify_iframe_session-mint_iframe_session mac same (pos 1000) (pos 4600) (codes "42")
      (codes "g") (codes "r") true (codes "key") refl

verify_iframe_session-IsIframeToken_example :
    (rest : Text) × (token ≡ iframe_prefix ++ rest)
    × IsIframeToken mac same (pos 4600) (codes "key") session rest
verify_iframe_session-IsIframeToken_example =
    verify_iframe_session-IsIframeToken mac same (pos 4600) token (codes "key") session
      minted_accepted

cookie_accepted :
    verify_session mac same some (pos 7) (codes "42:Ann:9:key42:Ann:9") (codes "key")
    ≡ some (codes "42", codes "Ann")
unfolding verify_session verify_cookie_parts splitn split_once parse_i64 constant_time_eq gather
    as_bytes encode_utf8
cookie_accepted = refl

verify_session-IsCookie_example :
    IsCookie mac same some
      (pos 7)
      (codes "key")
      (codes "42")
      (codes "Ann")
      (codes "42:Ann:9:key42:Ann:9")
verify_session-IsCookie_example =
    verify_session-IsCookie mac same some (pos 7) (codes "42:Ann:9:key42:Ann:9") (codes "key")
      (codes "42") (codes "Ann") cookie_accepted

constant_time_eq_iff_example :
    constant_time_eq (as_bytes (codes "ab")) (as_bytes (codes "ab")) ≡ true
constant_time_eq_iff_example =
    (constant_time_eq_iff (as_bytes (codes "ab")) (as_bytes (codes "ab"))).1 refl

abbrev pub decode : Text → Option (List ℕ)
decode t = some (as_bytes t)

abbrev pub header : List ℕ → Option Header
header bytes = some (record { alg = codes "HS256"; typ = some (codes "jwt") })

abbrev pub claims : List ℕ → Option Claims
claims bytes = some (record {
  iss = codes "rolelogic";
  aud = codes "https://p/";
  sub = codes "42";
  guild_id = codes "g";
  role_id = codes "r";
  exp = pos 100;
  read_only = true;
  act = some (codes "7");
})

abbrev pub admin : Verified
admin = record {
  discord_id = codes "42";
  guild_id = codes "g";
  role_id = codes "r";
  read_only = true;
  actor_id = some (codes "7");
}

jwt_accepted :
    verify mac decode header claims (pos 160) (codes "h.p.keyh.p") (codes "key") (codes "https://p")
    ≡ ok admin
unfolding verify verify_jwt_parts check_claims splitn split_once as_bytes encode_utf8 aud_matches
    ◌+ℤ◌
jwt_accepted = refl

verify_iff_example :
    IsAuthentic mac decode header claims
      (pos 160)
      (codes "key")
      (codes "https://p")
      (splitn 3 46 (codes "h.p.keyh.p"))
      admin
verify_iff_example =
    (verify_iff mac decode header claims (pos 160) (codes "h.p.keyh.p") (codes "key")
        (codes "https://p") admin).0
      jwt_accepted

abbrev headers : Text → Option Text
headers name = if text_eq name (codes "origin") then some (codes "https://a/") else none

origin_allowed : verify_origin headers (codes "https://b" ∷ codes "https://a" ∷ []) ≡ ok tt
unfolding verify_origin
origin_allowed = refl

verify_origin_iff_example :
    IsAllowed (headers (codes "origin")) (codes "https://b" ∷ codes "https://a" ∷ [])
verify_origin_iff_example =
    (verify_origin_iff headers (codes "https://b" ∷ codes "https://a" ∷ [])).0 origin_allowed
