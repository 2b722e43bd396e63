-- ===== src/Tokens/Cookie.antt =====
-- src/services/session.rs: which cookies are accepted.
use birthday_role.Prelude.{ℕ, ◌≡◌, ap, sym, ◌∙◌, false, List, [], ◌∷◌, Text, Option, some}
use mathlib.Core.Path.{subst}
use birthday_role.Prelude.Options.{>>=-eq-some, some-inj}
use birthday_role.Prelude.Int.{ℤ, ltb_ℤ}
use birthday_role.Prelude.Split.{splitn, joined, joined-splitn, joined-append}
use birthday_role.Validator.{parse_i64}
use birthday_role.Tokens.{signature}
use birthday_role.Tokens.Sessions.{verify_cookie_parts, verify_session}
use birthday_role.Tokens.Accepted.{signed, if_signed-eq-some, unless_expired-eq-some}

module _ (hmac_sha256 : List ℕ → List ℕ → List ℕ) (hex_encode : List ℕ → Text)
    (url_decode : Text → Option Text) where
  -- A live cookie of this account, with this name, signed with the secret.
  abbrev pub IsCookie : ℤ → Text → Text → Text → Text → Type 0
  IsCookie now secret discord_id display_name cookie =
      (name exp_str : Text) × (exp : ℤ) × (url_decode name ≡ some display_name)
      × (parse_i64 exp_str ≡ some exp)
      × (ltb_ℤ exp now ≡ false)
      × (cookie
          ≡ signed hmac_sha256 hex_encode secret (joined 58 (discord_id ∷ name ∷ exp_str ∷ [])))

  verify_cookie_parts-IsCookie :
      (now : ℤ) (secret : Text) (parts : List Text) (discord_id display_name : Text)
      → verify_cookie_parts hmac_sha256 hex_encode url_decode now secret parts
        ≡ some (discord_id, display_name)
      → IsCookie now secret discord_id display_name (joined 58 parts)
  unfolding verify_cookie_parts
  verify_cookie_parts-IsCookie now secret (d ∷ name ∷ exp_str ∷ sig ∷ []) id shown e =
      let (exp, parsed, e1) = >>=-eq-some (parse_i64 exp_str) _ (id, shown) e in
      let (live, e2) = unless_expired-eq-some now exp _ (id, shown) e1 in
      let payload = joined 58 (d ∷ name ∷ exp_str ∷ []) in
      let (same, e3) =
        if_signed-eq-some hmac_sha256 hex_encode secret payload sig _ (id, shown) e2 in
      let (decoded, read, made) = >>=-eq-some (url_decode name) _ (id, shown) e3 in
      let pair = some-inj made in
      (
        name,
        exp_str,
        exp,
        read ∙ ap (λ p. some (p.1)) pair,
        parsed,
        live,
        rw (same, ← ap (λ p. p.0) pair)
            (sym (
              joined-append 58 d (name ∷ exp_str ∷ [])
                (signature hmac_sha256 hex_encode secret payload))),
      )
  verify_cookie_parts-IsCookie now secret [] id shown e = cc
  verify_cookie_parts-IsCookie now secret (a ∷ []) id shown e = cc
  verify_cookie_parts-IsCookie now secret (a ∷ b ∷ []) id shown e = cc
  verify_cookie_parts-IsCookie now secret (a ∷ b ∷ c ∷ []) id shown e = cc
  verify_cookie_parts-IsCookie now secret (a ∷ b ∷ c ∷ d ∷ f ∷ t) id shown e = cc

  -- A session cookie that is accepted is the account's id, the encoding of the display name and an
  -- expiry that the clock has not passed, with the signature of just that text under the secret.
  pub verify_session-IsCookie :
      (now : ℤ) (cookie secret discord_id display_name : Text)
      → verify_session hmac_sha256 hex_encode url_decode now cookie secret
        ≡ some (discord_id, display_name)
      → IsCookie now secret discord_id display_name cookie
  unfolding verify_session
  verify_session-IsCookie now cookie secret id shown e =
      subst (IsCookie now secret id shown) (joined-splitn 3 58 cookie)
        (verify_cookie_parts-IsCookie now secret (splitn 4 58 cookie) id shown e)
