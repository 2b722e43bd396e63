-- ===== src/Routes/Entry.antt =====
-- src/routes/admin.rs: the entry of the embedded page, which trades RoleLogic's JWT for a session.
use birthday_role.Prelude.{
  ℕ, Bool, true, false, not, ◌||◌, ◌≡◌, sym, ap, ◌∙◌, arith, Option, some, List, [], ◌∷◌, Text,
  codes, text_eq, text_eq_sound, all,
}
use birthday_role.Prelude.Int.{ℤ}
use birthday_role.Prelude.Split.{lacks}
use birthday_role.Prelude.Results.{
  Result, ok, err, ◌>>=◌, ok_or, refuse_if, >>=-eq-ok, ok_or-eq-ok, refuse_if-eq-ok, ok-inj,
}
use birthday_role.Tokens.{add_i64}
use birthday_role.Tokens.Jwt.{
  RlTokenError, malformed, bad_signature, expired, wrong_audience, wrong_issuer, Header, Claims,
  Verified, verify,
}
use birthday_role.Tokens.Sessions.{
  mint_iframe_session, verify_iframe_session, unless_expired, iframe_ttl_secs,
}
use birthday_role.Tokens.Accepted.{verify_iframe_session-mint_iframe_session}
use birthday_role.Sync.{Link, find_link}
use birthday_role.Access.{AppState}
use birthday_role.Routes.{Store}

-- The message of a token that was refused.
abbrev pub entry_message : RlTokenError → Text
entry_message expired = codes "Your session expired. Reopen the plugin in the RoleLogic dashboard."
entry_message bad_signature = codes "Invalid auth token."
entry_message malformed = codes "Invalid auth token."
entry_message wrong_audience = codes "Token is for a different plugin."
entry_message wrong_issuer = codes "Token was not issued by RoleLogic."

abbrev pub or_message : Result RlTokenError Verified → Result Text Verified
or_message (ok v) = ok v
or_message (err e) = err (entry_message e)

module _ (b64_decode : Text → Option (List ℕ)) (read_header : List ℕ → Option Header)
    (read_claims : List ℕ → Option Claims) where
  abbrev pub verified_for : AppState → Text → Text → Result RlTokenError Verified
  verified_for state rl_token api_token =
      verify state.hmac_sha256 b64_decode read_header read_claims state.now rl_token api_token
        state.base_url

  -- An error is the message of the page that is rendered instead.
  unfoldable pub verify_iframe_entry :
      AppState → Store → Text → Text → Text → Result Text (Text × Bool)
  verify_iframe_entry state store g r rl_token = do
    link ←
        ok_or (codes "This role link isn't registered with this plugin yet.")
          (find_link g r store.world.links)
    verified ← or_message (verified_for state rl_token link.api_token)
    _ ←
        refuse_if (not (text_eq verified.guild_id g) || not (text_eq verified.role_id r))
          (codes "Token does not match this role link.")
    ok (
      mint_iframe_session state.hmac_sha256 state.hex_encode state.now verified.discord_id g r
          verified.read_only state.session_secret,
      verified.read_only,
    )

  or_message-eq-ok :
      (x : Result RlTokenError Verified) (v : Verified) → or_message x ≡ ok v → x ≡ ok v
  or_message-eq-ok (ok w) v e = ap ok (ok-inj e)
  or_message-eq-ok (err x) v e = cc

  same_both :
      (g g' r r' : Text) → (not (text_eq g g') || not (text_eq r r')) ≡ false → (g ≡ g') × (r ≡ r')
  same_both g g' r r' h = ground (arith, text_eq_sound g g', text_eq_sound r r')

  -- An entry that succeeds had a JWT that verifies under the registered token of that very role link
  -- and names it. The session that it returns is read back, for an hour, as one of the JWT's account for
  -- that link, and as read-only just when the JWT is. No id of the JWT has a colon.
  pub verify_iframe_entry-session :
      (state : AppState) (store : Store) (g r rl_token token : Text) (read_only : Bool)
      → ((api_token : Text) (v : Verified)
          → verified_for state rl_token api_token ≡ ok v
          → all (lacks 58) (v.discord_id ∷ v.guild_id ∷ v.role_id ∷ []) ≡ true)
      → verify_iframe_entry state store g r rl_token ≡ ok (token, read_only)
      → (link : Link) × (v : Verified) × (find_link g r store.world.links ≡ some link)
        × (verified_for state rl_token link.api_token ≡ ok v)
        × (v.guild_id ≡ g)
        × (v.role_id ≡ r)
        × (v.read_only ≡ read_only)
        × ((later : ℤ)
            → verify_iframe_session state.hmac_sha256 state.hex_encode later token
                state.session_secret
              ≡ unless_expired later (add_i64 state.now iframe_ttl_secs) (
                  some (record {
                    discord_id = v.discord_id;
                    guild_id = g;
                    role_id = r;
                    read_only = v.read_only;
                  })))
  unfolding verify_iframe_entry
  verify_iframe_entry-session state store g r rl_token token read_only plain e =
      let result : Text × Bool = (token, read_only) in
      let (link, found_link, e1) =
        >>=-eq-ok (ok_or _ (find_link g r store.world.links)) _ result e in
      let (v, accepted, e2) =
        >>=-eq-ok (or_message (verified_for state rl_token link.api_token)) _ result e1 in
      let (u, matches, made) =
        >>=-eq-ok (refuse_if (not (text_eq v.guild_id g) || not (text_eq v.role_id r)) _) _ result
          e2 in
      let verified_it = or_message-eq-ok (verified_for state rl_token link.api_token) v accepted in
      let (same_g, same_r) = same_both v.guild_id g v.role_id r (refuse_if-eq-ok _ _ u matches) in
      let ids : all (lacks 58) (v.discord_id ∷ g ∷ r ∷ []) ≡ true =
        rw (← same_g, ← same_r) (plain link.api_token v verified_it) in
      (
        link,
        v,
        ok_or-eq-ok _ _ link found_link,
        verified_it,
        same_g,
        same_r,
        ap (λ p. p.1) (ok-inj made),
        λ later.
            ap
              (λ t.
                verify_iframe_session state.hmac_sha256 state.hex_encode later t
                  state.session_secret)
              (sym (ap (λ p. p.0) (ok-inj made)))
            ∙ verify_iframe_session-mint_iframe_session state.hmac_sha256 state.hex_encode state.now
                later v.discord_id g r v.read_only state.session_secret ids,
      )
