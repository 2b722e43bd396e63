-- ===== src/Tokens/Accepted.antt =====
-- src/services/rl_token.rs: which sessions of the embedded page are accepted.
use birthday_role.Prelude.{
  ℕ, ◌≡◌, refl, ap, sym, ◌∙◌, arith, Bool-cases, inl, inr, Bool, true, false, List, [], ◌∷◌, ◌++◌,
  Text, codes, Option, some, text_eq, text_eq_sound, all,
}
use mathlib.Core.Path.{subst}
use birthday_role.Prelude.Options.{◌>>=◌, >>=-eq-some, some-inj}
use birthday_role.Prelude.Int.{ℤ, ltb_ℤ, ◌+ℤ◌}
use birthday_role.Prelude.Bytes.{as_bytes}
use birthday_role.Prelude.Split.{
  strip_prefix, splitn, joined, lacks, strip_prefix-append, strip_prefix-eq-some, joined-splitn,
  splitn-joined, joined-append,
}
use birthday_role.Prelude.Decimal.{print_i64}
use birthday_role.Models.Json.{is_i64}
use birthday_role.Validator.{parse_i64}
use birthday_role.Validator.Decimal.{parse_i64-print_i64, print_i64-Lacks}
use birthday_role.Tokens.{add_i64, wrap_i64, constant_time_eq, signature}
use birthday_role.Tokens.Equal.{text-constant_time_eq, constant_time_eq_iff}
use birthday_role.Tokens.Sessions.{
  IframeSession, iframe_prefix, iframe_ttl_secs, ro_text, ro_flag, unless_expired, if_signed,
  iframe_payload, mint_iframe_session, verify_iframe_parts, verify_iframe_session,
}

wrap_i64-is_i64 : (n : ℤ) → is_i64 (wrap_i64 n) ≡ true
wrap_i64-is_i64 n = ground arith

ro_flag-ro_text : (b : Bool) → ro_flag (ro_text b) ≡ some b
ro_flag-ro_text true = refl
ro_flag-ro_text false = refl

ro_flag-eq-some : (ro : Text) (b : Bool) → ro_flag ro ≡ some b → ro ≡ ro_text b
ro_flag-eq-some ro b e = elim (Bool-cases (text_eq ro (codes "0"))) [
  | inl zero_flag ↦ rw (← some-inj (rw zero_flag at e)) (text_eq_sound ro (codes "0") zero_flag)
  | inr other ↦ elim (Bool-cases (text_eq ro (codes "1"))) [
    | inl one_flag ↦
        rw (← some-inj (rw (other, one_flag) at e)) (text_eq_sound ro (codes "1") one_flag)
    | inr neither ↦ cc (rw (other, neither) at e)
  ]
]

pub unless_expired-eq-some {ℓ} :
    {A : Type ℓ} (now exp : ℤ) (o : Option A) (a : A)
    → unless_expired now exp o ≡ some a
    → (ltb_ℤ exp now ≡ false) × (o ≡ some a)
unless_expired-eq-some now exp o a e = elim (Bool-cases (ltb_ℤ exp now)) [
  | inl late ↦ cc (rw late at e)
  | inr live ↦ (live, rw live at e)
]

all-Lacks :
    (d g r : Text) (b : Bool) (exp : ℤ)
    → all (lacks 58) (d ∷ g ∷ r ∷ []) ≡ true
    → all (lacks 58) (d ∷ g ∷ r ∷ ro_text b ∷ print_i64 exp ∷ []) ≡ true
all-Lacks d g r true exp h = ground (arith, print_i64-Lacks exp)
all-Lacks d g r false exp h = ground (arith, print_i64-Lacks exp)

module _ (hmac_sha256 : List ℕ → List ℕ → List ℕ) (hex_encode : List ℕ → Text) where
  abbrev pub signed : Text → Text → Text
  signed secret payload = payload ++ 58 ∷ signature hmac_sha256 hex_encode secret payload

  pub if_signed-eq-some {ℓ} :
      {A : Type ℓ} (secret payload sig : Text) (o : Option A) (a : A)
      → if_signed hmac_sha256 hex_encode secret payload sig o ≡ some a
      → (sig ≡ signature hmac_sha256 hex_encode secret payload) × (o ≡ some a)
  if_signed-eq-some secret payload sig o a e =
      elim (Bool-cases (
        constant_time_eq (as_bytes sig)
          (as_bytes (signature hmac_sha256 hex_encode secret payload)))) [
            | inl same ↦ (text-constant_time_eq _ _ same, rw same at e)
            | inr other ↦ cc (rw other at e)
          ]

  if_signed_refl {ℓ} :
      {A : Type ℓ} (secret payload : Text) (o : Option A)
      → if_signed hmac_sha256 hex_encode secret payload
          (signature hmac_sha256 hex_encode secret payload)
          o
        ≡ o
  if_signed_refl secret payload o = rw ((constant_time_eq_iff _ _).1 refl) refl

  -- A live token with these fields, signed with the secret.
  abbrev pub IsIframeToken : ℤ → Text → IframeSession → Text → Type 0
  IsIframeToken now secret s rest =
      (exp_str : Text) × (exp : ℤ) × (parse_i64 exp_str ≡ some exp)
      × (ltb_ℤ exp now ≡ false)
      × (rest
          ≡ signed secret
              (iframe_payload s.discord_id s.guild_id s.role_id (ro_text s.read_only) exp_str))

  verify_iframe_parts-IsIframeToken :
      (now : ℤ) (secret : Text) (parts : List Text) (s : IframeSession)
      → verify_iframe_parts hmac_sha256 hex_encode now secret parts ≡ some s
      → IsIframeToken now secret s (joined 58 parts)
  unfolding verify_iframe_parts
  verify_iframe_parts-IsIframeToken now secret (d ∷ g ∷ r ∷ ro ∷ exp_str ∷ sig ∷ []) s e =
      let (b, flag, e1) = >>=-eq-some (ro_flag ro) _ s e in
      let (exp, parsed, e2) = >>=-eq-some (parse_i64 exp_str) _ s e1 in
      let (live, e3) = unless_expired-eq-some now exp _ s e2 in
      let (same, made) = if_signed-eq-some secret (iframe_payload d g r ro exp_str) sig _ s e3 in
      rw (← some-inj made) (
        exp_str,
        exp,
        parsed,
        live,
        rw (same, ro_flag-eq-some ro b flag)
            (sym (
              joined-append 58 d (g ∷ r ∷ ro_text b ∷ exp_str ∷ []) (
                signature hmac_sha256 hex_encode secret
                  (iframe_payload d g r (ro_text b) exp_str)))),
      )
  verify_iframe_parts-IsIframeToken now secret [] s e = cc
  verify_iframe_parts-IsIframeToken now secret (a ∷ []) s e = cc
  verify_iframe_parts-IsIframeToken now secret (a ∷ b ∷ []) s e = cc
  verify_iframe_parts-IsIframeToken now secret (a ∷ b ∷ c ∷ []) s e = cc
  verify_iframe_parts-IsIframeToken now secret (a ∷ b ∷ c ∷ d ∷ []) s e = cc
  verify_iframe_parts-IsIframeToken now secret (a ∷ b ∷ c ∷ d ∷ f ∷ []) s e = cc
  verify_iframe_parts-IsIframeToken now secret (a ∷ b ∷ c ∷ d ∷ f ∷ g ∷ h ∷ t) s e = cc

  -- An iframe token that is accepted is `ifs:`, the three ids of the session that it gives, its
  -- read-only flag and an expiry that the clock has not passed, with the signature of just that text
  -- under the secret.
  pub verify_iframe_session-IsIframeToken :
      (now : ℤ) (token secret : Text) (s : IframeSession)
      → verify_iframe_session hmac_sha256 hex_encode now token secret ≡ some s
      → (rest : Text) × (token ≡ iframe_prefix ++ rest) × IsIframeToken now secret s rest
  unfolding verify_iframe_session
  verify_iframe_session-IsIframeToken now token secret s e =
      let (rest, stripped, e1) = >>=-eq-some (strip_prefix iframe_prefix token) _ s e in
      (
        rest,
        strip_prefix-eq-some iframe_prefix token rest stripped,
        subst (IsIframeToken now secret s) (joined-splitn 5 58 rest)
            (verify_iframe_parts-IsIframeToken now secret (splitn 6 58 rest) s e1),
      )

  verify_iframe_session-append :
      (now : ℤ) (rest secret : Text)
      → verify_iframe_session hmac_sha256 hex_encode now (iframe_prefix ++ rest) secret
        ≡ verify_iframe_parts hmac_sha256 hex_encode now secret (splitn 6 58 rest)
  unfolding verify_iframe_session
  verify_iframe_session-append now rest secret =
      ap (λ o. o >>= λ t. verify_iframe_parts hmac_sha256 hex_encode now secret (splitn 6 58 t))
        (strip_prefix-append iframe_prefix rest)

  splitn-signed :
      (secret d g r : Text) (b : Bool) (exp : ℤ)
      → all (lacks 58) (d ∷ g ∷ r ∷ []) ≡ true
      → splitn 6 58 (signed secret (iframe_payload d g r (ro_text b) (print_i64 exp)))
        ≡ d
          ∷ g
          ∷ r
          ∷ ro_text b
          ∷ print_i64 exp
          ∷ signature hmac_sha256 hex_encode secret
              (iframe_payload d g r (ro_text b) (print_i64 exp))
          ∷ []
  splitn-signed secret d g r b exp h =
      let ps = g ∷ r ∷ ro_text b ∷ print_i64 exp ∷ [] in
      ap (splitn 6 58) (joined-append 58 d ps _)
      ∙ splitn-joined 58 (d ∷ ps) _ (all-Lacks d g r b exp h)

  verify_iframe_parts-minted :
      (later : ℤ) (secret d g r : Text) (b : Bool) (exp : ℤ)
      → is_i64 exp ≡ true
      → verify_iframe_parts hmac_sha256 hex_encode later secret (
          d
          ∷ g
          ∷ r
          ∷ ro_text b
          ∷ print_i64 exp
          ∷ signature hmac_sha256 hex_encode secret
              (iframe_payload d g r (ro_text b) (print_i64 exp))
          ∷ [])
        ≡ unless_expired later exp
            (some (record { discord_id = d; guild_id = g; role_id = r; read_only = b }))
  unfolding verify_iframe_parts
  verify_iframe_parts-minted later secret d g r b exp h =
      rw (ro_flag-ro_text b, parse_i64-print_i64 exp h)
        (ap (unless_expired later exp) (if_signed_refl secret _ _))

  -- A minted token is read back as the session that it was minted for, its read-only flag included, up
  -- to the second of its expiry, an hour after it was minted, and is refused from then on. The ids
  -- have no colon.
  pub verify_iframe_session-mint_iframe_session :
      (now later : ℤ) (discord_id guild_id role_id : Text) (read_only : Bool) (secret : Text)
      → all (lacks 58) (discord_id ∷ guild_id ∷ role_id ∷ []) ≡ true
      → verify_iframe_session hmac_sha256 hex_encode later
          (mint_iframe_session hmac_sha256 hex_encode now discord_id guild_id role_id read_only
            secret)
          secret
        ≡ unless_expired later (add_i64 now iframe_ttl_secs) (
            some (record {
              discord_id = discord_id;
              guild_id = guild_id;
              role_id = role_id;
              read_only = read_only;
            }))
  unfolding verify_iframe_session mint_iframe_session
  verify_iframe_session-mint_iframe_session now later d g r b secret h =
      let exp = add_i64 now iframe_ttl_secs in
      verify_iframe_session-append later
        (signed secret (iframe_payload d g r (ro_text b) (print_i64 exp))) secret
      ∙ ap (verify_iframe_parts hmac_sha256 hex_encode later secret)
          (splitn-signed secret d g r b exp h)
      ∙ verify_iframe_parts-minted later secret d g r b exp
          (wrap_i64-is_i64 (now +ℤ iframe_ttl_secs))
