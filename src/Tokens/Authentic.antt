-- ===== src/Tokens/Authentic.antt =====
-- src/services/rl_token.rs, `verify`: which JWTs are accepted.
use birthday_role.Prelude.{
  ℕ, ◌≡◌, ◌↔◌, refl, sym, Bool, true, false, not, List, [], ◌∷◌, ◌++◌, Text, codes, Option, some,
  text_eq, text_eq_sound, text_eq_refl, arith,
}
use birthday_role.Prelude.Results.{
  ok, ok_or, refuse_if, >>=-eq-ok, ok_or-eq-ok, refuse_if-eq-ok, ok-inj,
}
use birthday_role.Prelude.Int.{ℤ, ltb_ℤ}
use birthday_role.Prelude.Bytes.{as_bytes}
use birthday_role.Prelude.Split.{splitn}
use birthday_role.Tokens.{add_i64, aud_matches}
use birthday_role.Tokens.Audience.{IsSameUpToSlashes, aud_matches_iff, IsJwtType, is_other_typ_iff}
use birthday_role.Tokens.Jwt.{
  Header, Claims, Verified, allowed_skew_secs, is_other_typ, verified, check_claims,
  verify_jwt_parts, verify, malformed, bad_signature, expired, wrong_audience, wrong_issuer,
}

not-eq-false : (b : Bool) → not b ≡ false → b ≡ true
not-eq-false b h = ground arith

abbrev AreClaims : ℤ → Text → Claims → Type 0
AreClaims now expected_aud claims =
    (text_eq claims.iss (codes "rolelogic") ≡ true)
    × IsSameUpToSlashes claims.aud expected_aud
    × (ltb_ℤ (add_i64 claims.exp allowed_skew_secs) now ≡ false)

check_claims-eq-ok :
    (now : ℤ) (expected_aud : Text) (claims : Claims) (v : Verified)
    → check_claims now expected_aud claims ≡ ok v
    → AreClaims now expected_aud claims × (v ≡ verified claims)
unfolding check_claims
check_claims-eq-ok now expected_aud claims v e =
    let (u, issuer, e1) =
      >>=-eq-ok (refuse_if (not (text_eq claims.iss (codes "rolelogic"))) _) _ v e in
    let (u', audience, e2) =
      >>=-eq-ok (refuse_if (not (aud_matches claims.aud expected_aud)) _) _ v e1 in
    let (u'', live, made) =
      >>=-eq-ok (refuse_if (ltb_ℤ (add_i64 claims.exp allowed_skew_secs) now) _) _ v e2 in
    (
      (
        not-eq-false _ (refuse_if-eq-ok _ wrong_issuer u issuer),
        (aud_matches_iff claims.aud expected_aud).0
            (not-eq-false _ (refuse_if-eq-ok _ wrong_audience u' audience)),
        refuse_if-eq-ok _ expired u'' live,
      ),
      sym (ok-inj made),
    )

check_claims-ok :
    (now : ℤ) (expected_aud : Text) (claims : Claims)
    → AreClaims now expected_aud claims
    → check_claims now expected_aud claims ≡ ok (verified claims)
unfolding check_claims
check_claims-ok now expected_aud claims (issuer, audience, live) =
    rw (issuer, (aud_matches_iff claims.aud expected_aud).1 audience, live) refl

module _ (hmac_sha256 : List ℕ → List ℕ → List ℕ) (b64_decode : Text → Option (List ℕ))
    (read_header : List ℕ → Option Header) (read_claims : List ℕ → Option Claims) where
  -- The signature is that of the first two parts, under the role link's token.
  abbrev IsSigned : Text → Text → Text → Text → Type 0
  IsSigned role_link_token header_b64 payload_b64 sig_b64 =
      b64_decode sig_b64
      ≡ some (hmac_sha256 (as_bytes role_link_token) (as_bytes (header_b64 ++ 46 ∷ payload_b64)))

  abbrev HasHeader : Text → Type 0
  HasHeader header_b64 =
      (bytes : List ℕ) × (header : Header) × (b64_decode header_b64 ≡ some bytes)
      × (read_header bytes ≡ some header)
      × (header.alg ≡ codes "HS256")
      × IsJwtType header.typ

  abbrev HasClaims : ℤ → Text → Text → Verified → Type 0
  HasClaims now expected_aud payload_b64 v =
      (bytes : List ℕ) × (claims : Claims) × (b64_decode payload_b64 ≡ some bytes)
      × (read_claims bytes ≡ some claims)
      × AreClaims now expected_aud claims
      × (v ≡ verified claims)

  abbrev pub IsAuthentic : ℤ → Text → Text → List Text → Verified → Type 0
  IsAuthentic now role_link_token expected_aud parts v =
      (header_b64 payload_b64 sig_b64 : Text) × (parts ≡ header_b64 ∷ payload_b64 ∷ sig_b64 ∷ [])
      × HasHeader header_b64
      × IsSigned role_link_token header_b64 payload_b64 sig_b64
      × HasClaims now expected_aud payload_b64 v

  verify_jwt_parts-IsAuthentic :
      (now : ℤ) (role_link_token expected_aud : Text) (parts : List Text) (v : Verified)
      → verify_jwt_parts hmac_sha256 b64_decode read_header read_claims now role_link_token
          expected_aud parts
        ≡ ok v
      → IsAuthentic now role_link_token expected_aud parts v
  unfolding verify_jwt_parts
  verify_jwt_parts-IsAuthentic now token expected_aud (h ∷ p ∷ sig ∷ []) v e =
      let (hb, h1, e1) = >>=-eq-ok (ok_or malformed (b64_decode h)) _ v e in
      let (pb, h2, e2) = >>=-eq-ok (ok_or malformed (b64_decode p)) _ v e1 in
      let (sb, h3, e3) = >>=-eq-ok (ok_or malformed (b64_decode sig)) _ v e2 in
      let (header, h4, e4) = >>=-eq-ok (ok_or malformed (read_header hb)) _ v e3 in
      let (u5, h5, e5) =
        >>=-eq-ok (refuse_if (not (text_eq header.alg (codes "HS256"))) _) _ v e4 in
      let (u6, h6, e6) = >>=-eq-ok (refuse_if (is_other_typ header.typ) _) _ v e5 in
      let tag = hmac_sha256 (as_bytes token) (as_bytes (h ++ 46 ∷ p)) in
      let (u7, h7, e7) = >>=-eq-ok (refuse_if (not (text_eq sb tag)) _) _ v e6 in
      let (claims, h8, e8) = >>=-eq-ok (ok_or malformed (read_claims pb)) _ v e7 in
      let (checked, made) = check_claims-eq-ok now expected_aud claims v e8 in
      let right_tag =
        text_eq_sound sb tag (not-eq-false _ (refuse_if-eq-ok _ bad_signature u7 h7)) in
      let right_alg =
        text_eq_sound header.alg (codes "HS256")
          (not-eq-false _ (refuse_if-eq-ok _ bad_signature u5 h5)) in
      (
        h,
        p,
        sig,
        refl,
        (
          hb,
          header,
          ok_or-eq-ok _ _ hb h1,
          ok_or-eq-ok _ _ header h4,
          right_alg,
          (is_other_typ_iff header.typ).0 (refuse_if-eq-ok _ malformed u6 h6),
        ),
        rw (← right_tag) (ok_or-eq-ok _ _ sb h3),
        (pb, claims, ok_or-eq-ok _ _ pb h2, ok_or-eq-ok _ _ claims h8, checked, made),
      )
  verify_jwt_parts-IsAuthentic now token expected_aud [] v e = cc
  verify_jwt_parts-IsAuthentic now token expected_aud (a ∷ []) v e = cc
  verify_jwt_parts-IsAuthentic now token expected_aud (a ∷ b ∷ []) v e = cc
  verify_jwt_parts-IsAuthentic now token expected_aud (a ∷ b ∷ c ∷ d ∷ t) v e = cc

  IsAuthentic-verify_jwt_parts :
      (now : ℤ) (role_link_token expected_aud : Text) (parts : List Text) (v : Verified)
      → IsAuthentic now role_link_token expected_aud parts v
      → verify_jwt_parts hmac_sha256 b64_decode read_header read_claims now role_link_token
          expected_aud parts
        ≡ ok v
  unfolding verify_jwt_parts
  IsAuthentic-verify_jwt_parts now token expected_aud parts v
        (
          h,
          p,
          sig,
          split,
          (hb, header, h1, h2, alg, typ),
          signed,
          (pb, claims, c1, c2, checked, made),
        ) =
      rw
        (
          split,
          h1,
          c1,
          signed,
          h2,
          alg,
          (is_other_typ_iff header.typ).1 typ,
          text_eq_refl (hmac_sha256 (as_bytes token) (as_bytes (h ++ 46 ∷ p))),
          c2,
          made,
        )
        (check_claims-ok now expected_aud claims checked)

  -- A JWT is accepted just when its three parts between dots are a header for HS256 whose type, if
  -- any, is JWT in letters of either case, claims, and the signature of the first two under the role
  -- link's token, where the claims name the issuer and our audience, up to slashes at the end of
  -- either, and the sum of their expiry and 60 seconds, which wraps at 64 bits, is not before now. The
  -- session then has the claims' account, role link, read-only flag and developer.
  pub verify_iff :
      (now : ℤ) (token role_link_token expected_aud : Text) (v : Verified)
      → (verify hmac_sha256 b64_decode read_header read_claims now token role_link_token
            expected_aud
          ≡ ok v)
        ↔ IsAuthentic now role_link_token expected_aud (splitn 3 46 token) v
  unfolding verify
  verify_iff now token role_link_token expected_aud v = (
    verify_jwt_parts-IsAuthentic now role_link_token expected_aud (splitn 3 46 token) v,
    IsAuthentic-verify_jwt_parts now role_link_token expected_aud (splitn 3 46 token) v,
  )
