-- ===== src/Tests/Entry.antt =====
-- The entry of src/routes/admin.rs, at the server of the other tests.
use birthday_role.Prelude.{◌≡◌, refl, true, some, [], ◌∷◌, Text, codes, all}
use birthday_role.Prelude.Results.{ok}
use birthday_role.Prelude.Options.{some-inj}
use birthday_role.Prelude.Int.{ℤ, pos, ◌+ℤ◌}
use birthday_role.Prelude.Bytes.{as_bytes, encode_utf8}
use birthday_role.Prelude.Split.{splitn, split_once, lacks}
use birthday_role.Prelude.Decimal.{print_i64, digits_before}
use birthday_role.Tokens.{add_i64, aud_matches}
use birthday_role.Tokens.Sessions.{
  iframe_ttl_secs, unless_expired, mint_iframe_session, verify_iframe_session,
}
use birthday_role.Tokens.Jwt.{Verified, verify, verify_jwt_parts, check_claims}
use birthday_role.Tokens.Authentic.{verify_iff}
use birthday_role.Sync.{Link, find_link}
use birthday_role.Routes.Entry.{verified_for, verify_iframe_entry, verify_iframe_entry-session}
use birthday_role.Tests.Signed.{mac, decode, header, claims}
use birthday_role.Tests.Handlers.{state, store}

abbrev jwt : Text
jwt = codes "h.p.th.p"

abbrev entry_token : Text
entry_token = codes "ifs:42:g:r:1:3605:key42:g:r:1:3605"

-- What verifies is the claims of the tests' reader, whatever the key.
names_admin :
    (api_token : Text) (v : Verified)
    → verified_for decode header claims state jwt api_token ≡ ok v
    → all (lacks 58) (v.discord_id ∷ v.guild_id ∷ v.role_id ∷ []) ≡ true
names_admin api_token v e =
    let (h, p, sig, parts, named, signed, (bytes, read_claims, decoded, read, checked, made)) =
      (verify_iff mac decode header claims (pos 5) jwt api_token (codes "https://p") v).0 e in
    rw (made, ← some-inj read) refl

enters :
    verify_iframe_entry decode header claims state store (codes "g") (codes "r") jwt
    ≡ ok (entry_token, true)
unfolding verify_iframe_entry verify verify_jwt_parts check_claims aud_matches splitn split_once
    as_bytes encode_utf8 mint_iframe_session print_i64 digits_before ◌+ℤ◌
enters = refl

verify_iframe_entry-session_example :
    (l : Link) × (v : Verified) × (find_link (codes "g") (codes "r") store.world.links ≡ some l)
    × (verified_for decode header claims state jwt l.api_token ≡ ok v)
    × (v.guild_id ≡ codes "g")
    × (v.role_id ≡ codes "r")
    × (v.read_only ≡ true)
    × ((later : ℤ)
        → verify_iframe_session state.hmac_sha256 state.hex_encode later entry_token
            state.session_secret
          ≡ unless_expired later (add_i64 state.now iframe_ttl_secs) (
              some (record {
                discord_id = v.discord_id;
                guild_id = codes "g";
                role_id = codes "r";
                read_only = v.read_only;
              })))
verify_iframe_entry-session_example =
    verify_iframe_entry-session decode header claims state store (codes "g") (codes "r") jwt
      entry_token true names_admin enters
