-- ===== src/Access/Granted.antt =====
-- src/services/auth.rs and src/routes/admin.rs: when access is granted, and why it is refused.
use birthday_role.Prelude.{
  ℕ, Bool, true, false, not, ◌||◌, Bool-cases, ◌≡◌, ◌≢◌, refl, sym, ap, ◌∙◌, ◌⊎◌, inl, inr, arith,
  none, some, Text, codes, text_eq, text_eq_sound, Option-cases,
}
use birthday_role.Prelude.Results.{
  Result, ok, err, ◌>>=◌, refuse_if, >>=-eq-ok, ok_or-eq-ok, refuse_if-eq-ok, ok-inj, err-inj,
  Result-cases,
}
use birthday_role.Errors.{AppError, forbidden, internal}
use birthday_role.Errors.Response.{into_response}
use birthday_role.Tokens.Sessions.{IframeSession}
use birthday_role.Client.{Reply, replied, unreachable, is_success}
use birthday_role.Access.{
  AppState, Caller, read_session, permission, require_manager, extract_bearer, session_of,
  live_session, RoleConfigAccess, role_config_access_by, require_role_config_access,
  classify_gateway_status, gateway_reply, json_of, if_manager, permission_url, forward_cookie,
}

not-eq-false : (b : Bool) → not b ≡ false → b ≡ true
not-eq-false b h = ground arith

-- A live cookie of this account, which the gateway says manages the server.
abbrev pub IsManager : AppState → Caller → Text → Text → Type 0
IsManager state caller guild_id discord_id =
    (name : Text) × (read_session state caller ≡ ok (discord_id, name))
    × (permission state caller guild_id ≡ ok (true, true))

require_manager-IsManager :
    (state : AppState) (caller : Caller) (guild_id discord_id : Text)
    → require_manager state caller guild_id ≡ ok discord_id
    → IsManager state caller guild_id discord_id
unfolding require_manager
require_manager-IsManager state caller guild_id discord_id e =
    let ((id, name), session, e1) = >>=-eq-ok (read_session state caller) _ discord_id e in
    let ((member, manager), flags, e2) =
      >>=-eq-ok (permission state caller guild_id) _ discord_id e1 in
    let (u, m, e3) = >>=-eq-ok (refuse_if (not member) _) _ discord_id e2 in
    let (u', n, made) = >>=-eq-ok (refuse_if (not manager) _) _ discord_id e3 in
    let is_member = not-eq-false member (refuse_if-eq-ok (not member) _ u m) in
    let is_manager = not-eq-false manager (refuse_if-eq-ok (not manager) _ u' n) in
    (
      name,
      rw (← ok-inj made) session,
      flags ∙ ap (λ p. ok (p, manager)) is_member ∙ ap (λ p. ok (true, p)) is_manager,
    )

-- A live token of the embedded page, minted for this very role link.
abbrev pub IsBearer : AppState → Caller → Text → Text → RoleConfigAccess → Type 0
IsBearer state caller guild_id role_id access =
    (bearer : Text) × (s : IframeSession) × (extract_bearer caller ≡ some bearer)
    × (session_of state bearer ≡ some s)
    × (s.guild_id ≡ guild_id)
    × (s.role_id ≡ role_id)
    × (access ≡ record { discord_id = s.discord_id; read_only = s.read_only })

abbrev pub IsDirect : AppState → Caller → Text → RoleConfigAccess → Type 0
IsDirect state caller guild_id access =
    (extract_bearer caller ≡ none)
    × IsManager state caller guild_id access.discord_id
    × (access.read_only ≡ false)

same_both :
    (g g' r r' : Text) → (not (text_eq g g') || not (text_eq r r')) ≡ false → (g ≡ g') × (r ≡ r')
same_both g g' r r' h = ground (arith, text_eq_sound g g', text_eq_sound r r')

access_by-IsBearer :
    (state : AppState) (caller : Caller) (guild_id role_id bearer : Text)
    (access : RoleConfigAccess)
    → extract_bearer caller ≡ some bearer
    → role_config_access_by state caller guild_id role_id (some bearer) ≡ ok access
    → IsBearer state caller guild_id role_id access
access_by-IsBearer state caller guild_id role_id bearer access held e =
    let (s, live, e1) = >>=-eq-ok (live_session state bearer) _ access e in
    let (u, same, made) =
      >>=-eq-ok (refuse_if (not (text_eq s.guild_id guild_id) || not (text_eq s.role_id role_id)) _)
        _ access e1 in
    let (same_guild, same_role) =
      same_both s.guild_id guild_id s.role_id role_id (refuse_if-eq-ok _ _ u same) in
    (bearer, s, held, ok_or-eq-ok _ _ s live, same_guild, same_role, sym (ok-inj made))

access_by-IsDirect :
    (state : AppState) (caller : Caller) (guild_id role_id : Text) (access : RoleConfigAccess)
    → extract_bearer caller ≡ none
    → role_config_access_by state caller guild_id role_id none ≡ ok access
    → IsDirect state caller guild_id access
access_by-IsDirect state caller guild_id role_id access held e =
    let (discord_id, manages, made) =
      >>=-eq-ok (require_manager state caller guild_id) _ access e in
    rw (← ok-inj made)
      (held, require_manager-IsManager state caller guild_id discord_id manages, refl)

-- Access to a role link's configuration is granted to a token of the embedded page that was minted for
-- that very link, and is then read-only just when the token is; or, where the request has no bearer
-- token, to a live cookie of an account that the gateway says manages the server. A request with a
-- bearer token never falls back on its cookie.
pub require_role_config_access_granted :
    (state : AppState) (caller : Caller) (guild_id role_id : Text) (access : RoleConfigAccess)
    → require_role_config_access state caller guild_id role_id ≡ ok access
    → IsBearer state caller guild_id role_id access ⊎ IsDirect state caller guild_id access
unfolding require_role_config_access
require_role_config_access_granted state caller guild_id role_id access e =
    elim (Option-cases (extract_bearer caller)) [
      | inl held ↦ inr (access_by-IsDirect state caller guild_id role_id access held (rw held at e))
      | inr (bearer, held) ↦
          inl (access_by-IsBearer state caller guild_id role_id bearer access held (rw held at e))
    ]

abbrev pub Says401 : Reply → Type 0
Says401 reply = (body : Result Text Text) × (reply ≡ replied 401 body)

classify-Is401 :
    (state : AppState) (status : ℕ) (body : Text)
    → (into_response (classify_gateway_status state status body)).status ≡ 401
    → status ≡ 401
unfolding classify_gateway_status into_response
classify-Is401 state status body e = ground arith

-- An internal error is a 500.
internal-Is500 {ℓ} :
    {A : Type ℓ} (t : Text) (e : AppError)
    → ◌≡◌ {A = Result AppError A} (err (internal t)) (err e)
    → (into_response e).status ≢ 401
unfolding into_response
internal-Is500 t e h is401 = omega (arith, ap (λ x. (into_response x).status) (err-inj h) ∙ is401)

json_of-Is500 {ℓ} :
    {A : Type ℓ} (r : Result Text A) (e : AppError)
    → json_of r ≡ err e
    → (into_response e).status ≢ 401
json_of-Is500 (ok a) e h is401 = cc
json_of-Is500 (err t) e h is401 = internal-Is500 _ e h is401

gateway_reply-Says401 {ℓ} :
    {A : Type ℓ} (state : AppState) (what : Text) (read : Text → Result Text A) (reply : Reply)
    (e : AppError)
    → gateway_reply state what read reply ≡ err e
    → (into_response e).status ≡ 401
    → Says401 reply
unfolding into_response
gateway_reply-Says401 state what read (unreachable t) e h is401 =
    absurd (internal-Is500 _ e h is401)
gateway_reply-Says401 state what read (replied status body) e h is401 =
    elim (Bool-cases (is_success status)) [
      | inl fine ↦ absurd (json_of-Is500 (body >>= read) e (rw fine at h) is401)
      | inr refused ↦ (
        body,
        ap (λ n. replied n body)
            (classify-Is401 state status _
              (ap (λ x. (into_response x).status) (err-inj (rw refused at h)) ∙ is401)),
      )
    ]

-- Forbidden is a 403.
forbidden-Is403 :
    (t : Text) (e : AppError)
    → ◌≡◌ {A = Result AppError Text} (err (forbidden t)) (err e)
    → (into_response e).status ≢ 401
unfolding into_response
forbidden-Is403 t e h is401 = omega (arith, ap (λ x. (into_response x).status) (err-inj h) ∙ is401)

if_manager-Is403 :
    (flags : Bool × Bool) (id : Text) (e : AppError)
    → if_manager flags id ≡ err e
    → (into_response e).status ≢ 401
if_manager-Is403 (true, true) id e h is401 = cc
if_manager-Is403 (true, false) id e h is401 = forbidden-Is403 _ e h is401
if_manager-Is403 (false, manager) id e h is401 = forbidden-Is403 _ e h is401

-- A caller whose request for a manager's access comes back as 401, the status that asks them to sign in
-- again, has no live session cookie, or the gateway itself replied 401. Nothing else that the gateway
-- replies, nor its silence, does that.
pub require_manager_401 :
    (state : AppState) (caller : Caller) (guild_id : Text) (e : AppError)
    → require_manager state caller guild_id ≡ err e
    → (into_response e).status ≡ 401
    → (read_session state caller ≡ err e)
      ⊎ Says401 (state.gateway (permission_url state guild_id) (forward_cookie state caller))
unfolding require_manager
require_manager_401 state caller guild_id e h is401 =
    elim (Result-cases (read_session state caller)) [
      | inr (x, refused) ↦ inl (rw (← err-inj (rw refused at h)) refused)
      | inl ((id, name), session) ↦ elim (Result-cases (permission state caller guild_id)) [
        | inr (x, refused) ↦ inr (
            gateway_reply-Says401 state (codes "permission") state.read_permission
              (state.gateway (permission_url state guild_id) (forward_cookie state caller)) e
              (rw (← err-inj (rw (session, refused) at h)) refused) is401)
        | inl (flags, given) ↦ absurd (if_manager-Is403 flags id e (rw (session, given) at h) is401)
      ]
    ]
