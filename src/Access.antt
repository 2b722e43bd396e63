-- ===== src/Access.antt =====
-- src/services/auth.rs, with the dual gate of src/routes/admin.rs: who may do what. The parts of the program's state that
-- a request reads, and the code that is not the repository's own, are the fields of `AppState`.
pub mod Granted
pub mod Internal
use birthday_role.Prelude.{
  ℕ, Bool, true, false, not, ◌&&◌, ◌||◌, Option, none, some, List, [], ◌∷◌, ◌++◌, if◌then◌else◌,
  Text, codes, text_eq, ◌==◌,
}
use birthday_role.Prelude.Options.{map_or}
use birthday_role.Prelude.Results.{Result, ok, err, ok_or, refuse_if, ◌>>=◌}
use birthday_role.Prelude.Int.{ℤ}
use birthday_role.Prelude.Split.{strip_prefix}
use birthday_role.Errors.{AppError, internal, unauthorized, unauthorized_with, forbidden}
use birthday_role.Tokens.Sessions.{IframeSession, verify_iframe_session, verify_session}
use birthday_role.Tokens.Jwt.{Header, Claims}
use birthday_role.Client.{Reply, replied, unreachable, is_success}

pub record AppState : Type 0 where
  pub hmac_sha256 : List ℕ → List ℕ → List ℕ
  pub hex_encode : List ℕ → Text
  pub url_decode : Text → Option Text
  pub session_secret : Text
  pub auth_gateway_url : Text
  pub base_url : Text
  pub allowed_origins : List Text
  -- Seconds of the clock.
  pub now : ℤ
  -- The cookie header that forwards a session, and the gateway's reply to a request with it.
  pub encoded_cookie : Text → Text
  pub gateway : Text → Text → Reply
  pub show_status : ℕ → Text
  -- serde's reading of the gateway's replies.
  pub read_permission : Text → Result Text (Bool × Bool)
  pub read_members : Text → Result Text (List Text × Option Text)

-- A request's headers and cookies.
pub record Caller : Type 0 where
  pub headers : Text → Option Text
  pub cookies : Text → Option Text

unfoldable pub classify_gateway_status : AppState → ℕ → Text → AppError
classify_gateway_status state status body =
    if status == 401
    then unauthorized_with (
        codes "The Auth Gateway rejected your session ("
        ++ state.show_status status
        ++ codes "). Please sign in again.")
    else internal (
        codes "Auth Gateway at "
        ++ state.auth_gateway_url
        ++ codes " returned "
        ++ state.show_status status
        ++ codes ": "
        ++ body)

abbrev pub verified_cookie : AppState → Text → Option (Text × Text)
verified_cookie state value =
    verify_session state.hmac_sha256 state.hex_encode state.url_decode state.now value
      state.session_secret

unfoldable pub read_session : AppState → Caller → Result AppError (Text × Text)
read_session state caller = do
  cookie ←
      ok_or (unauthorized_with (codes "Not signed in. Log in with Discord to continue."))
        (caller.cookies (codes "rl_session"))
  ok_or (unauthorized_with (codes "Session expired or invalid.")) (verified_cookie state cookie)

unfoldable pub forward_cookie : AppState → Caller → Text
forward_cookie state caller = map_or [] state.encoded_cookie (caller.cookies (codes "rl_session"))

abbrev pub json_of {ℓ} : {A : Type ℓ} → Result Text A → Result AppError A
json_of (ok a) = ok a
json_of (err e) = err (internal (codes "auth_gateway response not JSON: " ++ e))

-- What a request to the gateway comes to; `what` names it in the errors.
abbrev pub gateway_reply {ℓ} :
    {A : Type ℓ} → AppState → Text → (Text → Result Text A) → Reply → Result AppError A
gateway_reply state what read (unreachable e) =
    err (internal (codes "auth_gateway " ++ what ++ codes " request: " ++ e))
gateway_reply state what read (replied status body) =
    if not (is_success status)
    then err (classify_gateway_status state status (elim body [ ok t ↦ t | err e ↦ [] ]))
    else json_of (body >>= read)

abbrev pub permission_url : AppState → Text → Text
permission_url state guild_id =
    state.auth_gateway_url ++ codes "/auth/guild_permission?guild_id=" ++ guild_id

abbrev pub permission : AppState → Caller → Text → Result AppError (Bool × Bool)
permission state caller guild_id =
    gateway_reply state (codes "permission") state.read_permission
      (state.gateway (permission_url state guild_id) (forward_cookie state caller))

abbrev pub if_manager : Bool × Bool → Text → Result AppError Text
if_manager (is_member, is_manager) discord_id = do
  _ ← refuse_if (not is_member) (forbidden (codes "You're not a member of this server."))
  _ ← refuse_if (not is_manager) (forbidden (codes "You need Manage Server to do this."))
  ok discord_id

unfoldable pub require_manager : AppState → Caller → Text → Result AppError Text
require_manager state caller guild_id = do
  (discord_id, _) ← read_session state caller
  flags ← permission state caller guild_id
  if_manager flags discord_id

unfoldable pub extract_bearer : Caller → Option Text
extract_bearer caller =
    map_or none (strip_prefix (codes "Bearer ")) (caller.headers (codes "authorization"))

abbrev pub session_of : AppState → Text → Option IframeSession
session_of state bearer =
    verify_iframe_session state.hmac_sha256 state.hex_encode state.now bearer state.session_secret

abbrev pub live_session : AppState → Text → Result AppError IframeSession
live_session state bearer =
    ok_or
      (unauthorized_with
        (codes "Your session expired. Reopen the plugin in the RoleLogic dashboard."))
      (session_of state bearer)

abbrev pub guild_admin_by : AppState → Caller → Text → Option Text → Result AppError Text
guild_admin_by state caller guild_id none = require_manager state caller guild_id
guild_admin_by state caller guild_id (some bearer) = do
  s ← live_session state bearer
  _ ←
      refuse_if (not (text_eq s.guild_id guild_id))
        (forbidden (codes "Token does not grant access to this server."))
  ok s.discord_id

unfoldable pub require_guild_admin : AppState → Caller → Text → Result AppError Text
require_guild_admin state caller guild_id =
    guild_admin_by state caller guild_id (extract_bearer caller)

pub record GuildPermission : Type 0 where
  pub discord_id : Text
  pub is_member : Bool
  pub is_manager : Bool

unfoldable pub guild_permission : AppState → Caller → Text → Result AppError GuildPermission
guild_permission state caller guild_id = do
  (discord_id, _) ← read_session state caller
  (is_member, is_manager) ← permission state caller guild_id
  ok (record { discord_id = discord_id; is_member = is_member; is_manager = is_manager })

unfoldable pub guild_members : AppState → Caller → Text → Result AppError (List Text × Option Text)
guild_members state caller guild_id = do
  _ ← read_session state caller
  gateway_reply state (codes "members") state.read_members (
      state.gateway
        (state.auth_gateway_url
          ++ codes "/auth/guild_members?guild_id="
          ++ guild_id
          ++ codes "&plugin=birthday-role")
        (forward_cookie state caller))

pub record RoleConfigAccess : Type 0 where
  pub discord_id : Text
  pub read_only : Bool

abbrev pub role_config_access_by :
    AppState → Caller → Text → Text → Option Text → Result AppError RoleConfigAccess
role_config_access_by state caller guild_id role_id none = do
  discord_id ← require_manager state caller guild_id
  ok (record { discord_id = discord_id; read_only = false })
role_config_access_by state caller guild_id role_id (some bearer) = do
  s ← live_session state bearer
  _ ←
      refuse_if (not (text_eq s.guild_id guild_id) || not (text_eq s.role_id role_id))
        (forbidden (codes "Token does not grant access to this role link."))
  ok (record { discord_id = s.discord_id; read_only = s.read_only })

unfoldable pub require_role_config_access :
    AppState → Caller → Text → Text → Result AppError RoleConfigAccess
require_role_config_access state caller guild_id role_id =
    role_config_access_by state caller guild_id role_id (extract_bearer caller)
