-- ===== src/Tests/Handlers.antt =====
-- src/routes and src/services/auth.rs, at a concrete server with one role link and one member.
use birthday_role.Prelude.{
  ◌≡◌, ◌≢◌, ◌⊎◌, refl, true, false, Option, none, some, [], ◌∷◌, Text, codes, text_eq,
  if◌then◌else◌,
}
use birthday_role.Prelude.Results.{Result, ok, err}
use birthday_role.Prelude.Int.{pos, ◌+ℤ◌}
use birthday_role.Prelude.Bytes.{as_bytes, encode_utf8}
use birthday_role.Prelude.Split.{splitn, split_once, strip_prefix}
use birthday_role.Errors.{AppError, unauthorized_with}
use birthday_role.Errors.Response.{into_response}
use birthday_role.Models.Json.{Value, null, bool}
use birthday_role.Models.Rule.{RuleTree}
use birthday_role.Validator.{RuleError, parse_i64}
use birthday_role.Validator.Rules.{RuleTreeBody}
use birthday_role.Jobs.{Queue, enqueue_config_sync}
use birthday_role.Tokens.{constant_time_eq, gather}
use birthday_role.Tokens.Sessions.{
  verify_iframe_parts, verify_iframe_session, verify_cookie_parts, verify_session,
}
use birthday_role.Client.{Reply, replied}
use birthday_role.Sync.{Link}
use birthday_role.Access.{
  AppState, Caller, RoleConfigAccess, read_session, forward_cookie, require_manager, extract_bearer,
  require_role_config_access, classify_gateway_status, permission_url,
}
use birthday_role.Access.Granted.{
  IsBearer, IsDirect, Says401, require_role_config_access_granted, require_manager_401,
}
use birthday_role.Routes.{Store}
use birthday_role.Routes.Admin.{
  RoleConfigSaveBody, origin_unless_bearer, update_links, save_rule, role_config_save,
}
use birthday_role.Routes.Once.{role_config_save_once, next, done, registering}
use birthday_role.Routes.Plugin.{register}
use birthday_role.Tests.Signed.{mac, same}

abbrev pub signed_out : Text → Text → Reply
signed_out url cookie = replied 401 (ok (codes "no session"))

abbrev pub state : AppState
state = record {
  hmac_sha256 = mac;
  hex_encode = same;
  url_decode = some;
  session_secret = codes "key";
  auth_gateway_url = codes "https://gw";
  base_url = codes "https://p";
  allowed_origins = codes "https://p" ∷ [];
  now = pos 5;
  encoded_cookie = λ v. v;
  gateway = signed_out;
  show_status = λ n. codes "401 Unauthorized";
  read_permission = λ t. ok (true, true);
  read_members = λ t. ok (codes "42" ∷ [], none);
}

-- The page of the link g, r, opened by 42; and the same account with its cookie.
abbrev pub embedded : Caller
embedded = record {
  headers = λ name.
      if text_eq name (codes "authorization")
      then some (codes "Bearer ifs:42:g:r:0:9:key42:g:r:0:9")
      else none;
  cookies = λ name. none;
}

abbrev pub direct : Caller
direct = record {
  headers = λ name. if text_eq name (codes "origin") then some (codes "https://p/") else none;
  cookies = λ name. some (codes "42:Ann:9:key42:Ann:9");
}

abbrev pub link : Link
link = record {
  guild_id = codes "g";
  role_id = codes "r";
  api_token = codes "t";
  rule_tree = null;
  rule_tree_version = pos 3;
}

abbrev pub no_jobs : Queue
no_jobs = record { rows = []; next_id = 1; notified = 0 }

abbrev pub store : Store
store = record {
  world = record { links = link ∷ []; members = []; assignments = []; calls = [] };
  settings = [];
  queue = no_jobs;
}

abbrev writer : RoleConfigAccess
writer = record { discord_id = codes "42"; read_only = false }

embedded_granted : require_role_config_access state embedded (codes "g") (codes "r") ≡ ok writer
unfolding require_role_config_access extract_bearer strip_prefix verify_iframe_session
    verify_iframe_parts splitn split_once parse_i64 constant_time_eq gather as_bytes encode_utf8
embedded_granted = refl

require_role_config_access_granted_example :
    IsBearer state embedded (codes "g") (codes "r") writer
    ⊎ IsDirect state embedded (codes "g") writer
require_role_config_access_granted_example =
    require_role_config_access_granted state embedded (codes "g") (codes "r") writer
      embedded_granted

abbrev gateway_401 : AppError
gateway_401 =
    unauthorized_with
      (codes "The Auth Gateway rejected your session (401 Unauthorized). Please sign in again.")

manager_refused : require_manager state direct (codes "g") ≡ err gateway_401
unfolding require_manager read_session verify_session verify_cookie_parts splitn split_once
    parse_i64 constant_time_eq gather as_bytes encode_utf8 classify_gateway_status
manager_refused = refl

is_401 : (into_response gateway_401).status ≡ 401
unfolding into_response
is_401 = refl

require_manager_401_example :
    (read_session state direct ≡ err gateway_401)
    ⊎ Says401 (state.gateway (permission_url state (codes "g")) (forward_cookie state direct))
require_manager_401_example =
    require_manager_401 state direct (codes "g") gateway_401 manager_refused is_401

abbrev tree : RuleTree
tree = record { grant_on_any_birthday = true; groups = [] }

abbrev anyone : RuleTreeBody → Result RuleError RuleTree
anyone body = ok tree

abbrev print : RuleError → Text
print e = []

abbrev write : RuleTree → Value
write t = bool true

abbrev read : Value → Option RuleTree
read v = some tree

abbrev body : RoleConfigSaveBody
body = record {
  rule_tree_version = pos 3;
  tree = record { grant_on_any_birthday = true; groups = [] };
}

abbrev saved : Store
saved = record {
  world = record {
    links =
        record {
          guild_id = codes "g";
          role_id = codes "r";
          api_token = codes "t";
          rule_tree = bool true;
          rule_tree_version = pos 4;
        }
        ∷ [];
    members = [];
    assignments = [];
    calls = [];
  };
  settings = [];
  queue = enqueue_config_sync 7 (codes "g") (codes "r") no_jobs;
}

saves :
    role_config_save anyone print write read 7 state embedded (codes "g") (codes "r") body store
    ≡ (ok (pos 4), saved)
unfolding role_config_save save_rule update_links origin_unless_bearer require_role_config_access
    extract_bearer strip_prefix verify_iframe_session verify_iframe_parts splitn split_once
    parse_i64 constant_time_eq gather as_bytes encode_utf8 ◌+ℤ◌
saves = refl

-- Between the two saves, the link is registered again with its token.
abbrev renewing : Caller
renewing = record {
  headers = λ name. if text_eq name (codes "authorization") then some (codes "Token t") else none;
  cookies = λ name. none;
}

abbrev between : Store
between = (register renewing (codes "g") (codes "r") saved).1

role_config_save_once_example :
    role_config_save anyone print write read 8 state embedded (codes "g") (codes "r") body between
    ≢ (ok (pos 5), between)
role_config_save_once_example =
    role_config_save_once anyone print write read 7 8 state state embedded embedded (codes "g")
      (codes "r") body body store saved between between (pos 4) (pos 5) (refl, tt) refl saves
      (next saved between between (registering renewing (codes "g") (codes "r") saved)
        (done between))
