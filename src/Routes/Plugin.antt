-- ===== src/Routes/Plugin.antt =====
-- src/routes/plugin.rs: RoleLogic's calls to the plugin.
use birthday_role.Prelude.{
  Bool, false, not, ◌&&◌, Option, none, some, List, [], ◌∷◌, ◌++◌, any, if◌then◌else◌, Text, codes,
  text_eq,
}
use birthday_role.Prelude.Options.{is_some, map_or}
use birthday_role.Prelude.Results.{Result, ok_or}
use birthday_role.Prelude.Int.{pos}
use birthday_role.Errors.{AppError, unauthorized}
use birthday_role.Prelude.Split.{strip_prefix}
use birthday_role.Models.Json.{Value, bool, array, object, nil, entry, end}
use birthday_role.Sync.{World, Link, filter, of_link}
use birthday_role.Access.{Caller}
use birthday_role.Routes.{
  Handler, ◌>>=◌, returned, attempt, require, found, query, execute, with_world, with_links,
  with_settings, is_link, find_setting,
}

unfoldable pub extract_token : Caller → Result AppError Text
extract_token caller =
    ok_or unauthorized
      (map_or none (strip_prefix (codes "Token ")) (caller.headers (codes "authorization")))

-- The columns that the INSERT of a role link leaves to their defaults.
abbrev pub default_rule_tree : Value
default_rule_tree =
    object
      (entry (codes "grant_on_any_birthday") (bool false) (entry (codes "groups") (array nil) end))

abbrev pub new_link : Text → Text → Text → Link
new_link g r token = record {
  guild_id = g;
  role_id = r;
  api_token = token;
  rule_tree = default_rule_tree;
  rule_tree_version = pos 1;
}

abbrev pub with_token : Text → Link → Link
with_token token l = record {
  guild_id = l.guild_id;
  role_id = l.role_id;
  api_token = token;
  rule_tree = l.rule_tree;
  rule_tree_version = l.rule_tree_version;
}

-- `INSERT ... ON CONFLICT (guild_id, role_id) DO UPDATE SET api_token = $3`
unfoldable pub upsert_link : Text → Text → Text → List Link → List Link
upsert_link g r token [] = new_link g r token ∷ []
upsert_link g r token (l ∷ ls) =
    let rest = upsert_link g r token ls in
    if is_link g r l then with_token token l ∷ ls else l ∷ rest

-- `INSERT INTO guild_settings ... ON CONFLICT (guild_id) DO NOTHING`
abbrev pub ensure_setting : Text → List (Text × Text) → List (Text × Text)
ensure_setting g rows =
    if is_some (find_setting g rows) then rows else rows ++ (g, codes "managers") ∷ []

unfoldable pub register : Caller → Text → Text → Handler {0} Unit
register caller g r = do
  token ← attempt (extract_token caller)
  _ ← execute (λ s. with_world s (with_links s.world (upsert_link g r token s.world.links)))
  execute (λ s. with_settings s (ensure_setting g s.settings))

-- `WHERE api_token = $1`, the first row that has it.
abbrev pub find_token : Text → List Link → Option Link
find_token token [] = none
find_token token (l ∷ ls) =
    let rest = find_token token ls in if text_eq l.api_token token then some l else rest

unfoldable pub get_config : Caller → Handler (Text × Text)
get_config caller = do
  token ← attempt (extract_token caller)
  row ← query (λ s. find_token token s.world.links)
  link ← found unauthorized row
  returned (link.guild_id, link.role_id)

-- `WHERE guild_id = $1 AND role_id = $2 AND api_token = $3`
abbrev pub is_owned : Text → Text → Text → Link → Bool
is_owned g r token l = is_link g r l && text_eq l.api_token token

unfoldable pub post_config : Caller → Text → Text → Handler {0} Unit
post_config caller g r = do
  token ← attempt (extract_token caller)
  exists ← query (λ s. any (is_owned g r token) s.world.links)
  require unauthorized exists

-- The DELETE of a link; the foreign key deletes its assignments.
unfoldable pub delete_link : Text → Text → Text → World → World
delete_link g r token w = record {
  links = filter (λ l. not (is_owned g r token l)) w.links;
  members = w.members;
  assignments =
      if any (is_owned g r token) w.links
      then filter (λ a. not (of_link g r a)) w.assignments
      else w.assignments;
  calls = w.calls;
}

unfoldable pub delete_config : Caller → Text → Text → Handler {0} Unit
delete_config caller g r = do
  token ← attempt (extract_token caller)
  deleted ← query (λ s. any (is_owned g r token) s.world.links)
  _ ← execute (λ s. with_world s (delete_link g r token s.world))
  require unauthorized deleted
