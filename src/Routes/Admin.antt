-- ===== src/Routes/Admin.antt =====
-- src/routes/admin.rs: the configuration of a role link.
use birthday_role.Prelude.{
  ℕ, Bool, ◌&&◌, Option, none, some, List, [], ◌∷◌, any, if◌then◌else◌, Text, codes,
}
use birthday_role.Prelude.Options.{is_some, map_option}
use birthday_role.Prelude.Results.{Result, ok, err, refuse_if}
use birthday_role.Prelude.Int.{ℤ, pos, eq_ℤ, ◌+ℤ◌}
use birthday_role.Errors.{
  AppError, Outcome, database, other_db_error, bad_request, forbidden, not_found, stale_version,
}
use birthday_role.Models.Json.{Value}
use birthday_role.Models.Rule.{RuleTree}
use birthday_role.Validator.{RuleError}
use birthday_role.Validator.Rules.{RuleTreeBody}
use birthday_role.Jobs.{enqueue_config_sync}
use birthday_role.Sync.{Link, find_link, tree_of}
use birthday_role.Origin.{verify_origin}
use birthday_role.Access.{AppState, Caller, extract_bearer, require_role_config_access}
use birthday_role.Routes.{
  Store, Handler, ◌>>=◌, returned, attempt, found, query, execute, with_world, with_links,
  with_queue, is_link, view_permission_of,
}

pub record RoleConfigSaveBody : Type 0 where
  pub rule_tree_version : ℤ
  pub tree : RuleTreeBody

-- What the page loads of a role link.
pub record ConfigData : Type 0 where
  pub config : RuleTree
  pub rule_tree_version : ℤ
  pub view_permission : Text

abbrev no_such_link : AppError
no_such_link = not_found (codes "This role link doesn't exist. Has it been added in RoleLogic?")

-- A request without a bearer token must come from an allowed origin.
unfoldable pub origin_unless_bearer : AppState → Caller → Outcome
origin_unless_bearer state caller =
    if is_some (extract_bearer caller)
    then ok tt
    else verify_origin caller.headers state.allowed_origins

abbrev pub is_version : Text → Text → ℤ → Link → Bool
is_version g r version l = is_link g r l && eq_ℤ l.rule_tree_version version

abbrev pub saved_link : Value → Link → Link
saved_link tree_json l = record {
  guild_id = l.guild_id;
  role_id = l.role_id;
  api_token = l.api_token;
  rule_tree = tree_json;
  rule_tree_version = l.rule_tree_version +ℤ pos 1;
}

-- `UPDATE role_links SET ... WHERE guild_id = $2 AND role_id = $3 AND rule_tree_version = $4`
unfoldable pub update_links : Text → Text → ℤ → Value → List Link → List Link
update_links g r version tree_json [] = []
update_links g r version tree_json (l ∷ ls) =
    (if is_version g r version l then saved_link tree_json l else l)
    ∷ update_links g r version tree_json ls

abbrev pub version_at : Text → Text → Store → Option ℤ
version_at g r store = map_option (λ l. l.rule_tree_version) (find_link g r store.world.links)

-- Why no row was updated.
abbrev pub not_updated : Option ℤ → AppError
not_updated none = no_such_link
not_updated (some version) = stale_version

-- `?` on the validator's result; `message` is what its errors print.
abbrev pub checked : (RuleError → Text) → Result RuleError RuleTree → Result AppError RuleTree
checked message (ok tree) = ok tree
checked message (err e) = err (bad_request (message e))

-- `parse_rule_tree` is the validator's, with the request that its errors print; `write_tree` and `read_tree`
-- are serde's; `now` is the clock of the jobs.
module _ (parse_rule_tree : RuleTreeBody → Result RuleError RuleTree) (message : RuleError → Text)
    (write_tree : RuleTree → Value) (read_tree : Value → Option RuleTree) (now : ℕ) where
  -- The UPDATE, and what follows it.
  unfoldable pub save_rule : Text → Text → ℤ → Value → Handler ℤ
  save_rule g r version tree_json store =
      if any (is_version g r version) store.world.links
      then (do
        _ ← execute (λ s.
            with_world s (with_links s.world (update_links g r version tree_json s.world.links)))
        row ← query (version_at g r)
        new_version ← found (database (other_db_error (codes "no rows returned"))) row
        _ ← execute (λ s. with_queue s (enqueue_config_sync now g r s.queue))
        returned new_version)
          store
      else attempt (err (not_updated (version_at g r store))) store

  unfoldable pub role_config_save : AppState → Caller → Text → Text → RoleConfigSaveBody → Handler ℤ
  role_config_save state caller g r body = do
    _ ← attempt (origin_unless_bearer state caller)
    access ← attempt (require_role_config_access state caller g r)
    _ ← attempt (
        refuse_if access.read_only
          (forbidden (codes "This configuration is read-only while impersonating a user.")))
    tree ← attempt (checked message (parse_rule_tree body.tree))
    save_rule g r body.rule_tree_version (write_tree tree)

  unfoldable pub role_config_data : AppState → Caller → Text → Text → Handler ConfigData
  role_config_data state caller g r = do
    _ ← attempt (require_role_config_access state caller g r)
    row ← query (λ s. find_link g r s.world.links)
    link ← found no_such_link row
    view_permission ← query (view_permission_of g)
    returned (record {
      config = tree_of read_tree link.rule_tree;
      rule_tree_version = link.rule_tree_version;
      view_permission = view_permission;
    })
