-- ===== src/Routes/Preview.antt =====
-- src/routes/admin.rs: the preview of a rule, which counts whom it would match and asks RoleLogic nothing.
use birthday_role.Prelude.{
  ℕ, Bool, ◌&&◌, Option, List, length, if◌then◌else◌, Text, codes, text_mem, is_empty,
}
use birthday_role.Prelude.Results.{Result, ok, err}
use birthday_role.Errors.{AppError, not_found}
use birthday_role.Models.Json.{Value}
use birthday_role.Models.Rule.{RuleTree}
use birthday_role.Validator.{RuleError}
use birthday_role.Validator.Rules.{RuleTreeBody}
use birthday_role.Sql.{Bind, Where, build_rule_where}
use birthday_role.Sql.Semantics.{bind_at}
use birthday_role.Sync.{Member, find_link, filter, tree_of}
use birthday_role.Access.{AppState, Caller, require_role_config_access}
use birthday_role.Routes.{Handler, ◌>>=◌, attempt, found, query}
use birthday_role.Routes.Admin.{origin_unless_bearer, checked}

pub data Preview : Type 0 where
  unavailable : Text → Preview
  counted : ℕ → ℕ → Preview

-- `matching` and `linked` of `counted` are the two queries' counts; `selects` is Postgres's evaluation of a
-- WHERE clause with its binds on a row, of which $1 is the list of members.
module _ (selects : Where → (ℕ → Option Bind) → Member → Bool)
    (fetch_guild_member_ids : Text → Result AppError (List Text)) where
  abbrev pub linked : List Text → List Member → ℕ
  linked member_ids rows = length (filter (λ m. text_mem m.discord_id member_ids) rows)

  abbrev pub is_match : RuleTree → Member → Bool
  is_match tree m = selects (build_rule_where tree 1).0 (bind_at 1 (build_rule_where tree 1).1) m

  abbrev pub matching : RuleTree → List Text → List Member → ℕ
  matching tree member_ids rows =
      length (filter (λ m. text_mem m.discord_id member_ids && is_match tree m) rows)

  abbrev pub preview_of : RuleTree → Result AppError (List Text) → List Member → Preview
  preview_of tree (err e) rows = unavailable (
      codes
        "Member list temporarily unavailable; preview will work once the Auth Gateway responds.")
  preview_of tree (ok member_ids) rows =
      if is_empty member_ids
      then counted 0 0
      else counted (matching tree member_ids rows) (linked member_ids rows)

  unfoldable pub preview_count_for : Text → RuleTree → Handler Preview
  preview_count_for guild_id tree =
      query (λ s. preview_of tree (fetch_guild_member_ids guild_id) s.world.members)

  -- `read_tree` is serde's reading of a stored rule.
  unfoldable pub role_config_preview :
      (Value → Option RuleTree) → AppState → Caller → Text → Text → Handler Preview
  role_config_preview read_tree state caller guild_id role_id = do
    _ ← attempt (require_role_config_access state caller guild_id role_id)
    row ← query (λ s. find_link guild_id role_id s.world.links)
    link ← found (not_found (codes "Role link not found.")) row
    preview_count_for guild_id (tree_of read_tree link.rule_tree)

  -- `parse_rule_tree` is the validator's, and `message` what its errors print.
  unfoldable pub role_config_preview_edit :
      (RuleTreeBody → Result RuleError RuleTree)
      → (RuleError → Text)
      → AppState
      → Caller
      → Text
      → Text
      → RuleTreeBody
      → Handler Preview
  role_config_preview_edit parse_rule_tree message state caller guild_id role_id body = do
    _ ← attempt (origin_unless_bearer state caller)
    _ ← attempt (require_role_config_access state caller guild_id role_id)
    tree ← attempt (checked message (parse_rule_tree body))
    preview_count_for guild_id tree
