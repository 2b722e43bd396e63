-- ===== src/Sync/RoleLink.antt =====
-- src/services/sync.rs: `sync_for_role_link`.
use birthday_role.Prelude.{
  ℕ, Bool, true, false, not, ◌&&◌, Option, none, some, List, [], ◌∷◌, map, take, if◌then◌else◌,
  Text, codes, text_eq, text_mem, is_empty, leb,
}
use birthday_role.Prelude.Results.{Result, ok, err}
use birthday_role.Errors.{
  Outcome, AppError, database, other_db_error, role_link_not_found, role_link_disabled,
}
use birthday_role.Models.Json.{Value}
use birthday_role.Models.Rule.{RuleTree}
use birthday_role.Sql.{Bind, Where, build_rule_where}
use birthday_role.Sql.Semantics.{bind_at}
use birthday_role.Sync.{
  Link, Member, World, find_link, filter, sort, assigned, tree_of, delete_orphan_role_link,
}
use birthday_role.Sync.Apply.{upload, drain_to_empty}

abbrev pub texts_eq : List Text → List Text → Bool
texts_eq [] [] = true
texts_eq [] (t ∷ ts) = false
texts_eq (s ∷ ss) [] = false
texts_eq (s ∷ ss) (t ∷ ts) = text_eq s t && texts_eq ss ts

-- `selects` is Postgres's evaluation of a WHERE clause, with its binds, on a member's row; `le` is its
-- order of texts; `read_tree` is serde's reading of a stored rule. The replies come from the gateway
-- (`fetch_guild_member_ids`) and from RoleLogic (`get_user_info`, `upload_users`).
module _ (selects : Where → (ℕ → Option Bind) → Member → Bool) (le : Text → Text → Bool)
    (read_tree : Value → Option RuleTree)
    (fetch_guild_member_ids : Text → Result AppError (List Text))
    (get_user_info : Text → Text → Text → Result AppError (ℕ × ℕ))
    (upload_users : Text → Text → List Text → Text → Result AppError ℕ) where
  -- The row test of the two queries; $1 is the list of members, so the rule binds from $2.
  abbrev pub qualifies : RuleTree → Member → Bool
  qualifies tree m =
      if tree.grant_on_any_birthday
      then true
      else selects (build_rule_where tree 1).0 (bind_at 1 (build_rule_where tree 1).1) m

  unfoldable pub qualifying : RuleTree → List Text → ℕ → World → List Text
  qualifying tree member_ids user_limit w = take user_limit (
      sort le (
        map (λ m. m.discord_id)
          (filter (λ m. text_mem m.discord_id member_ids && qualifies tree m) w.members)))

  unfoldable pub replace : Text → Text → Text → List Text → World → Outcome × World
  replace g r token ids w =
      if texts_eq (assigned le g r w) ids then (ok tt, w) else upload upload_users g r token ids w

  -- `user_limit as i64` is negative for a limit beyond 63 bits, which Postgres refuses.
  unfoldable pub with_info :
      Text → Text → Text → RuleTree → List Text → World → Result AppError (ℕ × ℕ) → Outcome × World
  with_info g r token tree ids w (ok (count, user_limit)) =
      if leb user_limit 9223372036854775807
      then replace g r token (qualifying tree ids user_limit w) w
      else (err (database (other_db_error (codes "LIMIT must not be negative"))), w)
  with_info g r token tree ids w (err role_link_not_found) = (ok tt, delete_orphan_role_link g r w)
  with_info g r token tree ids w (err role_link_disabled) = (ok tt, w)
  with_info g r token tree ids w (err e) = (err e, w)

  unfoldable pub with_members :
      Text → Text → Text → RuleTree → World → Result AppError (List Text) → Outcome × World
  with_members g r token tree w (err e) = (err e, w)
  with_members g r token tree w (ok ids) =
      if is_empty ids
      then drain_to_empty upload_users g r token w
      else with_info g r token tree ids w (get_user_info g r token)

  unfoldable pub with_link : Text → Text → World → Option Link → Outcome × World
  with_link g r w none = (ok tt, w)
  with_link g r w (some link) =
      let tree = tree_of read_tree link.rule_tree in
      if not tree.grant_on_any_birthday && is_empty tree.groups
      then drain_to_empty upload_users g r link.api_token w
      else with_members g r link.api_token tree w (fetch_guild_member_ids g)

  unfoldable pub sync_for_role_link : Text → Text → World → Outcome × World
  sync_for_role_link g r w = with_link g r w (find_link g r w.links)
