-- ===== src/Sync/Player.antt =====
-- src/services/sync.rs: `sync_for_player`, and the fan-out of the clock. The calls of one member run
-- concurrently in the source, one per role link; here they run in the order of the links.
use birthday_role.Prelude.{
  ℕ, Bool, false, not, ◌&&◌, Option, none, some, List, [], ◌∷◌, ◌++◌, any, if◌then◌else◌, Text,
  text_eq, text_mem, is_empty, length,
}
use birthday_role.Prelude.Options.{map_option, map_or, is_some}
use birthday_role.Prelude.Results.{Result, ok, err}
use birthday_role.Errors.{Outcome, AppError, role_link_not_found}
use birthday_role.Models.Facts.{Facts}
use birthday_role.Models.Json.{Value}
use birthday_role.Models.Rule.{RuleTree}
use birthday_role.Birthday.{BirthdayInput}
use birthday_role.Eval.{evaluate}
use birthday_role.Jobs.{Queue, enqueue_config_sync_unique}
use birthday_role.Sync.{
  Link, Member, Assignment, World, add_call, remove_call, called, filter, of_link, tree_of,
  with_assignments, delete_orphan_role_link,
}

pub data Action : Type 0 where
  add remove : Text → Text → Text → Action

-- `compile` is the regex crate's, `facts_at` is `compute_facts` at the instant of the sync, and
-- `read_tree` is serde's reading of a stored rule.
module _ (compile : Text → Option (Text → Bool)) (facts_at : BirthdayInput → Facts)
    (read_tree : Value → Option RuleTree)
    (fetch_user_guild_ids : Text → Result AppError (List Text))
    (add_user remove_user : Text → Text → Text → Text → Result AppError Bool) where
  abbrev pub find_member : Text → List Member → Option BirthdayInput
  find_member id [] = none
  find_member id (m ∷ ms) =
      let rest = find_member id ms in if text_eq m.discord_id id then some m.birthday else rest

  unfoldable pub member_qualifies : RuleTree → Option Facts → Bool
  member_qualifies tree facts =
      if tree.grant_on_any_birthday
      then is_some facts
      else if is_empty tree.groups
      then false
      else map_or false (evaluate compile tree) facts

  abbrev pub of_member : Text → Text → Text → Assignment → Bool
  of_member g r id a = of_link g r a && text_eq a.discord_id id

  abbrev pub is_assigned : Text → Text → Text → World → Bool
  is_assigned g r id w = any (of_member g r id) w.assignments

  unfoldable pub action_for : Text → Option Facts → World → Link → List Action
  action_for id facts w l =
      let qualifies = member_qualifies (tree_of read_tree l.rule_tree) facts in
      let assigned = is_assigned l.guild_id l.role_id id w in
      if qualifies && not assigned
      then add l.guild_id l.role_id l.api_token ∷ []
      else if not qualifies && assigned
      then remove l.guild_id l.role_id l.api_token ∷ []
      else []

  unfoldable pub actions : Text → Option Facts → World → List Link → List Action
  actions id facts w [] = []
  actions id facts w (l ∷ ls) = action_for id facts w l ++ actions id facts w ls

  -- INSERT ... ON CONFLICT DO NOTHING, and the DELETE of one row.
  abbrev pub assign : Text → Text → Text → World → World
  assign g r id w =
      if is_assigned g r id w
      then w
      else with_assignments w
          (w.assignments ++ record { guild_id = g; role_id = r; discord_id = id } ∷ [])

  abbrev pub unassign : Text → Text → Text → World → World
  unassign g r id w = with_assignments w (filter (λ a. not (of_member g r id a)) w.assignments)

  unfoldable pub added : Text → Text → Text → Result AppError Bool → World → World
  added g r id (ok changed) w = assign g r id w
  added g r id (err role_link_not_found) w = delete_orphan_role_link g r w
  added g r id (err e) w = w

  unfoldable pub removed : Text → Text → Text → Result AppError Bool → World → World
  removed g r id (ok changed) w = unassign g r id w
  removed g r id (err role_link_not_found) w = delete_orphan_role_link g r w
  removed g r id (err e) w = w

  unfoldable pub run_action : Text → Action → World → World
  run_action id (add g r token) w =
      added g r id (add_user g r id token) (called (add_call g r id) w)
  run_action id (remove g r token) w =
      removed g r id (remove_user g r id token) (called (remove_call g r id) w)

  unfoldable pub run_actions : Text → List Action → World → World
  run_actions id [] w = w
  run_actions id (a ∷ as') w = run_actions id as' (run_action id a w)

  unfoldable pub with_guilds : Text → World → Result AppError (List Text) → Outcome × World
  with_guilds id w (err e) = (err e, w)
  with_guilds id w (ok guild_ids) =
      let links = filter (λ l. text_mem l.guild_id guild_ids) w.links in
      let facts = map_option facts_at (find_member id w.members) in
      (ok tt, run_actions id (actions id facts w links) w)

  unfoldable pub sync_for_player : Text → World → Outcome × World
  sync_for_player id w = with_guilds id w (fetch_user_guild_ids id)

-- `enqueue_resync_all_role_links`, with the number of links.
module _ (json_text : Value → Text) where
  unfoldable pub enqueue_all : ℕ → List Link → Queue → Queue
  enqueue_all now [] q = q
  enqueue_all now (l ∷ ls) q =
      enqueue_all now ls (enqueue_config_sync_unique json_text now l.guild_id l.role_id q)

  unfoldable pub enqueue_resync_all_role_links : ℕ → World → Queue → Queue × ℕ
  enqueue_resync_all_role_links now w q = (enqueue_all now w.links q, length w.links)
