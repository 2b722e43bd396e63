-- ===== src/Sync/Gateway.antt =====
-- src/services/sync.rs with src/services/auth_gateway.rs: a sync acts on an answer of the gateway alone.
use birthday_role.Prelude.{
  ℕ, ◌≡◌, refl, ◌⊎◌, inl, inr, Bool, true, false, not, ◌&&◌, Option, some, List, Text, codes,
  is_empty, Bool-cases,
}
use birthday_role.Prelude.Results.{Result, ok, err, Result-cases}
use birthday_role.Errors.{AppError}
use birthday_role.Models.Json.{Value}
use birthday_role.Models.Rule.{RuleTree}
use birthday_role.Client.{Reply, replied, unreachable, is_success}
use birthday_role.Access.Internal.{
  member_reply, internal_reply, fetch_guild_member_ids_full, fetch_guild_member_ids,
}
use birthday_role.Sql.{Bind, Where}
use birthday_role.Sync.{Link, Member, World, find_link, tree_of}
use birthday_role.Sync.RoleLink.{with_members, with_link, sync_for_role_link}

module _ (base key : Text) (get : Text → Text → List (Text × Text) → Reply) (show_status : ℕ → Text)
    (read_guild_ids : Text → Result Text (List Text))
    (read_member_ids : Text → Result Text (List Text × Option Text)) where
  -- The reply is a success whose body is read as these members.
  abbrev pub IsAnswer : Reply → List Text → Type 0
  IsAnswer reply ids =
      (status : ℕ) × (body : Text) × (name : Option Text) × (reply ≡ replied status (ok body))
      × (is_success status ≡ true)
      × (read_member_ids body ≡ ok (ids, name))

  abbrev fetch : Text → Result AppError (List Text)
  fetch = fetch_guild_member_ids base key get show_status read_guild_ids read_member_ids

  reply_answered :
      (what : Text) (reply : Reply)
      → ((e : AppError) × (internal_reply base key get show_status read_guild_ids read_member_ids
              what read_member_ids reply
            ≡ err e))
        ⊎ ((ids : List Text) × (name : Option Text) × (internal_reply base key get show_status
                read_guild_ids read_member_ids what read_member_ids reply
              ≡ ok (ids, name))
            × IsAnswer reply ids)
  unfolding internal_reply
  reply_answered what (unreachable e) = inl (_, refl)
  reply_answered what (replied status (err e)) = elim (Bool-cases (is_success status)) [
    | inl good ↦ rw good (inl (_, refl))
    | inr bad ↦ rw bad (inl (_, refl))
  ]
  reply_answered what (replied status (ok body)) = elim (Bool-cases (is_success status)) [
    | inl good ↦ elim (Result-cases (read_member_ids body)) [
      | inl ((ids, name), read) ↦
          rw (good, read) (inr (ids, name, refl, (status, body, name, refl, good, read)))
      | inr (e, unread) ↦ rw (good, unread) (inl (_, refl))
    ]
    | inr bad ↦ rw bad (inl (_, refl))
  ]

  fetch_answered :
      (g : Text)
      → ((e : AppError) × (fetch g ≡ err e))
        ⊎ ((ids : List Text) × (fetch g ≡ ok ids)
            × IsAnswer (member_reply base key get show_status read_guild_ids read_member_ids g) ids)
  unfolding fetch_guild_member_ids fetch_guild_member_ids_full
  fetch_answered g =
      elim (reply_answered (codes "guild_member_ids")
        (member_reply base key get show_status read_guild_ids read_member_ids g)) [
          | inl (e, failed) ↦ inl (e, rw failed refl)
          | inr (ids, name, read, answer) ↦ inr (ids, rw read refl, answer)
        ]

  module _ (selects : Where → (ℕ → Option Bind) → Member → Bool) (le : Text → Text → Bool)
      (read_tree : Value → Option RuleTree)
      (get_user_info : Text → Text → Text → Result AppError (ℕ × ℕ))
      (upload_users : Text → Text → List Text → Text → Result AppError ℕ) where
    -- The sync of a configured link either fails and leaves everything as it was, the calls to RoleLogic
    -- included, or the gateway answered the request for the members of the guild with a success
    -- whose body lists them: that the gateway cannot be reached, refuses or sends something else
    -- never takes the role from anyone.
    pub sync_for_role_link_answered :
        (g r : Text) (w : World) (link : Link)
        → find_link g r w.links ≡ some link
        → (not (tree_of read_tree link.rule_tree).grant_on_any_birthday
            && is_empty (tree_of read_tree link.rule_tree).groups)
          ≡ false
        → ((e : AppError) × (sync_for_role_link selects le read_tree
                (fetch_guild_member_ids base key get show_status read_guild_ids read_member_ids)
                get_user_info
                upload_users
                g
                r
                w
              ≡ (err e, w)))
          ⊎ ((ids : List Text) × IsAnswer
                (member_reply base key get show_status read_guild_ids read_member_ids g)
                ids)
    unfolding sync_for_role_link with_link with_members
    sync_for_role_link_answered g r w link there configured = elim (fetch_answered g) [
      | inl (e, failed) ↦ inl (e, rw (there, configured, failed) refl)
      | inr (ids, read, answer) ↦ inr (ids, answer)
    ]
