-- ===== src/Sync/Settled.antt =====
-- src/services/sync.rs: what `sync_for_role_link` leaves behind.
use birthday_role.Prelude.{
  ℕ, ◌≡◌, refl, ap, ◌∙◌, Bool, true, false, not, ◌&&◌, Option, some, List, map, Text, is_empty, leb,
  Bool-cases, inl, inr,
}
use birthday_role.Prelude.Results.{Result, ok}
use birthday_role.Errors.{AppError, Outcome}
use birthday_role.Models.Json.{Value}
use birthday_role.Models.Rule.{RuleTree}
use birthday_role.Sql.{Bind, Where}
use birthday_role.Sync.{
  Link, Member, World, put_call, called, find_link, of_link, sort, assigned, tree_of, mirror,
}
use birthday_role.Sync.Apply.{upload_applied, finish, upload}
use birthday_role.Sync.RoleLink.{
  texts_eq, qualifying, replace, with_info, with_members, with_link, sync_for_role_link,
}
use birthday_role.Sync.Order.{
  texts_eq_refl, texts_eq_sound, filter-none, filter-append, rows_of, filter-rows_of, ids-rows_of,
  IsSorted, sort-IsSorted, take-IsSorted, sort_sorted,
}

module _ (selects : Where → (ℕ → Option Bind) → Member → Bool) (le : Text → Text → Bool)
    (read_tree : Value → Option RuleTree)
    (fetch_guild_member_ids : Text → Result AppError (List Text))
    (get_user_info : Text → Text → Text → Result AppError (ℕ × ℕ))
    (upload_users : Text → Text → List Text → Text → Result AppError ℕ) where
  abbrev sync : Text → Text → World → Outcome × World
  sync = sync_for_role_link selects le read_tree fetch_guild_member_ids get_user_info upload_users

  assigned-mirror :
      (total : (s t : Text) → le s t ≡ false → le t s ≡ true) (g r : Text) (ids : List Text)
      (w : World)
      → IsSorted le total ids
      → assigned le g r (mirror g r ids w) ≡ ids
  unfolding assigned mirror
  assigned-mirror total g r ids w h =
      ap (λ rows. sort le (map (λ a. a.discord_id) rows))
        (filter-append (of_link g r) _ (rows_of g r ids)
          ∙ rw (filter-none (of_link g r) w.assignments) (filter-rows_of g r ids))
      ∙ ap (sort le) (ids-rows_of g r ids)
      ∙ sort_sorted le total ids h

  module _ (g r : Text) (link : Link) (ids : List Text) (count user_limit n : ℕ)
      (configured : (not (tree_of read_tree link.rule_tree).grant_on_any_birthday
          && is_empty (tree_of read_tree link.rule_tree).groups)
        ≡ false)
      (members : fetch_guild_member_ids g ≡ ok ids) (some_member : is_empty ids ≡ false)
      (info : get_user_info g r link.api_token ≡ ok (count, user_limit))
      (fits : leb user_limit 9223372036854775807 ≡ true) where
    abbrev set_of : World → List Text
    set_of w =
        qualifying selects le read_tree fetch_guild_member_ids get_user_info upload_users
          (tree_of read_tree link.rule_tree) ids user_limit w

    reaches :
        (w : World)
        → find_link g r w.links ≡ some link
        → sync g r w
          ≡ replace selects le read_tree fetch_guild_member_ids get_user_info upload_users g r
              link.api_token
              (set_of w)
              w
    unfolding sync_for_role_link with_link with_members with_info
    reaches w found = rw (found, configured, members, some_member, info, fits) refl

    kept :
        (w : World)
        → assigned le g r w ≡ set_of w
        → replace selects le read_tree fetch_guild_member_ids get_user_info upload_users g r
            link.api_token
            (set_of w)
            w
          ≡ (ok tt, w)
    unfolding replace
    kept w e = rw (e, texts_eq_refl (set_of w)) refl

    uploaded :
        (w : World)
        → texts_eq (assigned le g r w) (set_of w) ≡ false
        → upload_users g r (set_of w) link.api_token ≡ ok n
        → replace selects le read_tree fetch_guild_member_ids get_user_info upload_users g r
            link.api_token
            (set_of w)
            w
          ≡ (ok tt, mirror g r (set_of w) (called (put_call g r (set_of w)) w))
    unfolding replace upload upload_applied finish
    uploaded w other e = rw (other, e) refl

    -- A sync of a configured link, in a guild with members, that RoleLogic answers and whose upload it
    -- accepts, succeeds, for a link's limit of 63 bits. It leaves the role with just the members whom the
    -- rule's query selects, up to the limit, in their order; and a second sync changes nothing and calls
    -- nothing that changes a role.
    pub sync_for_role_link_settles :
        (total : (s t : Text) → le s t ≡ false → le t s ≡ true) (w : World)
        → find_link g r w.links ≡ some link
        → upload_users g r
            (qualifying selects le read_tree fetch_guild_member_ids get_user_info upload_users
              (tree_of read_tree link.rule_tree)
              ids
              user_limit
              w)
            link.api_token
          ≡ ok n
        → (v : World) × (sync_for_role_link selects le read_tree fetch_guild_member_ids
              get_user_info upload_users g r w
            ≡ (ok tt, v))
          × (assigned le g r v
              ≡ qualifying selects le read_tree fetch_guild_member_ids get_user_info upload_users
                  (tree_of read_tree link.rule_tree)
                  ids
                  user_limit
                  w)
          × (sync_for_role_link selects le read_tree fetch_guild_member_ids get_user_info
                upload_users g r v
              ≡ (ok tt, v))
    unfolding qualifying mirror
    sync_for_role_link_settles total w found uploads =
        elim (Bool-cases (texts_eq (assigned le g r w) (set_of w))) [
          | inl same ↦
              let e = texts_eq_sound (assigned le g r w) (set_of w) same in
              (w, reaches w found ∙ kept w e, e, reaches w found ∙ kept w e)
          | inr other ↦
              let v = mirror g r (set_of w) (called (put_call g r (set_of w)) w) in
              let e =
                assigned-mirror total g r (set_of w) (called (put_call g r (set_of w)) w)
                  (take-IsSorted le total user_limit _ (sort-IsSorted le total _)) in
              (v, reaches w found ∙ uploaded w other uploads, e, reaches v found ∙ kept v e)
        ]
