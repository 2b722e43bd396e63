-- ===== src/Routes/UserList.antt =====
-- src/routes/users.rs: the page of a server's birthdays, and who may see it.
use birthday_role.Prelude.{
  Bool, not, ◌&&◌, Option, none, some, List, [], ◌∷◌, ◌++◌, take, if◌then◌else◌, Text, codes, text,
  text_eq, text_mem,
}
use birthday_role.Prelude.Options.{map_option}
use birthday_role.Prelude.Results.{Result, ok, err, refuse_if}
use birthday_role.Prelude.Int.{ℤ, ltb_ℤ, leb_ℤ, eq_ℤ}
use birthday_role.Errors.{AppError, bad_request, forbidden}
use birthday_role.Calendar.{Calendar}
use birthday_role.Models.Facts.{Facts}
use birthday_role.Birthday.Facts.{Zones, compute_facts}
use birthday_role.Sync.{Member, filter}
use birthday_role.Access.{
  AppState, Caller, GuildPermission, guild_permission, guild_members, require_guild_admin,
}
use birthday_role.Routes.{
  Store, Handler, ◌>>=◌, returned, attempt, computed, query, execute, with_settings,
  view_permission_of,
}
use birthday_role.Routes.Admin.{origin_unless_bearer}

-- An entry of the list.
pub record UserEntry : Type 0 where
  pub discord_id : Text
  pub discord_name : Option Text
  pub month : ℤ
  pub day : ℤ
  pub year : Option ℤ
  pub age : Option ℤ
  pub zodiac : Text
  pub chinese_zodiac : Option Text
  pub season : Text
  pub birthstone : Text
  pub days_until : ℤ
  pub is_today : Bool

pub record UsersData : Type 0 where
  pub guild_name : Option Text
  pub users : List UserEntry

-- The year and the age only where the member shows them.
unfoldable pub entry_of : Member → Facts → UserEntry
entry_of r f = record {
  discord_id = r.discord_id;
  discord_name = r.discord_name;
  month = r.birthday.birth_month;
  day = r.birthday.birth_day;
  year = if r.show_year then r.birthday.birth_year else none;
  age = if r.show_year then f.age_years else none;
  zodiac = r.derived.zodiac;
  chinese_zodiac = r.derived.chinese_zodiac;
  season = r.derived.season;
  birthstone = r.derived.birthstone;
  days_until = f.days_until;
  is_today = f.is_today;
}

-- `ORDER BY birth_month, birth_day`, rows of one day in the order in which they stand.
abbrev pub before : Member → Member → Bool
before a b =
    if eq_ℤ a.birthday.birth_month b.birthday.birth_month
    then leb_ℤ a.birthday.birth_day b.birthday.birth_day
    else ltb_ℤ a.birthday.birth_month b.birthday.birth_month

abbrev pub insert_row : Member → List Member → List Member
insert_row m [] = m ∷ []
insert_row m (n ∷ ns) = let rest = insert_row m ns in if before m n then m ∷ n ∷ ns else n ∷ rest

unfoldable pub sorted_rows : List Member → List Member
sorted_rows [] = []
sorted_rows (m ∷ ms) = insert_row m (sorted_rows ms)

abbrev pub listed_rows : List Text → Store → List Member
listed_rows ids s =
    take 2000 (sorted_rows (filter (λ m. text_mem m.discord_id ids) s.world.members))

-- Who may see the page of a server with this permission.
abbrev pub may_view : Text → GuildPermission → Result {0, 0} AppError Unit
may_view view_permission perm =
    if not perm.is_member
    then err (forbidden (codes "You're not a member of this server."))
    else refuse_if (text_eq view_permission (codes "managers") && not perm.is_manager)
        (forbidden (codes "This list is visible to server managers only."))

unfoldable pub view_choice : Text → Result AppError Text
view_choice s =
    if text_mem s (text ("disabled" ∷ "managers" ∷ "members" ∷ []))
    then ok s
    else err (
        bad_request (
          codes "Unknown view_permission '"
          ++ s
          ++ codes "' (expected disabled|managers|members)."))

-- `ON CONFLICT (guild_id) DO UPDATE SET view_permission`
unfoldable pub upsert_setting : Text → Text → List (Text × Text) → List (Text × Text)
upsert_setting g vp [] = (g, vp) ∷ []
upsert_setting g vp ((h, w) ∷ rows) =
    let rest = upsert_setting g vp rows in if text_eq h g then (g, vp) ∷ rows else (h, w) ∷ rest

unfoldable pub set_view_permission : AppState → Caller → Text → Text → Handler Text
set_view_permission state caller g view_permission = do
  _ ← attempt (origin_unless_bearer state caller)
  _ ← attempt (require_guild_admin state caller g)
  vp ← attempt (view_choice view_permission)
  _ ← execute (λ s. with_settings s (upsert_setting g vp s.settings))
  returned vp

abbrev with_entry : Option UserEntry → Option (List UserEntry) → Option (List UserEntry)
with_entry none rest = none
with_entry (some e) none = none
with_entry (some e) (some es) = some (e ∷ es)

module _ (c : Calendar) (z : Zones (c.Date)) where
  -- A panic on one row is one of the handler.
  unfoldable pub entries : List Member → Option (List UserEntry)
  entries [] = some []
  entries (r ∷ rs) =
      with_entry (map_option (entry_of r) (compute_facts c z r.birthday)) (entries rs)

  unfoldable pub users_data : AppState → Caller → Text → Handler UsersData
  users_data state caller g = do
    view_permission ← query (view_permission_of g)
    _ ← attempt (
        refuse_if (text_eq view_permission (codes "disabled"))
          (forbidden (codes "The birthdays page is disabled for this server.")))
    perm ← attempt (guild_permission state caller g)
    _ ← attempt (may_view view_permission perm)
    (member_ids, guild_name) ← attempt (guild_members state caller g)
    rows ← query (listed_rows member_ids)
    users ← computed (entries rows)
    returned (record { guild_name = guild_name; users = users })
