-- ===== src/Routes/Verify.antt =====
-- src/routes/verify.rs: a member saves or removes a birthday.
use birthday_role.Prelude.{
  ℕ, Bool, not, Option, none, some, List, [], ◌∷◌, any, if◌then◌else◌, Text, codes, text_eq, ◌==◌,
  trim_end_matches,
}
use birthday_role.Prelude.Options.{map_option, map_or, unwrap_or}
use birthday_role.Prelude.Results.{Result, ok, err}
use birthday_role.Prelude.Split.{strip_prefix}
use birthday_role.Prelude.Int.{ℤ, as_i16}
use birthday_role.Errors.{AppError, Outcome, bad_request, not_found}
use birthday_role.Calendar.{Calendar}
use birthday_role.Models.Facts.{Facts}
use birthday_role.Birthday.{Derived, compute_derived}
use birthday_role.Birthday.Facts.{Zones, compute_facts}
use birthday_role.Birthday.Input
use birthday_role.Birthday.Input.{Checked, DateError, validate_date, normalize_tz}
use birthday_role.Jobs.{enqueue_player_sync}
use birthday_role.Sync.{Member, filter}
use birthday_role.Origin.{verify_origin}
use birthday_role.Access.{AppState, Caller, read_session}
use birthday_role.Routes.{
  Handler, ◌>>=◌, returned, attempt, require, computed, query, execute, with_world, with_members,
  with_queue,
}

pub record SaveBody : Type 0 where
  pub month : ℤ
  pub day : ℤ
  pub year : Option ℤ
  pub tz : Option Text
  pub show_year : Bool

abbrev pub is_row : Text → Member → Bool
is_row discord_id m = text_eq m.discord_id discord_id

-- `INSERT ... ON CONFLICT (discord_id) DO UPDATE SET` every other column.
unfoldable pub upsert_member : Member → List Member → List Member
upsert_member row [] = row ∷ []
upsert_member row (m ∷ ms) =
    let rest = upsert_member row ms in if is_row row.discord_id m then row ∷ ms else m ∷ rest

abbrev pub find_row : Text → List Member → Option Member
find_row discord_id [] = none
find_row discord_id (m ∷ ms) =
    let rest = find_row discord_id ms in if is_row discord_id m then some m else rest

-- What the page shows of a birthday.
pub record StatusData : Type 0 where
  pub discord_username : Option Text
  pub birthday : Option (Member × Facts)

-- The date that was checked, with its error's message.
abbrev pub date_outcome : (DateError → Text) → Checked → Outcome
date_outcome message Input.ok = ok tt
date_outcome message (Input.err e) = err (bad_request (message e))

-- `base_url.find("://")`, and what follows it; then from the first slash on.
abbrev pub after_scheme : Text → Option Text
after_scheme [] = none
after_scheme (c ∷ s) =
    let rest = after_scheme s in
    elim (strip_prefix (codes "://") (c ∷ s)) [ some after ↦ some after | none ↦ rest ]

abbrev pub from_slash : Text → Option Text
from_slash [] = none
from_slash (c ∷ s) = let rest = from_slash s in if c == 47 then some (c ∷ s) else rest

unfoldable pub path_only : Text → Text
path_only base_url =
    map_or [] (λ after. map_or [] (trim_end_matches (λ c. c == 47)) (from_slash after))
      (after_scheme base_url)

-- `c` is chrono, `z` chrono-tz at the instant of the request; `this_year` and `now` are of its clock.
module _ (c : Calendar) (z : Zones (c.Date)) (this_year : ℤ) (message : DateError → Text)
    (now : ℕ) where
  abbrev pub row_of : Text → Text → SaveBody → Derived → Member
  row_of discord_id discord_name body derived = record {
    discord_id = discord_id;
    discord_name = some discord_name;
    birthday = record {
      birth_month = as_i16 body.month;
      birth_day = as_i16 body.day;
      birth_year = body.year;
      tz = normalize_tz z (unwrap_or (codes "UTC") body.tz);
    };
    show_year = body.show_year;
    derived = derived;
  }

  unfoldable pub verify_save : AppState → Caller → SaveBody → Handler {0} Unit
  verify_save state caller body = do
    _ ← attempt (verify_origin caller.headers state.allowed_origins)
    (discord_id, discord_name) ← attempt (read_session state caller)
    _ ← attempt (date_outcome message (validate_date this_year body.month body.day body.year))
    derived ← computed (compute_derived c body.month body.day body.year)
    _ ← execute (λ s. with_world s (
        with_members s.world
          (upsert_member (row_of discord_id discord_name body derived) s.world.members)))
    execute (λ s. with_queue s (enqueue_player_sync now discord_id s.queue))

  unfoldable pub verify_unlink : AppState → Caller → Handler {0} Unit
  verify_unlink state caller = do
    _ ← attempt (verify_origin caller.headers state.allowed_origins)
    (discord_id, _) ← attempt (read_session state caller)
    removed ← query (λ s. any (is_row discord_id) s.world.members)
    _ ← execute (λ s.
        with_world s
          (with_members s.world (filter (λ m. not (is_row discord_id m)) s.world.members)))
    _ ← require (not_found (codes "No saved birthday to remove.")) removed
    execute (λ s. with_queue s (enqueue_player_sync now discord_id s.queue))

  abbrev session_name : Result AppError (Text × Text) → Option (Text × Text)
  session_name (ok p) = some p
  session_name (err e) = none

  abbrev with_facts : Option Member → Option (Option (Member × Facts))
  with_facts none = some none
  with_facts (some m) = map_option (λ f. some (m, f)) (compute_facts c z m.birthday)

  -- Without a session nothing is looked up.
  unfoldable pub verify_status : AppState → Caller → Handler StatusData
  verify_status state caller = do
    discord ← returned (session_name (read_session state caller))
    row ← query (λ s. map_or none (λ p. find_row p.0 s.world.members) discord)
    birthday ← computed (with_facts row)
    returned (record { discord_username = map_option (λ p. p.1) discord; birthday = birthday })
