-- ===== src/Tests/Members.antt =====
-- src/routes/verify.rs and users.rs, for one member.
use birthday_role.Prelude.{
  ◌≡◌, ◌≢◌, refl, true, false, Option, none, some, arith, [], ◌∷◌, Text, codes, text_eq,
}
use birthday_role.Prelude.Results.{ok, err}
use birthday_role.Prelude.Int.{ℤ, pos}
use birthday_role.Prelude.Bytes.{as_bytes, encode_utf8}
use birthday_role.Prelude.Split.{splitn, split_once}
use birthday_role.Models.Facts.{Facts}
use birthday_role.Birthday.{Derived, derived_of, days_in_month, compute_derived}
use birthday_role.Birthday.Input
use birthday_role.Birthday.Input.{DateError, check_day, validate_date, normalize_tz}
use birthday_role.Validator.{parse_i64}
use birthday_role.Tokens.{constant_time_eq, gather}
use birthday_role.Tokens.Sessions.{verify_session, verify_cookie_parts}
use birthday_role.Jobs.{enqueue_player_sync}
use birthday_role.Sync.{Member}
use birthday_role.Origin.{verify_origin}
use birthday_role.Access.{AppState, read_session}
use birthday_role.Client.{Reply, replied}
use birthday_role.Routes.{Store, panicked}
use birthday_role.Routes.Verify.{
  SaveBody, row_of, find_row, upsert_member, verify_save, verify_unlink,
}
use birthday_role.Routes.UserList.{UsersData, entry_of}
use birthday_role.Routes.Birthdays.{
  AreDerived, verify_save-IsStored, verify_save-AreDerived, verify_save_returns,
}
use birthday_role.Routes.Rows.{IsRowOf}
use birthday_role.Routes.Privacy.{entry_of-year, with_year}
use birthday_role.Tests.Gregorian.{calendar, calendar-IsGregorian, zones}
use birthday_role.Birthday.Resolve.{birthday_row, IsBirthYear}
use birthday_role.Birthday.Bounds.{compute_facts-IsResolved}
use birthday_role.Tests.Birthdays.{leap_today, leap_day, born_2000}
use birthday_role.Tests.Handlers.{state, direct, store, link, no_jobs}

abbrev shown : DateError → Text
shown e = []

abbrev born : SaveBody
born = record {
  month = pos 2;
  day = pos 29;
  year = none;
  tz = some (codes "UTC");
  show_year = true;
}

abbrev facts_of_february : Derived
facts_of_february = derived_of 2 29 none none

derives : compute_derived calendar (pos 2) (pos 29) none ≡ some facts_of_february
unfolding compute_derived
derives = refl

abbrev ann : Member
ann = row_of calendar zones (pos 2024) shown 7 (codes "42") (codes "Ann") born facts_of_february

abbrev with_ann : Store
with_ann = record {
  world = record { links = link ∷ []; members = ann ∷ []; assignments = []; calls = [] };
  settings = [];
  queue = enqueue_player_sync 7 (codes "42") no_jobs;
}

saves : verify_save calendar zones (pos 2024) shown 7 state direct born store ≡ (ok tt, with_ann)
unfolding verify_save verify_origin read_session verify_session verify_cookie_parts splitn
    split_once parse_i64 constant_time_eq gather as_bytes encode_utf8 validate_date check_day
    days_in_month compute_derived upsert_member
saves = refl

verify_save-IsStored_example :
    (discord_id discord_name : Text) × (row : Member) × (verify_origin direct.headers
        state.allowed_origins
      ≡ ok tt)
    × (read_session state direct ≡ ok (discord_id, discord_name))
    × (validate_date (pos 2024) (pos 2) (pos 29) none ≡ Input.ok)
    × (find_row discord_id (ann ∷ []) ≡ some row)
    × IsRowOf calendar zones (pos 2024) shown 7 discord_id discord_name born row
    × ((id : Text) → text_eq discord_id id ≡ false → find_row id (ann ∷ []) ≡ find_row id [])
    × (with_ann.world.links ≡ store.world.links)
    × (with_ann.queue ≡ enqueue_player_sync 7 discord_id store.queue)
verify_save-IsStored_example =
    verify_save-IsStored calendar zones (pos 2024) shown 7 state direct born store with_ann
      (omega arith) saves

verify_save-AreDerived_example :
    AreDerived calendar zones
      (pos 2024)
      shown
      7
      (verify_save calendar zones (pos 2024) shown 7 state direct born with_ann).1.world.members
    × AreDerived calendar zones
        (pos 2024)
        shown
        7
        (verify_unlink calendar zones (pos 2024) shown 7 state direct with_ann).1.world.members
verify_save-AreDerived_example =
    verify_save-AreDerived calendar zones (pos 2024) shown 7 state direct born with_ann
      (omega arith) (derives, tt)

verify_save_returns_example :
    (verify_save calendar zones (pos 2024) shown 7 state direct born store).0 ≢ err panicked
verify_save_returns_example =
    verify_save_returns calendar zones (pos 2024) shown 7 calendar-IsGregorian (omega arith) state
      direct born store (omega arith)

-- A member who hides the year, and the same member born in 2000.
abbrev shy : Member
shy = record {
  discord_id = codes "42";
  discord_name = none;
  birthday = birthday_row (codes "Asia/Tokyo") 2 29 none;
  show_year = false;
  derived = facts_of_february;
}

abbrev facts_at : (year : Option ℤ) → IsBirthYear year → Facts
facts_at year born =
    (compute_facts-IsResolved calendar calendar-IsGregorian zones (codes "Asia/Tokyo") leap_today
      (omega arith) 2 29 leap_day year born).0

entry_of-year_example :
    entry_of shy (facts_at none tt)
    ≡ entry_of (with_year shy (some (pos 2000))) (facts_at (some (pos 2000)) born_2000)
entry_of-year_example =
    entry_of-year calendar zones shy (some (pos 2000)) (facts_at none tt)
      (facts_at (some (pos 2000)) born_2000) refl
      (compute_facts-IsResolved calendar calendar-IsGregorian zones (codes "Asia/Tokyo") leap_today
        (omega arith) 2 29 leap_day none tt).1
      (compute_facts-IsResolved calendar calendar-IsGregorian zones (codes "Asia/Tokyo") leap_today
        (omega arith) 2 29 leap_day (some (pos 2000)) born_2000).1

-- The gateway of a server whose members may see the list.
abbrev member_reply : Text → Text → Reply
member_reply url cookie = replied 200 (ok [])

abbrev viewing : AppState
viewing = record state {
  gateway = member_reply;
  read_members = λ t. ok (codes "42" ∷ codes "7" ∷ [], none);
}

-- A member of the server, and one of another.
abbrev stranger : Member
stranger = record shy { discord_id = codes "99" }

abbrev opened : Store
opened = record {
  world = record { links = link ∷ []; members = stranger ∷ shy ∷ []; assignments = []; calls = [] };
  settings = (codes "g", codes "members") ∷ [];
  queue = no_jobs;
}

abbrev only_shy : UsersData
only_shy = record { guild_name = none; users = entry_of shy (facts_at none tt) ∷ [] }
