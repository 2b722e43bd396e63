-- ===== src/Tests/Syncs.antt =====
-- src/services/sync.rs, at a concrete server.
use birthday_role.Prelude.{
  ℕ, ◌≡◌, ◌⊎◌, refl, Bool, true, false, none, some, Option, arith, List, [], ◌∷◌, Text, codes,
  length, leb,
}
use birthday_role.Prelude.Results.{Result, ok, err}
use birthday_role.Errors.{AppError, internal}
use birthday_role.Models.Json.{Value, null}
use birthday_role.Models.Rule.{RuleTree}
use birthday_role.Prelude.Int.{pos}
use birthday_role.Birthday.{derived_of}
use birthday_role.Birthday.Resolve.{birthday_row}
use birthday_role.Sql.{Bind, Where}
use birthday_role.Sync.{Link, Member, World, assigned, tree_of, sort}
use birthday_role.Sync.RoleLink.{qualifying, sync_for_role_link}
use birthday_role.Sync.Gateway.{IsAnswer, sync_for_role_link_answered}
use birthday_role.Access.Internal.{member_reply, fetch_guild_member_ids}
use birthday_role.Client.{Reply, replied}
use birthday_role.Sync.Settled.{sync_for_role_link_settles}

-- An order of texts, by length.
abbrev pub shorter : Text → Text → Bool
shorter s t = leb (length s) (length t)

shorter_total : (s t : Text) → shorter s t ≡ false → shorter t s ≡ true
shorter_total s t h = ground arith

abbrev anyone : RuleTree
anyone = record { grant_on_any_birthday = true; groups = [] }

abbrev pub read : Value → Option RuleTree
read v = some anyone

abbrev pub all_rows : Where → (ℕ → Option Bind) → Member → Bool
all_rows w b m = true

abbrev member : Text → Member
member id = record {
  discord_id = id;
  discord_name = none;
  birthday = birthday_row (codes "UTC") 2 29 none;
  show_year = false;
  derived = derived_of 2 29 none none;
}

abbrev link : Link
link = record {
  guild_id = codes "g";
  role_id = codes "r";
  api_token = codes "t";
  rule_tree = null;
  rule_tree_version = pos 1;
}

abbrev pub world : World
world = record {
  links = link ∷ [];
  members = member (codes "ann1") ∷ member (codes "bob") ∷ member (codes "zed42") ∷ [];
  assignments = record { guild_id = codes "g"; role_id = codes "r"; discord_id = codes "old" } ∷ [];
  calls = [];
}

abbrev in_guild : List Text
in_guild = codes "ann1" ∷ codes "bob" ∷ []

abbrev pub members_of : Text → Result AppError (List Text)
members_of g = ok in_guild

abbrev pub info : Text → Text → Text → Result AppError (ℕ × ℕ)
info g r token = ok (1, 100)

abbrev pub accepts : Text → Text → List Text → Text → Result AppError ℕ
accepts g r ids token = ok (length ids)

abbrev out_of_reach : Text → Text → List Text → Text → Result AppError ℕ
out_of_reach g r ids token = err (internal (codes "timeout"))

sync_for_role_link_settles_example :
    (v : World) × (sync_for_role_link all_rows shorter read members_of info accepts
        (codes "g")
        (codes "r")
        world
      ≡ (ok tt, v))
    × (assigned shorter (codes "g") (codes "r") v
        ≡ qualifying all_rows shorter read members_of info accepts anyone in_guild 100 world)
    × (sync_for_role_link all_rows shorter read members_of info accepts (codes "g") (codes "r") v
        ≡ (ok tt, v))
unfolding tree_of qualifying sort
sync_for_role_link_settles_example =
    sync_for_role_link_settles all_rows shorter read members_of info accepts (codes "g") (codes "r")
      link in_guild 1 100 2 refl refl refl refl refl shorter_total world refl refl

-- A gateway that answers nobody.
abbrev silent : Text → Text → List (Text × Text) → Reply
silent url key query = replied 503 (ok (codes "busy"))

abbrev shown : ℕ → Text
shown n = codes "503"

abbrev unread_ids : Text → Result Text (List Text)
unread_ids t = err []

abbrev unread_members : Text → Result Text (List Text × Option Text)
unread_members t = err []

sync_for_role_link_answered_example :
    ((e : AppError) × (sync_for_role_link all_rows shorter read
          (fetch_guild_member_ids
            (codes "https://gw")
            (codes "k")
            silent
            shown
            unread_ids
            unread_members)
          info
          accepts
          (codes "g")
          (codes "r")
          world
        ≡ (err e, world)))
    ⊎ ((ids : List Text) × IsAnswer
          (codes "https://gw")
          (codes "k")
          silent
          shown
          unread_ids
          unread_members
          (member_reply
            (codes "https://gw")
            (codes "k")
            silent
            shown
            unread_ids
            unread_members
            (codes "g"))
          ids)
unfolding tree_of
sync_for_role_link_answered_example =
    sync_for_role_link_answered (codes "https://gw") (codes "k") silent shown unread_ids
      unread_members all_rows shorter read info accepts (codes "g") (codes "r") world link refl refl
