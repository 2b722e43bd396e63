-- ===== src/Sync/Safe.antt =====
-- src/services/sync.rs: when `sync_for_role_link` changes the tables.
use birthday_role.Prelude.{ℕ, ◌≡◌, ◌⊎◌, Bool, not, Option, List, Text}
use birthday_role.Prelude.Results.{Result, ok, err}
use birthday_role.Errors.{AppError, Outcome, role_link_not_found}
use birthday_role.Models.Json.{Value}
use birthday_role.Models.Rule.{RuleTree}
use birthday_role.Sql.{Bind, Where}
use birthday_role.Sync.{Member, World, of_link, same_link, filter}

-- The tables are those from before.
abbrev pub Unchanged : World → World → Type 0
Unchanged w v = (v.links ≡ w.links) × (v.members ≡ w.members) × (v.assignments ≡ w.assignments)

module _ (upload_users : Text → Text → List Text → Text → Result AppError ℕ)
    (get_user_info : Text → Text → Text → Result AppError (ℕ × ℕ)) (g r token : Text) where
  -- RoleLogic says that the link is gone, of its list or of an upload.
  abbrev pub IsGone : Type 0
  IsGone =
      (get_user_info g r token ≡ err role_link_not_found)
      ⊎ ((ids : List Text) × (upload_users g r ids token ≡ err role_link_not_found))

  -- The link is deleted with its assignments, and the other links, their assignments and the birthdays
  -- stay.
  abbrev pub IsDropped : World → World → Type 0
  IsDropped w v =
      (v.links ≡ filter (λ l. not (same_link g r l.guild_id l.role_id)) w.links)
      × (v.assignments ≡ filter (λ a. not (of_link g r a)) w.assignments)
      × (v.members ≡ w.members)

  -- An upload was accepted, and the links and the birthdays are those from before.
  abbrev pub IsUploaded : World → World → Type 0
  IsUploaded w v =
      (ids : List Text) × (n : ℕ) × (upload_users g r ids token ≡ ok n)
      × (v.links ≡ w.links)
      × (v.members ≡ w.members)

  abbrev pub IsSafe : World → Outcome × World → Type 0
  IsSafe w (o, v) =
      Unchanged w v ⊎ (((o ≡ ok tt) × IsGone × IsDropped w v) ⊎ ((o ≡ ok tt) × IsUploaded w v))

module _ (selects : Where → (ℕ → Option Bind) → Member → Bool) (le : Text → Text → Bool)
    (read_tree : Value → Option RuleTree)
    (fetch_guild_member_ids : Text → Result AppError (List Text))
    (get_user_info : Text → Text → Text → Result AppError (ℕ × ℕ))
    (upload_users : Text → Text → List Text → Text → Result AppError ℕ) where
  abbrev IsSafeSync : Text → Text → Text → World → Outcome × World → Type 0
  IsSafeSync g r token = IsSafe upload_users get_user_info g r token
