-- ===== src/Sync.antt =====
-- src/services/sync.rs: the sync of a role link and of a member, over the local tables. Postgres answers
-- every statement; its errors are not modelled. The gateway's and RoleLogic's replies are parameters,
-- and each call that asks RoleLogic to change a role is recorded.
pub mod Apply
pub mod RoleLink
pub mod Player
pub mod Order
pub mod Safe
pub mod Settled
pub mod Gateway
use birthday_role.Prelude.{
  ℕ, Bool, true, false, not, ◌&&◌, ◌||◌, Option, none, some, List, [], ◌∷◌, ◌++◌, map, take, any,
  if◌then◌else◌, Text, text_eq, text_mem, is_empty,
}
use birthday_role.Prelude.Int.{ℤ}
use birthday_role.Models.Json.{Value}
use birthday_role.Models.Rule.{RuleTree, default}
use birthday_role.Birthday.{BirthdayInput, Derived}

pub record Link : Type 0 where
  pub guild_id : Text
  pub role_id : Text
  pub api_token : Text
  pub rule_tree : Value
  pub rule_tree_version : ℤ

-- A row of `birthdays`: what the member saved, and the facts that were derived of it.
pub record Member : Type 0 where
  pub discord_id : Text
  pub discord_name : Option Text
  pub birthday : BirthdayInput
  pub show_year : Bool
  pub derived : Derived

pub record Assignment : Type 0 where
  pub guild_id : Text
  pub role_id : Text
  pub discord_id : Text

pub data Call : Type 0 where
  put_call : Text → Text → List Text → Call
  add_call remove_call : Text → Text → Text → Call

pub record World : Type 0 where
  pub links : List Link
  pub members : List Member
  pub assignments : List Assignment
  pub calls : List Call

abbrev pub filter {ℓ} : {A : Type ℓ} → (A → Bool) → List A → List A
filter p [] = []
filter p (x ∷ xs) = let rest = filter p xs in if p x then x ∷ rest else rest

abbrev pub same_link : Text → Text → Text → Text → Bool
same_link g r g' r' = text_eq g g' && text_eq r r'

-- `SELECT ... FROM role_links WHERE guild_id = $1 AND role_id = $2`
abbrev pub find_link : Text → Text → List Link → Option Link
find_link g r [] = none
find_link g r (l ∷ ls) =
    let rest = find_link g r ls in if same_link g r l.guild_id l.role_id then some l else rest

-- The assignments of one role, and of all others.
abbrev pub of_link : Text → Text → Assignment → Bool
of_link g r a = same_link g r a.guild_id a.role_id

abbrev pub called : Call → World → World
called c w = record {
  links = w.links;
  members = w.members;
  assignments = w.assignments;
  calls = w.calls ++ c ∷ [];
}

abbrev pub with_assignments : World → List Assignment → World
with_assignments w rows = record {
  links = w.links;
  members = w.members;
  assignments = rows;
  calls = w.calls;
}

-- Deletes the link; the foreign key deletes its assignments.
unfoldable pub delete_orphan_role_link : Text → Text → World → World
delete_orphan_role_link g r w = record {
  links = filter (λ l. not (same_link g r l.guild_id l.role_id)) w.links;
  members = w.members;
  assignments = filter (λ a. not (of_link g r a)) w.assignments;
  calls = w.calls;
}

-- `ORDER BY discord_id`, in the order `le` of the database's collation.
module _ (le : Text → Text → Bool) where
  abbrev pub insert : Text → List Text → List Text
  insert x [] = x ∷ []
  insert x (y ∷ ys) = let rest = insert x ys in if le x y then x ∷ y ∷ ys else y ∷ rest

  unfoldable pub sort : List Text → List Text
  sort [] = []
  sort (x ∷ xs) = insert x (sort xs)

  unfoldable pub assigned : Text → Text → World → List Text
  assigned g r w = sort (map (λ a. a.discord_id) (filter (of_link g r) w.assignments))

-- `serde_json::from_value(raw).unwrap_or_default()`, where `read_tree` is serde's reading.
unfoldable pub tree_of : (Value → Option RuleTree) → Value → RuleTree
tree_of read_tree raw = elim (read_tree raw) [ some tree ↦ tree | none ↦ default ]

-- The DELETE and the INSERT that mirror an upload, of one role's rows.
unfoldable pub mirror : Text → Text → List Text → World → World
mirror g r ids w = with_assignments w (
    filter (λ a. not (of_link g r a)) w.assignments
    ++ map (λ id. record { guild_id = g; role_id = r; discord_id = id }) ids)
