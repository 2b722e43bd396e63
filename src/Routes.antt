-- ===== src/Routes.antt =====
-- src/routes: the handlers, over the tables that they share. Postgres answers every statement; its errors
-- are not modelled.
pub mod Admin
pub mod Plugin
pub mod Verify
pub mod UserList
pub mod Steps
pub mod Versions
pub mod Saved
pub mod Registered
pub mod Once
pub mod Deleted
pub mod Rows
pub mod Birthdays
pub mod Listed
pub mod Privacy
pub mod Settings
pub mod Entry
pub mod Preview
pub mod Counted
pub mod Catalog
pub mod Offered
use birthday_role.Prelude.{
  ℕ, Bool, true, false, Option, none, some, List, [], ◌∷◌, ◌++◌, if◌then◌else◌, Text, codes,
  text_eq, map,
}
use birthday_role.Prelude.Results.{Result, ok, err}
use birthday_role.Errors.{AppError}
use birthday_role.Jobs.{Queue}
use birthday_role.Sync.{World, Link, Member, same_link}

-- The tables: role links, birthdays and assignments in `world`; `guild_settings`, as the view permission
-- of each guild; and the jobs.
pub record Store : Type 0 where
  pub world : World
  pub settings : List (Text × Text)
  pub queue : Queue

-- A request ends in an error, or its handler panics.
pub data Failure : Type 0 where
  refused : AppError → Failure
  panicked : Failure

-- What a handler returns, and the tables after it.
abbrev pub Handler {ℓ} : Type ℓ → Type ℓ
Handler A = Store → Result Failure A × Store

abbrev pub and_then {ℓ κ} :
    {A : Type ℓ} {B : Type κ}
    → (A → Handler B)
    → Result Failure A × Store
    → Result Failure B × Store
and_then f (ok a, store) = f a store
and_then f (err e, store) = (err e, store)

infixl 5 ◌>>=◌
abbrev pub ◌>>=◌ {ℓ κ} : {A : Type ℓ} {B : Type κ} → Handler A → (A → Handler B) → Handler B
(m >>= f) store = and_then f (m store)

abbrev pub returned {ℓ} : {A : Type ℓ} → A → Handler A
returned a store = (ok a, store)

-- `?` on a result, on an option that must be there, and a step that may panic.
abbrev pub attempt {ℓ} : {A : Type ℓ} → Result AppError A → Handler A
attempt (ok a) store = (ok a, store)
attempt (err e) store = (err (refused e), store)

abbrev pub found {ℓ} : {A : Type ℓ} → AppError → Option A → Handler A
found e none store = (err (refused e), store)
found e (some a) store = (ok a, store)

abbrev pub require : AppError → Bool → Handler {0} Unit
require e true store = (ok tt, store)
require e false store = (err (refused e), store)

abbrev pub computed {ℓ} : {A : Type ℓ} → Option A → Handler A
computed none store = (err panicked, store)
computed (some a) store = (ok a, store)

-- A query, and a statement.
abbrev pub query {ℓ} : {A : Type ℓ} → (Store → A) → Handler A
query f store = (ok (f store), store)

abbrev pub execute : (Store → Store) → Handler {0} Unit
execute f store = (ok tt, f store)

abbrev pub with_world : Store → World → Store
with_world store world = record { world = world; settings = store.settings; queue = store.queue }

abbrev pub with_settings : Store → List (Text × Text) → Store
with_settings store settings = record {
  world = store.world;
  settings = settings;
  queue = store.queue;
}

abbrev pub with_queue : Store → Queue → Store
with_queue store queue = record { world = store.world; settings = store.settings; queue = queue }

abbrev pub with_links : World → List Link → World
with_links world links = record {
  links = links;
  members = world.members;
  assignments = world.assignments;
  calls = world.calls;
}

abbrev pub with_members : World → List Member → World
with_members world members = record {
  links = world.links;
  members = members;
  assignments = world.assignments;
  calls = world.calls;
}

-- `SELECT view_permission FROM guild_settings WHERE guild_id = $1`
abbrev pub find_setting : Text → List (Text × Text) → Option Text
find_setting guild_id [] = none
find_setting guild_id ((g, view_permission) ∷ rows) =
    let rest = find_setting guild_id rows in
    if text_eq g guild_id then some view_permission else rest

-- `unwrap_or_else(|| "managers".to_string())`
abbrev pub view_permission_of : Text → Store → Text
view_permission_of guild_id store = elim (find_setting guild_id store.settings) [
  | some view_permission ↦ view_permission
  | none ↦ codes "managers"
]

-- The instances of one role link among the rows.
abbrev pub is_link : Text → Text → Link → Bool
is_link g r l = same_link g r l.guild_id l.role_id
