-- ===== src/Errors.antt =====
-- src/error.rs: the errors of the program.
pub mod Response
use birthday_role.Prelude.{ℕ, Option, List, Text}
use birthday_role.Prelude.Results.{Result}

-- sqlx's errors: of the database, with its SQLSTATE and the constraint, or any other; and its text.
pub data DbError : Type 0 where
  db_error : Option Text → Option Text → Text → DbError
  other_db_error : Text → DbError

pub data AppError : Type 0 where
  database : DbError → AppError
  role_logic bad_request unauthorized_with forbidden not_found internal : Text → AppError
  role_link_not_found role_link_disabled unauthorized stale_version : AppError
  role_link_removal_held : ℕ → ℕ → AppError
  user_limit_reached : ℕ → AppError
  validation_failed : List (Text × Text) → AppError

-- `Result<(), AppError>`
abbrev pub Outcome : Type 0
Outcome = Result {0, 0} AppError Unit
