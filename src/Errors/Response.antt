-- ===== src/Errors/Response.antt =====
-- src/error.rs: the response to each error.
use birthday_role.Prelude.{ℕ, Option, none, some, List, [], ◌∷◌, Text, codes, match_text}
use birthday_role.Prelude.Options.{unwrap_or}
use birthday_role.Errors.{
  AppError, DbError, db_error, other_db_error, database, role_logic, bad_request, unauthorized_with,
  forbidden, not_found, internal, role_link_not_found, role_link_disabled, unauthorized,
  stale_version, role_link_removal_held, user_limit_reached, validation_failed,
}

-- The status and the fields of the JSON body.
pub record Response : Type 0 where
  pub status : ℕ
  pub error : Text
  pub code : Option Text
  pub constraint : Option Text
  pub field_errors : List (Text × Text)

abbrev pub plain : ℕ → Text → Response
plain status error = record {
  status = status;
  error = error;
  code = none;
  constraint = none;
  field_errors = [];
}

abbrev pub violation : ℕ → Text → Text → Option Text → Response
violation status error code constraint = record {
  status = status;
  error = error;
  code = some code;
  constraint = constraint;
  field_errors = [];
}

-- The constraint violations by their SQLSTATE.
abbrev pub violations : Text → List (Text × Response)
violations constraint =
    (
      codes "23505",
      violation 409 (codes "A record with that value already exists.") (codes "UNIQUE_VIOLATION")
          (some constraint),
    )
    ∷ (
      codes "23503",
      violation 409 (codes "Operation would violate a referential constraint.")
          (codes "FOREIGN_KEY_VIOLATION") (some constraint),
    )
    ∷ (
      codes "23514",
      violation 400 (codes "One or more fields failed a database check.") (codes "CHECK_VIOLATION")
          (some constraint),
    )
    ∷ (
      codes "23502",
      violation 400 (codes "A required field was missing.") (codes "NOT_NULL_VIOLATION") none,
    )
    ∷ []

unfoldable pub classify_db_error : DbError → Response
classify_db_error (db_error code constraint message) =
    unwrap_or (plain 500 (codes "Internal server error"))
      (match_text (unwrap_or [] code) (violations (unwrap_or [] constraint)))
classify_db_error (other_db_error message) = plain 500 (codes "Internal server error")

unfoldable pub into_response : AppError → Response
into_response (database e) = classify_db_error e
into_response (role_logic e) = plain 502 (codes "Failed to sync roles")
into_response role_link_not_found = plain 404 (codes "Role link not found")
into_response role_link_disabled = plain 403 (codes "Role link is disabled")
into_response (role_link_removal_held previous next) =
    plain 409 (codes "Role link removal is waiting for confirmation in the RoleLogic dashboard")
into_response (user_limit_reached limit) = plain 403 (codes "Role link user limit reached")
into_response (bad_request msg) = plain 400 msg
into_response unauthorized = plain 401 (codes "Invalid or missing authorization")
into_response (unauthorized_with msg) = plain 401 msg
into_response (forbidden msg) = plain 403 msg
into_response (not_found msg) = plain 404 msg
into_response (validation_failed field_errors) = record {
  status = 422;
  error = codes "Validation failed";
  code = none;
  constraint = none;
  field_errors = field_errors;
}
into_response stale_version =
    violation 409 (codes "The configuration was edited from another tab. Reload and try again.")
      (codes "STALE_VERSION") none
into_response (internal e) = plain 500 (codes "Internal server error")
