-- ===== src/Lib.antt =====
-- Birthday Role: a plugin that gives Discord members a role by rules over their birthdays.
--
-- A member saves a birthday. A rule, an OR of AND-groups of conditions, says who gets the role of a
-- role link. One member is synced in memory, by `evaluate` on the member's facts; a whole role link is
-- synced in bulk, by a WHERE clause over the table `birthdays` that calls the bday_* functions. The
-- clock queues a bulk sync of every link, since the facts change with the local date.
--
-- Files and the code that they model (paths from the repository's root):
--   Calendar              chrono's dates and Postgres's `date`, as a record of the operations that the
--                         code calls (`from_ymd_opt` and `make_date`, the fields, the difference, the
--                         comparisons), with their documented behaviour as `IsGregorian`.
--   Birthday              src/services/birthday.rs, the facts of the birthday alone; Birthday/Facts the
--                         facts of the local day, `compute_facts`; Birthday/Input `validate_date` and
--                         `normalize_tz`; Dates, Upcoming, Resolve, Bounds and Choices what is proved.
--   Models                src/models: targets, operators, conditions, rules, facts; Models/Json is the
--                         part of serde_json's `Value` that the source looks into.
--   Eval                  src/services/condition_eval.rs.
--   Validator             src/services/rule_validator.rs: values in Validator, conditions and whole
--                         payloads in Validator/Rules; Values, Texts, Facts, Accepted and
--                         Saved the proofs.
--   Sql                   src/services/rule_sql.rs: clauses as data with the binds that they push;
--                         Sql/Render is their text; Sql/Functions is
--                         migrations/005_birthday_functions.sql; Sql/Semantics gives the clauses their
--                         three-valued meaning; Like, Clauses, Agreement and Members the proofs.
--   Jobs                  src/services/jobs.rs and migrations/003_jobs.sql: the table as the list of its
--                         rows, each statement as a function; Settle, Invariant and Claims.
--   Worker                src/tasks/job_worker.rs: dispatch, the outcome of a job, a round of the loop;
--                         Released the proofs.
--   Errors                src/error.rs: the errors, and in Errors/Response the response to each.
--   Sync                  src/services/sync.rs: the tables and the record of calls in Sync, uploads in
--                         Sync/Apply, `sync_for_role_link` in Sync/RoleLink, `sync_for_player` and the
--                         fan-out of the clock in Sync/Player; Order, Safe, Settled and Gateway the proofs.
--   Tokens                src/services/rl_token.rs and session.rs: the comparison in constant time,
--                         Sessions (the sessions of the embedded page and the cookie) and Jwt
--                         (`verify`); Equal, Accepted, Cookie,
--                         Audience and Authentic the proofs. Prelude/Bytes, Split and
--                         Decimal have UTF-8, `splitn` and `Display` of an i64.
--   Origin                src/services/csrf.rs.
--   Client                src/services/rolelogic.rs: transport, Users (the calls for one user and for
--                         the whole list) and Upload (chunks); Chunks, Sent and Rejections the proofs.
--   Access                src/services/auth.rs and `require_role_config_access` of
--                         src/routes/admin.rs; Access/Internal src/services/auth_gateway.rs; Granted the
--                         proofs.
--   Routes                src/routes: the tables and the handlers' steps. The handlers: Admin
--                         (role_config_data and role_config_save of admin.rs), Preview (its rule
--                         preview), Catalog (what its editor offers), Entry (verify_iframe_entry),
--                         Plugin (plugin.rs), Verify (verify.rs) and UserList (users.rs). The proofs:
--                         Steps, Versions, Saved, Once, Counted, Offered, Registered, Deleted,
--                         Rows, Birthdays, Listed, Privacy and Settings. A handler goes from the tables to its result and the
--                         tables after it; it calls the queue of Jobs and fills the tables that Sync
--                         reads.
--   Tests                 a concrete calendar, zones, rules, queue and server, and runs on them.
--
-- How the code is read. Numbers are the natural numbers, or the integers of Prelude/Int; `as u32` and
-- the bounds of `i64` are written out, and `exp + 60` wraps as in a release build. A panic of the source
-- is `none`, where a definition can panic, and `panicked` in a handler. Texts are lists of code points.
-- The code that is not the repository's is a parameter: the regex crate, HMAC, hex and base64, serde's
-- readings of a rule, of the two parts of a JWT and of the gateway's replies, `to_lowercase`, the
-- `Display` of a JSON number, the cookie crate, and the order of texts in the database. The Auth Gateway is
-- a function of the request. RoleLogic is a function of the request and of those before it in Client, so
-- that any server that answers by its past is one; in Sync its replies are functions of the call. A
-- request's headers are a function that gives the values that are visible ASCII. `chunks` runs on fuel
-- that counts the elements, and a printed `i64` on twenty digits, which hold every one.
--
-- Bounds. Dates are those of the years 1 to 9999, in which both chrono and Postgres have every date. A
-- list with a number of more than 32 bits, which the cast to `int[]` refuses, selects nothing in the
-- model. A statement has its effect: database errors are not modelled, but for a link's limit that is
-- negative as an `i64`, at which the sync fails. A rule's version is taken to stay below 2^31. What a
-- rule's own pattern means to Postgres is a hypothesis of the theorems on the two paths. The concurrent calls of one member's sync run in the order of the links. The rows of
-- one day of a member list stand in the order of the table, which Postgres leaves open.
--
-- Not modelled: the routes that render pages or redirect, dweeb.rs and health.rs; start-up,
-- configuration and logging.
pub mod Prelude
pub mod Calendar
pub mod Models
pub mod Birthday
pub mod Eval
pub mod Sql
pub mod Validator
pub mod Jobs
pub mod Errors
pub mod Sync
pub mod Worker
pub mod Client
pub mod Access
pub mod Routes
pub mod Origin
pub mod Tokens
mod Tests
