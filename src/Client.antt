-- ===== src/Client.antt =====
-- src/services/rolelogic.rs: the client of RoleLogic's API. A server is a function of the requests that it
-- has seen and of the one at hand; serde's parser and the texts of a status are parameters.
pub mod Users
pub mod Upload
pub mod Chunks
pub mod Sent
pub mod Rejections
use birthday_role.Prelude.{
  ℕ, ltb, leb, Bool, true, false, not, ◌&&◌, ◌||◌, Option, none, some, List, [], ◌∷◌, ◌++◌,
  if◌then◌else◌, Text, codes, text_eq, ◌==◌, trim_end_matches,
}
use birthday_role.Prelude.Options.{unwrap_or, or_else, map_or, ◌>>=◌}
use birthday_role.Prelude.Results.{Result, ok, err}
use birthday_role.Prelude.Int.{pos}
use birthday_role.Errors.{
  AppError, role_logic, role_link_not_found, role_link_disabled, role_link_removal_held,
}
use birthday_role.Models.Json.{Value, null, number, integer, as_str}
use birthday_role.Jobs.{get}
use birthday_role.Eval.{contains_text}

pub data Method : Type 0 where
  http_get http_post http_put http_delete : Method

-- A request with its token, its list of users, and the seconds that it waits.
pub record Request : Type 0 where
  pub method : Method
  pub url : Text
  pub token : Text
  pub users : Option (List Text)
  pub timeout : ℕ

-- The text of a transport error, or a status and a body, which may break off with an error.
pub data Reply : Type 0 where
  unreachable : Text → Reply
  replied : ℕ → Result Text Text → Reply

abbrev pub put_max_users : ℕ
put_max_users = 100000

abbrev pub chunk_size : ℕ
chunk_size = 100000

abbrev pub is_success : ℕ → Bool
is_success status = leb 200 status && ltb status 300

-- `body["key"]`, and `as_u64`.
abbrev pub index : Text → Value → Value
index key v = unwrap_or null (get key v)

abbrev pub as_u64 : Value → Option ℕ
as_u64 (number (integer (pos n))) = if ltb n 18446744073709551616 then some n else none
as_u64 _ = none

abbrev pub link_gone_msg : Text
link_gone_msg = codes "Invalid or revoked token"

abbrev pub link_disabled_msg : Text
link_disabled_msg = codes "This role link is disabled"

abbrev pub link_paused_msg : Text
link_paused_msg = codes "This role link is paused"

unfoldable pub link_state_error : ℕ → Text → Option AppError
link_state_error status body =
    if not (status == 403)
    then none
    else if contains_text link_gone_msg body
    then some role_link_not_found
    else if contains_text link_disabled_msg body || contains_text link_paused_msg body
    then some role_link_disabled
    else none

module _ (from_str : Text → Result Text Value) where
  abbrev pub parsed : Text → Option Value
  parsed body = elim (from_str body) [ ok v ↦ some v | err e ↦ none ]

  abbrev held : Value → Option AppError
  held errors =
      if map_or false (text_eq (codes "confirm_required")) (as_str (index (codes "error") errors))
      then some (
          role_link_removal_held (unwrap_or 0 (as_u64 (index (codes "previous") errors)))
            (unwrap_or 0 (as_u64 (index (codes "next") errors))))
      else none

  unfoldable pub shrink_held_error : ℕ → Text → Option AppError
  shrink_held_error status body =
      if not (status == 409) then none else parsed body >>= λ v. held (index (codes "errors") v)

  -- `resp.json()`
  abbrev pub json : Result Text Text → Result AppError Value
  json (err e) = err (role_logic e)
  json (ok body) = elim (from_str body) [ ok v ↦ ok v | err e ↦ err (role_logic e) ]

-- What a method makes of a reply: `refused` of an error status, `read` of a body.
abbrev pub answer {ℓ} :
    {A : Type ℓ}
    → (ℕ → Text → AppError)
    → (Result Text Text → Result AppError A)
    → Reply
    → Result AppError A
answer refused read (unreachable e) = err (role_logic e)
answer refused read (replied status body) =
    if not (is_success status)
    then err (refused status (elim body [ ok t ↦ t | err e ↦ [] ]))
    else read body

-- "what failed: status - body"
abbrev pub failed : (ℕ → Text) → Text → ℕ → Text → AppError
failed show_status what status body =
    role_logic (what ++ codes " failed: " ++ show_status status ++ codes " - " ++ body)

-- A call: what comes of it, and the requests sent.
abbrev pub Action {ℓ} : Type ℓ → Type ℓ
Action A = List Request → Result AppError A × List Request

module _ (server : List Request → Request → Reply) where
  abbrev pub send {ℓ} : {A : Type ℓ} → Request → (Reply → Result AppError A) → Action A
  send request interpret sent = (interpret (server sent request), sent ++ request ∷ [])
