-- ===== src/Client/Users.antt =====
-- src/services/rolelogic.rs: the calls for one user and for the whole list.
use birthday_role.Prelude.{
  ℕ, Bool, false, ◌&&◌, ◌||◌, none, some, List, ◌++◌, if◌then◌else◌, Text, codes, ◌==◌,
}
use birthday_role.Prelude.Options.{unwrap_or, or_else}
use birthday_role.Prelude.Results.{Result, ok, ◌>>=◌}
use birthday_role.Errors.{AppError, user_limit_reached}
use birthday_role.Models.Json.{Value, null, as_bool}
use birthday_role.Eval.{contains_text}
use birthday_role.Client.{
  Request, Reply, http_get, http_post, http_put, http_delete, index, as_u64, link_state_error,
  shrink_held_error, parsed, json, answer, failed, Action, send,
}

abbrev pub users_url : Text → Text → Text → Text
users_url base_url g r =
    base_url ++ codes "/api/role-link/" ++ g ++ codes "/" ++ r ++ codes "/users"

abbrev user_url : Text → Text → Text → Text → Text
user_url base_url g r user_id = users_url base_url g r ++ codes "/" ++ user_id

-- The state of the link, or the status and the body.
abbrev pub refused : (ℕ → Text) → Text → ℕ → Text → AppError
refused show_status what status body =
    unwrap_or (failed show_status what status body) (link_state_error status body)

module _ (show_status : ℕ → Text) (from_str : Text → Result Text Value) where
  abbrev read_info : Result Text Text → Result AppError (ℕ × ℕ)
  read_info body = json from_str body >>= λ v.
      let data_of = index (codes "data") v in
      ok (
        unwrap_or 0 (as_u64 (index (codes "user_count") data_of)),
        unwrap_or 100 (as_u64 (index (codes "user_limit") data_of)),
      )

  unfoldable pub info_of : Reply → Result AppError (ℕ × ℕ)
  info_of = answer (refused show_status (codes "Get user info")) read_info

  abbrev flag : Text → Result Text Text → Result AppError Bool
  flag key body = json from_str body >>= λ v.
      ok (unwrap_or false (as_bool (index key (index (codes "data") v))))

  -- `serde_json::from_str(&body).unwrap_or_default()` is null where the body is no JSON.
  abbrev add_refused : ℕ → Text → AppError
  add_refused status body =
      unwrap_or
        (if (status == 400 || status == 403) && contains_text (codes "limit") body
          then user_limit_reached (
              unwrap_or 100 (
                as_u64 (
                  index (codes "user_limit")
                    (index (codes "data") (unwrap_or null (parsed from_str body))))))
          else failed show_status (codes "Add user") status body)
        (link_state_error status body)

  unfoldable pub added_of : Reply → Result AppError Bool
  added_of = answer add_refused (flag (codes "added"))

  unfoldable pub removed_of : Reply → Result AppError Bool
  removed_of = answer (refused show_status (codes "Remove user")) (flag (codes "removed"))

  -- The errors of a write of the whole list: the states of the link, then the hold.
  abbrev pub list_refused : Text → ℕ → Text → AppError
  list_refused what status body =
      unwrap_or (failed show_status what status body)
        (or_else (link_state_error status body) (shrink_held_error from_str status body))

  abbrev pub read_count : Result Text Text → Result AppError ℕ
  read_count body = json from_str body >>= λ v.
      ok (unwrap_or 0 (as_u64 (index (codes "user_count") (index (codes "data") v))))

  unfoldable pub replaced_of : Reply → Result AppError ℕ
  replaced_of = answer (list_refused (codes "Replace users")) read_count

  module _ (base_url : Text) (server : List Request → Request → Reply) where
    unfoldable pub get_user_info : Text → Text → Text → Action (ℕ × ℕ)
    get_user_info g r token =
        send server
          (record {
            method = http_get;
            url = users_url base_url g r;
            token = token;
            users = none;
            timeout = 30;
          })
          info_of

    unfoldable pub add_user : Text → Text → Text → Text → Action Bool
    add_user g r user_id token =
        send server
          (record {
            method = http_post;
            url = user_url base_url g r user_id;
            token = token;
            users = none;
            timeout = 30;
          })
          added_of

    unfoldable pub remove_user : Text → Text → Text → Text → Action Bool
    remove_user g r user_id token =
        send server
          (record {
            method = http_delete;
            url = user_url base_url g r user_id;
            token = token;
            users = none;
            timeout = 30;
          })
          removed_of

    unfoldable pub replace_users : Text → Text → List Text → Text → Action ℕ
    replace_users g r user_ids token =
        send server
          (record {
            method = http_put;
            url = users_url base_url g r;
            token = token;
            users = some user_ids;
            timeout = 30;
          })
          replaced_of
