-- ===== src/Client/Upload.antt =====
-- src/services/rolelogic.rs: the upload of a list, in one request or in chunks.
use birthday_role.Prelude.{
  ℕ, zero, suc, leb, none, some, List, [], ◌∷◌, ◌++◌, if◌then◌else◌, Text, codes, length, take,
  drop,
}
use birthday_role.Prelude.Results.{Result, ok, err, ok_or}
use birthday_role.Errors.{AppError, role_logic}
use birthday_role.Models.Json.{Value, as_str}
use birthday_role.Client.{
  Request, Reply, http_post, http_delete, index, put_max_users, chunk_size, json, answer, failed,
  Action, send,
}
use birthday_role.Client.Users.{users_url, refused, list_refused, read_count, replace_users}

-- `slice::chunks`, on fuel that counts the elements.
abbrev pub chunks_up_to {ℓ} : {A : Type ℓ} → ℕ → ℕ → List A → List (List A)
chunks_up_to zero n xs = []
chunks_up_to (suc fuel) n [] = []
chunks_up_to (suc fuel) n (x ∷ xs) = take n (x ∷ xs) ∷ chunks_up_to fuel n (drop n (x ∷ xs))

unfoldable pub chunks {ℓ} : {A : Type ℓ} → ℕ → List A → List (List A)
chunks n xs = chunks_up_to (length xs) n xs

-- `?` on a call.
abbrev pub and_then {ℓ κ} :
    {A : Type ℓ} {B : Type κ}
    → (A → Action B)
    → Result AppError A × List Request
    → Result AppError B × List Request
and_then f (ok a, sent) = f a sent
and_then f (err e, sent) = (err e, sent)

infixl 5 ◌>>=◌
abbrev ◌>>=◌ {ℓ κ} : {A : Type ℓ} {B : Type κ} → Action A → (A → Action B) → Action B
(m >>= f) sent = and_then f (m sent)

module _ (base_url : Text) where
  abbrev upload_url : Text → Text → Text
  upload_url g r = users_url base_url g r ++ codes "/upload"

  abbrev session_url : Text → Text → Text → Text
  session_url g r upload_id = upload_url g r ++ codes "/" ++ upload_id

  abbrev pub start_request : Text → Text → Text → Request
  start_request g r token = record {
    method = http_post;
    url = upload_url g r;
    token = token;
    users = none;
    timeout = 30;
  }

  abbrev pub chunk_request : Text → Text → Text → Text → List Text → Request
  chunk_request g r token upload_id user_ids = record {
    method = http_post;
    url = session_url g r upload_id ++ codes "/chunk";
    token = token;
    users = some user_ids;
    timeout = 120;
  }

  abbrev pub commit_request : Text → Text → Text → Text → Request
  commit_request g r token upload_id = record {
    method = http_post;
    url = session_url g r upload_id ++ codes "/commit";
    token = token;
    users = none;
    timeout = 1800;
  }

  abbrev pub cancel_request : Text → Text → Text → Text → Request
  cancel_request g r token upload_id = record {
    method = http_delete;
    url = session_url g r upload_id;
    token = token;
    users = none;
    timeout = 30;
  }

module _ (show_status : ℕ → Text) (from_str : Text → Result Text Value) where
  abbrev read_upload_id : Result Text Text → Result AppError Text
  read_upload_id (err e) = err (role_logic e)
  read_upload_id (ok body) = elim (json from_str (ok body)) [
    | ok v ↦
        ok_or (role_logic (codes "Start upload response missing upload_id"))
          (as_str (index (codes "upload_id") (index (codes "data") v)))
    | err e ↦ err e
  ]

  unfoldable pub started_of : Reply → Result AppError Text
  started_of = answer (refused show_status (codes "Start upload")) read_upload_id

  unfoldable pub done_of : Text → Reply → Result {0, 0} AppError Unit
  done_of what = answer (failed show_status what) (λ body. ok tt)

  unfoldable pub committed_of : Reply → Result AppError ℕ
  committed_of =
      answer (list_refused show_status from_str (codes "Commit upload"))
        (read_count show_status from_str)

  module _ (base_url : Text) (server : List Request → Request → Reply) where
    unfoldable pub start_upload : Text → Text → Text → Action Text
    start_upload g r token = send server (start_request base_url g r token) started_of

    unfoldable pub upload_chunk : Text → Text → Text → List Text → Text → Action {0} Unit
    upload_chunk g r upload_id user_ids token =
        send server (chunk_request base_url g r token upload_id user_ids)
          (done_of (codes "Upload chunk"))

    unfoldable pub commit_upload : Text → Text → Text → Text → Action ℕ
    commit_upload g r upload_id token =
        send server (commit_request base_url g r token upload_id) committed_of

    unfoldable pub cancel_upload : Text → Text → Text → Text → Action {0} Unit
    cancel_upload g r upload_id token =
        send server (cancel_request base_url g r token upload_id) (done_of (codes "Cancel upload"))

    -- The loop over the chunks, up to the first error.
    unfoldable pub upload_chunks : Text → Text → Text → Text → List (List Text) → Action {0} Unit
    upload_chunks g r token upload_id [] sent = (ok tt, sent)
    upload_chunks g r token upload_id (chunk ∷ rest) sent =
        and_then (λ _. upload_chunks g r token upload_id rest)
          (upload_chunk g r upload_id chunk token sent)

    -- After an error the session is cancelled, whatever comes of that, and the error returned.
    unfoldable pub cancel_after {ℓ} :
        {A : Type ℓ}
        → Text
        → Text
        → Text
        → Text
        → Result AppError A × List Request
        → Result AppError A × List Request
    cancel_after g r token upload_id (ok a, sent) = (ok a, sent)
    cancel_after g r token upload_id (err e, sent) =
        (err e, (cancel_upload g r upload_id token sent).1)

    abbrev or_cancel {ℓ} : {A : Type ℓ} → Text → Text → Text → Text → Action A → Action A
    or_cancel g r token upload_id call sent = cancel_after g r token upload_id (call sent)

    unfoldable pub upload_users : Text → Text → List Text → Text → Action ℕ
    upload_users g r user_ids token =
        if leb (length user_ids) put_max_users
        then replace_users show_status from_str base_url server g r user_ids token
        else do
          upload_id ← start_upload g r token
          _ ←
              or_cancel g r token upload_id
                (upload_chunks g r token upload_id (chunks chunk_size user_ids))
          or_cancel g r token upload_id (commit_upload g r upload_id token)
