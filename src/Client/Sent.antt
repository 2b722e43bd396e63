-- ===== src/Client/Sent.antt =====
-- src/services/rolelogic.rs: the requests that an upload sends.
use birthday_role.Prelude.{
  ℕ, leb, true, false, ◌≡◌, refl, ap, codes, Bool-cases, inl, inr, List, [], ◌∷◌, ◌++◌, Text,
  length,
}
use mathlib.Core.Path.{subst⁻¹}
use birthday_role.Prelude.Results.{Result, ok, err, Result-cases}
use birthday_role.Errors.{AppError}
use birthday_role.Models.Json.{Value}
use birthday_role.Client.{
  Request, Reply, replied, unreachable, is_success, put_max_users, chunk_size, Action,
}
use birthday_role.Client.Upload.{
  chunks, start_request, chunk_request, commit_request, cancel_request, start_upload, upload_chunk,
  started_of, done_of, committed_of, commit_upload, cancel_upload, upload_chunks, and_then,
  cancel_after, upload_users,
}

module _ (show_status : ℕ → Text) (from_str : Text → Result Text Value) (base_url : Text)
    (server : List Request → Request → Reply) (g r token : Text) where
  abbrev opened : List Request → List Request
  opened before = before ++ start_request base_url g r token ∷ []

  abbrev chunk_of : Text → List Text → Request
  chunk_of = chunk_request base_url g r token

  -- The requests after those of the chunks, one for each in their order.
  abbrev pub after : Text → List Request → List (List Text) → List Request
  after upload_id sent [] = sent
  after upload_id sent (c ∷ cs) = after upload_id (sent ++ chunk_of upload_id c ∷ []) cs

  abbrev chunk_outcome : Text → List Text → List Request → Result {0, 0} AppError Unit
  chunk_outcome upload_id c sent =
      done_of show_status from_str (codes "Upload chunk") (server sent (chunk_of upload_id c))

  -- The server answered the request with a status of success.
  abbrev pub IsTaken : List Request → Request → Type 0
  IsTaken sent request =
      (status : ℕ) × (body : Result Text Text) × (server sent request ≡ replied status body)
      × (is_success status ≡ true)

  -- The server took each of the chunks, sent one after the other.
  abbrev pub AreTaken : Text → List Request → List (List Text) → Type 0
  AreTaken upload_id sent [] = Unit
  AreTaken upload_id sent (c ∷ cs) =
      IsTaken sent (chunk_of upload_id c)
      × AreTaken upload_id (sent ++ chunk_of upload_id c ∷ []) cs

  -- The session that the server's reply to the start names.
  abbrev pub started : List Request → Result AppError Text
  started before =
      started_of show_status from_str (server before (start_request base_url g r token))

  abbrev pub commit_outcome : Text → List Request → Result AppError ℕ
  commit_outcome upload_id sent =
      committed_of show_status from_str (server sent (commit_request base_url g r token upload_id))

  -- What an upload in chunks gives and has sent, by what the server replied: the start alone, which
  -- failed; the whole session, each chunk taken and the commit a success; the chunks of a session up
  -- to the first that was not taken, and its cancelling; the whole session with a commit that failed,
  -- and its cancelling.
  pub data Sent (user_ids : List Text) (before : List Request)
      : Result AppError ℕ × List Request → Type 0 where
    not_started :
        (e : AppError) → started before ≡ err e → Sent user_ids before (err e, opened before)
    committed :
        (upload_id : Text) (n : ℕ)
        → started before ≡ ok upload_id
        → AreTaken upload_id (opened before) (chunks chunk_size user_ids)
        → commit_outcome upload_id (after upload_id (opened before) (chunks chunk_size user_ids))
          ≡ ok n
        → Sent user_ids before (
          ok n,
          after upload_id (opened before) (chunks chunk_size user_ids)
              ++ commit_request base_url g r token upload_id ∷ [],
        )
    chunk_failed :
        (upload_id : Text) (taken : List (List Text)) (c : List Text) (rest : List (List Text))
        (e : AppError)
        → started before ≡ ok upload_id
        → chunks chunk_size user_ids ≡ taken ++ c ∷ rest
        → AreTaken upload_id (opened before) taken
        → chunk_outcome upload_id c (after upload_id (opened before) taken) ≡ err e
        → Sent user_ids before (
          err e,
          (after upload_id (opened before) taken ++ chunk_of upload_id c ∷ [])
              ++ cancel_request base_url g r token upload_id ∷ [],
        )
    commit_failed :
        (upload_id : Text) (e : AppError)
        → started before ≡ ok upload_id
        → AreTaken upload_id (opened before) (chunks chunk_size user_ids)
        → commit_outcome upload_id (after upload_id (opened before) (chunks chunk_size user_ids))
          ≡ err e
        → Sent user_ids before (
          err e,
          (after upload_id (opened before) (chunks chunk_size user_ids)
                ++ commit_request base_url g r token upload_id ∷ [])
              ++ cancel_request base_url g r token upload_id ∷ [],
        )

  -- What the loop over the chunks sent: all of them, each taken, or up to the first that was not.
  data Sending (upload_id : Text) (cs : List (List Text)) (before : List Request)
      : Result {0, 0} AppError Unit × List Request → Type 0 where
    all_sent :
        AreTaken upload_id before cs
        → Sending upload_id cs before (ok tt, after upload_id before cs)
    stopped :
        (taken : List (List Text)) (c : List Text) (rest : List (List Text)) (e : AppError)
        → cs ≡ taken ++ c ∷ rest
        → AreTaken upload_id before taken
        → chunk_outcome upload_id c (after upload_id before taken) ≡ err e
        → Sending upload_id cs before
            (err e, after upload_id before taken ++ chunk_of upload_id c ∷ [])

  Sending-cons :
      (upload_id : Text) (c : List Text) (cs : List (List Text)) (before : List Request)
      (o : Result {0, 0} AppError Unit × List Request)
      → IsTaken before (chunk_of upload_id c)
      → Sending upload_id cs (before ++ chunk_of upload_id c ∷ []) o
      → Sending upload_id (c ∷ cs) before o
  Sending-cons upload_id c cs before _ t (all_sent all) = all_sent (t, all)
  Sending-cons upload_id c cs before _ t (stopped taken d rest e split all failed) =
      stopped (c ∷ taken) d rest e (ap (λ r. c ∷ r) split) (t, all) failed

  done_of-IsTaken :
      (reply : Reply) (what : Text) (u : Unit {0})
      → done_of show_status from_str what reply ≡ ok u
      → (status : ℕ) × (body : Result Text Text) × (reply ≡ replied status body)
        × (is_success status ≡ true)
  unfolding done_of
  done_of-IsTaken (unreachable x) what u e = cc
  done_of-IsTaken (replied status body) what u e = elim (Bool-cases (is_success status)) [
    | inl good ↦ (status, body, refl, good)
    | inr bad ↦ cc (rw bad at e)
  ]

  upload_chunks-Sending :
      (upload_id : Text) (cs : List (List Text)) (before : List Request)
      → Sending upload_id cs before
          (upload_chunks show_status from_str base_url server g r token upload_id cs before)
  unfolding upload_chunks upload_chunk
  upload_chunks-Sending upload_id [] before = all_sent tt
  upload_chunks-Sending upload_id (c ∷ cs) before =
      let later = before ++ chunk_of upload_id c ∷ [] in
      let next = λ (o : Result {0, 0} AppError Unit).
        and_then (λ _. upload_chunks show_status from_str base_url server g r token upload_id cs)
          (o, later) in
      elim (Result-cases (chunk_outcome upload_id c before)) [
        | inl (u, e) ↦ subst⁻¹ (Sending upload_id (c ∷ cs) before) (ap next e) (
            Sending-cons upload_id c cs before _
              (done_of-IsTaken (server before (chunk_of upload_id c)) (codes "Upload chunk") u e)
              (upload_chunks-Sending upload_id cs later))
        | inr (e, h) ↦
            subst⁻¹ (Sending upload_id (c ∷ cs) before) (ap next h) (stopped [] c cs e refl tt h)
      ]

  -- The rest of an upload once its session is open.
  abbrev in_session : Text → List Text → Action ℕ
  in_session upload_id user_ids sent =
      and_then
        (λ _ sent.
          cancel_after show_status from_str base_url server g r token upload_id
            (commit_upload show_status from_str base_url server g r upload_id token sent))
        (cancel_after show_status from_str base_url server g r token upload_id (
          upload_chunks show_status from_str base_url server g r token upload_id
            (chunks chunk_size user_ids) sent))

  commit-Sent :
      (upload_id : Text) (user_ids : List Text) (before : List Request) (o : Result AppError ℕ)
      → started before ≡ ok upload_id
      → AreTaken upload_id (opened before) (chunks chunk_size user_ids)
      → commit_outcome upload_id (after upload_id (opened before) (chunks chunk_size user_ids)) ≡ o
      → Sent user_ids before (
          cancel_after show_status from_str base_url server g r token upload_id (
            o,
            after upload_id (opened before) (chunks chunk_size user_ids)
                ++ commit_request base_url g r token upload_id ∷ [],
          ))
  unfolding cancel_after cancel_upload
  commit-Sent upload_id user_ids before (ok n) s t e = committed upload_id n s t e
  commit-Sent upload_id user_ids before (err x) s t e = commit_failed upload_id x s t e

  Sending-Sent :
      (upload_id : Text) (user_ids : List Text) (before : List Request)
      (o : Result {0, 0} AppError Unit × List Request)
      → started before ≡ ok upload_id
      → Sending upload_id (chunks chunk_size user_ids) (opened before) o
      → Sent user_ids before (
          and_then
            (λ _ sent.
              cancel_after show_status from_str base_url server g r token upload_id
                (commit_upload show_status from_str base_url server g r upload_id token sent))
            (cancel_after show_status from_str base_url server g r token upload_id o))
  unfolding cancel_after cancel_upload commit_upload
  Sending-Sent upload_id user_ids before _ s (all_sent all) =
      commit-Sent upload_id user_ids before _ s all refl
  Sending-Sent upload_id user_ids before _ s (stopped taken c rest e split all failed) =
      chunk_failed upload_id taken c rest e s split all failed

  start-Sent :
      (user_ids : List Text) (before : List Request) (o : Result AppError Text)
      → started before ≡ o
      → Sent user_ids before
          (and_then (λ upload_id sent. in_session upload_id user_ids sent) (o, opened before))
  start-Sent user_ids before (ok upload_id) s =
      Sending-Sent upload_id user_ids before _ s
        (upload_chunks-Sending upload_id (chunks chunk_size user_ids) (opened before))
  start-Sent user_ids before (err e) s = not_started e s

  -- A list that is too long for one request is uploaded in a session. If the server's reply to the
  -- start names none, the upload fails and nothing else is sent. Else the chunks are sent in their
  -- order, as long as the server takes them; if it takes them all, the commit is sent, and its reply is
  -- the outcome. After the first chunk that is not taken, or a commit that fails, the upload fails,
  -- and its last request asks the server to cancel that session.
  pub upload_users-Sent :
      (user_ids : List Text) (before : List Request)
      → leb (length user_ids) put_max_users ≡ false
      → Sent user_ids before
          (upload_users show_status from_str base_url server g r user_ids token before)
  unfolding upload_users start_upload
  upload_users-Sent user_ids before long = rw long (start-Sent user_ids before _ refl)
