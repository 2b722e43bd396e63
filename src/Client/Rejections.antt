-- ===== src/Client/Rejections.antt =====
-- src/services/rolelogic.rs: which replies mean that a link is gone, and which that a write is held.
use birthday_role.Prelude.{
  ℕ, true, ◌≡◌, ◌≢◌, ◌↔◌, refl, ap, arith, Bool-cases, inl, inr, some, [], Text, codes,
}
use birthday_role.Prelude.Results.{Result, ok, err, err-inj}
use birthday_role.Errors.{AppError, role_link_not_found, role_link_removal_held}
use birthday_role.Eval.{contains_text}
use birthday_role.Models.Json.{Value}
use birthday_role.Client.{
  Reply, replied, unreachable, link_gone_msg, link_state_error, shrink_held_error, answer,
  is_success,
}
use birthday_role.Client.Users.{list_refused, read_count, replaced_of}
use birthday_role.Client.Upload.{committed_of}

abbrev pub IsGone : Reply → Type 0
IsGone reply =
    (body : Text) × (reply ≡ replied 403 (ok body)) × (contains_text link_gone_msg body ≡ true)

link_state_error-gone :
    (status : ℕ) (body : Text)
    → link_state_error status body ≡ some role_link_not_found
    → (status ≡ 403) × (contains_text link_gone_msg body ≡ true)
unfolding link_state_error
link_state_error-gone status body e = ground arith

module _ (show_status : ℕ → Text) (from_str : Text → Result Text Value) where
  shrink_held_error-gone :
      (status : ℕ) (body : Text) → shrink_held_error from_str status body ≢ some role_link_not_found
  unfolding shrink_held_error
  shrink_held_error-gone status body = ground arith

  list_refused-gone :
      (what : Text) (status : ℕ) (body : Text)
      → list_refused show_status from_str what status body ≡ role_link_not_found
      → (status ≡ 403) × (contains_text link_gone_msg body ≡ true)
  list_refused-gone what status body e =
      ground (arith, link_state_error-gone status body, shrink_held_error-gone status body)

  read_count-gone :
      (body : Result Text Text) → read_count show_status from_str body ≢ err role_link_not_found
  read_count-gone body = ground arith

  list_answer : Text → Reply → Result AppError ℕ
  list_answer what =
      answer (list_refused show_status from_str what) (read_count show_status from_str)

  list_answer-IsGone :
      (what : Text) (reply : Reply)
      → list_answer what reply ≡ err role_link_not_found
      → IsGone reply
  unfolding list_answer
  list_answer-IsGone what (unreachable e) h = cc
  list_answer-IsGone what (replied status (ok body)) h = elim (Bool-cases (is_success status)) [
    | inl fine ↦ absurd (read_count-gone (ok body) (rw fine at h))
    | inr refused ↦
        let (forbidden, gone) = list_refused-gone what status body (err-inj (rw refused at h)) in
        (body, ap (λ n. replied n (ok body)) forbidden, gone)
  ]
  list_answer-IsGone what (replied status (err e)) h = elim (Bool-cases (is_success status)) [
    | inl fine ↦ absurd (read_count-gone (err e) (rw fine at h))
    | inr refused ↦ cc (list_refused-gone what status [] (err-inj (rw refused at h))).1
  ]

  IsGone-list_answer :
      (what : Text) (reply : Reply)
      → IsGone reply
      → list_answer what reply ≡ err role_link_not_found
  unfolding list_answer link_state_error
  IsGone-list_answer what reply (body, here, gone) = rw (here, gone) refl

  -- A link is reported gone, by a write of its list or by the commit of an upload, just when the reply
  -- is 403 with the message that its token is invalid or revoked, and on no other reply.
  pub replaced_of-IsGone_iff :
      (reply : Reply)
      → ((replaced_of show_status from_str reply ≡ err role_link_not_found) ↔ IsGone reply)
        × ((committed_of show_status from_str reply ≡ err role_link_not_found) ↔ IsGone reply)
  unfolding list_answer replaced_of committed_of
  replaced_of-IsGone_iff reply = (
    (
      list_answer-IsGone (codes "Replace users") reply,
      IsGone-list_answer (codes "Replace users") reply,
    ),
    (
      list_answer-IsGone (codes "Commit upload") reply,
      IsGone-list_answer (codes "Commit upload") reply,
    ),
  )

  -- What an error says of the link: it holds a removal only on 409.
  list_refused-held :
      (what : Text) (status : ℕ) (body : Text) (p n : ℕ)
      → list_refused show_status from_str what status body ≡ role_link_removal_held p n
      → status ≡ 409
  unfolding link_state_error shrink_held_error
  list_refused-held what status body p n e = ground arith
