-- ===== src/Sync/Apply.antt =====
-- src/services/sync.rs: uploading the list of one role, and mirroring it.
use birthday_role.Prelude.{ℕ, Bool, true, false, List, [], if◌then◌else◌, Text, any}
use birthday_role.Prelude.Results.{Result, ok, err}
use birthday_role.Errors.{
  Outcome, AppError, role_link_not_found, role_link_disabled, role_link_removal_held,
}
use birthday_role.Sync.{World, put_call, called, of_link, delete_orphan_role_link, mirror}

-- With the tables after it: a link that is gone upstream is deleted.
unfoldable pub upload_applied :
    Result AppError ℕ → Text → Text → World → Result AppError Bool × World
upload_applied (ok n) g r w = (ok true, w)
upload_applied (err role_link_not_found) g r w = (ok false, delete_orphan_role_link g r w)
upload_applied (err role_link_disabled) g r w = (ok false, w)
upload_applied (err (role_link_removal_held previous next)) g r w = (ok false, w)
upload_applied (err e) g r w = (err e, w)

-- What follows an upload of `ids`.
unfoldable pub finish : Text → Text → List Text → Result AppError Bool × World → Outcome × World
finish g r ids (ok true, w) = (ok tt, mirror g r ids w)
finish g r ids (ok false, w) = (ok tt, w)
finish g r ids (err e, w) = (err e, w)

module _ (upload_users : Text → Text → List Text → Text → Result AppError ℕ) where
  unfoldable pub upload : Text → Text → Text → List Text → World → Outcome × World
  upload g r token ids w =
      finish g r ids (upload_applied (upload_users g r ids token) g r (called (put_call g r ids) w))

  unfoldable pub drain_to_empty : Text → Text → Text → World → Outcome × World
  drain_to_empty g r token w =
      if any (of_link g r) w.assignments then upload g r token [] w else (ok tt, w)
