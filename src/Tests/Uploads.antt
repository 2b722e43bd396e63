-- ===== src/Tests/Uploads.antt =====
-- src/services/rolelogic.rs, against a server that fails, and at a list.
use birthday_role.Prelude.{
  ℕ, zero, suc, Bool, ◌==◌, if◌then◌else◌, ◌≡◌, refl, arith, false, List, [], ◌∷◌, Text, codes,
  length, leb,
}
use birthday_role.Prelude.Results.{Result, ok, err}
use birthday_role.Errors.{role_link_not_found}
use birthday_role.Models.Json.{Value, null, object, string, entry, end}
use birthday_role.Client.{Request, Reply, replied, put_max_users}
use birthday_role.Client.Users.{replaced_of}
use birthday_role.Client.Upload.{started_of, upload_users}
use birthday_role.Client.Sent.{Sent, started, upload_users-Sent}
use birthday_role.Client.Rejections.{replaced_of-IsGone_iff}

abbrev shown : ℕ → Text
shown status = codes "403 Forbidden"

abbrev parse : Text → Result Text Value
parse t = ok null

abbrev revoked : Reply
revoked = replied 403 (ok (codes "{Invalid or revoked token}"))

replaced_of-IsGone_iff_example : replaced_of shown parse revoked ≡ err role_link_not_found
replaced_of-IsGone_iff_example =
    (replaced_of-IsGone_iff shown parse revoked).0.1
      (codes "{Invalid or revoked token}", refl, refl)

-- A server that opens the session u, takes every chunk and refuses the commit.
abbrev session : Text → Result Text Value
session t = ok (
    object (entry (codes "data") (object (entry (codes "upload_id") (string (codes "u")) end)) end))

abbrev is_commit : Request → Bool
is_commit request = request.timeout == 1800

abbrev no_commit : List Request → Request → Reply
no_commit sent request = if is_commit request then replied 500 (ok []) else replied 200 (ok [])

-- Its session is open.
opens_session :
    started shown session (codes "https://rl") no_commit (codes "g") (codes "r") (codes "t") []
    ≡ ok (codes "u")
unfolding started_of
opens_session = refl

-- A list that is one user longer than a request may be.
repeated : ℕ → List Text
repeated zero = []
repeated (suc n) = codes "42" ∷ repeated n

length-repeated : (n : ℕ) → length (repeated n) ≡ n
unfolding repeated
length-repeated zero = refl
length-repeated (suc n) = omega (arith, length-repeated n)

too_long : leb (length (repeated 100001)) put_max_users ≡ false
too_long = rw (length-repeated 100001) refl

upload_users-Sent_example :
    Sent shown session
      (codes "https://rl")
      no_commit
      (codes "g")
      (codes "r")
      (codes "t")
      (repeated 100001)
      []
      (upload_users shown session
        (codes "https://rl")
        no_commit
        (codes "g")
        (codes "r")
        (repeated 100001)
        (codes "t")
        [])
upload_users-Sent_example =
    upload_users-Sent shown session (codes "https://rl") no_commit (codes "g") (codes "r")
      (codes "t") (repeated 100001) [] too_long
