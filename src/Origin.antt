-- ===== src/Origin.antt =====
-- src/services/csrf.rs: the Origin check of the routes that cookies authenticate. A request's headers are
-- a function that gives a header's value where it is visible ASCII.
use birthday_role.Prelude.{
  ◌≡◌, ◌↔◌, refl, arith, List, ◌∷◌, ◌++◌, Text, codes, Option, none, some, text_eq, text_eq_sound,
  text_eq_refl, trim_end_matches, ◌==◌, if◌then◌else◌, any,
}
use birthday_role.Prelude.Results.{ok, err}
use birthday_role.Prelude.Options.{some-inj}
use birthday_role.Errors.{Outcome, AppError, forbidden}
use birthday_role.Prelude.{any-split, any-append}

abbrev pub norm : Text → Text
norm = trim_end_matches (λ c. c == 47)

abbrev pub no_origin : AppError
no_origin = forbidden (codes "State-changing requests must include an Origin header.")

abbrev pub bad_origin : Text → AppError
bad_origin origin =
    forbidden (codes "Origin '" ++ origin ++ codes "' is not allowed for state-changing requests.")

abbrev pub check_origin : Option Text → List Text → Outcome
check_origin none allowed = err no_origin
check_origin (some origin) allowed =
    if any (λ a. text_eq (norm origin) (norm a)) allowed then ok tt else err (bad_origin origin)

unfoldable pub verify_origin : (Text → Option Text) → List Text → Outcome
verify_origin headers allowed = check_origin (headers (codes "origin")) allowed

abbrev pub IsAllowed : Option Text → List Text → Type 0
IsAllowed o allowed =
    (origin a : Text) × (before after : List Text) × (o ≡ some origin)
    × (allowed ≡ before ++ a ∷ after)
    × (norm origin ≡ norm a)

check_origin_iff :
    (o : Option Text) (allowed : List Text) → (check_origin o allowed ≡ ok tt) ↔ IsAllowed o allowed
check_origin_iff none allowed = (λ e. cc e, λ (o, a, before, after, e, split, same). cc e)
check_origin_iff (some origin) allowed = (
  λ e.
      let (before, a, after, split, same) =
        any-split (λ a. text_eq (norm origin) (norm a)) allowed (ground arith) in
      (origin, a, before, after, refl, split, text_eq_sound (norm origin) (norm a) same),
  λ (o, a, before, after, e, split, same).
      rw
        (
          split,
          any-append (λ a. text_eq (norm origin) (norm a)) before a after
              (rw (some-inj e, same) (text_eq_refl (norm a))),
        )
        refl,
)

-- A request passes the check just when it has an Origin header that is one of the allowed origins, up
-- to slashes at the end of either.
pub verify_origin_iff :
    (headers : Text → Option Text) (allowed : List Text)
    → (verify_origin headers allowed ≡ ok tt) ↔ IsAllowed (headers (codes "origin")) allowed
unfolding verify_origin
verify_origin_iff headers allowed = check_origin_iff (headers (codes "origin")) allowed
