-- ===== src/Tokens/Audience.antt =====
-- src/services/rl_token.rs, `aud_matches` and the check of the type, in words of their own.
use birthday_role.Prelude.{
  ℕ, zero, suc, ◌≡◌, ◌↔◌, ◌⊎◌, refl, ap, ◌∙◌, inl, inr, true, false, Bool-cases, Option, none, some,
  [], ◌∷◌, ◌++◌, Text, codes, text_eq_sound, text_eq_refl, ◌==◌, ==_iff, trim_end_matches,
  cons_unless, to_ascii_lowercase, arith,
}
use birthday_role.Prelude.Options.{some-inj}
use birthday_role.Tokens.{aud_matches}
use birthday_role.Tokens.Jwt.{is_other_typ}

abbrev slashes : ℕ → Text
slashes zero = []
slashes (suc n) = 47 ∷ slashes n

-- The texts are one text with slashes after it, of any numbers.
abbrev pub IsSameUpToSlashes : Text → Text → Type 0
IsSameUpToSlashes a b =
    (stem : Text) × (i j : ℕ) × (a ≡ stem ++ slashes i) × (b ≡ stem ++ slashes j)

abbrev stripped : Text → Text
stripped = trim_end_matches (λ c. c == 47)

cons-stripped :
    (c : ℕ) (t s : Text) (n : ℕ)
    → s ≡ t ++ slashes n
    → (k : ℕ) × (c ∷ s ≡ cons_unless (λ c. c == 47) c t ++ slashes k)
cons-stripped c [] s n e = elim (Bool-cases (c == 47)) [
  | inl slash ↦ (suc n, rw (slash, (==_iff c 47).0 slash, e) refl)
  | inr other ↦ (n, rw (other, e) refl)
]
cons-stripped c (d ∷ t) s n e = (n, ap (λ r. c ∷ r) e)

stripped-slashes : (s : Text) → (n : ℕ) × (s ≡ stripped s ++ slashes n)
stripped-slashes [] = (0, refl)
stripped-slashes (c ∷ s) = let (n, e) = stripped-slashes s in cons-stripped c (stripped s) s n e

stripped-none : (n : ℕ) → stripped (slashes n) ≡ []
stripped-none zero = refl
stripped-none (suc n) = rw (stripped-none n) refl

stripped-append : (s : Text) (n : ℕ) → stripped (s ++ slashes n) ≡ stripped s
stripped-append [] n = stripped-none n
stripped-append (c ∷ s) n = ap (cons_unless (λ c. c == 47) c) (stripped-append s n)

pub aud_matches_iff :
    (claim expected : Text) → (aud_matches claim expected ≡ true) ↔ IsSameUpToSlashes claim expected
unfolding aud_matches
aud_matches_iff claim expected = (
  λ h.
      let same = text_eq_sound (stripped claim) (stripped expected) h in
      let (i, a) = stripped-slashes claim in
      let (j, b) = stripped-slashes expected in
      (stripped expected, i, j, a ∙ ap (λ t. t ++ slashes i) same, b),
  λ (stem, i, j, a, b).
      rw (a, b, stripped-append stem i, stripped-append stem j) (text_eq_refl (stripped stem)),
)

-- No type, or JWT in letters of either case.
abbrev pub IsJwtType : Option Text → Type 0
IsJwtType typ = (typ ≡ none) ⊎ ((t : Text) × (typ ≡ some t) × (to_ascii_lowercase t ≡ codes "jwt"))

some_jwt : (t : Text) → IsJwtType (some t) → to_ascii_lowercase t ≡ codes "jwt"
some_jwt t (inl e) = cc
some_jwt t (inr (u, e, low)) = rw (some-inj e) low

pub is_other_typ_iff : (typ : Option Text) → (is_other_typ typ ≡ false) ↔ IsJwtType typ
is_other_typ_iff none = (λ h. inl refl, λ h. refl)
is_other_typ_iff (some t) = (
  λ h. inr (t, refl, text_eq_sound (to_ascii_lowercase t) (codes "jwt") (ground arith)),
  λ h. rw (some_jwt t h) refl,
)
