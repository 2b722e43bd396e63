-- ===== src/Sql/Like.antt =====
-- Postgres's LIKE, and the pattern that src/services/rule_sql.rs makes of a fragment.
use birthday_role.Prelude.{
  ℕ, ◌≡◌, refl, sym, ◌∙◌, inl, inr, Bool, true, false, not, ◌&&◌, ◌||◌, [], ◌∷◌, ◌++◌, ◌==◌,
  if◌then◌else◌, Text, is_empty, arith, Bool-cases,
}
use mathlib.Core.List.{append_assoc}
use mathlib.Core.Path.{fun_ext}
use birthday_role.Eval.{starts_with, contains_text}
use birthday_role.Sql.{replace, escape_like}

-- Some suffix of the text, itself included.
abbrev pub any_suffix : (Text → Bool) → Text → Bool
any_suffix p [] = p []
any_suffix p (c ∷ s) = p (c ∷ s) || any_suffix p s

-- The text begins with the character, and the rest passes.
abbrev pub then_rest : ℕ → (Text → Bool) → Text → Bool
then_rest c p [] = false
then_rest c p (d ∷ s) = (c == d) && p s

abbrev pub skip_one : (Text → Bool) → Text → Bool
skip_one p [] = false
skip_one p (d ∷ s) = p s

-- `%` stands for any text, `_` for one character, and a backslash quotes the next character. (Postgres
-- refuses a pattern that ends in a lone backslash; here it matches nothing.)
unfoldable pub like_match : Text → Text → Bool
like_match [] s = is_empty s
like_match (c ∷ []) s =
    if c == b'%'
    then true
    else if c == b'\\'
    then false
    else if c == b'_'
    then skip_one is_empty s
    else then_rest c is_empty s
like_match (c ∷ d ∷ p) s =
    if c == b'%'
    then any_suffix (like_match (d ∷ p)) s
    else if c == b'\\'
    then then_rest d (like_match p) s
    else if c == b'_'
    then skip_one (like_match (d ∷ p)) s
    else then_rest c (like_match (d ∷ p)) s

-- What the three replacements make of one character.
escape : ℕ → Text
escape c = if (c == b'\\') || (c == b'%') || (c == b'_') then b'\\' ∷ c ∷ [] else c ∷ []

replace-append : (c : ℕ) (t s u : Text) → replace c t (s ++ u) ≡ replace c t s ++ replace c t u
replace-append c t [] u = refl
replace-append c t (d ∷ s) u = elim (Bool-cases (d == c)) [
  | inl hit ↦ rw (hit, replace-append c t s u, append_assoc)
  | inr miss ↦ rw (miss, replace-append c t s u)
]

escape_like-cons : (c : ℕ) (s : Text) → escape_like (c ∷ s) ≡ escape c ++ escape_like s
unfolding escape_like escape
escape_like-cons c s = ground arith

plain : ℕ → Bool
plain c = not ((c == b'\\') || (c == b'%') || (c == b'_'))

like_match-plain :
    (c : ℕ) (p s : Text) → plain c ≡ true → like_match (c ∷ p) s ≡ then_rest c (like_match p) s
unfolding like_match plain
like_match-plain c [] s h = ground arith
like_match-plain c (d ∷ p) s h = ground arith

like_match-quoted :
    (c : ℕ) (p s : Text) → like_match (b'\\' ∷ c ∷ p) s ≡ then_rest c (like_match p) s
unfolding like_match
like_match-quoted c p s = refl

any_suffix-is_empty : (s : Text) → any_suffix is_empty s ≡ true
any_suffix-is_empty [] = refl
any_suffix-is_empty (c ∷ s) = any_suffix-is_empty s

like_match-any : (p s : Text) → like_match (b'%' ∷ p) s ≡ any_suffix (like_match p) s
unfolding like_match
like_match-any [] s = sym (any_suffix-is_empty s)
like_match-any (d ∷ p) s = refl

like_match-escape :
    (c : ℕ) (p s : Text) → like_match (escape c ++ p) s ≡ then_rest c (like_match p) s
unfolding escape
like_match-escape c p s = elim (Bool-cases ((c == b'\\') || (c == b'%') || (c == b'_'))) [
  | inl special ↦ rw special (like_match-quoted c p s)
  | inr other ↦ rw other (like_match-plain c p s (unfold plain in rw other))
]

then_rest-starts_with : (c : ℕ) (v s : Text) → then_rest c (starts_with v) s ≡ starts_with (c ∷ v) s
then_rest-starts_with c v [] = refl
then_rest-starts_with c v (d ∷ s) = refl

-- An escaped fragment before a `%` matches the texts that begin with the fragment.
like_match-prefix : (v s : Text) → like_match (escape_like v ++ b'%' ∷ []) s ≡ starts_with v s
like_match-prefix [] s = unfold like_match escape_like in refl
like_match-prefix (c ∷ v) s =
    rw (escape_like-cons c v, append_assoc, like_match-escape, fun_ext (like_match-prefix v))
      (then_rest-starts_with c v s)

-- The pattern that `build_condition` binds for `contains` matches just the texts that hold the
-- fragment, whatever wildcards and backslashes the fragment has.
pub like_match-escape_like :
    (v s : Text) → like_match (b'%' ∷ escape_like v ++ b'%' ∷ []) s ≡ contains_text v s
like_match-escape_like v s = like_match-any (escape_like v ++ b'%' ∷ []) s ∙ suffixes s
  where
    suffixes :
        (s : Text) → any_suffix (like_match (escape_like v ++ b'%' ∷ [])) s ≡ contains_text v s
    suffixes [] = like_match-prefix v []
    suffixes (d ∷ s) = rw (like_match-prefix v (d ∷ s), suffixes s)
