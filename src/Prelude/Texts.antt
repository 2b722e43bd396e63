-- ===== src/Prelude/Texts.antt =====
-- A text is the list of its code points; literals are written `codes "..."`.
use Prim.Native.Nat.{ℕ, ◌+◌}
use Prim.Native.Char.{code}
use Prim.Native.String.{String}
use mathlib.Core.Path.{◌≡◌, refl}
use mathlib.Core.Logic.{◌↔◌, inl, inr}
use mathlib.Core.Bool.{Bool, true, false, ◌&&◌, ◌||◌}
use mathlib.Core.List.{List, [], ◌∷◌}
use mathlib.Core.Option.{Option, none, some}
use native.Mathlib.Omega.{arith}
use birthday_role.Prelude.Tests.{Bool-cases, leb, ◌==◌, if◌then◌else◌, Bool-ext}
use birthday_role.Prelude.Lists.{any, All}

abbrev pub Text : Type 0
Text = List ℕ

abbrev pub codes : String → Text
codes String.[] = []
codes (String.◌∷◌ c s) = code c ∷ codes s

abbrev pub text_eq : Text → Text → Bool
text_eq [] [] = true
text_eq [] (d ∷ t) = false
text_eq (c ∷ s) [] = false
text_eq (c ∷ s) (d ∷ t) = (c == d) && text_eq s t

pub text_eq_sound : (s t : Text) → text_eq s t ≡ true → s ≡ t
text_eq_sound [] [] h = refl
text_eq_sound [] (d ∷ t) h = cc
text_eq_sound (c ∷ s) [] h = cc
text_eq_sound (c ∷ s) (d ∷ t) h = ground (arith, text_eq_sound s t)

pub text_eq_refl : (s : Text) → text_eq s s ≡ true
text_eq_refl [] = refl
text_eq_refl (c ∷ s) = ground (arith, text_eq_refl s)

pub text_eq_iff : (s t : Text) → (text_eq s t ≡ true) ↔ (s ≡ t)
text_eq_iff s t = (text_eq_sound s t, λ e. rw e (text_eq_refl t))

pub text_eq_comm : (s t : Text) → text_eq s t ≡ text_eq t s
text_eq_comm s t =
    Bool-ext _ _ (λ h. rw (text_eq_sound s t h) (text_eq_refl t))
      (λ h. rw (text_eq_sound t s h) (text_eq_refl s))

-- `choices.contains(&s)`
abbrev pub text_mem : Text → List Text → Bool
text_mem s = any (text_eq s)

abbrev pub text : List String → List Text
text [] = []
text (s ∷ ss) = codes s ∷ text ss

-- The code points of Unicode's property White_Space, for `char::is_whitespace`.
unfoldable pub is_whitespace : ℕ → Bool
is_whitespace c =
    (leb 9 c && leb c 13)
    || (c == 32)
    || (c == 133)
    || (c == 160)
    || (c == 5760)
    || (leb 8192 c && leb c 8202)
    || (c == 8232)
    || (c == 8233)
    || (c == 8239)
    || (c == 8287)
    || (c == 12288)

-- Drops the code points that satisfy `p` from the front, and from the back.
abbrev pub trim_start_matches : (ℕ → Bool) → Text → Text
trim_start_matches p [] = []
trim_start_matches p (c ∷ s) = if p c then trim_start_matches p s else c ∷ s

abbrev pub cons_unless : (ℕ → Bool) → ℕ → Text → Text
cons_unless p c [] = if p c then [] else c ∷ []
cons_unless p c (d ∷ s) = c ∷ d ∷ s

abbrev pub trim_end_matches : (ℕ → Bool) → Text → Text
trim_end_matches p [] = []
trim_end_matches p (c ∷ s) = cons_unless p c (trim_end_matches p s)

-- `str::trim`
unfoldable pub trim : Text → Text
unfolding is_whitespace
trim s = trim_end_matches is_whitespace (trim_start_matches is_whitespace s)

some_injective {ℓ} : {A : Type ℓ} {a b : A} → ◌≡◌ {A = Option A} (some a) (some b) → a ≡ b
some_injective e = cc

-- A `match` on texts: the first arm whose text is the one at hand.
module _ {ℓ} {A : Type ℓ} where
  abbrev pub match_text : Text → List (Text × A) → Option A
  match_text s [] = none
  match_text s ((k, a) ∷ arms) = if text_eq s k then some a else match_text s arms

  pub match_text-eq-some :
      (f : A → Text) (s : Text) (arms : List (Text × A)) (a : A)
      → All (λ arm. arm.0 ≡ f arm.1) arms
      → match_text s arms ≡ some a
      → s ≡ f a
  match_text-eq-some f s [] a h e = cc
  match_text-eq-some f s ((k, b) ∷ arms) a h e =
      ground (arith, text_eq_sound s k, match_text-eq-some f s arms a h.1)

  -- What holds of every arm's result holds of the result.
  pub match_text-All {κ} :
      (P : A → Type κ) (s : Text) (arms : List (Text × A)) (a : A)
      → All (λ arm. P arm.1) arms
      → match_text s arms ≡ some a
      → P a
  match_text-All P s [] a h e = cc
  match_text-All P s ((k, b) ∷ arms) a h e = elim (Bool-cases (text_eq s k)) [
    | inl here ↦ rw (← some_injective (rw here at e)) h.0
    | inr other ↦ match_text-All P s arms a h.1 (rw other at e)
  ]

-- `str::split` on one code point, and the parts that are left when they are trimmed.
abbrev pub split_at : ℕ → Text → Text × List Text
split_at c [] = ([], [])
split_at c (d ∷ s) = let (p, ps) = split_at c s in if d == c then ([], p ∷ ps) else (d ∷ p, ps)

abbrev pub split : ℕ → Text → List Text
split c s = let (p, ps) = split_at c s in p ∷ ps

unfoldable pub trimmed_parts : List Text → List Text
trimmed_parts [] = []
trimmed_parts (p ∷ ps) =
    let rest = trimmed_parts ps in elim (trim p) [ [] ↦ rest | c ∷ s ↦ (c ∷ s) ∷ rest ]

abbrev pub to_ascii_lowercase : Text → Text
to_ascii_lowercase [] = []
to_ascii_lowercase (c ∷ s) = (if leb 65 c && leb c 90 then c + 32 else c) ∷ to_ascii_lowercase s
