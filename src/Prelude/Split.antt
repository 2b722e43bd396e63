-- ===== src/Prelude/Split.antt =====
-- `strip_prefix`, `split_once` and `splitn` of `str`, and how they undo a concatenation.
use Prim.Native.Nat.{ℕ, zero, suc}
use mathlib.Core.Path.{◌≡◌, refl, sym, ap, ◌∙◌}
use mathlib.Core.Logic.{◌≢◌, inl, inr}
use mathlib.Core.Bool.{Bool, true, not}
use mathlib.Core.Option.{Option, none, some}
use mathlib.Core.List.{List, [], ◌∷◌, ◌++◌, append_assoc}
use native.Mathlib.Omega.{arith}
use birthday_role.Prelude.Tests.{◌==◌, if◌then◌else◌, Option-cases, &&-eq-true}
use birthday_role.Prelude.Lists.{all, length}
use birthday_role.Prelude.Texts.{Text}
use birthday_role.Prelude.Options.{map_option}

unfoldable pub strip_prefix : Text → Text → Option Text
strip_prefix [] s = some s
strip_prefix (c ∷ p) [] = none
strip_prefix (c ∷ p) (d ∷ s) = let rest = strip_prefix p s in if c == d then rest else none

abbrev cons_first : ℕ → Text × Text → Text × Text
cons_first c (p, rest) = (c ∷ p, rest)

unfoldable pub split_once : ℕ → Text → Option (Text × Text)
split_once c [] = none
split_once c (d ∷ s) =
    let later = map_option (cons_first d) (split_once c s) in if d == c then some ([], s) else later

abbrev pieces : Text → (Text → List Text) → Option (Text × Text) → List Text
pieces s next none = s ∷ []
pieces s next (some (p, rest)) = p ∷ next rest

unfoldable pub splitn : ℕ → ℕ → Text → List Text
splitn zero c s = []
splitn (suc zero) c s = s ∷ []
splitn (suc (suc n)) c s = pieces s (splitn (suc n) c) (split_once c s)

-- A text without the separator.
abbrev pub lacks : ℕ → Text → Bool
lacks c = all (λ d. not (d == c))

pub strip_prefix-append : (p s : Text) → strip_prefix p (p ++ s) ≡ some s
unfolding strip_prefix
strip_prefix-append [] s = refl
strip_prefix-append (c ∷ p) s = ground (arith, strip_prefix-append p s)

pub strip_prefix-eq-some : (p t s : Text) → strip_prefix p t ≡ some s → t ≡ p ++ s
unfolding strip_prefix
strip_prefix-eq-some [] t s e = cc
strip_prefix-eq-some (c ∷ p) [] s e = cc
strip_prefix-eq-some (c ∷ p) (d ∷ t) s e = ground (arith, strip_prefix-eq-some p t s)

pub split_once-append :
    (c : ℕ) (p s : Text) → lacks c p ≡ true → split_once c (p ++ c ∷ s) ≡ some (p, s)
unfolding split_once
split_once-append c [] s h = ground arith
split_once-append c (d ∷ p) s h = ground (arith, split_once-append c p s)

pub split_once-eq-some :
    (c : ℕ) (t p s : Text) → split_once c t ≡ some (p, s) → (t ≡ p ++ c ∷ s) × (lacks c p ≡ true)
unfolding split_once
split_once-eq-some c [] p s e = cc
split_once-eq-some c (d ∷ t) [] s e = ground arith
split_once-eq-some c (d ∷ t) (b ∷ p) s e = ground (arith, split_once-eq-some c t p s)

-- The parts with the separator between them.
abbrev pub joined : ℕ → List Text → Text
joined c [] = []
joined c (p ∷ []) = p
joined c (p ∷ q ∷ ps) = p ++ c ∷ joined c (q ∷ ps)

joined-cons :
    (c : ℕ) (p : Text) (qs : List Text) → qs ≢ [] → joined c (p ∷ qs) ≡ p ++ c ∷ joined c qs
joined-cons c p [] h = absurd (h refl)
joined-cons c p (q ∷ qs) h = refl

splitn-nonempty : (n c : ℕ) (s : Text) → splitn (suc n) c s ≢ []
unfolding splitn
splitn-nonempty zero c s = ground arith
splitn-nonempty (suc n) c s = ground arith

splitn-eq-pieces :
    (n c : ℕ) (s : Text) (o : Option (Text × Text))
    → split_once c s ≡ o
    → splitn (suc (suc n)) c s ≡ pieces s (splitn (suc n) c) o
unfolding splitn
splitn-eq-pieces n c s o e = ap (pieces s (splitn (suc n) c)) e

pub joined-splitn : (n c : ℕ) (s : Text) → joined c (splitn (suc n) c s) ≡ s
unfolding splitn
joined-splitn zero c s = refl
joined-splitn (suc n) c s = elim (Option-cases (split_once c s)) [
  | inl e ↦ rw (splitn-eq-pieces n c s none e) refl
  | inr ((p, rest), e) ↦
      ap (joined c) (splitn-eq-pieces n c s (some (p, rest)) e)
      ∙ joined-cons c p (splitn (suc n) c rest) (splitn-nonempty n c rest)
      ∙ ap (λ t. p ++ c ∷ t) (joined-splitn n c rest)
      ∙ sym (split_once-eq-some c s p rest e).0
]

pub splitn-joined :
    (c : ℕ) (ps : List Text) (last : Text)
    → all (lacks c) ps ≡ true
    → splitn (suc (length ps)) c (joined c (ps ++ last ∷ [])) ≡ ps ++ last ∷ []
unfolding splitn
splitn-joined c [] last h = refl
splitn-joined c (p ∷ []) last h =
    splitn-eq-pieces 0 c (p ++ c ∷ last) _ (split_once-append c p last (&&-eq-true _ _ h).0)
splitn-joined c (p ∷ q ∷ ps) last h =
    let (first, rest) = &&-eq-true _ _ h in
    let tail = joined c (q ∷ ps ++ last ∷ []) in
    splitn-eq-pieces (suc (length ps)) c (p ++ c ∷ tail) _ (split_once-append c p tail first)
    ∙ ap (λ t. p ∷ t) (splitn-joined c (q ∷ ps) last rest)

pub joined-append :
    (c : ℕ) (p : Text) (ps : List Text) (last : Text)
    → joined c (p ∷ ps) ++ c ∷ last ≡ joined c (p ∷ ps ++ last ∷ [])
joined-append c p [] last = refl
joined-append c p (q ∷ ps) last =
    append_assoc p (c ∷ joined c (q ∷ ps)) (c ∷ last)
    ∙ ap (λ t. p ++ c ∷ t) (joined-append c q ps last)
