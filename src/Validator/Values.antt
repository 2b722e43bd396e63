-- ===== src/Validator/Values.antt =====
-- src/services/rule_validator.rs: the values that `normalize_value` lets through.
use birthday_role.Prelude.{
  ◌≡◌, refl, ap, ◌∙◌, true, false, Option, none, some, List, [], ◌∷◌, map, Text, is_empty, trim,
  to_ascii_lowercase, arith, All, match_text-All, Bool-cases, inl, inr,
}
use birthday_role.Prelude.Int.{ℤ}
use birthday_role.Prelude.Options.{Returns, some-inj}
use birthday_role.Prelude.Results.{
  ok, ok_or, refuse_if, >>=-eq-ok, ok_or-eq-ok, refuse_if-eq-ok, ok-inj,
}
use birthday_role.Models.Json.{
  Number, Value, null, bool, number, integer, float, number_as_i64, string, array, object, is_i64,
  of_items, items-of_items, as_bool, as_i64,
}
use birthday_role.Models.Condition.{ConditionTarget}
use birthday_role.Eval.{int_list, filter_map}
use birthday_role.Validator.{
  Place, of_i64, parse_i64, in_i64, parse_integer, clamp_i64, truncated, bool_words, is_blank,
  normalize_bool, whole_numbers, normalize_ints, normalize_int, whole_in_list, whole, int_items,
}

-- A boolean is stored as one.
pub normalize_bool-as_bool :
    (w : Place) (raw v : Value) → normalize_bool w raw ≡ ok v → Returns (as_bool v)
unfolding normalize_bool
normalize_bool-as_bool w (bool b) v e = rw (← ok-inj e) (b, refl)
normalize_bool-as_bool w (string s) v e =
    match_text-All (λ a. Returns (as_bool a)) (to_ascii_lowercase (trim s)) bool_words v
      (
        (true, refl),
        ((true, refl), ((true, refl), ((false, refl), ((false, refl), ((false, refl), tt))))),
      )
      (ok_or-eq-ok _ _ v e)
normalize_bool-as_bool w null v e = cc
normalize_bool-as_bool w (number n) v e = cc
normalize_bool-as_bool w (array vs) v e = cc
normalize_bool-as_bool w (object vs) v e = cc

in_i64-is_i64 : (o : Option ℤ) (n : ℤ) → in_i64 o ≡ some n → is_i64 n ≡ true
in_i64-is_i64 none n e = cc
in_i64-is_i64 (some m) n e = elim (Bool-cases (is_i64 m)) [
  | inl fits ↦ rw (← some-inj (rw fits at e)) fits
  | inr large ↦ cc (rw large at e)
]

pub parse_i64-is_i64 : (s : Text) (n : ℤ) → parse_i64 s ≡ some n → is_i64 n ≡ true
unfolding parse_i64
parse_i64-is_i64 s n e = in_i64-is_i64 (parse_integer s) n e

clamp_i64-is_i64 : (n : ℤ) → is_i64 (clamp_i64 n) ≡ true
clamp_i64-is_i64 n = ground arith

number_as_i64-is_i64 : (m : Number) (n : ℤ) → number_as_i64 m ≡ some n → is_i64 n ≡ true
number_as_i64-is_i64 (integer m) n e = in_i64-is_i64 (some m) n e
number_as_i64-is_i64 (float m x) n e = cc

-- A number is stored as an integer of 64 bits.
whole-is_i64 : (v : Value) (n : ℤ) → whole v ≡ some n → is_i64 n ≡ true
whole-is_i64 (number (integer m)) n e = elim (Bool-cases (is_i64 m)) [
  | inl fits ↦ rw (← some-inj (rw fits at e)) fits
  | inr large ↦ rw (← some-inj (rw large at e)) (clamp_i64-is_i64 m)
]
whole-is_i64 (number (float m x)) n e = rw (← some-inj e) (clamp_i64-is_i64 (truncated m x))
whole-is_i64 (string s) n e = parse_i64-is_i64 (trim s) n e
whole-is_i64 null n e = cc
whole-is_i64 (bool b) n e = cc
whole-is_i64 (array vs) n e = cc
whole-is_i64 (object vs) n e = cc

pub normalize_int-as_i64 :
    (w : Place) (raw v : Value) → normalize_int w raw ≡ ok v → Returns (as_i64 v)
unfolding normalize_int
normalize_int-as_i64 w raw v e =
    let (_, _, rest) = >>=-eq-ok (refuse_if (is_blank raw) _) _ v e in
    let (n, found, stored) = >>=-eq-ok (ok_or _ (whole raw)) _ v rest in
    (n, rw (← ok-inj stored, whole-is_i64 raw n (ok_or-eq-ok _ _ n found)) refl)

-- A list of numbers is stored as a list that is not empty.
whole_in_list-is_i64 : (v : Value) (n : ℤ) → whole_in_list v ≡ some n → is_i64 n ≡ true
whole_in_list-is_i64 (number m) n e = number_as_i64-is_i64 m n e
whole_in_list-is_i64 (string s) n e = parse_i64-is_i64 (trim s) n e
whole_in_list-is_i64 null n e = cc
whole_in_list-is_i64 (bool b) n e = cc
whole_in_list-is_i64 (array vs) n e = cc
whole_in_list-is_i64 (object vs) n e = cc

whole_numbers-is_i64 :
    (w : Place) (vs : List Value) (ns : List ℤ)
    → whole_numbers w vs ≡ ok ns
    → All (λ n. is_i64 n ≡ true) ns
unfolding whole_numbers
whole_numbers-is_i64 w [] ns e = rw (← ok-inj e) tt
whole_numbers-is_i64 w (v ∷ vs) ns e =
    let (n, first, rest) = >>=-eq-ok (ok_or _ (whole_in_list v)) _ ns e in
    let (ms, others, made) = >>=-eq-ok (whole_numbers w vs) _ ns rest in
    rw (← ok-inj made)
      (whole_in_list-is_i64 v n (ok_or-eq-ok _ _ n first), whole_numbers-is_i64 w vs ms others)

as_i64-of_i64 : (n : ℤ) → is_i64 n ≡ true → as_i64 (of_i64 n) ≡ some n
as_i64-of_i64 n h = rw h refl

filter_map-found :
    (n : ℤ) (vs : List Value) (o : Option ℤ)
    → as_i64 (of_i64 n) ≡ o
    → o ≡ some n
    → filter_map as_i64 (of_i64 n ∷ vs) ≡ n ∷ filter_map as_i64 vs
filter_map-found n vs o e h = ground arith

filter_map-of_i64 :
    (ns : List ℤ) → All (λ n. is_i64 n ≡ true) ns → filter_map as_i64 (map of_i64 ns) ≡ ns
filter_map-of_i64 [] h = refl
filter_map-of_i64 (n ∷ ns) h =
    filter_map-found n (map of_i64 ns) (as_i64 (of_i64 n)) refl (as_i64-of_i64 n h.0)
    ∙ ap (λ ms. n ∷ ms) (filter_map-of_i64 ns h.1)

-- A stored list of numbers is read back as it is.
pub int_list-of_i64 :
    (ns : List ℤ) → All (λ n. is_i64 n ≡ true) ns → int_list (array (of_items (map of_i64 ns))) ≡ ns
unfolding int_list
int_list-of_i64 ns h = rw (items-of_items (map of_i64 ns)) (filter_map-of_i64 ns h)

pub normalize_ints-int_list :
    (w : Place) (t : ConditionTarget) (raw v : Value)
    → normalize_ints w t raw ≡ ok v
    → is_empty (int_list v) ≡ false
unfolding normalize_ints
normalize_ints-int_list w t raw v e =
    let (ns, found, rest) = >>=-eq-ok (whole_numbers w (int_items raw)) _ v e in
    let (u, filled, stored) = >>=-eq-ok (refuse_if (is_empty ns) _) _ v rest in
    rw (← ok-inj stored, int_list-of_i64 ns (whole_numbers-is_i64 w (int_items raw) ns found))
      (refuse_if-eq-ok (is_empty ns) _ u filled)
