-- ===== src/Sync/Order.antt =====
-- src/services/sync.rs: lists in the order of the database, and lists of one role's rows.
use birthday_role.Prelude.{
  ℕ, zero, suc, ◌≡◌, refl, ap, Bool, true, false, not, List, [], ◌∷◌, ◌++◌, map, take, Text,
  text_eq_refl, text_eq_sound, Bool-cases, inl, inr, arith,
}
use birthday_role.Sync.{Assignment, filter, insert, sort, of_link, same_link}
use birthday_role.Sync.RoleLink.{texts_eq}

pub texts_eq_refl : (ts : List Text) → texts_eq ts ts ≡ true
texts_eq_refl [] = refl
texts_eq_refl (t ∷ ts) = ground (arith, text_eq_refl t, texts_eq_refl ts)

pub texts_eq_sound : (ss ts : List Text) → texts_eq ss ts ≡ true → ss ≡ ts
texts_eq_sound [] [] h = refl
texts_eq_sound [] (t ∷ ts) h = cc
texts_eq_sound (s ∷ ss) [] h = cc
texts_eq_sound (s ∷ ss) (t ∷ ts) h = ground (arith, text_eq_sound s t, texts_eq_sound ss ts)

pub same_link_refl : (g r : Text) → same_link g r g r ≡ true
same_link_refl g r = rw (text_eq_refl g, text_eq_refl r) refl

-- The rows of one role after its list is written anew.
pub filter-none {ℓ} :
    {A : Type ℓ} (p : A → Bool) (xs : List A) → filter p (filter (λ x. not (p x)) xs) ≡ []
filter-none p [] = refl
filter-none p (x ∷ xs) = elim (Bool-cases (p x)) [
  | inl yes_p ↦ rw yes_p (filter-none p xs)
  | inr no_p ↦ rw (no_p, no_p) (filter-none p xs)
]

pub filter-append {ℓ} :
    {A : Type ℓ} (p : A → Bool) (xs ys : List A) → filter p (xs ++ ys) ≡ filter p xs ++ filter p ys
filter-append p [] ys = refl
filter-append p (x ∷ xs) ys = elim (Bool-cases (p x)) [
  | inl yes_p ↦ rw yes_p (ap (λ r. x ∷ r) (filter-append p xs ys))
  | inr no_p ↦ rw no_p (filter-append p xs ys)
]

abbrev pub rows_of : Text → Text → List Text → List Assignment
rows_of g r ids = map (λ id. record { guild_id = g; role_id = r; discord_id = id }) ids

pub filter-rows_of :
    (g r : Text) (ids : List Text) → filter (of_link g r) (rows_of g r ids) ≡ rows_of g r ids
filter-rows_of g r [] = refl
filter-rows_of g r (i ∷ ids) =
    rw (same_link_refl g r) (
      ap (λ r'. record { guild_id = g; role_id = r; discord_id = i } ∷ r') (filter-rows_of g r ids))

pub ids-rows_of : (g r : Text) (ids : List Text) → map (λ a. a.discord_id) (rows_of g r ids) ≡ ids
ids-rows_of g r [] = refl
ids-rows_of g r (i ∷ ids) = ap (λ r'. i ∷ r') (ids-rows_of g r ids)

module _ (le : Text → Text → Bool) (total : (s t : Text) → le s t ≡ false → le t s ≡ true) where
  -- Each element stands before the next.
  abbrev pub IsSorted : List Text → Type 0
  IsSorted [] = Unit
  IsSorted (s ∷ []) = Unit
  IsSorted (s ∷ t ∷ ts) = (le s t ≡ true) × IsSorted (t ∷ ts)

  insert-IsSorted : (s : Text) (ts : List Text) → IsSorted ts → IsSorted (insert le s ts)
  insert-IsSorted s [] h = tt
  insert-IsSorted s (t ∷ []) h = elim (Bool-cases (le s t)) [
    | inl first ↦ rw first (first, tt)
    | inr later ↦ rw later (total s t later, tt)
  ]
  insert-IsSorted s (t ∷ u ∷ ts) h = elim (Bool-cases (le s t)) [
    | inl first ↦ rw first (first, h)
    | inr later ↦
        let rest = insert-IsSorted s (u ∷ ts) h.1 in
        elim (Bool-cases (le s u)) [
          | inl here ↦ rw (later, here) (total s t later, (here, h.1))
          | inr past ↦ rw (later, past) (h.0, rw past at rest)
        ]
  ]

  pub sort-IsSorted : (ts : List Text) → IsSorted (sort le ts)
  unfolding sort
  sort-IsSorted [] = tt
  sort-IsSorted (t ∷ ts) = insert-IsSorted t (sort le ts) (sort-IsSorted ts)

  pub take-IsSorted : (n : ℕ) (ts : List Text) → IsSorted ts → IsSorted (take n ts)
  take-IsSorted zero ts h = tt
  take-IsSorted (suc n) [] h = tt
  take-IsSorted (suc zero) (t ∷ []) h = tt
  take-IsSorted (suc zero) (t ∷ u ∷ ts) h = tt
  take-IsSorted (suc (suc n)) (t ∷ []) h = tt
  take-IsSorted (suc (suc n)) (t ∷ u ∷ ts) h = (h.0, take-IsSorted (suc n) (u ∷ ts) h.1)

  insert-first : (s : Text) (ts : List Text) → IsSorted (s ∷ ts) → insert le s ts ≡ s ∷ ts
  insert-first s [] h = refl
  insert-first s (t ∷ ts) h = rw h.0 refl

  -- Sorting leaves a sorted list as it is.
  pub sort_sorted : (ts : List Text) → IsSorted ts → sort le ts ≡ ts
  unfolding sort
  sort_sorted [] h = refl
  sort_sorted (t ∷ []) h = refl
  sort_sorted (t ∷ u ∷ ts) h = rw (sort_sorted (u ∷ ts) h.1) (insert-first t (u ∷ ts) h)
