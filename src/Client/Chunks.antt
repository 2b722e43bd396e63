-- ===== src/Client/Chunks.antt =====
-- The chunks of a list.
use birthday_role.Prelude.{
  ℕ, zero, suc, ◌≤◌, ◌≡◌, refl, ap, ◌∙◌, arith, List, [], ◌∷◌, ◌++◌, length, take, drop, All,
  length-take, length-drop, take-append-drop,
}
use birthday_role.Client.Upload.{chunks_up_to, chunks}

module _ {ℓ} {A : Type ℓ} where
  abbrev pub concat : List (List A) → List A
  concat [] = []
  concat (xs ∷ xss) = xs ++ concat xss

  concat-chunks_up_to :
      (fuel n : ℕ) (xs : List A) → 1 ≤ n → length xs ≤ fuel → concat (chunks_up_to fuel n xs) ≡ xs
  concat-chunks_up_to zero n [] pos fits = refl
  concat-chunks_up_to zero n (x ∷ xs) pos fits = absurd (omega arith)
  concat-chunks_up_to (suc fuel) n [] pos fits = refl
  concat-chunks_up_to (suc fuel) n (x ∷ xs) pos fits =
      ap (λ t. take n (x ∷ xs) ++ t)
        (concat-chunks_up_to fuel n (drop n (x ∷ xs)) pos (omega (arith, length-drop n (x ∷ xs))))
      ∙ take-append-drop n (x ∷ xs)

  chunks_up_to-bounds :
      (fuel n : ℕ) (xs : List A)
      → 1 ≤ n
      → All (λ chunk. (1 ≤ length chunk) × (length chunk ≤ n)) (chunks_up_to fuel n xs)
  chunks_up_to-bounds zero n xs pos = tt
  chunks_up_to-bounds (suc fuel) n [] pos = tt
  chunks_up_to-bounds (suc fuel) n (x ∷ xs) pos =
      let taken = length-take n (x ∷ xs) in
      (
        (omega (arith, taken), omega (arith, taken)),
        chunks_up_to-bounds fuel n (drop n (x ∷ xs)) pos,
      )

  -- The chunks of a list, of at least one element each, give the list back in its order; none is
  -- empty and none is longer than asked. The fuel is enough.
  pub chunks_partition :
      (n : ℕ) (xs : List A)
      → 1 ≤ n
      → (concat (chunks n xs) ≡ xs)
        × All (λ chunk. (1 ≤ length chunk) × (length chunk ≤ n)) (chunks n xs)
  unfolding chunks
  chunks_partition n xs pos = (
    concat-chunks_up_to (length xs) n xs pos (omega arith),
    chunks_up_to-bounds (length xs) n xs pos,
  )
