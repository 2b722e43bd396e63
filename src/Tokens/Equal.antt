-- ===== src/Tokens/Equal.antt =====
-- The comparison in constant time is equality.
use birthday_role.Prelude.{
  ℕ, ◌≡◌, ◌↔◌, refl, arith, Bool-cases, inl, inr, true, List, [], ◌∷◌, Text, length, ◌==◌,
}
use birthday_role.Prelude.Bytes.{bit_xor-zero, bit_xor_refl, bit_or-zero, as_bytes, as_bytes-inj}
use birthday_role.Tokens.{gather, constant_time_eq}
use Prim.Native.Nat.{bit_or, bit_xor}

gather-zero : (d : ℕ) (a b : List ℕ) → length a ≡ length b → gather d a b ≡ 0 → (d ≡ 0) × (a ≡ b)
unfolding gather
gather-zero d [] [] h e = (e, refl)
gather-zero d [] (y ∷ b) h e = absurd (omega arith)
gather-zero d (x ∷ a) [] h e = absurd (omega arith)
gather-zero d (x ∷ a) (y ∷ b) h e =
    let (none_yet, rest) = gather-zero (bit_or d (bit_xor x y)) a b (omega arith) e in
    let (before, here) = bit_or-zero d (bit_xor x y) none_yet in
    (before, cc (bit_xor-zero x y here, rest))

gather_refl : (a : List ℕ) → gather 0 a a ≡ 0
unfolding gather
gather_refl [] = refl
gather_refl (x ∷ a) = rw (bit_xor_refl x) (gather_refl a)

constant_time_eq_sound : (a b : List ℕ) → constant_time_eq a b ≡ true → a ≡ b
unfolding constant_time_eq
constant_time_eq_sound a b e = elim (Bool-cases (length a == length b)) [
  | inl same ↦ (gather-zero 0 a b (ground arith) (ground arith)).1
  | inr other ↦ absurd (ground arith)
]

constant_time_eq_refl : (a : List ℕ) → constant_time_eq a a ≡ true
unfolding constant_time_eq
constant_time_eq_refl a = ground (arith, gather_refl a)

-- Two byte strings of any lengths are found equal by the comparison in constant time exactly when they
-- are equal.
pub constant_time_eq_iff : (a b : List ℕ) → (constant_time_eq a b ≡ true) ↔ (a ≡ b)
constant_time_eq_iff a b = (constant_time_eq_sound a b, λ e. rw e (constant_time_eq_refl b))

pub text-constant_time_eq : (s t : Text) → constant_time_eq (as_bytes s) (as_bytes t) ≡ true → s ≡ t
text-constant_time_eq s t e = as_bytes-inj s t (constant_time_eq_sound _ _ e)
