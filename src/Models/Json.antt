-- ===== src/Models/Json.antt =====
-- serde_json's `Value`, as far as the source looks into it. A number is an integer, or a finite float
-- `m * 2 ^ e`; `as_i64` knows the integers of 64 bits alone.
use birthday_role.Prelude.{
  ◌≡◌, refl, ap, Bool, ◌&&◌, Option, none, some, List, [], ◌∷◌, if◌then◌else◌, Text,
}
use birthday_role.Prelude.Int.{ℤ, pos, negsuc, leb_ℤ}

pub data Number : Type 0 where
  integer : ℤ → Number
  float : ℤ → ℤ → Number

mutual
  pub data Value : Type 0 where
    null : Value
    bool : Bool → Value
    number : Number → Value
    string : Text → Value
    array : Items → Value
    object : Entries → Value

  pub data Items : Type 0 where
    nil : Items
    cons : Value → Items → Items

  pub data Entries : Type 0 where
    end : Entries
    entry : Text → Value → Entries → Entries

abbrev pub items : Items → List Value
items nil = []
items (cons v vs) = v ∷ items vs

abbrev pub of_items : List Value → Items
of_items [] = nil
of_items (v ∷ vs) = cons v (of_items vs)

pub items-of_items : (vs : List Value) → items (of_items vs) ≡ vs
items-of_items [] = refl
items-of_items (v ∷ vs) = ap (λ ws. v ∷ ws) (items-of_items vs)

abbrev pub i64_max : ℤ
i64_max = pos 9223372036854775807

abbrev pub i64_min : ℤ
i64_min = negsuc 9223372036854775807

abbrev pub is_i64 : ℤ → Bool
is_i64 n = leb_ℤ i64_min n && leb_ℤ n i64_max

abbrev pub number_as_i64 : Number → Option ℤ
number_as_i64 (integer n) = if is_i64 n then some n else none
number_as_i64 (float m e) = none

abbrev pub as_bool : Value → Option Bool
as_bool (bool b) = some b
as_bool _ = none

abbrev pub as_i64 : Value → Option ℤ
as_i64 (number n) = number_as_i64 n
as_i64 _ = none

abbrev pub as_str : Value → Option Text
as_str (string s) = some s
as_str _ = none

abbrev pub as_array : Value → Option (List Value)
as_array (array vs) = some (items vs)
as_array _ = none
