-- ===== src/Routes/Versions.antt =====
-- src/routes/admin.rs: the optimistic lock of a role link's rule.
use birthday_role.Prelude.{
  Bool, true, false, ◌&&◌, ◌||◌, Bool-cases, &&-eq-true, ◌≡◌, refl, ◌∙◌, inl, inr, arith, none,
  some, List, [], ◌∷◌, any, Text, text_eq_sound, text_eq_comm,
}
use birthday_role.Prelude.Int.{ℤ, eq_ℤ_iff}
use birthday_role.Prelude.Options.{some-inj}
use birthday_role.Models.Json.{Value}
use birthday_role.Sync.{Link, find_link, same_link}
use birthday_role.Routes.{is_link}
use birthday_role.Routes.Admin.{is_version, saved_link, update_links}

-- The key of `role_links`: no two rows have one guild and one role.
abbrev pub IsKeyed : List Link → Type 0
IsKeyed [] = Unit
IsKeyed (l ∷ ls) = (find_link l.guild_id l.role_id ls ≡ none) × IsKeyed ls

find_link-none :
    (g r : Text) (version : ℤ) (ls : List Link)
    → find_link g r ls ≡ none
    → any (is_version g r version) ls ≡ false
find_link-none g r version [] e = refl
find_link-none g r version (l ∷ ls) e = ground (arith, find_link-none g r version ls)

pub same_link_sound : (g r g' r' : Text) → same_link g r g' r' ≡ true → (g ≡ g') × (r ≡ r')
same_link_sound g r g' r' h = ground (arith, text_eq_sound g g', text_eq_sound r r')

pub only_first : (a b c : Bool) → a ≡ true → c ≡ false → ((a && b) || c) ≡ true → b ≡ true
only_first a b c h k e = ground arith

-- A row with the version is the row of that key.
pub find_link-version :
    (g r : Text) (version : ℤ) (ls : List Link)
    → IsKeyed ls
    → any (is_version g r version) ls ≡ true
    → (l : Link) × (find_link g r ls ≡ some l) × (l.rule_tree_version ≡ version)
find_link-version g r version [] keyed h = cc
find_link-version g r version (l ∷ ls) (alone, keyed) h = elim (Bool-cases (is_link g r l)) [
  | inl here ↦
      let (same_g, same_r) = same_link_sound g r l.guild_id l.role_id here in
      let rest = find_link-none g r version ls (rw (same_g, same_r) alone) in
      (l, rw here refl, (eq_ℤ_iff l.rule_tree_version version).0 (only_first _ _ _ here rest h))
  | inr other ↦ rw other (find_link-version g r version ls keyed (rw other at h))
]

-- The update leaves the keys of the rows.
update_links-key :
    (g r g' r' : Text) (version : ℤ) (t : Value) (ls : List Link)
    → find_link g r ls ≡ none
    → find_link g r (update_links g' r' version t ls) ≡ none
unfolding update_links
update_links-key g r g' r' version t [] e = refl
update_links-key g r g' r' version t (l ∷ ls) e =
    ground (arith, update_links-key g r g' r' version t ls)

pub update_links-IsKeyed :
    (g r : Text) (version : ℤ) (t : Value) (ls : List Link)
    → IsKeyed ls
    → IsKeyed (update_links g r version t ls)
unfolding update_links
update_links-IsKeyed g r version t [] keyed = tt
update_links-IsKeyed g r version t (l ∷ ls) (alone, keyed) =
    elim (Bool-cases (is_version g r version l)) [
      | inl here ↦ rw here (
        update_links-key l.guild_id l.role_id g r version t ls alone,
        update_links-IsKeyed g r version t ls keyed,
      )
      | inr other ↦ rw other (
        update_links-key l.guild_id l.role_id g r version t ls alone,
        update_links-IsKeyed g r version t ls keyed,
      )
    ]

-- The row of the key has the new rule and the next version.
pub find_link-update_links :
    (g r : Text) (t : Value) (ls : List Link) (l : Link)
    → find_link g r ls ≡ some l
    → find_link g r (update_links g r l.rule_tree_version t ls) ≡ some (saved_link t l)
unfolding update_links
find_link-update_links g r t [] l e = cc
find_link-update_links g r t (m ∷ ls) l e = elim (Bool-cases (is_link g r m)) [
  | inl here ↦
      rw
        (
          ← some-inj (rw here at e),
          here,
          (eq_ℤ_iff m.rule_tree_version m.rule_tree_version).1 refl,
          here,
        )
        refl
  | inr other ↦ rw (other, other) (find_link-update_links g r t ls l (rw other at e))
]

pub same_link_comm : (g r g' r' : Text) → same_link g r g' r' ≡ same_link g' r' g r
same_link_comm g r g' r' = rw (text_eq_comm g g', text_eq_comm r r') refl

-- The rows of the other keys stay as they are.
pub find_link-others :
    (g r g' r' : Text) (version : ℤ) (t : Value) (ls : List Link)
    → same_link g r g' r' ≡ false
    → find_link g' r' (update_links g r version t ls) ≡ find_link g' r' ls
unfolding update_links
find_link-others g r g' r' version t [] h = refl
find_link-others g r g' r' version t (l ∷ ls) h = elim (Bool-cases (is_version g r version l)) [
  | inl here ↦
      let (same_g, same_r) = same_link_sound g r l.guild_id l.role_id (&&-eq-true _ _ here).0 in
      let apart = same_link_comm g' r' l.guild_id l.role_id ∙ (rw (same_g, same_r) at h) in
      rw (here, apart) (find_link-others g r g' r' version t ls h)
  | inr other ↦ rw (other, find_link-others g r g' r' version t ls h) refl
]
