-- ===== src/Routes/Deleted.antt =====
-- src/routes/plugin.rs: the deletion of a role link.
use birthday_role.Prelude.{
  Bool, true, false, not, Bool-cases, &&-eq-true, ◌≡◌, refl, ap, ◌∙◌, inl, inr, arith, none, some,
  List, [], ◌∷◌, any, Text, text_eq_sound,
}
use birthday_role.Prelude.Results.{Result, ok, err}
use birthday_role.Errors.{AppError, unauthorized}
use birthday_role.Sync.{World, Link, find_link, same_link, of_link, filter}
use birthday_role.Access.{Caller}
use birthday_role.Routes.{Store, Failure, is_link, require, with_world}
use birthday_role.Routes.Plugin.{extract_token, is_owned, delete_link, delete_config}
use birthday_role.Routes.Steps.{Kept, attempt-eq-ok, attempt-Kept, Kept-eq-err}
use birthday_role.Routes.Versions.{IsKeyed, only_first, same_link_sound, same_link_comm}

-- A filter that keeps all, and one that keeps none of a kind.
filter-all {ℓ} :
    {A : Type ℓ} (p : A → Bool) (xs : List A) → any p xs ≡ false → filter (λ x. not (p x)) xs ≡ xs
filter-all p [] e = refl
filter-all p (x ∷ xs) e = ground (arith, filter-all p xs)

any-filter {ℓ} :
    {A : Type ℓ} (p : A → Bool) (xs : List A) → any p (filter (λ x. not (p x)) xs) ≡ false
any-filter p [] = refl
any-filter p (x ∷ xs) = ground (arith, any-filter p xs)

any_owned-none :
    (g r token : Text) (ls : List Link)
    → find_link g r ls ≡ none
    → any (is_owned g r token) ls ≡ false
any_owned-none g r token [] e = refl
any_owned-none g r token (l ∷ ls) e = ground (arith, any_owned-none g r token ls)

-- The owned row is the row of its key, and the deletion leaves none of that key.
find_link-owned :
    (g r token : Text) (ls : List Link)
    → IsKeyed ls
    → any (is_owned g r token) ls ≡ true
    → ((l : Link) × (find_link g r ls ≡ some l) × (l.api_token ≡ token))
      × (find_link g r (filter (λ l. not (is_owned g r token l)) ls) ≡ none)
find_link-owned g r token [] keyed h = cc
find_link-owned g r token (l ∷ ls) (alone, keyed) h = elim (Bool-cases (is_link g r l)) [
  | inl here ↦
      let (same_g, same_r) = same_link_sound g r l.guild_id l.role_id here in
      let none_left : find_link g r ls ≡ none = rw (same_g, same_r) alone in
      let rest = any_owned-none g r token ls none_left in
      let mine = only_first _ _ _ here rest h in
      (
        (l, rw here refl, text_eq_sound l.api_token token mine),
        rw (here, mine, filter-all (is_owned g r token) ls rest) none_left,
      )
  | inr other ↦
      let (found_row, gone) = find_link-owned g r token ls keyed (rw other at h) in
      (rw other found_row, rw (other, other) gone)
]

find_link-kept :
    (g r g' r' token : Text) (ls : List Link)
    → same_link g r g' r' ≡ false
    → find_link g' r' (filter (λ l. not (is_owned g r token l)) ls) ≡ find_link g' r' ls
find_link-kept g r g' r' token [] h = refl
find_link-kept g r g' r' token (l ∷ ls) h = elim (Bool-cases (is_owned g r token l)) [
  | inl here ↦
      let (same_g, same_r) = same_link_sound g r l.guild_id l.role_id (&&-eq-true _ _ here).0 in
      let apart = same_link_comm g' r' l.guild_id l.role_id ∙ (rw (same_g, same_r) at h) in
      rw (here, apart) (find_link-kept g r g' r' token ls h)
  | inr other ↦ rw (other, find_link-kept g r g' r' token ls h) refl
]

delete_link_none :
    (g r token : Text) (w : World)
    → any (is_owned g r token) w.links ≡ false
    → delete_link g r token w ≡ w
unfolding delete_link
delete_link_none g r token w e = rw (e, filter-all (is_owned g r token) w.links e) refl

-- What comes after the DELETE.
finish_delete : Text → Text → Text → Store → Result {0, 0} Failure Unit × Store
finish_delete g r token s =
    require unauthorized (any (is_owned g r token) s.world.links)
      (with_world s (delete_link g r token s.world))

finish_delete-Kept : (g r token : Text) (s : Store) → Kept s (finish_delete g r token s)
unfolding finish_delete
finish_delete-Kept g r token s = elim (Bool-cases (any (is_owned g r token) s.world.links)) [
  | inl mine ↦ rw mine tt
  | inr not_mine ↦ rw not_mine (ap (with_world s) (delete_link_none g r token s.world not_mine))
]

-- A deletion that is refused, since the token is missing or is not that of the link, leaves every table
-- as it was.
pub delete_config_refused :
    (caller : Caller) (g r : Text) (store store' : Store) (e : Failure)
    → delete_config caller g r store ≡ (err e, store')
    → store' ≡ store
unfolding delete_config finish_delete
delete_config_refused caller g r store store' e h =
    Kept-eq-err store store' _ e
      (attempt-Kept (extract_token caller) _ store (λ token. finish_delete-Kept g r token store)) h

require-eq-ok :
    (b : Bool) (x : AppError) (s s' : Store) → require x b s ≡ (ok tt, s') → (b ≡ true) × (s ≡ s')
require-eq-ok true x s s' e = (refl, ap (λ p. p.1) e)
require-eq-ok false x s s' e = cc (ap (λ p. p.0) e)

-- A deletion that succeeds came with the token of that very link. The link is gone, and its assignments
-- with it; the other links, the birthdays and the jobs stay as they are.
pub delete_config-IsDeleted :
    (caller : Caller) (g r : Text) (store store' : Store)
    → IsKeyed store.world.links
    → delete_config caller g r store ≡ (ok tt, store')
    → (token : Text) × (l : Link) × (extract_token caller ≡ ok token)
      × (find_link g r store.world.links ≡ some l)
      × (l.api_token ≡ token)
      × (find_link g r store'.world.links ≡ none)
      × (any (of_link g r) store'.world.assignments ≡ false)
      × ((g' r' : Text)
          → same_link g r g' r' ≡ false
          → find_link g' r' store'.world.links ≡ find_link g' r' store.world.links)
      × (store'.world.members ≡ store.world.members)
      × (store'.queue ≡ store.queue)
unfolding delete_config delete_link
delete_config-IsDeleted caller g r store store' keyed e =
    let (token, given, e1) = attempt-eq-ok (extract_token caller) _ store store' tt e in
    let (mine, stored) =
      require-eq-ok (any (is_owned g r token) store.world.links) unauthorized _ store' e1 in
    let ((l, here, same), gone) = find_link-owned g r token store.world.links keyed mine in
    rw (← stored) (
      token,
      l,
      given,
      here,
      same,
      gone,
      rw mine (any-filter (of_link g r) store.world.assignments),
      (λ g' r' apart. find_link-kept g r g' r' token store.world.links apart),
      refl,
      refl,
    )
