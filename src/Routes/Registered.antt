-- ===== src/Routes/Registered.antt =====
-- src/routes/plugin.rs: registering a role link, and deleting it.
use birthday_role.Prelude.{
  true, false, Bool-cases, ◌≡◌, refl, ap, ◌∙◌, inl, inr, Option, none, some, List, [], ◌∷◌, Text,
  text_eq_refl,
}
use birthday_role.Prelude.Int.{pos}
use birthday_role.Prelude.Options.{map_or}
use birthday_role.Prelude.Results.{ok}
use birthday_role.Sync.{Link, find_link, same_link}
use birthday_role.Access.{Caller}
use birthday_role.Routes.{Store, is_link}
use birthday_role.Routes.Plugin.{
  extract_token, default_rule_tree, new_link, with_token, upsert_link, register,
}
use birthday_role.Routes.Steps.{attempt-eq-ok}
use birthday_role.Routes.Versions.{IsKeyed, same_link_sound, same_link_comm}

same_link_refl : (g r : Text) → same_link g r g r ≡ true
same_link_refl g r = rw (text_eq_refl g, text_eq_refl r) refl

-- The row of the key, with its new token and its old rule; or a new row.
abbrev registered : Text → Text → Text → Option Link → Link
registered g r token none = new_link g r token
registered g r token (some l) = with_token token l

registered-token : (g r token : Text) (o : Option Link) → (registered g r token o).api_token ≡ token
registered-token g r token none = refl
registered-token g r token (some l) = refl

registered-rule :
    (g r token : Text) (o : Option Link)
    → (registered g r token o).rule_tree ≡ map_or default_rule_tree (λ l. l.rule_tree) o
registered-rule g r token none = refl
registered-rule g r token (some l) = refl

registered-version :
    (g r token : Text) (o : Option Link)
    → (registered g r token o).rule_tree_version ≡ map_or (pos 1) (λ l. l.rule_tree_version) o
registered-version g r token none = refl
registered-version g r token (some l) = refl

find_link-upsert :
    (g r token : Text) (ls : List Link)
    → find_link g r (upsert_link g r token ls) ≡ some (registered g r token (find_link g r ls))
unfolding upsert_link
find_link-upsert g r token [] = rw (same_link_refl g r) refl
find_link-upsert g r token (l ∷ ls) = elim (Bool-cases (is_link g r l)) [
  | inl here ↦ rw (here, here) refl
  | inr other ↦ rw (other, other) (find_link-upsert g r token ls)
]

apart-new :
    (g r g' r' token : Text) (l : Link)
    → same_link g r g' r' ≡ false
    → is_link g r l ≡ true
    → same_link g' r' l.guild_id l.role_id ≡ false
apart-new g r g' r' token l h here =
    let (same_g, same_r) = same_link_sound g r l.guild_id l.role_id here in
    same_link_comm g' r' l.guild_id l.role_id ∙ (rw (same_g, same_r) at h)

find_link-upsert_others :
    (g r g' r' token : Text) (ls : List Link)
    → same_link g r g' r' ≡ false
    → find_link g' r' (upsert_link g r token ls) ≡ find_link g' r' ls
unfolding upsert_link
find_link-upsert_others g r g' r' token [] h = rw (same_link_comm g' r' g r, h) refl
find_link-upsert_others g r g' r' token (l ∷ ls) h = elim (Bool-cases (is_link g r l)) [
  | inl here ↦ rw (here, apart-new g r g' r' token l h here) refl
  | inr other ↦ rw (other, find_link-upsert_others g r g' r' token ls h) refl
]

upsert-IsKeyed :
    (g r token : Text) (ls : List Link) → IsKeyed ls → IsKeyed (upsert_link g r token ls)
unfolding upsert_link
upsert-IsKeyed g r token [] keyed = (refl, tt)
upsert-IsKeyed g r token (l ∷ ls) (alone, keyed) = elim (Bool-cases (is_link g r l)) [
  | inl here ↦ rw here (alone, keyed)
  | inr other ↦ rw other (
    find_link-upsert_others g r l.guild_id l.role_id token ls other ∙ alone,
    upsert-IsKeyed g r token ls keyed,
  )
]

-- Registering a role link, again or for the first time, stores the token of the request for it, and
-- keeps the rule and the version that it had; a new one has no rule, at version 1. The other links, the
-- birthdays, the assignments and the jobs stay as they are, and the links keep their key.
pub register-IsRegistered :
    (caller : Caller) (g r : Text) (store store' : Store)
    → IsKeyed store.world.links
    → register caller g r store ≡ (ok tt, store')
    → (token : Text) × (l : Link) × (extract_token caller ≡ ok token)
      × (find_link g r store'.world.links ≡ some l)
      × (l.api_token ≡ token)
      × (l.rule_tree
          ≡ map_or default_rule_tree (λ o. o.rule_tree) (find_link g r store.world.links))
      × (l.rule_tree_version
          ≡ map_or (pos 1) (λ o. o.rule_tree_version) (find_link g r store.world.links))
      × ((g' r' : Text)
          → same_link g r g' r' ≡ false
          → find_link g' r' store'.world.links ≡ find_link g' r' store.world.links)
      × (store'.world.members ≡ store.world.members)
      × (store'.world.assignments ≡ store.world.assignments)
      × (store'.queue ≡ store.queue)
      × IsKeyed store'.world.links
unfolding register
register-IsRegistered caller g r store store' keyed e =
    let (token, given, e1) = attempt-eq-ok (extract_token caller) _ store store' tt e in
    let stored = ap (λ p. p.1) e1 in
    rw (← stored) (
      token,
      registered g r token (find_link g r store.world.links),
      given,
      find_link-upsert g r token store.world.links,
      registered-token g r token (find_link g r store.world.links),
      registered-rule g r token (find_link g r store.world.links),
      registered-version g r token (find_link g r store.world.links),
      (λ g' r' apart. find_link-upsert_others g r g' r' token store.world.links apart),
      refl,
      refl,
      refl,
      upsert-IsKeyed g r token store.world.links keyed,
    )
