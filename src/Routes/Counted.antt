-- ===== src/Routes/Counted.antt =====
-- src/routes/admin.rs: the preview counts what the sync of the link would select.
use birthday_role.Prelude.{
  ℕ, suc, ◌≤◌, ◌≡◌, refl, sym, ap, ◌∙◌, Bool, true, ◌&&◌, Option, some, List, [], ◌∷◌, map, length,
  length-take, min, Text, codes, text_mem, Bool-cases, inl, inr, arith,
}
use birthday_role.Prelude.Results.{Result, ok, err, ok-inj}
use birthday_role.Errors.{AppError, not_found}
use birthday_role.Models.Json.{Value}
use birthday_role.Models.Rule.{RuleTree}
use birthday_role.Sql.{Bind, Where, all_rows, build_rule_where}
use birthday_role.Sql.Semantics.{bind_at}
use birthday_role.Sync.{Member, Link, find_link, filter, insert, sort, tree_of}
use birthday_role.Sync.RoleLink.{qualifies, qualifying}
use birthday_role.Access.{AppState, Caller, require_role_config_access}
use birthday_role.Routes.{Store}
use birthday_role.Routes.Steps.{attempt-eq-ok, found-eq-ok}
use birthday_role.Routes.Preview.{
  counted, matching, is_match, preview_of, preview_count_for, role_config_preview,
}

length-map {ℓ κ} :
    {A : Type ℓ} {B : Type κ} (f : A → B) (xs : List A) → length (map f xs) ≡ length xs
length-map f [] = refl
length-map f (x ∷ xs) = ap suc (length-map f xs)

length-insert :
    (le : Text → Text → Bool) (x : Text) (ys : List Text)
    → length (insert le x ys) ≡ suc (length ys)
length-insert le x [] = refl
length-insert le x (y ∷ ys) = ground (arith, length-insert le x ys)

length-sort : (le : Text → Text → Bool) (xs : List Text) → length (sort le xs) ≡ length xs
unfolding sort
length-sort le [] = refl
length-sort le (x ∷ xs) = length-insert le x (sort le xs) ∙ ap suc (length-sort le xs)

filter_same {ℓ} :
    {A : Type ℓ} (p q : A → Bool) (xs : List A) → ((x : A) → p x ≡ q x) → filter p xs ≡ filter q xs
filter_same p q [] h = refl
filter_same p q (x ∷ xs) h = rw (h x, filter_same p q xs h) refl

filter-and_le {ℓ} :
    {A : Type ℓ} (p q : A → Bool) (xs : List A)
    → length (filter (λ x. p x && q x) xs) ≤ length (filter p xs)
filter-and_le p q [] = omega arith
filter-and_le p q (x ∷ xs) = ground (arith, filter-and_le p q xs)

filter-empty :
    (q : Member → Bool) (rows : List Member)
    → length (filter (λ m. text_mem m.discord_id [] && q m) rows) ≡ 0
filter-empty q [] = refl
filter-empty q (m ∷ rows) = filter-empty q rows

module _ (selects : Where → (ℕ → Option Bind) → Member → Bool) (le : Text → Text → Bool)
    (read_tree : Value → Option RuleTree)
    (fetch_guild_member_ids : Text → Result AppError (List Text))
    (get_user_info : Text → Text → Text → Result AppError (ℕ × ℕ))
    (upload_users : Text → Text → List Text → Text → Result AppError ℕ)
    (all : (m : Member) → selects all_rows (bind_at 1 []) m ≡ true) where
  -- The two tests of a row, of the sync and of the preview, are one.
  qualifies-is_match :
      (tree : RuleTree) (m : Member)
      → qualifies selects le read_tree fetch_guild_member_ids get_user_info upload_users tree m
        ≡ is_match selects fetch_guild_member_ids tree m
  unfolding build_rule_where
  qualifies-is_match tree m = elim (Bool-cases tree.grant_on_any_birthday) [
    | inl any_birthday ↦ rw any_birthday (sym (all m))
    | inr rule ↦ rw rule refl
  ]

  length-qualifying :
      (tree : RuleTree) (ids : List Text) (user_limit : ℕ) (store : Store)
      → length (
          qualifying selects le read_tree fetch_guild_member_ids get_user_info upload_users tree ids
            user_limit store.world)
        ≡ min user_limit (matching selects fetch_guild_member_ids tree ids store.world.members)
  unfolding qualifying
  length-qualifying tree ids user_limit store =
      length-take user_limit _
      ∙ ap (min user_limit) (
          length-sort le _
          ∙ length-map _ _
          ∙ ap length (
              filter_same _ _ store.world.members
                (λ m. ap (λ b. text_mem m.discord_id ids && b) (qualifies-is_match tree m))))

  counted-inj : (n k n' k' : ℕ) → counted n k ≡ counted n' k' → (n ≡ n') × (k ≡ k')
  counted-inj n k n' k' h = (cc, cc)

  counted_of :
      (tree : RuleTree) (fetched : Result AppError (List Text)) (rows : List Member) (n k : ℕ)
      → preview_of selects fetch_guild_member_ids tree fetched rows ≡ counted n k
      → (ids : List Text) × (fetched ≡ ok ids)
        × (n ≡ matching selects fetch_guild_member_ids tree ids rows)
        × (n ≤ k)
  counted_of tree (err e) rows n k h = cc
  counted_of tree (ok []) rows n k h =
      let (e, f) = counted-inj 0 0 n k h in
      let z = filter-empty (is_match selects fetch_guild_member_ids tree) rows in
      ([], refl, sym e ∙ sym z, omega (arith, e, f))
  counted_of tree (ok (i ∷ ids)) rows n k h =
      let (e, f) = counted-inj _ _ n k h in
      let l =
        filter-and_le (λ m. text_mem m.discord_id (i ∷ ids))
          (is_match selects fetch_guild_member_ids tree) rows in
      (i ∷ ids, refl, sym e, omega (arith, e, f, l))

  -- The number that the preview of a link's rule shows as matching is at most that of the members with a
  -- birthday, and it is the number of those whom the sync of the link selects, up to the link's limit: for any
  -- limit, the sync's list has the lesser of the two. The preview changes nothing. Postgres selects
  -- every row by TRUE.
  pub role_config_preview-qualifying :
      (state : AppState) (caller : Caller) (g r : Text) (store store' : Store) (n k : ℕ)
      → role_config_preview selects fetch_guild_member_ids read_tree state caller g r store
        ≡ (ok (counted n k), store')
      → (store' ≡ store)
        × (link : Link) × (ids : List Text) × (find_link g r store.world.links ≡ some link)
        × (fetch_guild_member_ids g ≡ ok ids)
        × (n ≤ k)
        × ((user_limit : ℕ)
            → length (
                qualifying selects le read_tree fetch_guild_member_ids get_user_info upload_users
                  (tree_of read_tree link.rule_tree)
                  ids
                  user_limit
                  store.world)
              ≡ min user_limit n)
  unfolding role_config_preview preview_count_for
  role_config_preview-qualifying state caller g r store store' n k h =
      let (access, granted, e1) =
        attempt-eq-ok (require_role_config_access state caller g r) _ store store' (counted n k)
          h in
      let (link, there, e2) =
        found-eq-ok (not_found (codes "Role link not found.")) (find_link g r store.world.links) _
          store store' (counted n k) e1 in
      let tree = tree_of read_tree link.rule_tree in
      let fetched = fetch_guild_member_ids g in
      let rows = store.world.members in
      let (ids, known, count, below) =
        counted_of tree fetched rows n k (ok-inj (ap (λ p. p.0) e2)) in
      (
        sym (ap (λ p. p.1) e2),
        link,
        ids,
        there,
        known,
        below,
        λ user_limit. length-qualifying tree ids user_limit store ∙ ap (min user_limit) (sym count),
      )
