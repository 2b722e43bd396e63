-- ===== src/Routes/Listed.antt =====
-- src/routes/users.rs: whom the list of a server has.
use birthday_role.Prelude.{
  ℕ, zero, suc, true, Bool, ◌≡◌, refl, sym, ap, ◌∙◌, inl, inr, Bool-cases, Option-cases, some, List,
  [], ◌∷◌, All, any, take, length, length-take, min, Text, text_mem, text_eq_refl, arith,
}
use birthday_role.Prelude.Options.{some-inj}
use birthday_role.Calendar.{Calendar}
use birthday_role.Birthday.Facts.{Zones, compute_facts}
use birthday_role.Sync.{Member, filter}
use birthday_role.Routes.{Store}
use birthday_role.Routes.Verify.{is_row}
use birthday_role.Routes.UserList.{
  UserEntry, entry_of, before, insert_row, sorted_rows, listed_rows, entries,
}

All-mono {ℓ κ μ} :
    {A : Type ℓ} (P : A → Type κ) (Q : A → Type μ) (xs : List A)
    → ((x : A) → P x → Q x)
    → All P xs
    → All Q xs
All-mono P Q [] f h = tt
All-mono P Q (x ∷ xs) f h = (f x h.0, All-mono P Q xs f h.1)

module _ {ℓ κ} {A : Type ℓ} (P : A → Type κ) where
  All-take : (n : ℕ) (xs : List A) → All P xs → All P (take n xs)
  All-take zero xs h = tt
  All-take (suc n) [] h = tt
  All-take (suc n) (x ∷ xs) h = (h.0, All-take n xs h.1)

  -- What passes the filter has what all had, and passes.
  All-filter : (p : A → Bool) (xs : List A) → All P xs → All (λ x. (p x ≡ true) × P x) (filter p xs)
  All-filter p [] h = tt
  All-filter p (x ∷ xs) h = elim (Bool-cases (p x)) [
    | inl kept ↦ rw kept ((kept, h.0), All-filter p xs h.1)
    | inr dropped ↦ rw dropped (All-filter p xs h.1)
  ]

module _ (P : Member → Type 0) where
  All-insert_row : (m : Member) (ms : List Member) → P m → All P ms → All P (insert_row m ms)
  All-insert_row m [] a h = (a, tt)
  All-insert_row m (n ∷ ns) a h = elim (Bool-cases (before m n)) [
    | inl first ↦ rw first (a, h)
    | inr later ↦ rw later (h.0, All-insert_row m ns a h.1)
  ]

  All-sorted_rows : (ms : List Member) → All P ms → All P (sorted_rows ms)
  unfolding sorted_rows
  All-sorted_rows [] h = tt
  All-sorted_rows (m ∷ ms) h = All-insert_row m (sorted_rows ms) h.0 (All-sorted_rows ms h.1)

length-insert_row : (m : Member) (ms : List Member) → length (insert_row m ms) ≡ suc (length ms)
length-insert_row m [] = refl
length-insert_row m (n ∷ ns) = elim (Bool-cases (before m n)) [
  | inl first ↦ rw first refl
  | inr later ↦ rw later (ap suc (length-insert_row m ns))
]

length-sorted_rows : (ms : List Member) → length (sorted_rows ms) ≡ length ms
unfolding sorted_rows
length-sorted_rows [] = refl
length-sorted_rows (m ∷ ms) = length-insert_row m (sorted_rows ms) ∙ ap suc (length-sorted_rows ms)

abbrev IsPresent : List Member → Member → Type 0
IsPresent ms m = any (is_row m.discord_id) ms ≡ true

All-IsPresent : (ms : List Member) → All (IsPresent ms) ms
All-IsPresent [] = tt
All-IsPresent (m ∷ ms) = (
  rw (text_eq_refl m.discord_id) refl,
  All-mono (IsPresent ms) (IsPresent (m ∷ ms)) ms (λ n h. ground (arith, h)) (All-IsPresent ms),
)

-- The entry is of an account that the gateway names and that has a birthday stored.
abbrev pub IsListed : List Text → List Member → UserEntry → Type 0
IsListed ids ms e = (text_mem e.discord_id ids ≡ true) × (any (is_row e.discord_id) ms ≡ true)

listed_rows-IsPresent :
    (ids : List Text) (store : Store)
    → All
        (λ m. (text_mem m.discord_id ids ≡ true) × IsPresent store.world.members m)
        (listed_rows ids store)
listed_rows-IsPresent ids store =
    let P = λ (m : Member). (text_mem m.discord_id ids ≡ true) × IsPresent store.world.members m in
    All-take P 2000 _ (
      All-sorted_rows P _ (
        All-filter (IsPresent store.world.members) (λ m. text_mem m.discord_id ids)
          store.world.members (All-IsPresent store.world.members)))

module _ (c : Calendar) (z : Zones (c.Date)) where
  -- The first entry and the others, where there are some.
  entries-cons :
      (r : Member) (rs : List Member) (es : List UserEntry)
      → entries c z (r ∷ rs) ≡ some es
      → (e : UserEntry) × (rest : List UserEntry) × (es ≡ e ∷ rest)
        × (e.discord_id ≡ r.discord_id)
        × (entries c z rs ≡ some rest)
  unfolding entries entry_of
  entries-cons r rs es h = elim (Option-cases (compute_facts c z r.birthday)) [
    | inl failed ↦ cc (rw failed at h)
    | inr (f, made) ↦ elim (Option-cases (entries c z rs)) [
      | inl failed ↦ cc (rw (made, failed) at h)
      | inr (rest, others) ↦
          (entry_of r f, rest, sym (some-inj (rw (made, others) at h)), refl, others)
    ]
  ]

  pub entries-IsListed :
      (ids : List Text) (ms rs : List Member) (es : List UserEntry)
      → All (λ m. (text_mem m.discord_id ids ≡ true) × IsPresent ms m) rs
      → entries c z rs ≡ some es
      → All (IsListed ids ms) es × (length es ≡ length rs)
  unfolding entries
  entries-IsListed ids ms [] es h e = rw (← some-inj e) (tt, refl)
  entries-IsListed ids ms (r ∷ rs) es h e =
      let (first, rest, split, same, others) = entries-cons r rs es e in
      let (listed, len) = entries-IsListed ids ms rs rest h.1 others in
      rw split ((rw same h.0, listed), ap suc len)

  -- The entries are those of accounts that the gateway names and that have a birthday, and as many as
  -- there are of these, up to 2000.
  pub listed_rows-IsListed :
      (ids : List Text) (store : Store) (es : List UserEntry)
      → entries c z (listed_rows ids store) ≡ some es
      → All (IsListed ids store.world.members) es
        × (length es
            ≡ min 2000 (length (filter (λ m. text_mem m.discord_id ids) store.world.members)))
  listed_rows-IsListed ids store es e =
      let (listed, len) =
        entries-IsListed ids store.world.members (listed_rows ids store) es
          (listed_rows-IsPresent ids store) e in
      (listed, len ∙ length-take 2000 _ ∙ ap (min 2000) (length-sorted_rows _))
