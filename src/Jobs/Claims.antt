-- ===== src/Jobs/Claims.antt =====
-- src/services/jobs.rs: claims do not overlap, and syncs are not queued twice.
use birthday_role.Prelude.{
  ℕ, zero, suc, ◌≤◌, ◌≡◌, ◌≢◌, refl, Bool, true, not, ◌&&◌, List, [], ◌∷◌, ◌++◌, any, All, Text,
  text_eq_refl, codes, Bool-cases, inl, inr, arith,
}
use birthday_role.Models.Json.{Value}
use birthday_role.Jobs.{
  Job, Queue, is_ready, claimed_by, claim_rows, claim_batch, is_same_sync,
  enqueue_config_sync_unique, new_job, link_payload,
}
use birthday_role.Jobs.Invariant.{IsTable, IsQueue, claim_rows-IsTable}

-- No job of one list has the id of a job of the other.
abbrev pub Disjoint : List Job → List Job → Type 0
Disjoint xs ys = All (λ x. All (λ y. x.id ≢ y.id) ys) xs

claim_rows-above :
    (now : ℕ) (worker : Text) (busy : ℕ → Bool) (js : List Job) (n low high : ℕ)
    → IsTable low high js
    → All (λ j. low ≤ j.id) (claim_rows now worker busy js n).1
unfolding claim_rows
claim_rows-above now worker busy [] n low high h = tt
claim_rows-above now worker busy (j ∷ js) zero low high h = tt
claim_rows-above now worker busy (j ∷ js) (suc n) low high (a, b, c, rest) =
    elim (Bool-cases (is_ready now j && not (busy j.id))) [
      | inl taken ↦
          rw taken
            (a, weaken low j.id _ a (claim_rows-above now worker busy js n (suc j.id) high rest))
      | inr left ↦
          rw left
            (weaken low j.id _ a (claim_rows-above now worker busy js (suc n) (suc j.id) high rest))
    ]
  where
    weaken :
        (low i : ℕ) (ks : List Job)
        → low ≤ i
        → All (λ k. suc i ≤ k.id) ks
        → All (λ k. low ≤ k.id) ks
    weaken low i [] l h = tt
    weaken low i (k ∷ ks) l h = (omega (arith, h.0), weaken low i ks l h.1)

differ-below : (i : ℕ) (ks : List Job) → All (λ k. suc i ≤ k.id) ks → All (λ k. i ≢ k.id) ks
differ-below i [] h = tt
differ-below i (k ∷ ks) h = (λ e. absurd (omega (arith, h.0, e)), differ-below i ks h.1)

add_above :
    (i : ℕ) (k : Job) (xs ys : List Job)
    → k.id ≡ i
    → All (λ x. suc i ≤ x.id) xs
    → Disjoint xs ys
    → Disjoint xs (k ∷ ys)
add_above i k [] ys e h d = tt
add_above i k (x ∷ xs) ys e h d =
    ((λ q. absurd (omega (arith, h.0, q, e)), d.0), add_above i k xs ys e h.1 d.1)

Disjoint-nil : (xs : List Job) → Disjoint xs []
Disjoint-nil [] = tt
Disjoint-nil (x ∷ xs) = (tt, Disjoint-nil xs)

claim_rows-Disjoint :
    (now later : ℕ) (worker other : Text) (busy busy' : ℕ → Bool) (js : List Job) (n m low high : ℕ)
    → IsTable low high js
    → Disjoint
        (claim_rows now worker busy js n).1
        (claim_rows later other busy' (claim_rows now worker busy js n).0 m).1
unfolding claim_rows
claim_rows-Disjoint now later worker other busy busy' [] n m low high h = tt
claim_rows-Disjoint now later worker other busy busy' (j ∷ js) zero m low high h = tt
claim_rows-Disjoint now later worker other busy busy' (j ∷ js) (suc n) zero low high h =
    elim (Bool-cases (is_ready now j && not (busy j.id))) [
      | inl taken ↦ rw taken (tt, Disjoint-nil _)
      | inr left ↦ rw left (Disjoint-nil _)
    ]
claim_rows-Disjoint now later worker other busy busy' (j ∷ js) (suc n) (suc m) low high
      (a, b, c, rest) =
    elim (Bool-cases (is_ready now j && not (busy j.id))) [
      | inl taken ↦ rw taken (
        differ-below j.id _ (
            claim_rows-above later other busy' _ (suc m) (suc j.id) high
              (claim_rows-IsTable now worker busy js n (suc j.id) high rest)),
        claim_rows-Disjoint now later worker other busy busy' js n (suc m) (suc j.id) high rest,
      )
      | inr left ↦ elim (Bool-cases (is_ready later j && not (busy' j.id))) [
        | inl taken ↦
            rw (left, taken)
              (add_above j.id (claimed_by later other j) _ _ refl
                (claim_rows-above now worker busy js (suc n) (suc j.id) high rest)
                (claim_rows-Disjoint now later worker other busy busy' js (suc n) m (suc j.id) high
                  rest))
        | inr passed ↦
            rw (left, passed)
              (claim_rows-Disjoint now later worker other busy busy' js (suc n) (suc m) (suc j.id)
                high rest)
      ]
    ]

-- What two workers claim one after the other, with nothing given back between, is disjoint, whatever
-- the times, the batch sizes and the rows locked by others: no job is handed out twice.
pub claim_batch-Disjoint :
    (now later : ℕ) (worker other : Text) (busy busy' : ℕ → Bool) (n m : ℕ) (q : Queue)
    → IsQueue q
    → Disjoint
        (claim_batch now worker busy n q).1
        (claim_batch later other busy' m (claim_batch now worker busy n q).0).1
unfolding claim_batch
claim_batch-Disjoint now later worker other busy busy' n m q h =
    claim_rows-Disjoint now later worker other busy busy' q.rows n m 0 q.next_id h

any-append {ℓ} :
    {A : Type ℓ} (p : A → Bool) (xs : List A) (y : A) → p y ≡ true → any p (xs ++ y ∷ []) ≡ true
any-append p [] y h = rw h refl
any-append p (x ∷ xs) y h = ground (arith, any-append p xs y h)

new_job-is_same_sync :
    (json_text : Value → Text) (g r : Text) (id at : ℕ)
    → is_same_sync json_text g r (new_job id (codes "config_sync") (link_payload g r) at) ≡ true
unfolding is_same_sync
new_job-is_same_sync json_text g r id at = rw (text_eq_refl g, text_eq_refl r) refl

-- While a sync of a role link is pending, another is not queued: a second
-- `enqueue_config_sync_unique` for the link, at any later tick, changes nothing.
pub enqueue_config_sync_unique_idempotent :
    (json_text : Value → Text) (now later : ℕ) (guild_id role_id : Text) (q : Queue)
    → enqueue_config_sync_unique json_text later guild_id role_id
        (enqueue_config_sync_unique json_text now guild_id role_id q)
      ≡ enqueue_config_sync_unique json_text now guild_id role_id q
unfolding enqueue_config_sync_unique
enqueue_config_sync_unique_idempotent json_text now later g r q =
    elim (Bool-cases (any (is_same_sync json_text g r) q.rows)) [
      | inl there ↦ rw (there, there) refl
      | inr absent ↦
          rw
            (
              absent,
              any-append (is_same_sync json_text g r) q.rows _
                  (new_job-is_same_sync json_text g r q.next_id now),
            )
            refl
    ]
