-- ===== src/Jobs/Invariant.antt =====
-- src/services/jobs.rs: what every statement of the queue keeps true of the table.
use mathlib.Core.Path.{subst}
use birthday_role.Prelude.{
  ℕ, zero, suc, ◌+◌, ◌*◌, ◌≤◌, ◌<◌, ◌≡◌, refl, sym, Bool, not, ◌&&◌, none, ◌==◌, List, [], ◌∷◌,
  ◌++◌, Text, Bool-cases, inl, inr, arith, leb, any,
}
use birthday_role.Prelude.Options.{Returns}
use birthday_role.Models.Json.{Value}
use birthday_role.Jobs.{
  Job, JobKind, Queue, Status, pending, in_progress, completed, dead, new_job, enqueue,
  enqueue_config_sync_unique, claim_rows, claim_batch, is_ready, is_same_sync,
}
use birthday_role.Jobs.Settle.{
  update, complete, fail_retry, fail_dead, reap_rows, reap_stuck, is_stuck, keep_rows, gc_old,
  is_garbage,
}

-- A row's lock and its end, by its status: a worker and a time of the lock while it is in progress, an
-- end once it is over.
abbrev pub IsLocked : Status → Job → Type 0
IsLocked pending j = (j.locked_by ≡ none) × (j.locked_at ≡ none)
IsLocked in_progress j = Returns j.locked_by × Returns j.locked_at
IsLocked completed j = (j.locked_by ≡ none) × (j.locked_at ≡ none) × Returns j.completed_at
IsLocked dead j = (j.locked_by ≡ none) × (j.locked_at ≡ none) × Returns j.completed_at

-- The rows from the id `low` on, in the order of their ids, all of them below `high`.
abbrev pub IsTable : ℕ → ℕ → List Job → Type 0
IsTable low high [] = Unit
IsTable low high (j ∷ js) =
    (low ≤ j.id) × (j.id < high) × IsLocked j.status j × IsTable (suc j.id) high js

abbrev pub IsQueue : Queue → Type 0
IsQueue q = IsTable 0 q.next_id q.rows

insert-IsTable :
    (low high : ℕ) (js : List Job) (kind : Text) (payload : Value) (at : ℕ)
    → low ≤ high
    → IsTable low high js
    → IsTable low (suc high) (js ++ new_job high kind payload at ∷ [])
insert-IsTable low high [] kind payload at l h = (l, omega arith, (refl, refl), tt)
insert-IsTable low high (j ∷ js) kind payload at l h =
    let (a, b, c, rest) = h in
    (a, omega arith, c, insert-IsTable (suc j.id) high js kind payload at b rest)

replaced :
    (low high : ℕ) (j k : Job) (js : List Job)
    → k.id ≡ j.id
    → low ≤ j.id
    → j.id < high
    → IsLocked k.status k
    → IsTable (suc j.id) high js
    → IsTable low high (k ∷ js)
replaced low high j k js e a b c rest =
    (omega arith, omega arith, c, subst (λ n. IsTable (suc n) high js) (sym e) rest)

update-IsTable :
    (low high id : ℕ) (f : Job → Job) (js : List Job)
    → ((j : Job) → (f j).id ≡ j.id)
    → ((j : Job) → IsLocked (f j).status (f j))
    → IsTable low high js
    → IsTable low high (update id f js)
update-IsTable low high id f [] same locked h = tt
update-IsTable low high id f (j ∷ js) same locked (a, b, c, rest) = elim (Bool-cases (j.id == id)) [
  | inl here ↦ rw here (
      replaced low high j (f j) _ (same j) a b (locked j)
        (update-IsTable (suc j.id) high id f js same locked rest))
  | inr other ↦ rw other (a, b, c, update-IsTable (suc j.id) high id f js same locked rest)
]

loosen :
    (low low' high : ℕ) (js : List Job) → low' ≤ low → IsTable low high js → IsTable low' high js
loosen low low' high [] l h = tt
loosen low low' high (j ∷ js) l (a, b, c, rest) = (omega arith, b, c, rest)

keep_rows-IsTable :
    (now low high : ℕ) (js : List Job) → IsTable low high js → IsTable low high (keep_rows now js).0
keep_rows-IsTable now low high [] h = tt
keep_rows-IsTable now low high (j ∷ js) (a, b, c, rest) = elim (Bool-cases (is_garbage now j)) [
  | inl old ↦
      rw old
        (loosen (suc j.id) low high _ (omega arith) (keep_rows-IsTable now (suc j.id) high js rest))
  | inr kept ↦ rw kept (a, b, c, keep_rows-IsTable now (suc j.id) high js rest)
]

reap_rows-IsTable :
    (now secs low high : ℕ) (js : List Job)
    → IsTable low high js
    → IsTable low high (reap_rows now secs js).0
reap_rows-IsTable now secs low high [] h = tt
reap_rows-IsTable now secs low high (j ∷ js) (a, b, c, rest) =
    elim (Bool-cases (is_stuck now secs j)) [
      | inl stuck ↦
          rw stuck (a, b, (refl, refl), reap_rows-IsTable now secs (suc j.id) high js rest)
      | inr fine ↦ rw fine (a, b, c, reap_rows-IsTable now secs (suc j.id) high js rest)
    ]

pub claim_rows-IsTable :
    (now : ℕ) (worker : Text) (busy : ℕ → Bool) (js : List Job) (n low high : ℕ)
    → IsTable low high js
    → IsTable low high (claim_rows now worker busy js n).0
unfolding claim_rows
claim_rows-IsTable now worker busy [] n low high h = tt
claim_rows-IsTable now worker busy (j ∷ js) zero low high h = h
claim_rows-IsTable now worker busy (j ∷ js) (suc n) low high (a, b, c, rest) =
    elim (Bool-cases (is_ready now j && not (busy j.id))) [
      | inl taken ↦ rw taken (
        a,
        b,
        ((worker, refl), (now, refl)),
        claim_rows-IsTable now worker busy js n (suc j.id) high rest,
      )
      | inr left ↦
          rw left (a, b, c, claim_rows-IsTable now worker busy js (suc n) (suc j.id) high rest)
    ]

-- One statement of the queue, at some time and with some arguments.
pub data Step (json_text : Value → Text) : Queue → Queue → Type 0 where
  enqueue_step :
      (now : ℕ) (kind : JobKind) (payload : Value) (delay_secs : ℕ) (q : Queue)
      → Step json_text q (enqueue now kind payload delay_secs q)
  unique_step :
      (now : ℕ) (guild_id role_id : Text) (q : Queue)
      → Step json_text q (enqueue_config_sync_unique json_text now guild_id role_id q)
  claim_step :
      (now : ℕ) (worker_id : Text) (busy : ℕ → Bool) (batch_size : ℕ) (q : Queue)
      → Step json_text q (claim_batch now worker_id busy batch_size q).0
  complete_step : (now id : ℕ) (q : Queue) → Step json_text q (complete now id q)
  retry_step :
      (now jitter_ms : ℕ) (job : Job) (err : Text) (q : Queue)
      → Step json_text q (fail_retry now jitter_ms job err q)
  dead_step : (now id : ℕ) (err : Text) (q : Queue) → Step json_text q (fail_dead now id err q)
  reap_step :
      (now max_lock_secs : ℕ) (q : Queue) → Step json_text q (reap_stuck now max_lock_secs q).0
  gc_step : (now : ℕ) (q : Queue) → Step json_text q (gc_old now q).0

insert-IsQueue :
    (q : Queue) (kind : Text) (payload : Value) (at : ℕ)
    → IsQueue q
    → IsTable 0 (suc q.next_id) (q.rows ++ new_job q.next_id kind payload at ∷ [])
insert-IsQueue q kind payload at h =
    insert-IsTable 0 q.next_id q.rows kind payload at (omega arith) h

-- Every statement keeps the table well formed: ids are distinct, in the order of insertion and below
-- the sequence; a row has a worker and a time of its lock just while it is in progress; and a row that
-- is completed or dead has its end.
pub Step-IsQueue :
    (json_text : Value → Text) (q r : Queue) → Step json_text q r → IsQueue q → IsQueue r
unfolding enqueue enqueue_config_sync_unique claim_batch complete fail_retry fail_dead reap_stuck
    gc_old
Step-IsQueue json_text _ _ (enqueue_step now kind payload delay q) h =
    elim (Bool-cases (leb (now + delay * 1000) now)) [
      | inl at_once ↦ rw at_once (insert-IsQueue q _ _ _ h)
      | inr delayed ↦ rw delayed (insert-IsQueue q _ _ _ h)
    ]
Step-IsQueue json_text _ _ (unique_step now g o q) h =
    elim (Bool-cases (any (is_same_sync json_text g o) q.rows)) [
      | inl there ↦ rw there h
      | inr new ↦ rw new (insert-IsQueue q _ _ _ h)
    ]
Step-IsQueue json_text _ _ (claim_step now w busy n q) h =
    claim_rows-IsTable now w busy q.rows n 0 q.next_id h
Step-IsQueue json_text _ _ (complete_step now id q) h =
    update-IsTable 0 q.next_id id _ q.rows (λ j. refl) (λ j. (refl, refl, (now, refl))) h
Step-IsQueue json_text _ _ (retry_step now jitter_ms job err q) h =
    update-IsTable 0 q.next_id job.id _ q.rows (λ j. refl) (λ j. (refl, refl)) h
Step-IsQueue json_text _ _ (dead_step now id err q) h =
    update-IsTable 0 q.next_id id _ q.rows (λ j. refl) (λ j. (refl, refl, (now, refl))) h
Step-IsQueue json_text _ _ (reap_step now secs q) h =
    reap_rows-IsTable now secs 0 q.next_id q.rows h
Step-IsQueue json_text _ _ (gc_step now q) h = keep_rows-IsTable now 0 q.next_id q.rows h
