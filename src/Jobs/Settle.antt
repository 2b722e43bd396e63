-- ===== src/Jobs/Settle.antt =====
-- src/services/jobs.rs: what becomes of a claimed job, and the upkeep of the table.
use native.Mathlib.Nat.{pow-le-pow_right}
use birthday_role.Prelude.{
  ℕ, suc, ◌+◌, ◌*◌, ◌^◌, ◌≤◌, ◌<◌, Bool, false, ◌&&◌, ◌||◌, Option, none, some, ◌==◌, List, [], ◌∷◌,
  if◌then◌else◌, Text, ltb, arith,
}
use birthday_role.Prelude.Options.{map_or}
use birthday_role.Jobs.{Job, Queue, Status, pending, in_progress, completed, dead, is_status}

-- `attempt.clamp(1, 8)`
abbrev pub clamp_attempt : ℕ → ℕ
clamp_attempt n = if ltb n 1 then 1 else if ltb 8 n then 8 else n

-- In milliseconds; `jitter_ms` is the random number of `gen_range(0..1000)`.
unfoldable pub backoff_delay : ℕ → ℕ → ℕ
backoff_delay jitter_ms attempt = 2 ^ clamp_attempt attempt * 1000 + jitter_ms

-- `UPDATE jobs SET ... WHERE id = $1`
abbrev pub update : ℕ → (Job → Job) → List Job → List Job
update id f [] = []
update id f (j ∷ js) = (if j.id == id then f j else j) ∷ update id f js

abbrev pub with_rows : Queue → List Job → Queue
with_rows q rows = record { rows = rows; next_id = q.next_id; notified = q.notified }

-- The row when the lock is given up: its status, its next run, its error and its end.
abbrev pub released : Job → Status → ℕ → Option Text → Option ℕ → Job
released j status next_run_at last_error completed_at = record {
  id = j.id;
  kind = j.kind;
  payload = j.payload;
  status = status;
  attempts = j.attempts;
  max_attempts = j.max_attempts;
  next_run_at = next_run_at;
  last_error = last_error;
  locked_by = none;
  locked_at = none;
  completed_at = completed_at;
}

unfoldable pub complete : ℕ → ℕ → Queue → Queue
complete now id q =
    with_rows q (update id (λ j. released j completed j.next_run_at j.last_error (some now)) q.rows)

unfoldable pub fail_retry : ℕ → ℕ → Job → Text → Queue → Queue
fail_retry now jitter_ms job err q =
    let at = now + backoff_delay jitter_ms job.attempts in
    with_rows q (update job.id (λ j. released j pending at (some err) j.completed_at) q.rows)

unfoldable pub fail_dead : ℕ → ℕ → Text → Queue → Queue
fail_dead now id err q =
    with_rows q (update id (λ j. released j dead j.next_run_at (some err) (some now)) q.rows)

abbrev pub is_stuck : ℕ → ℕ → Job → Bool
is_stuck now max_lock_secs j =
    is_status j.status in_progress
    && map_or false (λ at. ltb (at + max_lock_secs * 1000) now) j.locked_at

abbrev pub reap_rows : ℕ → ℕ → List Job → List Job × ℕ
reap_rows now max_lock_secs [] = ([], 0)
reap_rows now max_lock_secs (j ∷ js) =
    let (rows, n) = reap_rows now max_lock_secs js in
    if is_stuck now max_lock_secs j
    then (released j pending now j.last_error j.completed_at ∷ rows, suc n)
    else (j ∷ rows, n)

-- With the number of rows affected.
unfoldable pub reap_stuck : ℕ → ℕ → Queue → Queue × ℕ
reap_stuck now max_lock_secs q =
    let (rows, n) = reap_rows now max_lock_secs q.rows in (with_rows q rows, n)

abbrev pub ended_before : ℕ → ℕ → Job → Bool
ended_before now age j = map_or false (λ at. ltb (at + age) now) j.completed_at

-- Completed rows are kept for 6 hours, dead ones for 7 days.
abbrev pub is_garbage : ℕ → Job → Bool
is_garbage now j =
    (is_status j.status completed && ended_before now 21600000 j)
    || (is_status j.status dead && ended_before now 604800000 j)

abbrev pub keep_rows : ℕ → List Job → List Job × ℕ
keep_rows now [] = ([], 0)
keep_rows now (j ∷ js) =
    let (rows, n) = keep_rows now js in if is_garbage now j then (rows, suc n) else (j ∷ rows, n)

unfoldable pub gc_old : ℕ → Queue → Queue × ℕ
gc_old now q = let (rows, n) = keep_rows now q.rows in (with_rows q rows, n)

power_bounds : (n : ℕ) → 1 ≤ n → n ≤ 8 → (2 ≤ 2 ^ n) × (2 ^ n ≤ 256)
power_bounds n l h =
    let two : 0 < 2 = omega arith in
    (pow-le-pow_right two {i = 1} {j = n} l, pow-le-pow_right two {i = n} {j = 8} h)

clamp_attempt_bounds : (n : ℕ) → (1 ≤ clamp_attempt n) × (clamp_attempt n ≤ 8)
clamp_attempt_bounds n = ground arith

clamp_attempt_mono : (n m : ℕ) → n ≤ m → clamp_attempt n ≤ clamp_attempt m
clamp_attempt_mono n m h = ground arith

-- The delay before a retry is at least 2 seconds and less than 257 in every case, and with the same
-- jitter no later attempt waits for less than an earlier one.
pub backoff_delay_bounds :
    (jitter_ms attempt later : ℕ)
    → jitter_ms < 1000
    → attempt ≤ later
    → (2000 ≤ backoff_delay jitter_ms attempt)
      × (backoff_delay jitter_ms attempt < 257000)
      × (backoff_delay jitter_ms attempt ≤ backoff_delay jitter_ms later)
unfolding backoff_delay
backoff_delay_bounds jitter_ms attempt later h l =
    let (low, high) = clamp_attempt_bounds attempt in
    let (a, b) = power_bounds (clamp_attempt attempt) low high in
    let two : 0 < 2 = omega arith in
    let c =
      pow-le-pow_right two {i = clamp_attempt attempt} {j = clamp_attempt later}
        (clamp_attempt_mono attempt later l) in
    (
      delay_low (2 ^ clamp_attempt attempt) jitter_ms a,
      delay_high (2 ^ clamp_attempt attempt) jitter_ms b h,
      delay_mono (2 ^ clamp_attempt attempt) (2 ^ clamp_attempt later) jitter_ms c,
    )
  where
    delay_low : (p j : ℕ) → 2 ≤ p → 2000 ≤ p * 1000 + j
    delay_low p j h = omega arith

    delay_high : (p j : ℕ) → p ≤ 256 → j < 1000 → p * 1000 + j < 257000
    delay_high p j h l = omega arith

    delay_mono : (p r j : ℕ) → p ≤ r → p * 1000 + j ≤ r * 1000 + j
    delay_mono p r j h = omega arith
