-- ===== src/Worker.antt =====
-- src/tasks/job_worker.rs: what a worker does with the jobs that it has claimed. The two syncs are
-- parameters: each takes the state of the rest of the program, and gives its result and the new state.
pub mod Released
use birthday_role.Prelude.{
  ℕ, ◌*◌, Bool, true, false, Option, none, some, List, [], ◌∷◌, if◌then◌else◌, Text, codes, leb,
}
use birthday_role.Prelude.Options.{◌>>=◌}
use birthday_role.Prelude.Results.{Result, ok, err}
use birthday_role.Errors.{AppError, Outcome, role_link_not_found, user_limit_reached}
use birthday_role.Models.Json.{as_str}
use birthday_role.Jobs.{
  Job, JobKind, player_sync, config_sync, kind_from_db, Queue, get, claim_batch,
}
use birthday_role.Jobs.Settle.{complete, fail_retry, fail_dead, reap_stuck}

abbrev pub batch_size : ℕ
batch_size = 8

abbrev pub stuck_lock_secs : ℕ
stuck_lock_secs = 60 * 30

-- The messages of the terminal errors.
pub data Reason : Type 0 where
  role_link_gone : Reason
  limit_reached : ℕ → Reason
  unknown_kind : Text → Reason
  invalid_player_payload missing_guild_id missing_role_id : Reason

pub data JobError : Type 0 where
  terminal : Reason → JobError
  retry : AppError → JobError

unfoldable pub job_error : AppError → JobError
job_error role_link_not_found = terminal role_link_gone
job_error (user_limit_reached limit) = terminal (limit_reached limit)
job_error other = retry other

-- `?` on a sync's result.
abbrev pub converted : Outcome → Result {0, 0} JobError Unit
converted (ok u) = ok tt
converted (err e) = err (job_error e)

-- `message` is what the error prints.
module _ {State : Type 0} (sync_for_player : Text → State → Outcome × State)
    (sync_for_role_link : Text → Text → State → Outcome × State) (message : JobError → Text) where
  abbrev pub text_at : Text → Job → Option Text
  text_at key job = get key job.payload >>= as_str

  abbrev pub with_outcome : Outcome × State → Result {0, 0} JobError Unit × State
  with_outcome (o, s) = (converted o, s)

  unfoldable pub dispatch_config :
      Option Text → Option Text → State → Result {0, 0} JobError Unit × State
  dispatch_config none role_id s = (err (terminal missing_guild_id), s)
  dispatch_config (some guild_id) none s = (err (terminal missing_role_id), s)
  dispatch_config (some guild_id) (some role_id) s =
      with_outcome (sync_for_role_link guild_id role_id s)

  unfoldable pub dispatch_player : Option Text → State → Result {0, 0} JobError Unit × State
  dispatch_player none s = (err (terminal invalid_player_payload), s)
  dispatch_player (some discord_id) s = with_outcome (sync_for_player discord_id s)

  unfoldable pub dispatch_kind : Option JobKind → Job → State → Result {0, 0} JobError Unit × State
  dispatch_kind none job s = (err (terminal (unknown_kind job.kind)), s)
  dispatch_kind (some player_sync) job s = dispatch_player (text_at (codes "discord_id") job) s
  dispatch_kind (some config_sync) job s =
      dispatch_config (text_at (codes "guild_id") job) (text_at (codes "role_id") job) s

  unfoldable pub dispatch : Job → State → Result {0, 0} JobError Unit × State
  dispatch job s = dispatch_kind (kind_from_db job.kind) job s

  -- What a job's outcome does to its row.
  unfoldable pub settle : ℕ → ℕ → Job → Result {0, 0} JobError Unit → Queue → Queue
  settle now jitter_ms job (ok u) q = complete now job.id q
  settle now jitter_ms job (err (terminal reason)) q =
      fail_dead now job.id (message (terminal reason)) q
  settle now jitter_ms job (err (retry e)) q =
      if leb job.max_attempts job.attempts
      then fail_dead now job.id (message (retry e)) q
      else fail_retry now jitter_ms job (message (retry e)) q

  -- A job that comes up after the shutdown was triggered is given back.
  unfoldable pub run_job : Bool → ℕ → ℕ → Job → Queue × State → Queue × State
  run_job true now jitter_ms job (q, s) =
      (fail_retry now jitter_ms job (codes "worker shutting down") q, s)
  run_job false now jitter_ms job (q, s) =
      let (outcome, s') = dispatch job s in (settle now jitter_ms job outcome q, s')

  -- The claimed jobs in their order; each has the shutdown flag, the clock and the jitter that it sees.
  unfoldable pub run_jobs : (ℕ → Bool × ℕ × ℕ) → List Job → Queue × State → Queue × State
  run_jobs seen [] w = w
  run_jobs seen (job ∷ jobs) w =
      let (shutdown, now, jitter_ms) = seen job.id in
      run_jobs seen jobs (run_job shutdown now jitter_ms job w)

  -- One round of the loop that claims something: the reaping, where it is due, and the batch.
  unfoldable pub round :
      Bool → ℕ → Text → (ℕ → Bool) → (ℕ → Bool × ℕ × ℕ) → Queue × State → Queue × State
  round due now worker_id busy seen (q, s) =
      let q' = if due then (reap_stuck now stuck_lock_secs q).0 else q in
      let (claimed_q, jobs) = claim_batch now worker_id busy batch_size q' in
      run_jobs seen jobs (claimed_q, s)
