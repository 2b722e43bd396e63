-- ===== src/Worker/Released.antt =====
-- src/tasks/job_worker.rs: the jobs of a round are given up at its end.
use birthday_role.Prelude.{
  ℕ, ◌≡◌, ◌≢◌, refl, sym, Bool, true, false, none, ◌==◌, List, [], ◌∷◌, All, Text, if◌then◌else◌,
  leb, Bool-cases, inl, inr, arith,
}
use mathlib.Core.Path.{subst}
use birthday_role.Prelude.Results.{Result, ok, err}
use birthday_role.Errors.{Outcome}
use birthday_role.Jobs.{Job, Queue, in_progress, claim_batch}
use birthday_role.Jobs.Settle.{update, complete, fail_retry, fail_dead, reap_stuck}
use birthday_role.Worker.{
  JobError, terminal, retry, batch_size, stuck_lock_secs, settle, run_job, run_jobs, round,
}

-- The job is not in progress, and no worker holds it.
abbrev pub IsReleased : Job → Type 0
IsReleased j = (j.status ≢ in_progress) × (j.locked_by ≡ none) × (j.locked_at ≡ none)

abbrev pub AreReleased : ℕ → List Job → Type 0
AreReleased id rows = All (λ j. j.id ≡ id → IsReleased j) rows

apart : (i id : ℕ) → (i == id) ≡ false → i ≢ id
apart i id h e = ground arith

module _ (f : Job → Job) (releases : (j : Job) → IsReleased (f j)) where
  update-AreReleased : (id : ℕ) (rows : List Job) → AreReleased id (update id f rows)
  update-AreReleased id [] = tt
  update-AreReleased id (j ∷ js) = elim (Bool-cases (j.id == id)) [
    | inl this ↦ rw this ((λ e. releases j), update-AreReleased id js)
    | inr other ↦ rw other ((λ e. absurd (apart j.id id other e)), update-AreReleased id js)
  ]

  update-keeps :
      (id other : ℕ) (rows : List Job) → AreReleased id rows → AreReleased id (update other f rows)
  update-keeps id other [] h = tt
  update-keeps id other (j ∷ js) h = elim (Bool-cases (j.id == other)) [
    | inl this ↦ rw this ((λ e. releases j), update-keeps id other js h.1)
    | inr apart ↦ rw apart (h.0, update-keeps id other js h.1)
  ]

module _ {State : Type 0} (sync_for_player : Text → State → Outcome × State)
    (sync_for_role_link : Text → Text → State → Outcome × State) (message : JobError → Text) where
  -- A job that has run has an update of its row that releases it.
  abbrev IsRelease : Job → Queue → Queue → Type 0
  IsRelease job q q' =
      (f : Job → Job) × (q'.rows ≡ update job.id f q.rows) × ((j : Job) → IsReleased (f j))

  settle-IsRelease :
      (now jitter_ms : ℕ) (job : Job) (outcome : Result {0, 0} JobError Unit) (q : Queue)
      → IsRelease job q
          (settle sync_for_player sync_for_role_link message now jitter_ms job outcome q)
  unfolding settle complete fail_retry fail_dead
  settle-IsRelease now jitter_ms job (ok u) q = (_, refl, λ j. (λ e. cc, refl, refl))
  settle-IsRelease now jitter_ms job (err (terminal reason)) q =
      (_, refl, λ j. (λ e. cc, refl, refl))
  settle-IsRelease now jitter_ms job (err (retry e)) q =
      elim (Bool-cases (leb job.max_attempts job.attempts)) [
        | inl last ↦ rw last (_, refl, λ j. (λ e. cc, refl, refl))
        | inr again ↦ rw again (_, refl, λ j. (λ e. cc, refl, refl))
      ]

  run_job-IsRelease :
      (shutdown : Bool) (now jitter_ms : ℕ) (job : Job) (q : Queue) (s : State)
      → IsRelease job q
          (run_job sync_for_player sync_for_role_link message shutdown now jitter_ms job (q, s)).0
  unfolding run_job fail_retry
  run_job-IsRelease true now jitter_ms job q s = (_, refl, λ j. (λ e. cc, refl, refl))
  run_job-IsRelease false now jitter_ms job q s = settle-IsRelease now jitter_ms job _ q

  -- A job whose row is released stays so while others run.
  run_jobs-keeps :
      (seen : ℕ → Bool × ℕ × ℕ) (jobs : List Job) (id : ℕ) (w : Queue × State)
      → AreReleased id w.0.rows
      → AreReleased id (run_jobs sync_for_player sync_for_role_link message seen jobs w).0.rows
  unfolding run_jobs
  run_jobs-keeps seen [] id w h = h
  run_jobs-keeps seen (job ∷ jobs) id w h =
      let (shutdown, now, jitter_ms) = seen job.id in
      let (f, rows, releases) = run_job-IsRelease shutdown now jitter_ms job w.0 w.1 in
      run_jobs-keeps seen jobs id _
        (subst (AreReleased id) (sym rows) (update-keeps f releases id job.id w.0.rows h))

  run_jobs-AreReleased :
      (seen : ℕ → Bool × ℕ × ℕ) (jobs : List Job) (w : Queue × State)
      → All
          (λ job.
            AreReleased job.id
              (run_jobs sync_for_player sync_for_role_link message seen jobs w).0.rows)
          jobs
  unfolding run_jobs
  run_jobs-AreReleased seen [] w = tt
  run_jobs-AreReleased seen (job ∷ jobs) w =
      let (shutdown, now, jitter_ms) = seen job.id in
      let (f, rows, releases) = run_job-IsRelease shutdown now jitter_ms job w.0 w.1 in
      (
        run_jobs-keeps seen jobs job.id _
            (subst (AreReleased job.id) (sym rows) (update-AreReleased f releases job.id w.0.rows)),
        run_jobs-AreReleased seen jobs _,
      )

  -- What a round claims, after the reaping where it is due.
  abbrev pub claimed : Bool → ℕ → Text → (ℕ → Bool) → Queue → List Job
  claimed due now worker_id busy q =
      (claim_batch now worker_id busy batch_size
        (if due then (reap_stuck now stuck_lock_secs q).0 else q)).1

  -- Whatever the outcomes are, a shutdown in the midst included, no job that a round has claimed is
  -- in progress or locked after it: each has been completed, given up, or put back.
  pub round-AreReleased :
      (due : Bool) (now : ℕ) (worker_id : Text) (busy : ℕ → Bool) (seen : ℕ → Bool × ℕ × ℕ)
      (q : Queue) (s : State)
      → All
          (λ job.
            AreReleased job.id
              (round sync_for_player sync_for_role_link message due now worker_id busy seen
                (q, s)).0.rows)
          (claimed due now worker_id busy q)
  unfolding round
  round-AreReleased due now worker_id busy seen q s = run_jobs-AreReleased seen _ _
