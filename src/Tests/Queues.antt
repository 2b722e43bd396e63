-- ===== src/Tests/Queues.antt =====
-- src/services/jobs.rs, at concrete queues.
use birthday_role.Prelude.{
  ℕ, ◌≤◌, ◌<◌, ◌≡◌, refl, false, not, ◌==◌, All, arith, [], ◌∷◌, Bool, Text, codes,
}
use birthday_role.Prelude.Results.{ok}
use birthday_role.Errors.{Outcome}
use birthday_role.Worker.{JobError, round}
use birthday_role.Worker.Released.{AreReleased, claimed, round-AreReleased}
use birthday_role.Models.Json.{Value}
use birthday_role.Jobs.{Queue, new_job, link_payload, claim_batch, enqueue_config_sync_unique}
use birthday_role.Jobs.Settle.{backoff_delay, backoff_delay_bounds}
use birthday_role.Jobs.Invariant.{IsQueue, claim_step, Step-IsQueue}
use birthday_role.Jobs.Claims.{
  Disjoint, claim_batch-Disjoint, enqueue_config_sync_unique_idempotent,
}

abbrev two_jobs : Queue
two_jobs = record {
  rows =
      new_job 3 (codes "config_sync") (link_payload (codes "g") (codes "r")) 0
      ∷ new_job 5 (codes "player_sync") (link_payload (codes "g") (codes "q")) 10
      ∷ [];
  next_id = 6;
  notified = 0;
}

abbrev json_text : Value → Text
json_text v = []

abbrev free : ℕ → Bool
free id = false

two_jobs-IsQueue : IsQueue two_jobs
two_jobs-IsQueue =
    (omega arith, omega arith, (refl, refl), (omega arith, omega arith, (refl, refl), tt))

backoff_delay_bounds_example :
    (2000 ≤ backoff_delay 999 3)
    × (backoff_delay 999 3 < 257000)
    × (backoff_delay 999 3 ≤ backoff_delay 999 40)
backoff_delay_bounds_example = backoff_delay_bounds 999 3 40 (omega arith) (omega arith)

claim_batch-Disjoint_example :
    Disjoint
      (claim_batch 20 (codes "a") free 1 two_jobs).1
      (claim_batch 30 (codes "b") free 8 (claim_batch 20 (codes "a") free 1 two_jobs).0).1
claim_batch-Disjoint_example =
    claim_batch-Disjoint 20 30 (codes "a") (codes "b") free free 1 8 two_jobs two_jobs-IsQueue

Step-IsQueue_example : IsQueue (claim_batch 20 (codes "a") free 8 two_jobs).0
Step-IsQueue_example =
    Step-IsQueue json_text two_jobs (claim_batch 20 (codes "a") free 8 two_jobs).0
      (claim_step 20 (codes "a") free 8 two_jobs) two_jobs-IsQueue

enqueue_config_sync_unique_idempotent_example :
    enqueue_config_sync_unique json_text 60
      (codes "g")
      (codes "new")
      (enqueue_config_sync_unique json_text 50 (codes "g") (codes "new") two_jobs)
    ≡ enqueue_config_sync_unique json_text 50 (codes "g") (codes "new") two_jobs
enqueue_config_sync_unique_idempotent_example =
    enqueue_config_sync_unique_idempotent json_text 50 60 (codes "g") (codes "new") two_jobs

-- Syncs that succeed, on no state at all, and a shutdown that comes after job 3 has run.
abbrev no_player_sync : Text → Unit {0} → Outcome × Unit {0}
no_player_sync d s = (ok tt, s)

abbrev no_link_sync : Text → Text → Unit {0} → Outcome × Unit {0}
no_link_sync g r s = (ok tt, s)

abbrev no_message : JobError → Text
no_message e = []

abbrev shutdown_later : ℕ → Bool × ℕ × ℕ
shutdown_later id = (not (id == 3), 40, 7)

round-AreReleased_example :
    All
      (λ job.
        AreReleased job.id
          (round no_player_sync no_link_sync no_message false 20
            (codes "a")
            free
            shutdown_later
            (two_jobs, tt)).0.rows)
      (claimed no_player_sync no_link_sync no_message false 20 (codes "a") free two_jobs)
round-AreReleased_example =
    round-AreReleased no_player_sync no_link_sync no_message false 20 (codes "a") free
      shutdown_later two_jobs tt
