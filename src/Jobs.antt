-- ===== src/Jobs.antt =====
-- src/services/jobs.rs and migrations/003_jobs.sql: the queue. The table is the list of its rows in the
-- order of their ids; a statement is a function of the table and of its `now()`, in milliseconds.
pub mod Settle
pub mod Invariant
pub mod Claims
use birthday_role.Prelude.{
  ℕ, zero, suc, ◌+◌, ◌*◌, ◌^◌, Bool, true, false, not, ◌&&◌, ◌||◌, Option, none, some, ◌==◌, List,
  [], ◌∷◌, ◌++◌, if◌then◌else◌, any, length, Text, codes, text_eq, match_text, ltb, leb,
}
use birthday_role.Prelude.Options.{map_or, map_option}
use birthday_role.Models.Json.{Value, null, object, string, Entries, end, entry, as_str}

pub data JobKind : Type 0 where
  player_sync config_sync : JobKind

unfoldable pub kind_as_str : JobKind → Text
kind_as_str player_sync = codes "player_sync"
kind_as_str config_sync = codes "config_sync"

abbrev pub kind_keys : List (Text × JobKind)
kind_keys = (codes "player_sync", player_sync) ∷ (codes "config_sync", config_sync) ∷ []

unfoldable pub kind_from_db : Text → Option JobKind
kind_from_db s = match_text s kind_keys

pub data Status : Type 0 where
  pending in_progress completed dead : Status

abbrev pub is_status : Status → Status → Bool
is_status pending pending = true
is_status in_progress in_progress = true
is_status completed completed = true
is_status dead dead = true
is_status _ _ = false

pub record Job : Type 0 where
  pub id : ℕ
  pub kind : Text
  pub payload : Value
  pub status : Status
  pub attempts : ℕ
  pub max_attempts : ℕ
  pub next_run_at : ℕ
  pub last_error : Option Text
  pub locked_by : Option Text
  pub locked_at : Option ℕ
  pub completed_at : Option ℕ

-- `next_id` is the sequence of the primary key; `notified` counts the notifications on the channel.
pub record Queue : Type 0 where
  pub rows : List Job
  pub next_id : ℕ
  pub notified : ℕ

-- The columns that an INSERT leaves to their defaults.
abbrev pub new_job : ℕ → Text → Value → ℕ → Job
new_job id kind payload at = record {
  id = id;
  kind = kind;
  payload = payload;
  status = pending;
  attempts = 0;
  max_attempts = 8;
  next_run_at = at;
  last_error = none;
  locked_by = none;
  locked_at = none;
  completed_at = none;
}

abbrev pub insert : Queue → Text → Value → ℕ → Queue
insert q kind payload at = record {
  rows = q.rows ++ new_job q.next_id kind payload at ∷ [];
  next_id = suc q.next_id;
  notified = q.notified;
}

abbrev pub notify : Queue → Queue
notify q = record { rows = q.rows; next_id = q.next_id; notified = suc q.notified }

unfoldable pub enqueue : ℕ → JobKind → Value → ℕ → Queue → Queue
enqueue now kind payload delay_secs q =
    let at = now + delay_secs * 1000 in
    let inserted = insert q (kind_as_str kind) payload at in
    if leb at now then notify inserted else inserted

-- `json!({ ... })`, and `payload.get(key)`.
abbrev pub link_payload : Text → Text → Value
link_payload guild_id role_id =
    object
      (entry (codes "guild_id") (string guild_id) (entry (codes "role_id") (string role_id) end))

abbrev pub get_entry : Text → Entries → Option Value
get_entry key end = none
get_entry key (entry k v es) = if text_eq k key then some v else get_entry key es

abbrev pub get : Text → Value → Option Value
get key (object es) = get_entry key es
get key _ = none

unfoldable pub enqueue_player_sync : ℕ → Text → Queue → Queue
enqueue_player_sync now discord_id =
    enqueue now player_sync (object (entry (codes "discord_id") (string discord_id) end)) 0

unfoldable pub enqueue_config_sync : ℕ → Text → Text → Queue → Queue
enqueue_config_sync now guild_id role_id = enqueue now config_sync (link_payload guild_id role_id) 5

-- `payload->>'key'`: NULL where the key is missing or null, and else a text; `json_text` is the text
-- that Postgres gives of a value that is not a string.
module _ (json_text : Value → Text) where
  abbrev pub as_text : Option Value → Option Text
  as_text none = none
  as_text (some null) = none
  as_text (some (string s)) = some s
  as_text (some v) = some (json_text v)

  abbrev pub has_text : Text → Text → Value → Bool
  has_text key s v = map_or false (λ t. text_eq t s) (as_text (get key v))

  -- A pending sync of the same role link.
  unfoldable pub is_same_sync : Text → Text → Job → Bool
  is_same_sync guild_id role_id j =
      is_status j.status pending
      && text_eq j.kind (codes "config_sync")
      && has_text (codes "guild_id") guild_id j.payload
      && has_text (codes "role_id") role_id j.payload

  unfoldable pub enqueue_config_sync_unique : ℕ → Text → Text → Queue → Queue
  enqueue_config_sync_unique now guild_id role_id q =
      if any (is_same_sync guild_id role_id) q.rows
      then q
      else notify (insert q (codes "config_sync") (link_payload guild_id role_id) now)

abbrev pub is_ready : ℕ → Job → Bool
is_ready now j = is_status j.status pending && leb j.next_run_at now

abbrev pub claimed_by : ℕ → Text → Job → Job
claimed_by now worker_id j = record {
  id = j.id;
  kind = j.kind;
  payload = j.payload;
  status = in_progress;
  attempts = suc j.attempts;
  max_attempts = j.max_attempts;
  next_run_at = j.next_run_at;
  last_error = j.last_error;
  locked_by = some worker_id;
  locked_at = some now;
  completed_at = j.completed_at;
}

-- The rows after the claim and the claimed rows; `busy` are the rows that other transactions have
-- locked, which SKIP LOCKED leaves out.
unfoldable pub claim_rows : ℕ → Text → (ℕ → Bool) → List Job → ℕ → List Job × List Job
claim_rows now worker_id busy [] n = ([], [])
claim_rows now worker_id busy (j ∷ js) zero = (j ∷ js, [])
claim_rows now worker_id busy (j ∷ js) (suc n) =
    let taken = is_ready now j && not (busy j.id) in
    let (rows, others) = claim_rows now worker_id busy js (if taken then n else suc n) in
    if taken
    then (claimed_by now worker_id j ∷ rows, claimed_by now worker_id j ∷ others)
    else (j ∷ rows, others)

unfoldable pub claim_batch : ℕ → Text → (ℕ → Bool) → ℕ → Queue → Queue × List Job
claim_batch now worker_id busy batch_size q =
    let (rows, taken) = claim_rows now worker_id busy q.rows batch_size in
    (record { rows = rows; next_id = q.next_id; notified = q.notified }, taken)
