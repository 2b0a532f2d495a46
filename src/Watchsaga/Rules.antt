-- ===== src/Watchsaga/Rules.antt =====
-- The pure parts of the orchestrator: its constants, the checks of an action, the delays between
-- retries, and the statements on saga_instances.
use software_engineering_sch.Base.{
  ℕ, ◌-◌, String, Option, none, some, Bool, true, false, ◌&&◌, not, List, [], ◌∷◌, ◌++◌, leb, ltb,
  ◌==◌, if◌then◌else◌, get_or, take, select, exists, order_by, minute, hour,
}
use software_engineering_sch.Errors.{plain, ◌+++◌, Result, ok, err}
use software_engineering_sch.Contracts.{
  repo_watch_action_start, repo_watch_action_stop, event_start_watching_repo,
  event_stop_watching_repo, event_repo_watch_started, event_repo_watch_stopped,
}
use software_engineering_sch.ApiTables.{SagaStatus, retrying, completed, failed, Instance}

abbrev pub type_repo_watch : String
type_repo_watch = "repo_watch"

abbrev pub default_retry_limit : ℕ
default_retry_limit = 50

abbrev pub default_deadline : ℕ
default_deadline = 86_400_000_000_000

abbrev pub retry_delays : List ℕ
retry_delays = minute ∷ 300_000_000_000 ∷ 900_000_000_000 ∷ hour ∷ []

-- `%q`, for texts that need no escapes
abbrev pub quoted : String → String
quoted s = "\"" +++ s +++ "\""

unfoldable pub command_event_type : String → Result String
command_event_type action =
    if action == repo_watch_action_start
    then ok event_start_watching_repo
    else if action == repo_watch_action_stop
    then ok event_stop_watching_repo
    else err (plain ("unsupported repo watch action " +++ quoted action))

abbrev forget : Result String → Result (Unit {0})
forget (ok _) = ok tt
forget (err e) = err e

unfoldable pub validate_action : String → Result (Unit {0})
unfolding command_event_type
validate_action action = forget (command_event_type action)

unfoldable pub repo_watch_ack_event_type : String → Result String
repo_watch_ack_event_type action =
    if action == repo_watch_action_start
    then ok event_repo_watch_started
    else if action == repo_watch_action_stop
    then ok event_repo_watch_stopped
    else err (plain ("unsupported repo watch action " +++ quoted action))

unfoldable pub retry_delay : ℕ → ℕ
retry_delay attempt =
    if leb attempt 1
    then get_or retry_delays 0 0
    else if leb 4 attempt
    then get_or retry_delays 3 0
    else get_or retry_delays (attempt - 1) 0

-- `status IN ('completed', 'failed')`
abbrev pub is_final : SagaStatus → Bool
is_final completed = true
is_final failed = true
is_final _ = false

abbrev pub has_saga_id : String → Instance → Bool
has_saga_id id i = i.saga_id == id

-- `INSERT … ON CONFLICT (saga_id) DO NOTHING`, with whether a row was inserted. The ids of the column
-- are UUIDs, here by their texts, which are those of the column where they are canonical.
unfoldable pub insert_saga : Instance → List Instance → Bool × List Instance
insert_saga i sagas =
    if exists (has_saga_id i.saga_id) sagas then (false, sagas) else (true, sagas ++ i ∷ [])

-- The `WHERE` of both updates by an acknowledgement.
unfoldable pub is_open_saga : String → String → String → Instance → Bool
is_open_saga id repo action i =
    has_saga_id id i && i.repo == repo && i.action == action && not (is_final i.status)

-- The `SET` of a success, of a failure, of an expired and of a retried instance.
unfoldable pub set_completed : ℕ → Instance → Instance
set_completed now i = record i { status = completed; last_error = none; updated_at = now }

unfoldable pub set_failed_ack : ℕ → ℕ → String → Instance → Instance
set_failed_ack now next_retry_at error i = record i {
  status = if leb i.deadline_at now then failed else retrying;
  next_retry_at = if leb i.deadline_at now then none else some next_retry_at;
  last_error = some error;
  updated_at = now;
}

unfoldable pub set_expired : ℕ → Instance → Instance
set_expired now i = record i {
  status = failed;
  next_retry_at = none;
  last_error = some "timeout waiting for scanner ack";
  updated_at = now;
}

unfoldable pub set_retried : ℕ → ℕ → ℕ → Instance → Instance
set_retried now attempts next_retry_at i = record i {
  status = retrying;
  attempts = attempts;
  next_retry_at = some next_retry_at;
  updated_at = now;
}

-- `next_retry_at <= $3`; a null is not.
abbrev is_reached : ℕ → Option ℕ → Bool
is_reached now none = false
is_reached now (some t) = leb t now

unfoldable pub is_due : ℕ → (String → Bool) → Instance → Bool
is_due now locked i =
    not (is_final i.status) && is_reached now i.next_retry_at && not (locked i.saga_id)

-- `ORDER BY next_retry_at, created_at`
abbrev instant_or_zero : Option ℕ → ℕ
instant_or_zero none = 0
instant_or_zero (some t) = t

abbrev pub is_due_before : Instance → Instance → Bool
is_due_before a b =
    let s = instant_or_zero a.next_retry_at in
    let t = instant_or_zero b.next_retry_at in
    if ltb s t then true else if ltb t s then false else leb a.created_at b.created_at

unfoldable pub due : ℕ → ℕ → (String → Bool) → List Instance → List Instance
unfolding is_due
due limit now locked sagas = take limit (order_by is_due_before (select (is_due now locked) sagas))
