-- ===== src/Watchsaga/Orchestrator.antt =====
-- The handlers of the orchestrator, each in one transaction.
use software_engineering_sch.Base.{
  ℕ, ◌+◌, String, none, some, Bool, ◌&&◌, ◌||◌, not, List, [], ◌∷◌, ◌==◌, eqb, leb, if◌then◌else◌,
  find, count, update, ℤ, positive_or,
}
use software_engineering_sch.Errors.{plain, wrap, is, no_rows, ◌+++◌, Result, ok, err}
use software_engineering_sch.Contracts.{
  Envelope, RepoWatchSagaPayload, RepoWatchCommandPayload, RepoWatchAckPayload,
  event_repo_watch_saga_requested, event_repo_watch_started, event_repo_watch_stopped,
  event_repo_watch_failed, topic_watchlist_commands,
}
use software_engineering_sch.Contracts.Codec.{command_codec, marshal}
use software_engineering_sch.Outbox.Store.{new_event, insert_tx}
use software_engineering_sch.Uuid.{Uuid, new_string}
use software_engineering_sch.ApiTables.{command_sent, Instance, ApiTables}
use software_engineering_sch.Db.{
  World, Action, pure, raise, lift, gets, ◌>>=◌, ◌>>◌, begin, commit, wrapping, query, query_row,
  exec, try, for_each, fail_if,
}
use software_engineering_sch.Watchsaga.Rules.{
  type_repo_watch, default_retry_limit, default_deadline, quoted, command_event_type,
  validate_action, repo_watch_ack_event_type, retry_delay, is_final, has_saga_id, insert_saga,
  is_open_saga, set_completed, set_failed_ack, set_expired, set_retried, due,
}

pub record Orchestrator : Type 0 where
  pub deadline : ℕ

-- `New`
unfoldable pub new_orchestrator : Orchestrator
new_orchestrator = record { deadline = default_deadline }

abbrev pub Saga : Type 0 → Type 0
Saga A = Action ApiTables A

-- A statement that updates the instances that its `WHERE` selects; it returns `RowsAffected`.
unfoldable pub update_sagas : (Instance → Bool) → (ℕ → Instance → Instance) → Saga ℕ
update_sagas p f = exec (λ w d. (
  count p d.tables.sagas,
  record d { tables = record d.tables { sagas = update p (f w.now) d.tables.sagas } },
))

-- `INSERT INTO saga_instances …`
unfoldable pub create_saga : Instance → Saga Bool
create_saga i = exec (λ w d.
    let (inserted, sagas) = insert_saga i d.tables.sagas in
    (inserted, record d { tables = record d.tables { sagas = sagas } }))

abbrev pub new_instance : Orchestrator → ℕ → Envelope RepoWatchSagaPayload → Instance
new_instance o now event = record {
  saga_id = event.payload.saga_id;
  saga_type = type_repo_watch;
  repo = event.payload.repo;
  action = event.payload.action;
  status = command_sent;
  attempts = 1;
  correlation_id = event.correlation_id;
  next_retry_at = some (now + retry_delay 1);
  deadline_at = now + o.deadline;
  last_error = none;
  created_at = now;
  updated_at = now;
}

-- An instance of the loop of `RetryDue` past its deadline.
unfoldable pub expire_instance : Instance → Saga (Unit {0})
expire_instance i = do
  wrapping "expire saga instance" (update_sagas (has_saga_id i.saga_id) set_expired)
  pure tt

module _ (u : Uuid) where
  unfoldable pub prepare_watch_command :
      (saga_id action repo correlation_id : String) → ℕ → Saga (Unit {0})
  prepare_watch_command saga_id action repo correlation_id occurred_at = do
    event_id ← new_string u
    event_type ← lift (command_event_type action)
    let event : Envelope RepoWatchCommandPayload = record {
      event_id = event_id;
      event_type = event_type;
      occurred_at = occurred_at;
      source = "subscription-api-saga-orchestrator";
      correlation_id = correlation_id;
      not_before = none;
      payload = record { saga_id = saga_id; action = action; repo = repo };
    }
    insert_tx (
        new_event event_id event_type occurred_at "subscription-api-saga-orchestrator"
          correlation_id topic_watchlist_commands repo (marshal event))

  unfoldable pub handle_request : Orchestrator → Envelope RepoWatchSagaPayload → Saga (Unit {0})
  handle_request o event = do
    fail_if (not (event.event_type == event_repo_watch_saga_requested))
        (plain ("unsupported saga request event type " +++ quoted event.event_type))
    lift (validate_action event.payload.action)
    fail_if (not (u.parses event.payload.saga_id))
        (wrap "invalid saga id" (u.parse_error event.payload.saga_id))
    fail_if (event.payload.repo == "") (plain "repo is required")
    wrapping "begin saga request" begin
    now ← gets (λ w. w.now)
    inserted ← wrapping "create saga instance" (create_saga (new_instance o now event))
    if not inserted then commit else do
      prepare_watch_command event.payload.saga_id event.payload.action event.payload.repo
          event.correlation_id now
      commit

  -- An instance of the loop of `RetryDue` before its deadline.
  unfoldable pub resend_command : ℕ → Instance → Saga (Unit {0})
  resend_command now i = do
    prepare_watch_command i.saga_id i.action i.repo i.correlation_id now
    wrapping "update retried saga instance" (
        update_sagas (has_saga_id i.saga_id)
          (λ t. set_retried t (i.attempts + 1) (now + retry_delay (i.attempts + 1))))
    pure tt

  unfoldable pub retry_instance : ℕ → Instance → Saga (Unit {0})
  retry_instance now i = if leb i.deadline_at now then expire_instance i else resend_command now i

  unfoldable pub retry_due : ℤ → Saga (Unit {0})
  retry_due limit = do
    wrapping "begin saga retries" begin
    now ← gets (λ w. w.now)
    instances ←
        wrapping "select due saga retries"
          (query (λ w d. due (positive_or limit default_retry_limit) w.now w.locked d.tables.sagas))
    for_each (retry_instance now) instances
    commit

unfoldable pub handle_success_ack : Envelope RepoWatchAckPayload → Instance → Saga (Unit {0})
handle_success_ack event i = do
  ack_event_type ← lift (repo_watch_ack_event_type i.action)
  fail_if (not (event.event_type == ack_event_type)) (
      plain (
        "unexpected saga ack event type "
        +++ quoted event.event_type
        +++ " for action "
        +++ quoted i.action))
  if is_final i.status then commit else do
    affected ←
        wrapping "complete saga instance"
          (update_sagas (is_open_saga event.payload.saga_id i.repo i.action) set_completed)
    fail_if (eqb affected 0)
        (plain ("saga instance " +++ event.payload.saga_id +++ " was not updated"))
    commit

-- `if event.Payload.Error == "" { … }`
abbrev pub cause_of : String → String
cause_of error = if error == "" then "watch command failed" else error

unfoldable pub handle_failed_ack : Envelope RepoWatchAckPayload → Instance → Saga (Unit {0})
handle_failed_ack event i = do
  now ← gets (λ w. w.now)
  if is_final i.status then commit else do
    affected ← wrapping "mark saga failed ack" (
        update_sagas (is_open_saga event.payload.saga_id i.repo i.action)
          (λ t. set_failed_ack t (now + retry_delay 1) (cause_of event.payload.error)))
    fail_if (eqb affected 0)
        (plain ("saga instance " +++ event.payload.saga_id +++ " was not updated"))
    commit

-- `loadSagaInstanceForUpdate`
unfoldable pub load_saga_instance : String → Saga Instance
load_saga_instance id = query_row (λ d. find (has_saga_id id) d.tables.sagas)

-- The error of a failed load: no row is reported as an unknown saga.
abbrev not_loaded : String → Result Instance → Result Instance
not_loaded id (ok i) = ok i
not_loaded id (err e) =
    if is e no_rows
    then err (plain ("saga instance " +++ id +++ " not found"))
    else err (wrap "load saga instance" e)

-- The `switch` on the type of an acknowledgement.
unfoldable pub dispatch_ack : Envelope RepoWatchAckPayload → Instance → Saga (Unit {0})
dispatch_ack event i =
    if event.event_type == event_repo_watch_started || event.event_type == event_repo_watch_stopped
    then handle_success_ack event i
    else if event.event_type == event_repo_watch_failed
    then handle_failed_ack event i
    else raise (plain ("unsupported saga ack event type " +++ quoted event.event_type))

unfoldable pub handle_ack : Envelope RepoWatchAckPayload → Saga (Unit {0})
handle_ack event = do
  fail_if (event.payload.saga_id == "") (plain "saga id is required")
  lift (validate_action event.payload.action)
  wrapping "begin saga ack" begin
  loaded ← try (load_saga_instance event.payload.saga_id)
  i ← lift (not_loaded event.payload.saga_id loaded)
  fail_if (not (i.repo == event.payload.repo && i.action == event.payload.action))
      (plain ("saga instance " +++ event.payload.saga_id +++ " payload mismatch"))
  dispatch_ack event i

-- What the orchestrator's process is given: a message of one of its two topics, or a tick of the
-- retry loop.
pub data Input : Type 0 where
  request : Envelope RepoWatchSagaPayload → Input
  acknowledge : Envelope RepoWatchAckPayload → Input
  retry : ℤ → Input

unfoldable pub handle : Uuid → Orchestrator → Input → Saga (Unit {0})
handle u o (request event) = handle_request u o event
handle u o (acknowledge event) = handle_ack event
handle u o (retry limit) = retry_due u limit

-- A life of the orchestrator: inputs in any order, each at its time; an error leaves the next to
-- come, as a redelivery or a restart does.
unfoldable pub run : Uuid → Orchestrator → List (ℕ × Input) → World ApiTables → World ApiTables
run u o [] w = w
run u o ((t, x) ∷ xs) w = run u o xs (handle u o x (record w { now = t })).1
