-- ===== src/Watchsaga/Requests.antt =====
-- What `HandleRequest` does with a request that passes its checks, when no call fails.
use software_engineering_sch.Base.{
  ℕ, ◌+◌, minute, String, none, some, true, false, [], ◌∷◌, ◌++◌, ◌≡◌, ◌≢◌, refl, arith, eq_iff,
  exists, ◌==◌, suc,
}
use software_engineering_sch.Errors.{ok}
use software_engineering_sch.Contracts.{
  Envelope, RepoWatchSagaPayload, RepoWatchCommandPayload, event_repo_watch_saga_requested,
  topic_watchlist_commands,
}
use software_engineering_sch.Contracts.Codec.{command_codec, unmarshal, marshal}
use software_engineering_sch.Contracts.Codec.RoundTrip.{unmarshal-marshal}
use software_engineering_sch.Uuid.{Uuid, new_string}
use software_engineering_sch.Outbox.Event.{OutboxEvent}
use software_engineering_sch.Outbox.Store.{insert_tx, add_event, has_id, new_event}
use software_engineering_sch.Db.{
  Database, World, begin, commit, exec, wrapping, ◌>>=◌, calm, eq-calm,
}
use software_engineering_sch.ApiTables.{ApiTables, Instance, command_sent}
use software_engineering_sch.Watchsaga.Rules.{
  retry_delay, command_event_type, validate_action, has_saga_id, insert_saga,
}
use software_engineering_sch.Watchsaga.Orchestrator.{
  Orchestrator, create_saga, prepare_watch_command, handle_request, new_instance,
}

-- A request that passes the checks of `HandleRequest`, with the command's type for its action.
pub record IsAccepted (u : Uuid) (event : Envelope RepoWatchSagaPayload) (event_type : String)
    : Type 0 where
  pub typed : event.event_type ≡ event_repo_watch_saga_requested
  pub known : command_event_type event.payload.action ≡ ok event_type
  pub parsed : u.parses event.payload.saga_id ≡ true
  pub canonical : u.is_canonical event.payload.saga_id ≡ true
  pub named : event.payload.repo ≢ ""

-- The event carries the command of the request to the scanner.
pub record IsCommandOf (event : Envelope RepoWatchSagaPayload) (event_type : String)
    (e : OutboxEvent) : Type 0 where
  pub topic : e.topic ≡ topic_watchlist_commands
  pub key : e.kafka_key ≡ event.payload.repo
  pub unsent : e.published_at ≡ none
  pub command : Envelope RepoWatchCommandPayload
  pub decoded : unmarshal e.payload ≡ some command
  pub typed : command.event_type ≡ event_type
  pub saga_id : command.payload.saga_id ≡ event.payload.saga_id
  pub action : command.payload.action ≡ event.payload.action
  pub repo : command.payload.repo ≡ event.payload.repo

-- The command of a request, as the row that `prepareWatchCommand` inserts.
command_row : Uuid → Envelope RepoWatchSagaPayload → String → World ApiTables → OutboxEvent
command_row u event event_type w =
    let id = u.generate w.ids in
    let command : Envelope RepoWatchCommandPayload = record {
      event_id = id;
      event_type = event_type;
      occurred_at = w.now;
      source = "subscription-api-saga-orchestrator";
      correlation_id = event.correlation_id;
      not_before = none;
      payload = record {
        saga_id = event.payload.saga_id;
        action = event.payload.action;
        repo = event.payload.repo;
      };
    } in
    new_event id event_type w.now "subscription-api-saga-orchestrator" event.correlation_id
      topic_watchlist_commands event.payload.repo (marshal command)

command_row-IsCommandOf :
    (u : Uuid) (event : Envelope RepoWatchSagaPayload) (event_type : String) (w : World ApiTables)
    → IsCommandOf event event_type (command_row u event event_type w)
unfolding command_row
command_row-IsCommandOf u event event_type w = record {
  topic = refl;
  key = refl;
  unsent = refl;
  command = _;
  decoded = unmarshal-marshal _;
  typed = refl;
  saga_id = refl;
  action = refl;
  repo = refl;
}

-- The database with a saga and an event added.
abbrev pub DbAfter : Database ApiTables → Instance → OutboxEvent → Database ApiTables
DbAfter d i e = record d {
  outbox = d.outbox ++ e ∷ [];
  tables = record d.tables { sagas = d.tables.sagas ++ i ∷ [] };
}

prepare_watch_command_lem :
    (u : Uuid) (event : Envelope RepoWatchSagaPayload) (event_type : String) (w : World ApiTables)
    → command_event_type event.payload.action ≡ ok event_type
    → let p = event.payload in
      prepare_watch_command u p.saga_id p.action p.repo event.correlation_id w.now
        (record w { faults = []; aborted = false })
      ≡ (
        ok tt,
        record w {
          faults = [];
          aborted = false;
          ids = suc w.ids;
          tx = record w.tx { outbox = add_event (command_row u event event_type w) w.tx.outbox };
        },
      )
unfolding prepare_watch_command ◌>>=◌ new_string insert_tx exec wrapping command_row marshal
prepare_watch_command_lem u event event_type w known = ground (arith, known)

module _ (u : Uuid) (o : Orchestrator) (event : Envelope RepoWatchSagaPayload) (event_type : String)
    (w : World ApiTables) (accepted : IsAccepted u event event_type) where
  typed_test : (event.event_type == event_repo_watch_saga_requested) ≡ true
  typed_test = (eq_iff _ _).1 accepted.typed

  named_test : (event.payload.repo == "") ≡ false
  named_test = ground (arith, accepted.named, eq_iff event.payload.repo "")

  -- A repeated request changes nothing and is no error.
  request_repeated :
      exists (has_saga_id event.payload.saga_id) w.db.tables.sagas ≡ true
      → ((handle_request u o event (calm w)).0 ≡ ok tt)
        × ((handle_request u o event (calm w)).1.db ≡ w.db)
  unfolding handle_request validate_action ◌>>=◌ begin commit wrapping exec create_saga insert_saga
  request_repeated known =
      rw (typed_test, accepted.known, accepted.parsed, named_test, known) (refl, refl)

  request_started :
      exists (has_saga_id event.payload.saga_id) w.db.tables.sagas ≡ false
      → exists (has_id (u.generate w.ids)) w.db.outbox ≡ false
      → ((handle_request u o event (calm w)).0 ≡ ok tt)
        × ((handle_request u o event (calm w)).1.db
            ≡ DbAfter w.db (new_instance o w.now event) (command_row u event event_type w))
  unfolding handle_request validate_action ◌>>=◌ begin commit wrapping exec create_saga insert_saga
      command_row add_event
  request_started fresh unused =
      let d = w.db in
      let v : World ApiTables = record w {
        tx = record d {
          tables = record d.tables { sagas = d.tables.sagas ++ new_instance o w.now event ∷ [] };
        };
      } in
      rw
        (
          typed_test,
          accepted.known,
          accepted.parsed,
          named_test,
          fresh,
          prepare_watch_command_lem u event event_type v accepted.known,
          unused,
        )
        (refl, refl)

-- The saga that a request asks for, at its first attempt: its command is sent, it is due again after a
-- minute, and its deadline is the orchestrator's.
abbrev pub first_attempt :
    (deadline now : ℕ) (saga_id repo action correlation_id : String) → Instance
first_attempt deadline now saga_id repo action correlation_id = record {
  saga_id = saga_id;
  saga_type = "repo_watch";
  repo = repo;
  action = action;
  status = command_sent;
  attempts = 1;
  correlation_id = correlation_id;
  next_retry_at = some (now + minute);
  deadline_at = now + deadline;
  last_error = none;
  created_at = now;
  updated_at = now;
}

-- A request that passes the checks, with a canonical id, and whose saga is unknown, when no call fails
-- and the next generated UUID is not in use: exactly one saga is added, of the request's id,
-- repository and action, in its first attempt, due again after a minute and with the orchestrator's
-- deadline, and exactly one event, which carries the command to the scanner under the repository's
-- key.
pub request_starts_saga :
    (u : Uuid) (o : Orchestrator) (event : Envelope RepoWatchSagaPayload) (event_type : String)
    (w : World ApiTables)
    → IsAccepted u event event_type
    → w.faults ≡ []
    → exists (has_id (u.generate w.ids)) w.db.outbox ≡ false
    → exists (has_saga_id event.payload.saga_id) w.db.tables.sagas ≡ false
    → ((handle_request u o event w).0 ≡ ok tt)
      × ((e : OutboxEvent) × IsCommandOf event event_type e
          × ((handle_request u o event w).1.db
              ≡ DbAfter w.db
                  (first_attempt o.deadline w.now event.payload.saga_id event.payload.repo
                    event.payload.action event.correlation_id)
                  e))
unfolding retry_delay
request_starts_saga u o event event_type w accepted reachable unused fresh =
    let (done, after) = request_started u o event event_type w accepted fresh unused in
    rw (eq-calm w reachable) (
      done,
      (command_row u event event_type w, command_row-IsCommandOf u event event_type w, after),
    )

-- A request that passes the checks and whose saga is known, when no call fails: it is no error and
-- changes nothing, so that a request may be delivered again.
request_idempotent :
    (u : Uuid) (o : Orchestrator) (event : Envelope RepoWatchSagaPayload) (event_type : String)
    (w : World ApiTables)
    → IsAccepted u event event_type
    → w.faults ≡ []
    → exists (has_saga_id event.payload.saga_id) w.db.tables.sagas ≡ true
    → ((handle_request u o event w).0 ≡ ok tt) × ((handle_request u o event w).1.db ≡ w.db)
request_idempotent u o event event_type w accepted reachable known =
    rw (eq-calm w reachable) (request_repeated u o event event_type w accepted known)
