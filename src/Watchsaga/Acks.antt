-- ===== src/Watchsaga/Acks.antt =====
-- What `HandleAck` does with an acknowledgement of a saga that is not final, when no call fails.
use software_engineering_sch.Base.{
  leb, minute, if◌then◌else◌, none, ◌+◌, String, some, Bool, true, false, [], ◌≡◌, ◌≢◌, refl, arith,
  eq_iff, ◌==◌, find, eqb, update, count, find-update, find-update_ne, count_of_find, find-holds,
  ◌&&◌, ◌||◌,
}
use software_engineering_sch.Errors.{ok}
use software_engineering_sch.Contracts.{
  Envelope, RepoWatchAckPayload, event_repo_watch_started, event_repo_watch_stopped,
  event_repo_watch_failed,
}
use software_engineering_sch.Db.{
  Database, World, begin, commit, exec, wrapping, query_row, try, ◌>>=◌, calm, eq-calm,
}
use software_engineering_sch.ApiTables.{ApiTables, Instance, completed, failed, retrying}
use software_engineering_sch.Watchsaga.Rules.{
  validate_action, repo_watch_ack_event_type, is_final, is_open_saga, has_saga_id, set_completed,
  set_failed_ack, retry_delay,
}
use software_engineering_sch.Watchsaga.Orchestrator.{
  update_sagas, load_saga_instance, dispatch_ack, handle_success_ack, handle_failed_ack, handle_ack,
  cause_of,
}
use software_engineering_sch.Watchsaga.Validity.{saga_key}

-- The acknowledgement is for this saga, which is listed and not final.
pub record IsFor (event : Envelope RepoWatchAckPayload) (i : Instance) (w : World ApiTables)
    : Type 0 where
  pub identified : event.payload.saga_id ≢ ""
  pub known : validate_action event.payload.action ≡ ok tt
  pub found : find (has_saga_id event.payload.saga_id) w.db.tables.sagas ≡ some i
  pub repo : i.repo ≡ event.payload.repo
  pub action : i.action ≡ event.payload.action
  pub running : is_final i.status ≡ false

-- The row of the saga is now `i'`, and no other saga and no event has changed.
pub record Becomes (id : String) (i' : Instance) (d d' : Database ApiTables) : Type 0 where
  pub changed : find (has_saga_id id) d'.tables.sagas ≡ some i'
  pub others :
      (other : String)
      → other ≢ id
      → find (has_saga_id other) d'.tables.sagas ≡ find (has_saga_id other) d.tables.sagas
  pub outbox : d'.outbox ≡ d.outbox
  pub subscriptions : d'.tables.subscriptions ≡ d.tables.subscriptions

is_open_saga_found :
    (event : Envelope RepoWatchAckPayload) (i : Instance) (w : World ApiTables)
    → IsFor event i w
    → is_open_saga event.payload.saga_id i.repo i.action i ≡ true
unfolding is_open_saga
is_open_saga_found event i w f = ground (
  arith,
  find-holds (has_saga_id event.payload.saga_id) w.db.tables.sagas {x = i},
  f.found,
  f.running,
  eq_iff i.repo i.repo,
  eq_iff i.action i.action,
)

is_open_saga_other :
    (id repo action other : String)
    → other ≢ id
    → (j : Instance) → j.saga_id ≡ other
    → is_open_saga id repo action j ≡ false
unfolding is_open_saga
is_open_saga_other id repo action other differ j same = ground (arith, eq_iff j.saga_id id)

abbrev updated : (Instance → Bool) → (Instance → Instance) → Database ApiTables → Database ApiTables
updated p f d = record d { tables = record d.tables { sagas = update p f d.tables.sagas } }

updated-Becomes :
    (event : Envelope RepoWatchAckPayload) (i : Instance) (w : World ApiTables)
    (f : Instance → Instance)
    → IsFor event i w
    → ((j : Instance) → (f j).saga_id ≡ j.saga_id)
    → Becomes event.payload.saga_id
        (f i)
        w.db
        (updated (is_open_saga event.payload.saga_id i.repo i.action) f w.db)
updated-Becomes event i w f for_it same = record {
  changed =
      find-update saga_key _ _ f w.db.tables.sagas i same (is_open_saga_found event i w for_it)
        for_it.found;
  others = λ other differ.
      find-update_ne saga_key other _ f w.db.tables.sagas same
        (is_open_saga_other event.payload.saga_id i.repo i.action other differ);
  outbox = refl;
  subscriptions = refl;
}

-- The tests of the `switch`, by the type of the acknowledgement.
success_test :
    (action : String) {event_type : String}
    → repo_watch_ack_event_type action ≡ ok event_type
    → (event_type == event_repo_watch_started || event_type == event_repo_watch_stopped) ≡ true
unfolding repo_watch_ack_event_type
success_test action {event_type} typed =
    ground (
      arith,
      eq_iff event_type event_repo_watch_started,
      eq_iff event_type event_repo_watch_stopped,
    )

failure_test :
    {event_type : String}
    → event_type ≡ event_repo_watch_failed
    → ((event_type == event_repo_watch_started || event_type == event_repo_watch_stopped) ≡ false)
      × ((event_type == event_repo_watch_failed) ≡ true)
failure_test typed = rw typed (refl, refl)

module _ (event : Envelope RepoWatchAckPayload) (i : Instance) (w : World ApiTables)
    (for_it : IsFor event i w) where
  affected_test :
      eqb (count (is_open_saga event.payload.saga_id i.repo i.action) w.db.tables.sagas) 0 ≡ false
  affected_test = ground (
    arith,
    count_of_find saga_key event.payload.saga_id
        (is_open_saga event.payload.saga_id i.repo i.action) w.db.tables.sagas i
        (is_open_saga_found event i w for_it) for_it.found,
  )

  identified_test : (event.payload.saga_id == "") ≡ false
  identified_test = ground (arith, for_it.identified, eq_iff event.payload.saga_id "")

  match_test : (i.repo == event.payload.repo && i.action == event.payload.action) ≡ true
  match_test = ground (
    arith,
    for_it.repo,
    for_it.action,
    eq_iff i.repo event.payload.repo,
    eq_iff i.action event.payload.action,
  )

  -- All that `HandleAck` does before its `switch`.
  handle_ack_reaches :
      handle_ack event (calm w)
      ≡ dispatch_ack event i (record w { faults = []; aborted = false; tx = w.db })
  unfolding handle_ack ◌>>=◌ wrapping begin try load_saga_instance query_row
  handle_ack_reaches = rw (identified_test, for_it.known, for_it.found, match_test) refl

  success_done :
      repo_watch_ack_event_type i.action ≡ ok event.event_type
      → dispatch_ack event i (record w { faults = []; aborted = false; tx = w.db }) ≡ (
        ok tt,
        record w {
          faults = [];
          aborted = false;
          tx =
              updated
                (is_open_saga event.payload.saga_id i.repo i.action)
                (set_completed w.now)
                w.db;
          db =
              updated
                (is_open_saga event.payload.saga_id i.repo i.action)
                (set_completed w.now)
                w.db;
        },
      )
  unfolding dispatch_ack handle_success_ack ◌>>=◌ wrapping update_sagas exec commit
  success_done typed =
      rw
        (
          success_test i.action typed,
          typed,
          (eq_iff event.event_type event.event_type).1 refl,
          for_it.running,
          affected_test,
        )
        refl

  failure_done :
      event.event_type ≡ event_repo_watch_failed
      → dispatch_ack event i (record w { faults = []; aborted = false; tx = w.db }) ≡ (
        ok tt,
        record w {
          faults = [];
          aborted = false;
          tx =
              updated
                (is_open_saga event.payload.saga_id i.repo i.action)
                (set_failed_ack w.now (w.now + retry_delay 1) (cause_of event.payload.error))
                w.db;
          db =
              updated
                (is_open_saga event.payload.saga_id i.repo i.action)
                (set_failed_ack w.now (w.now + retry_delay 1) (cause_of event.payload.error))
                w.db;
        },
      )
  unfolding dispatch_ack handle_failed_ack ◌>>=◌ wrapping update_sagas exec commit
  failure_done typed =
      rw ((failure_test typed).0, (failure_test typed).1, for_it.running, affected_test) refl

-- The acknowledgement of a running saga by the event type of its action, when no call fails: it is
-- no error, and the saga is completed with no error text; no other saga, no event of the outbox and
-- no subscription changes.
pub success_completes :
    (event : Envelope RepoWatchAckPayload) (i : Instance) (w : World ApiTables)
    → w.faults ≡ []
    → IsFor event i w
    → repo_watch_ack_event_type i.action ≡ ok event.event_type
    → ((handle_ack event w).0 ≡ ok tt)
      × Becomes event.payload.saga_id
          (record i { status = completed; last_error = none; updated_at = w.now })
          w.db
          (handle_ack event w).1.db
unfolding set_completed
success_completes event i w reachable for_it typed = rw (eq-calm w reachable) (
    rw (handle_ack_reaches event i w for_it, success_done event i w for_it typed)
      (refl, updated-Becomes event i w (set_completed w.now) for_it (λ j. refl)))

-- A failure acknowledgement of a running saga, when no call fails: it is no error, and the saga is
-- to be retried in a minute, or has failed if its deadline has come, with the error of the
-- acknowledgement or a text that stands for an empty one; no other saga, no event of the outbox and
-- no subscription changes.
pub failure_reschedules :
    (event : Envelope RepoWatchAckPayload) (i : Instance) (w : World ApiTables)
    → w.faults ≡ []
    → IsFor event i w
    → event.event_type ≡ event_repo_watch_failed
    → ((handle_ack event w).0 ≡ ok tt)
      × Becomes event.payload.saga_id
          (record i {
            status = if leb i.deadline_at w.now then failed else retrying;
            next_retry_at = if leb i.deadline_at w.now then none else some (w.now + minute);
            last_error =
                some (
                  if event.payload.error == ""
                  then "watch command failed"
                  else event.payload.error);
            updated_at = w.now;
          })
          w.db
          (handle_ack event w).1.db
unfolding set_failed_ack retry_delay
failure_reschedules event i w reachable for_it typed = rw (eq-calm w reachable) (
    rw (handle_ack_reaches event i w for_it, failure_done event i w for_it typed)
      (refl, updated-Becomes event i w _ for_it (λ j. refl)))
