-- ===== src/Examples/Saga.antt =====
-- Examples for the watch saga.
use software_engineering_sch.Base.{
  ℕ, ◌≤◌, arith, none, some, false, List, [], ◌∷◌, ◌≡◌, refl, minute, hour, pos, ◌+◌,
}
use mathlib.Core.List.{Memᴰ}
use software_engineering_sch.Errors.{plain, wrap, ok}
use software_engineering_sch.Outbox.Event.{OutboxEvent}
use software_engineering_sch.Db.{World, ◌>>=◌, wrapping, begin, exec}
use software_engineering_sch.Db.Keeps.{Holds}
use software_engineering_sch.ApiTables.{ApiTables, completed, retrying}
use software_engineering_sch.Watchsaga.Rules.{
  is_due, validate_action, command_event_type, repo_watch_ack_event_type, retry_delay,
}
use software_engineering_sch.Watchsaga.Orchestrator.{
  retry_due, new_orchestrator, create_saga, handle, handle_request, handle_ack, run, request,
  acknowledge, retry, Input,
}
use software_engineering_sch.Watchsaga.Atomicity.{handle_atomic}
use software_engineering_sch.Watchsaga.Final.{IsListed, final_absorbs}
use software_engineering_sch.Watchsaga.Validity.{SagasValid, run-SagasValid}
use software_engineering_sch.Watchsaga.Requests.{
  IsAccepted, first_attempt, IsCommandOf, DbAfter, request_starts_saga,
}
use software_engineering_sch.Watchsaga.Acks.{IsFor, Becomes, success_completes, failure_reschedules}
use software_engineering_sch.Watchsaga.Backoff.{retry_delay_mono}
use software_engineering_sch.Subscription.Confirm.{request_row, request_row-IsWatchRequest}
use software_engineering_sch.Workers.Handlers.{handle_saga_request}
use software_engineering_sch.Workers.Requests.{watch_request_taken_up}
use software_engineering_sch.Watchsaga.Refinement.{Lives, run_refines}
use software_engineering_sch.Watchsaga.Sweep.{swept_row, retry_due_settles}
use software_engineering_sch.Watchsaga.Resent.{IsCommandAgain}
use software_engineering_sch.Examples.Values.{
  uuid, world, go_repo, start_request, ack_of, running_saga, finished_saga, tables_of,
}

abbrev empty_world : World ApiTables
empty_world = world (tables_of []) []

abbrev running_world : World ApiTables
running_world = world (tables_of (running_saga ∷ [])) []

abbrev finished_world : World ApiTables
finished_world = world (tables_of (finished_saga ∷ [])) []

-- The statement that creates the saga fails.
abbrev failing_world : World ApiTables
failing_world = world (tables_of []) (none ∷ some (plain "connection reset") ∷ [])

abbrev inputs : List (ℕ × Input)
inputs =
    (minute, request start_request)
    ∷ (minute, acknowledge (ack_of "RepoWatchFailed" "boom"))
    ∷ (hour, retry (pos 10))
    ∷ []

handle_atomic_example :
    (handle uuid new_orchestrator (request start_request) failing_world).1.db ≡ failing_world.db
unfolding handle handle_request ◌>>=◌ validate_action wrapping begin create_saga exec
handle_atomic_example =
    handle_atomic uuid new_orchestrator (request start_request) failing_world
      (wrap "create saga instance" (plain "connection reset")) refl

finished-IsListed : Holds (IsListed finished_saga) finished_world
finished-IsListed =
    let here : IsListed finished_saga finished_world.db = record {
      distinct = (refl, tt);
      listed = Memᴰ.head refl;
    } in
    (here, here)

final_absorbs_example :
    Holds (IsListed finished_saga) (run uuid new_orchestrator inputs finished_world)
final_absorbs_example =
    final_absorbs uuid new_orchestrator finished_saga inputs finished_world refl finished-IsListed

accepted : IsAccepted uuid start_request "StartWatchingRepo"
unfolding command_event_type
accepted = record { typed = refl; known = refl; parsed = refl; canonical = refl; named = λ h. cc }

request_starts_saga_example :
    ((handle_request uuid new_orchestrator start_request empty_world).0 ≡ ok tt)
    × ((e : OutboxEvent) × IsCommandOf start_request "StartWatchingRepo" e
        × ((handle_request uuid new_orchestrator start_request empty_world).1.db
            ≡ DbAfter empty_world.db
                (first_attempt 86_400_000_000_000 minute "saga-1" go_repo "start_watch" "saga-1")
                e))
unfolding new_orchestrator
request_starts_saga_example =
    request_starts_saga uuid new_orchestrator start_request "StartWatchingRepo" empty_world accepted
      refl refl refl

running_valid : Holds SagasValid running_world
unfolding validate_action
running_valid =
    let valid : SagasValid running_world.db = record {
      distinct = (refl, tt);
      valid = (
        record {
          action_known = refl;
          attempted = omega arith;
          scheduled = λ _ h. cc;
          explained = λ h. cc;
        },
        tt,
      );
    } in
    (valid, valid)

run-SagasValid_example : Holds SagasValid (run uuid new_orchestrator inputs running_world)
run-SagasValid_example = run-SagasValid uuid new_orchestrator inputs running_world running_valid

started-IsFor : IsFor (ack_of "RepoWatchStarted" "") running_saga running_world
unfolding validate_action
started-IsFor = record {
  identified = λ h. cc;
  known = refl;
  found = refl;
  repo = refl;
  action = refl;
  running = refl;
}

failed-IsFor : IsFor (ack_of "RepoWatchFailed" "boom") running_saga running_world
unfolding validate_action
failed-IsFor = record {
  identified = λ h. cc;
  known = refl;
  found = refl;
  repo = refl;
  action = refl;
  running = refl;
}

success_completes_example :
    ((handle_ack (ack_of "RepoWatchStarted" "") running_world).0 ≡ ok tt)
    × Becomes "saga-1"
        (record running_saga { status = completed; last_error = none; updated_at = minute })
        running_world.db
        (handle_ack (ack_of "RepoWatchStarted" "") running_world).1.db
unfolding repo_watch_ack_event_type
success_completes_example =
    success_completes (ack_of "RepoWatchStarted" "") running_saga running_world refl started-IsFor
      refl

failure_reschedules_example :
    ((handle_ack (ack_of "RepoWatchFailed" "boom") running_world).0 ≡ ok tt)
    × Becomes "saga-1"
        (record running_saga {
          status = retrying;
          next_retry_at = some (minute + minute);
          last_error = some "boom";
          updated_at = minute;
        })
        running_world.db
        (handle_ack (ack_of "RepoWatchFailed" "boom") running_world).1.db
failure_reschedules_example =
    failure_reschedules (ack_of "RepoWatchFailed" "boom") running_saga running_world refl
      failed-IsFor refl

retry_delay_mono_example :
    (minute ≤ retry_delay 2) × (retry_delay 2 ≤ retry_delay 3) × (retry_delay 3 ≤ hour)
retry_delay_mono_example = retry_delay_mono 2 3 (omega arith)

run_refines_example : Lives running_saga (run uuid new_orchestrator inputs running_world).db
run_refines_example =
    run_refines uuid new_orchestrator running_saga inputs running_world (refl, tt) (Memᴰ.head refl)

retry_due_settles_example :
    ((retry_due uuid (pos 10) running_world).0 ≡ ok tt)
    × Memᴰ
        (swept_row false minute running_saga)
        (retry_due uuid (pos 10) running_world).1.db.tables.sagas
    × ((es : List OutboxEvent) × ((retry_due uuid (pos 10) running_world).1.db.outbox ≡ es)
        × (false ≡ false → (e : OutboxEvent) × Memᴰ e es × IsCommandAgain running_saga e))
unfolding is_due validate_action
retry_due_settles_example =
    retry_due_settles uuid (pos 10) running_saga running_world refl (refl, tt) (refl, tt)
      (omega arith) (λ n later. refl) (Memᴰ.head refl) refl

-- What Ann's confirmation has written.
abbrev asked : OutboxEvent
asked = request_row uuid none "start_watch" go_repo "ann@example.com" empty_world

watch_request_taken_up_example :
    let h =
      request_row-IsWatchRequest uuid none "start_watch" go_repo "ann@example.com" empty_world in
    let w : World ApiTables = record empty_world { ids = 1 } in
    ((handle_saga_request uuid new_orchestrator asked.payload w).0 ≡ ok tt)
    × ((c : OutboxEvent) × IsCommandOf h.asked "StartWatchingRepo" c
        × ((handle_saga_request uuid new_orchestrator asked.payload w).1.db
            ≡ DbAfter w.db
                (first_attempt 86_400_000_000_000 minute asked.event_id go_repo "start_watch"
                  h.asked.correlation_id)
                c))
unfolding command_event_type new_orchestrator
watch_request_taken_up_example =
    watch_request_taken_up uuid new_orchestrator "start_watch" go_repo "StartWatchingRepo" asked
      (record empty_world { ids = 1 })
      (request_row-IsWatchRequest uuid none "start_watch" go_repo "ann@example.com" empty_world)
      refl refl refl (λ e. cc e) refl refl refl
