-- ===== src/Watchsaga/Atomicity.antt =====
-- Every handler of the orchestrator is all or nothing.
use software_engineering_sch.Base.{ℕ, Bool, String, ℤ, ◌≡◌}
use software_engineering_sch.Errors.{Error, err}
use software_engineering_sch.Db.{World}
use software_engineering_sch.Contracts.{Envelope, RepoWatchSagaPayload, RepoWatchAckPayload}
use software_engineering_sch.Uuid.{Uuid}
use software_engineering_sch.Outbox.Insert.{outbox_quiet}
use software_engineering_sch.Db.Atomic.{IsQuiet, IsAtomic, quiet_rules, atomic_rules}
use software_engineering_sch.ApiTables.{ApiTables, Instance}
use software_engineering_sch.Watchsaga.Orchestrator.{
  Input, request, acknowledge, retry, handle, Orchestrator, update_sagas, create_saga,
  prepare_watch_command, handle_request, handle_ack, retry_due, retry_instance, expire_instance,
  resend_command, load_saga_instance, dispatch_ack, handle_success_ack, handle_failed_ack,
}

update_sagas-IsQuiet :
    (p : Instance → Bool) (f : ℕ → Instance → Instance) → IsQuiet (update_sagas p f)
unfolding update_sagas
update_sagas-IsQuiet p f = search quiet_rules

create_saga-IsQuiet : (i : Instance) → IsQuiet (create_saga i)
unfolding create_saga
create_saga-IsQuiet i = search quiet_rules

load_saga_instance-IsQuiet : (id : String) → IsQuiet (load_saga_instance id)
unfolding load_saga_instance
load_saga_instance-IsQuiet id = search quiet_rules

module _ (u : Uuid) where
  prepare_watch_command-IsQuiet :
      (saga_id action repo correlation_id : String) (now : ℕ)
      → IsQuiet (prepare_watch_command u saga_id action repo correlation_id now)
  unfolding prepare_watch_command
  prepare_watch_command-IsQuiet saga_id action repo correlation_id now = search outbox_quiet

  retry_instance-IsQuiet : (now : ℕ) (i : Instance) → IsQuiet (retry_instance u now i)
  unfolding retry_instance expire_instance resend_command
  retry_instance-IsQuiet now i =
      search (outbox_quiet, update_sagas-IsQuiet, prepare_watch_command-IsQuiet)

ruleset saga_rules = (
  atomic_rules, outbox_quiet, update_sagas-IsQuiet, create_saga-IsQuiet, load_saga_instance-IsQuiet,
  prepare_watch_command-IsQuiet, retry_instance-IsQuiet,
)

handle_request-IsAtomic :
    (u : Uuid) (o : Orchestrator) (event : Envelope RepoWatchSagaPayload)
    → IsAtomic (handle_request u o event)
unfolding handle_request
handle_request-IsAtomic u o event = search saga_rules depth 14

dispatch_ack-IsAtomic :
    (event : Envelope RepoWatchAckPayload) (i : Instance) → IsAtomic (dispatch_ack event i)
unfolding dispatch_ack handle_success_ack handle_failed_ack
dispatch_ack-IsAtomic event i = search saga_rules depth 10

handle_ack-IsAtomic : (event : Envelope RepoWatchAckPayload) → IsAtomic (handle_ack event)
unfolding handle_ack
handle_ack-IsAtomic event = search (saga_rules, dispatch_ack-IsAtomic) depth 10

retry_due-IsAtomic : (u : Uuid) (limit : ℤ) → IsAtomic (retry_due u limit)
unfolding retry_due
retry_due-IsAtomic u limit = search saga_rules depth 8

handle-IsAtomic : (u : Uuid) (o : Orchestrator) (x : Input) → IsAtomic (handle u o x)
unfolding handle
handle-IsAtomic u o (request event) = handle_request-IsAtomic u o event
handle-IsAtomic u o (acknowledge event) = handle_ack-IsAtomic event
handle-IsAtomic u o (retry limit) = retry_due-IsAtomic u limit

-- Handling a request, an acknowledgement or a tick of the retries either returns no error or leaves
-- the committed database, sagas and outbox alike, as it was, whichever of the calls fail.
pub handle_atomic :
    (u : Uuid) (o : Orchestrator) (x : Input) (w : World ApiTables) (e : Error)
    → (handle u o x w).0 ≡ err e
    → (handle u o x w).1.db ≡ w.db
handle_atomic u o x w e failed = (handle-IsAtomic u o x).atomic w e failed
