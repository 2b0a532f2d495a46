-- ===== src/Watchsaga/Validity.antt =====
-- The invariant of the saga table, which every handler keeps.
use software_engineering_sch.Base.{
  ℕ, ◌≤◌, ◌+◌, String, none, Bool, false, List, [], ◌∷◌, ◌≡◌, ◌≢◌, refl, All, All-concat,
  All-update, arith, HasDistinctKeys, concat-HasDistinctKeys, update-HasDistinctKeys,
}
use software_engineering_sch.Errors.{ok}
use software_engineering_sch.Contracts.{Envelope, RepoWatchSagaPayload, RepoWatchAckPayload}
use software_engineering_sch.Uuid.{Uuid}
use software_engineering_sch.Outbox.Event.{OutboxEvent}
use software_engineering_sch.Outbox.Store.{insert_tx}
use software_engineering_sch.Db.{Database, World}
use software_engineering_sch.Db.Keeps.{Holds, Keeps, Keeps-exec, Keeps-bind_lift, keeps_rules}
use software_engineering_sch.Outbox.Insert.{new_string-Keeps, insert_tx-Keeps}
use software_engineering_sch.ApiTables.{ApiTables, Instance, failed}
use software_engineering_sch.Watchsaga.Rules.{
  validate_action, is_final, insert_saga, set_completed, set_failed_ack, set_expired, set_retried,
}
use software_engineering_sch.Watchsaga.Orchestrator.{
  Input, request, acknowledge, retry, handle, run, Orchestrator, update_sagas, create_saga,
  prepare_watch_command, handle_request, handle_ack, retry_due, retry_instance, expire_instance,
  resend_command, load_saga_instance, dispatch_ack, handle_success_ack, handle_failed_ack,
  new_instance,
}

-- A saga's action is one of the two known ones, it was attempted at least once, it has a time for
-- its next retry until it is final, and a failed one says why.
pub record IsValidSaga (i : Instance) : Type 0 where
  pub action_known : validate_action i.action ≡ ok tt
  pub attempted : 1 ≤ i.attempts
  pub scheduled : is_final i.status ≡ false → i.next_retry_at ≢ none
  pub explained : i.status ≡ failed → i.last_error ≢ none

abbrev pub saga_key : Instance → String
saga_key i = i.saga_id

-- Every saga is valid, and no id stands twice.
pub record SagasValid (d : Database ApiTables) : Type 0 where
  pub distinct : HasDistinctKeys saga_key d.tables.sagas
  pub valid : All IsValidSaga d.tables.sagas

insert_tx-SagasValid : (e : OutboxEvent) → Keeps SagasValid (insert_tx e)
insert_tx-SagasValid e =
    insert_tx-Keeps e (λ now d h. record { distinct = h.distinct; valid = h.valid })

update_sagas-SagasValid :
    (p : Instance → Bool) (f : ℕ → Instance → Instance)
    → ((t : ℕ) (i : Instance) → (f t i).saga_id ≡ i.saga_id)
    → ((t : ℕ) (i : Instance) → IsValidSaga i → IsValidSaga (f t i))
    → Keeps SagasValid (update_sagas p f)
unfolding update_sagas
update_sagas-SagasValid p f same keep = Keeps-exec _ λ w d h. record {
  distinct = update-HasDistinctKeys saga_key p (f w.now) d.tables.sagas (same w.now) h.distinct;
  valid = All-update IsValidSaga p (f w.now) d.tables.sagas (λ i _ v. keep w.now i v) h.valid;
}

create_saga-SagasValid : (i : Instance) → IsValidSaga i → Keeps SagasValid (create_saga i)
unfolding create_saga insert_saga
create_saga-SagasValid i v = Keeps-exec _ λ w d h. record {
  distinct = ground (arith, h.distinct, concat-HasDistinctKeys saga_key d.tables.sagas i);
  valid = ground (arith, h.valid, All-concat IsValidSaga d.tables.sagas i);
}

set_completed-IsValidSaga : (t : ℕ) (i : Instance) → IsValidSaga i → IsValidSaga (set_completed t i)
unfolding set_completed
set_completed-IsValidSaga t i v = ground arith

set_failed_ack-IsValidSaga :
    (next : ℕ) (error : String) (t : ℕ) (i : Instance)
    → IsValidSaga i
    → IsValidSaga (set_failed_ack t next error i)
unfolding set_failed_ack
set_failed_ack-IsValidSaga next error t i v = ground arith

set_expired-IsValidSaga : (t : ℕ) (i : Instance) → IsValidSaga i → IsValidSaga (set_expired t i)
unfolding set_expired
set_expired-IsValidSaga t i v = ground arith

set_retried-IsValidSaga :
    (attempts next t : ℕ) (i : Instance)
    → 1 ≤ attempts
    → IsValidSaga i
    → IsValidSaga (set_retried t attempts next i)
unfolding set_retried
set_retried-IsValidSaga attempts next t i h v = ground arith

complete-SagasValid : (p : Instance → Bool) → Keeps SagasValid (update_sagas p set_completed)
unfolding set_completed
complete-SagasValid p =
    update_sagas-SagasValid p set_completed (λ t i. refl) set_completed-IsValidSaga

fail_ack-SagasValid :
    (p : Instance → Bool) (next : ℕ) (error : String)
    → Keeps SagasValid (update_sagas p (λ t. set_failed_ack t next error))
unfolding set_failed_ack
fail_ack-SagasValid p next error =
    update_sagas-SagasValid p _ (λ t i. refl) (set_failed_ack-IsValidSaga next error)

expire-SagasValid : (p : Instance → Bool) → Keeps SagasValid (update_sagas p set_expired)
unfolding set_expired
expire-SagasValid p = update_sagas-SagasValid p set_expired (λ t i. refl) set_expired-IsValidSaga

resend-SagasValid :
    (p : Instance → Bool) (attempts next : ℕ)
    → Keeps SagasValid (update_sagas p (λ t. set_retried t (attempts + 1) next))
unfolding set_retried
resend-SagasValid p attempts next =
    update_sagas-SagasValid p _ (λ t i. refl)
      (λ t i. set_retried-IsValidSaga (attempts + 1) next t i (omega arith))

new_instance-IsValidSaga :
    (o : Orchestrator) (now : ℕ) (event : Envelope RepoWatchSagaPayload)
    → validate_action event.payload.action ≡ ok tt
    → IsValidSaga (new_instance o now event)
new_instance-IsValidSaga o now event h = record {
  action_known = h;
  attempted = omega arith;
  scheduled = λ _. cc;
  explained = λ e. cc;
}

load_saga_instance-SagasValid : (id : String) → Keeps SagasValid (load_saga_instance id)
unfolding load_saga_instance
load_saga_instance-SagasValid id = search keeps_rules

prepare_watch_command-SagasValid :
    (u : Uuid) (saga_id action repo correlation_id : String) (now : ℕ)
    → Keeps SagasValid (prepare_watch_command u saga_id action repo correlation_id now)
unfolding prepare_watch_command
prepare_watch_command-SagasValid u saga_id action repo correlation_id now =
    search (keeps_rules, new_string-Keeps, insert_tx-SagasValid)

ruleset valid_rules = (
  keeps_rules, load_saga_instance-SagasValid, prepare_watch_command-SagasValid, complete-SagasValid,
  fail_ack-SagasValid, expire-SagasValid, resend-SagasValid,
)

dispatch_ack-SagasValid :
    (event : Envelope RepoWatchAckPayload) (i : Instance) → Keeps SagasValid (dispatch_ack event i)
unfolding dispatch_ack handle_success_ack handle_failed_ack
dispatch_ack-SagasValid event i = search valid_rules depth 12

retry_instance-SagasValid :
    (u : Uuid) (now : ℕ) (i : Instance) → Keeps SagasValid (retry_instance u now i)
unfolding retry_instance expire_instance resend_command
retry_instance-SagasValid u now i = search valid_rules depth 12

handle_request-SagasValid :
    (u : Uuid) (o : Orchestrator) (event : Envelope RepoWatchSagaPayload)
    → Keeps SagasValid (handle_request u o event)
unfolding handle_request
handle_request-SagasValid u o event =
    search (Keeps-bind_lift, valid_rules, create_saga-SagasValid, new_instance-IsValidSaga) depth 16

handle-SagasValid : (u : Uuid) (o : Orchestrator) (x : Input) → Keeps SagasValid (handle u o x)
unfolding handle handle_ack retry_due
handle-SagasValid u o (request event) = handle_request-SagasValid u o event
handle-SagasValid u o (acknowledge event) = search (valid_rules, dispatch_ack-SagasValid) depth 12
handle-SagasValid u o (retry limit) = search (valid_rules, retry_instance-SagasValid) depth 12

-- Whatever inputs are handled, in any order and at any times, and whichever calls fail, every saga
-- of the table has a known action, at least one attempt, a time for its next retry until it is
-- final, and an error if it failed, and no two sagas have one id.
pub run-SagasValid :
    (u : Uuid) (o : Orchestrator) (xs : List (ℕ × Input)) (w : World ApiTables)
    → Holds SagasValid w
    → Holds SagasValid (run u o xs w)
unfolding run
run-SagasValid u o [] w h = h
run-SagasValid u o ((t, x) ∷ xs) w h =
    run-SagasValid u o xs _ ((handle-SagasValid u o x).kept (record w { now = t }) h)
