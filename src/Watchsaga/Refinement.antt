-- ===== src/Watchsaga/Refinement.antt =====
-- Every saga of the table lives the life of the lifecycle.
use software_engineering_sch.Base.{
  ℕ, String, Bool, true, false, List, [], ◌∷◌, ◌≡◌, refl, ◌∙◌, subst, ◌⊎◌, inl, inr, arith, leb,
  if◌then◌else◌, HasDistinctKeys, concat-HasDistinctKeys, update-HasDistinctKeys, mem-update,
  Bool-cases,
}
use mathlib.Core.List.{Memᴰ}
use software_engineering_sch.Contracts.{Envelope, RepoWatchSagaPayload, RepoWatchAckPayload}
use software_engineering_sch.Uuid.{Uuid}
use software_engineering_sch.Outbox.Event.{OutboxEvent}
use software_engineering_sch.Outbox.Store.{insert_tx}
use software_engineering_sch.Db.{Database, World}
use software_engineering_sch.Db.Keeps.{Keeps, Keeps-exec, keeps_rules}
use software_engineering_sch.Db.Atomic.{quiet_rules}
use software_engineering_sch.Db.Carries.{Carries, Carries-bind, Carries-begin}
use software_engineering_sch.Outbox.Insert.{new_string-Keeps, insert_tx-Keeps}
use software_engineering_sch.ApiTables.{ApiTables, Instance, SagaStatus, retrying, failed}
use software_engineering_sch.Watchsaga.Rules.{
  is_final, insert_saga, set_completed, set_failed_ack, set_expired, set_retried,
}
use software_engineering_sch.Watchsaga.Orchestrator.{
  Input, request, acknowledge, retry, handle, run, Orchestrator, update_sagas, create_saga,
  prepare_watch_command, handle_request, handle_ack, retry_due, retry_instance, expire_instance,
  resend_command, load_saga_instance, dispatch_ack, handle_success_ack, handle_failed_ack,
}
use software_engineering_sch.Watchsaga.Lifecycle.{
  Step, retries, completes, fails, Steps, rests, moves, IsSameSaga,
}
use software_engineering_sch.Watchsaga.Validity.{saga_key}
use software_engineering_sch.Watchsaga.Final.{IsListed, mem-insert_saga, handle-Carries}

same_trans : (i j k : Instance) → IsSameSaga i j → IsSameSaga j k → IsSameSaga i k
same_trans i j k (id, repo, action, correlation, created, deadline)
      (id', repo', action', correlation', created', deadline') =
    (
      id' ∙ id,
      repo' ∙ repo,
      action' ∙ action,
      correlation' ∙ correlation,
      created' ∙ created,
      deadline' ∙ deadline,
    )

-- The saga is in the table, whose ids are distinct, and has moved by one step at most.
pub record Follows (i : Instance) (d : Database ApiTables) : Type 0 where
  pub distinct : HasDistinctKeys saga_key d.tables.sagas
  pub current : Instance
  pub listed : Memᴰ current d.tables.sagas
  pub same : IsSameSaga i current
  pub moved : (i.status ≡ current.status) ⊎ Step i.status current.status

module _ (i : Instance) where
  insert_tx-Follows : (e : OutboxEvent) → Keeps (Follows i) (insert_tx e)
  insert_tx-Follows e = insert_tx-Keeps e (λ now d h. record {
    distinct = h.distinct;
    current = h.current;
    listed = h.listed;
    same = h.same;
    moved = h.moved;
  })

  create_saga-Follows : (j : Instance) → Keeps (Follows i) (create_saga j)
  unfolding create_saga insert_saga
  create_saga-Follows j = Keeps-exec _ λ w d h. record {
    distinct = ground (arith, h.distinct, concat-HasDistinctKeys saga_key d.tables.sagas j);
    current = h.current;
    listed = mem-insert_saga j d.tables.sagas h.listed;
    same = h.same;
    moved = h.moved;
  }

  -- A row whose update is a step, whether it is selected or not.
  stepped :
      (chosen : Bool) (f : Instance → Instance) (j : Instance)
      → IsSameSaga j (f j)
      → Step i.status (f j).status
      → IsSameSaga i j
      → (i.status ≡ j.status) ⊎ Step i.status j.status
      → let k = if chosen then f j else j in
        IsSameSaga i k × ((i.status ≡ k.status) ⊎ Step i.status k.status)
  stepped true f j keep step same moved = (same_trans i j (f j) same keep, inr step)
  stepped false f j keep step same moved = (same, moved)

  update_sagas-Follows :
      (p : Instance → Bool) (f : ℕ → Instance → Instance)
      → ((t : ℕ) (j : Instance) → IsSameSaga j (f t j))
      → ((t : ℕ) (j : Instance) → Step i.status (f t j).status)
      → Keeps (Follows i) (update_sagas p f)
  unfolding update_sagas
  update_sagas-Follows p f keep step = Keeps-exec _ λ w d h.
      let (same, moved) =
        stepped (p h.current) (f w.now) h.current (keep w.now h.current) (step w.now h.current)
          h.same h.moved in
      record {
        distinct =
            update-HasDistinctKeys saga_key p (f w.now) d.tables.sagas (λ j. (keep w.now j).0)
              h.distinct;
        current = if p h.current then f w.now h.current else h.current;
        listed = mem-update p (f w.now) d.tables.sagas h.listed;
        same = same;
        moved = moved;
      }

module _ (i : Instance) (live : is_final i.status ≡ false) where
  complete-Follows : (p : Instance → Bool) → Keeps (Follows i) (update_sagas p set_completed)
  unfolding set_completed
  complete-Follows p =
      update_sagas-Follows i p set_completed (λ t j. (refl, refl, refl, refl, refl, refl))
        (λ t j. completes live)

  failed_or_retried : (late : Bool) → Step i.status (if late then failed else retrying)
  failed_or_retried true = fails live
  failed_or_retried false = retries live

  fail_ack-Follows :
      (p : Instance → Bool) (next : ℕ) (error : String)
      → Keeps (Follows i) (update_sagas p (λ t. set_failed_ack t next error))
  unfolding set_failed_ack
  fail_ack-Follows p next error =
      update_sagas-Follows i p (λ t. set_failed_ack t next error)
        (λ t j. (refl, refl, refl, refl, refl, refl))
        (λ t j. failed_or_retried (leb j.deadline_at t))

  expire-Follows : (p : Instance → Bool) → Keeps (Follows i) (update_sagas p set_expired)
  unfolding set_expired
  expire-Follows p =
      update_sagas-Follows i p set_expired (λ t j. (refl, refl, refl, refl, refl, refl))
        (λ t j. fails live)

  resend-Follows :
      (p : Instance → Bool) (attempts next : ℕ)
      → Keeps (Follows i) (update_sagas p (λ t. set_retried t attempts next))
  unfolding set_retried
  resend-Follows p attempts next =
      update_sagas-Follows i p (λ t. set_retried t attempts next)
        (λ t j. (refl, refl, refl, refl, refl, refl)) (λ t j. retries live)

  prepare_watch_command-Follows :
      (u : Uuid) (saga_id action repo correlation_id : String) (now : ℕ)
      → Keeps (Follows i) (prepare_watch_command u saga_id action repo correlation_id now)
  unfolding prepare_watch_command
  prepare_watch_command-Follows u saga_id action repo correlation_id now =
      search (keeps_rules, new_string-Keeps, insert_tx-Follows)

  load_saga_instance-Follows : (id : String) → Keeps (Follows i) (load_saga_instance id)
  unfolding load_saga_instance
  load_saga_instance-Follows id = search keeps_rules

  dispatch_ack-Follows :
      (event : Envelope RepoWatchAckPayload) (j : Instance)
      → Keeps (Follows i) (dispatch_ack event j)
  unfolding dispatch_ack handle_success_ack handle_failed_ack
  dispatch_ack-Follows event j = search (keeps_rules, complete-Follows, fail_ack-Follows) depth 12

  retry_instance-Follows :
      (u : Uuid) (now : ℕ) (j : Instance) → Keeps (Follows i) (retry_instance u now j)
  unfolding retry_instance expire_instance resend_command
  retry_instance-Follows u now j =
      search (keeps_rules, prepare_watch_command-Follows, expire-Follows, resend-Follows) depth 12

  handle_request-Follows :
      (u : Uuid) (o : Orchestrator) (event : Envelope RepoWatchSagaPayload)
      → Keeps (Follows i) (handle_request u o event)
  unfolding handle_request
  handle_request-Follows u o event =
      search (keeps_rules, create_saga-Follows, prepare_watch_command-Follows) depth 16

  handle-Follows : (u : Uuid) (o : Orchestrator) (x : Input) → Carries (Follows i) (handle u o x)
  unfolding handle handle_ack retry_due handle_request
  handle-Follows u o (request event) =
      search
        (
          Carries-bind, Carries-begin, quiet_rules, keeps_rules, create_saga-Follows,
          prepare_watch_command-Follows,
        )
        depth 16
  handle-Follows u o (acknowledge event) =
      search
        (
          Carries-bind, Carries-begin, quiet_rules, keeps_rules, load_saga_instance-Follows,
          dispatch_ack-Follows,
        )
        depth 14
  handle-Follows u o (retry limit) =
      search (Carries-bind, Carries-begin, quiet_rules, keeps_rules, retry_instance-Follows) depth
        14

-- A saga of the table, and what it has become.
pub record Lives (i : Instance) (d : Database ApiTables) : Type 0 where
  pub distinct : HasDistinctKeys saga_key d.tables.sagas
  pub current : Instance
  pub listed : Memᴰ current d.tables.sagas
  pub same : IsSameSaga i current
  pub lived : Steps i.status current.status

Steps-end : {s t r : SagaStatus} → Steps s t → (t ≡ r) ⊎ Step t r → Steps s r
Steps-end rests (inl same) = subst (Steps _) same rests
Steps-end rests (inr step) = moves step rests
Steps-end (moves first rest) end = moves first (Steps-end rest end)

-- One input.
handle-Lives :
    (u : Uuid) (o : Orchestrator) (x : Input) (i : Instance) (w : World ApiTables)
    → Lives i w.db
    → Lives i (handle u o x w).1.db
handle-Lives u o x i w h = elim (Bool-cases (is_final h.current.status)) [
  | inl final ↦
      (let kept : IsListed h.current (handle u o x w).1.db =
          (handle-Carries h.current final u o x).carried w
            (record { distinct = h.distinct; listed = h.listed }) in
        record {
          distinct = kept.distinct;
          current = h.current;
          listed = kept.listed;
          same = h.same;
          lived = h.lived;
        })
  | inr live ↦
      (let next : Follows h.current (handle u o x w).1.db =
          (handle-Follows h.current live u o x).carried w (record {
            distinct = h.distinct;
            current = h.current;
            listed = h.listed;
            same = (refl, refl, refl, refl, refl, refl);
            moved = inl refl;
          }) in
        record {
          distinct = next.distinct;
          current = next.current;
          listed = next.listed;
          same = same_trans i h.current next.current h.same next.same;
          lived = Steps-end h.lived next.moved;
        })
]

run-Lives :
    (u : Uuid) (o : Orchestrator) (i : Instance) (xs : List (ℕ × Input)) (w : World ApiTables)
    → Lives i w.db
    → Lives i (run u o xs w).db
unfolding run
run-Lives u o i [] w h = h
run-Lives u o i ((t, x) ∷ xs) w h =
    run-Lives u o i xs _ (handle-Lives u o x i (record w { now = t }) h)

-- The orchestrator implements the lifecycle: a saga of a table with distinct ids, whatever inputs are
-- handled, in any order and at any times, and whichever calls fail, is still in the table under its
-- id, with its repository, action, correlation id, time of creation and deadline, the ids are still
-- distinct, and its status was reached by steps of the lifecycle.
pub run_refines :
    (u : Uuid) (o : Orchestrator) (i : Instance) (xs : List (ℕ × Input)) (w : World ApiTables)
    → HasDistinctKeys saga_key w.db.tables.sagas
    → Memᴰ i w.db.tables.sagas
    → Lives i (run u o xs w).db
run_refines u o i xs w distinct listed = run-Lives u o i xs w (record {
  distinct = distinct;
  current = i;
  listed = listed;
  same = (refl, refl, refl, refl, refl, refl);
  lived = rests;
})
