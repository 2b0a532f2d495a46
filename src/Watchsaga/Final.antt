-- ===== src/Watchsaga/Final.antt =====
-- A saga that is completed or failed stays as it is.
use software_engineering_sch.Base.{
  ℕ, String, Bool, true, false, List, [], ◌∷◌, ◌≡◌, refl, ℤ, All, All-take, All-order_by,
  All-select_mem, arith, eq_iff, HasDistinctKeys, concat-HasDistinctKeys, update-HasDistinctKeys,
  eq_of_key, mem-concat, mem-update_ne, Bool-cases, String-cases, inl, inr, exists, positive_or,
}
use mathlib.Core.List.{Memᴰ}
use software_engineering_sch.Contracts.{Envelope, RepoWatchSagaPayload, RepoWatchAckPayload}
use software_engineering_sch.Uuid.{Uuid}
use software_engineering_sch.Outbox.Event.{OutboxEvent}
use software_engineering_sch.Outbox.Store.{insert_tx}
use software_engineering_sch.Db.{
  Database, World, ◌>>=◌, ◌>>◌, gets, wrapping, query, for_each, commit,
}
use software_engineering_sch.Db.Atomic.{quiet_rules}
use software_engineering_sch.Db.Carries.{Carries, Carries-bind, Carries-begin}
use software_engineering_sch.Db.Keeps.{
  Holds, Keeps, Keeps-exec, Keeps-bind, Keeps-bind_query, Keeps-for_each-All, keeps_rules,
}
use software_engineering_sch.Outbox.Insert.{new_string-Keeps, insert_tx-Keeps}
use software_engineering_sch.ApiTables.{ApiTables, Instance}
use software_engineering_sch.Watchsaga.Rules.{
  default_retry_limit, is_final, insert_saga, is_open_saga, has_saga_id, set_completed,
  set_failed_ack, set_expired, set_retried, due, is_due,
}
use software_engineering_sch.Watchsaga.Orchestrator.{
  Input, request, acknowledge, retry, handle, run, Orchestrator, update_sagas, create_saga,
  prepare_watch_command, handle_request, handle_ack, retry_due, retry_instance, expire_instance,
  resend_command, load_saga_instance, dispatch_ack, handle_success_ack, handle_failed_ack,
}
use software_engineering_sch.Watchsaga.Validity.{saga_key}

pub mem-insert_saga :
    (j : Instance) (sagas : List Instance) {i : Instance}
    → Memᴰ i sagas
    → Memᴰ i (insert_saga j sagas).1
unfolding insert_saga
mem-insert_saga j sagas m = elim (Bool-cases (exists (has_saga_id j.saga_id) sagas)) [
  | inl known ↦ rw known m
  | inr new ↦ rw new (mem-concat sagas j m)
]

-- The row stands in the table, whose ids are distinct.
pub record IsListed (i : Instance) (d : Database ApiTables) : Type 0 where
  pub distinct : HasDistinctKeys saga_key d.tables.sagas
  pub listed : Memᴰ i d.tables.sagas

module _ (i : Instance) (final : is_final i.status ≡ true) where
  insert_tx-IsListed : (e : OutboxEvent) → Keeps (IsListed i) (insert_tx e)
  insert_tx-IsListed e =
      insert_tx-Keeps e (λ now d h. record { distinct = h.distinct; listed = h.listed })

  update_sagas-IsListed :
      (p : Instance → Bool) (f : ℕ → Instance → Instance)
      → ((t : ℕ) (j : Instance) → (f t j).saga_id ≡ j.saga_id)
      → p i ≡ false
      → Keeps (IsListed i) (update_sagas p f)
  unfolding update_sagas
  update_sagas-IsListed p f same spared = Keeps-exec _ λ w d h. record {
    distinct = update-HasDistinctKeys saga_key p (f w.now) d.tables.sagas (same w.now) h.distinct;
    listed = mem-update_ne p (f w.now) d.tables.sagas h.listed spared;
  }

  create_saga-IsListed : (j : Instance) → Keeps (IsListed i) (create_saga j)
  unfolding create_saga insert_saga
  create_saga-IsListed j = Keeps-exec _ λ w d h. record {
    distinct = ground (arith, h.distinct, concat-HasDistinctKeys saga_key d.tables.sagas j);
    listed = mem-insert_saga j d.tables.sagas h.listed;
  }

  is_open_saga_spares : (id repo action : String) → is_open_saga id repo action i ≡ false
  unfolding is_open_saga
  is_open_saga_spares id repo action = ground (arith, final)

  spared :
      (now : ℕ) (locked : String → Bool) (d : Database ApiTables)
      → IsListed i d
      → (j : Instance) → Memᴰ j d.tables.sagas
      → is_due now locked j ≡ true
      → has_saga_id j.saga_id i ≡ false
  unfolding is_due
  spared now locked d h j m chosen = elim (String-cases i.saga_id j.saga_id) [
    | inl same ↦ ground (arith, final, eq_of_key saga_key d.tables.sagas h.distinct h.listed m same)
    | inr other ↦ ground (arith, eq_iff i.saga_id j.saga_id)
  ]

  -- No due saga has the id of a final one.
  due_differ :
      (limit now : ℕ) (locked : String → Bool) (d : Database ApiTables)
      → IsListed i d
      → All (λ j. has_saga_id j.saga_id i ≡ false) (due limit now locked d.tables.sagas)
  unfolding due
  due_differ limit now locked d h =
      All-take _ limit _
        (All-order_by _ _ _ (All-select_mem _ _ d.tables.sagas (spared now locked d h)))

  resend-IsListed :
      (id : String) (attempts next : ℕ)
      → has_saga_id id i ≡ false
      → Keeps (IsListed i) (update_sagas (has_saga_id id) (λ t. set_retried t attempts next))
  unfolding set_retried
  resend-IsListed id attempts next spared =
      update_sagas-IsListed (has_saga_id id) _ (λ t j. refl) spared

  expire-IsListed :
      (id : String)
      → has_saga_id id i ≡ false
      → Keeps (IsListed i) (update_sagas (has_saga_id id) set_expired)
  unfolding set_expired
  expire-IsListed id spared =
      update_sagas-IsListed (has_saga_id id) set_expired (λ t j. refl) spared

  complete-IsListed :
      (id repo action : String)
      → Keeps (IsListed i) (update_sagas (is_open_saga id repo action) set_completed)
  unfolding set_completed
  complete-IsListed id repo action =
      update_sagas-IsListed _ _ (λ t j. refl) (is_open_saga_spares id repo action)

  fail_ack-IsListed :
      (id repo action : String) (next : ℕ) (error : String)
      → Keeps
          (IsListed i)
          (update_sagas (is_open_saga id repo action) (λ t. set_failed_ack t next error))
  unfolding set_failed_ack
  fail_ack-IsListed id repo action next error =
      update_sagas-IsListed _ _ (λ t j. refl) (is_open_saga_spares id repo action)

  load_saga_instance-IsListed : (id : String) → Keeps (IsListed i) (load_saga_instance id)
  unfolding load_saga_instance
  load_saga_instance-IsListed id = search keeps_rules

  prepare_watch_command-IsListed :
      (u : Uuid) (saga_id action repo correlation_id : String) (now : ℕ)
      → Keeps (IsListed i) (prepare_watch_command u saga_id action repo correlation_id now)
  unfolding prepare_watch_command
  prepare_watch_command-IsListed u saga_id action repo correlation_id now =
      search (keeps_rules, new_string-Keeps, insert_tx-IsListed)

  handle_request-IsListed :
      (u : Uuid) (o : Orchestrator) (event : Envelope RepoWatchSagaPayload)
      → Keeps (IsListed i) (handle_request u o event)
  unfolding handle_request
  handle_request-IsListed u o event =
      search (keeps_rules, create_saga-IsListed, prepare_watch_command-IsListed) depth 16

  dispatch_ack-IsListed :
      (event : Envelope RepoWatchAckPayload) (j : Instance)
      → Keeps (IsListed i) (dispatch_ack event j)
  unfolding dispatch_ack handle_success_ack handle_failed_ack
  dispatch_ack-IsListed event j =
      search (keeps_rules, complete-IsListed, fail_ack-IsListed) depth 12

  handle_ack-IsListed :
      (event : Envelope RepoWatchAckPayload) → Keeps (IsListed i) (handle_ack event)
  unfolding handle_ack
  handle_ack-IsListed event =
      search (keeps_rules, load_saga_instance-IsListed, dispatch_ack-IsListed) depth 12

  retry_instance-IsListed :
      (u : Uuid) (now : ℕ) (j : Instance)
      → has_saga_id j.saga_id i ≡ false
      → Keeps (IsListed i) (retry_instance u now j)
  unfolding retry_instance expire_instance resend_command
  retry_instance-IsListed u now j spared =
      search (keeps_rules, prepare_watch_command-IsListed, expire-IsListed, resend-IsListed) depth
        12

  -- The retries, once their transaction is begun.
  swept-IsListed :
      (u : Uuid) (limit : ℤ)
      → Keeps (IsListed i) (
          gets (λ w. w.now) >>= λ now.
          wrapping "select due saga retries" (
            query
              (λ w d. due (positive_or limit default_retry_limit) w.now w.locked d.tables.sagas))
          >>= λ instances. for_each (retry_instance u now) instances >> commit)
  swept-IsListed u limit = Keeps-bind _ _ (search keeps_rules) λ now.
      Keeps-bind_query (λ js. All (λ j. has_saga_id j.saga_id i ≡ false) js) _ _ _
        (λ w d h. due_differ (positive_or limit default_retry_limit) w.now w.locked d h)
        λ js differ.
          Keeps-bind _ _
            (Keeps-for_each-All _ (retry_instance u now) js differ (retry_instance-IsListed u now))
            λ _. search keeps_rules

  retry_due-IsListed : (u : Uuid) (limit : ℤ) → Keeps (IsListed i) (retry_due u limit)
  unfolding retry_due
  retry_due-IsListed u limit = Keeps-bind _ _ (search keeps_rules) λ _. swept-IsListed u limit

  -- Whatever view an earlier transaction has left.
  pub handle-Carries :
      (u : Uuid) (o : Orchestrator) (x : Input) → Carries (IsListed i) (handle u o x)
  unfolding handle handle_ack retry_due handle_request
  handle-Carries u o (request event) =
      search
        (
          Carries-bind, Carries-begin, quiet_rules, keeps_rules, create_saga-IsListed,
          prepare_watch_command-IsListed,
        )
        depth 16
  handle-Carries u o (acknowledge event) =
      search
        (
          Carries-bind, Carries-begin, quiet_rules, keeps_rules, load_saga_instance-IsListed,
          dispatch_ack-IsListed,
        )
        depth 14
  handle-Carries u o (retry limit) = Carries-begin _ _ λ _. swept-IsListed u limit

  handle-IsListed : (u : Uuid) (o : Orchestrator) (x : Input) → Keeps (IsListed i) (handle u o x)
  unfolding handle
  handle-IsListed u o (request event) = handle_request-IsListed u o event
  handle-IsListed u o (acknowledge event) = handle_ack-IsListed event
  handle-IsListed u o (retry limit) = retry_due-IsListed u limit

-- A saga that is completed or failed, in a table with distinct ids, stays in the table as it is,
-- column by column, whatever inputs are handled, in any order and at any times, and whichever calls
-- fail: no late or repeated acknowledgement and no retry reopens it.
pub final_absorbs :
    (u : Uuid) (o : Orchestrator) (i : Instance) (xs : List (ℕ × Input)) (w : World ApiTables)
    → is_final i.status ≡ true
    → Holds (IsListed i) w
    → Holds (IsListed i) (run u o xs w)
unfolding run
final_absorbs u o i [] w final h = h
final_absorbs u o i ((t, x) ∷ xs) w final h =
    final_absorbs u o i xs _ final ((handle-IsListed i final u o x).kept (record w { now = t }) h)
