-- ===== src/Delivery/Repository.antt =====
-- The methods of `Repository` on notification_deliveries (repository.go).
use Prim.Native.String.{compare as compare_text}
use text.Mathlib.Text.{is_le}
use software_engineering_sch.Base.{
  ℕ, ◌+◌, String, Option, none, some, Bool, true, false, ◌&&◌, not, List, [], ◌∷◌, ◌++◌, ◌==◌, leb,
  ltb, if◌then◌else◌, exists, find, update, select, take, order_by, length, ℤ, positive_or,
}
use software_engineering_sch.Errors.{Error, plain, message, Result, ok, err}
use software_engineering_sch.Contracts.{
  Envelope, NotificationSendRequestedPayload, event_notification_requested,
  topic_notification_commands,
}
use software_engineering_sch.Json.{Bytes}
use software_engineering_sch.Contracts.Codec.{notification_codec, marshal}
use software_engineering_sch.Outbox.Store.{new_event, insert_tx}
use software_engineering_sch.Uuid.{Uuid, new_string}
use software_engineering_sch.Db.{
  Action, pure, lift, gets, ◌>>=◌, ◌>>◌, begin, commit, wrapping, query, exec, pool_exec, for_each,
}

-- The values of the column status.
pub data DeliveryStatus : Type 0 where
  pending sent failed dead : DeliveryStatus

pub record Delivery : Type 0 where
  pub notification_id : String
  pub idempotency_key : String
  pub recipient_email : String
  pub email_hash : String
  pub repo : String
  pub tag : String
  pub message : String
  pub status : DeliveryStatus
  pub attempt_count : ℕ
  pub last_error : String
  pub next_attempt_at : Option ℕ
  pub sent_at : Option ℕ
  pub updated_at : ℕ

-- notification_deliveries is the only table beside the outbox.
abbrev pub DeliveryTables : Type 0
DeliveryTables = List Delivery

abbrev pub Deliver : Type 0 → Type 0
Deliver A = Action DeliveryTables A

abbrev pub has_idempotency_key : String → Delivery → Bool
has_idempotency_key key d = d.idempotency_key == key

abbrev pub has_notification_id : String → Delivery → Bool
has_notification_id id d = d.notification_id == id

-- A pending delivery of a payload that was not seen before.
abbrev pub new_delivery : ℕ → NotificationSendRequestedPayload → Delivery
new_delivery now p = record {
  notification_id = p.notification_id;
  idempotency_key = p.idempotency_key;
  recipient_email = p.recipient_email;
  email_hash = p.email_hash;
  repo = p.repo;
  tag = p.tag;
  message = p.message;
  status = pending;
  attempt_count = 0;
  last_error = "";
  next_attempt_at = none;
  sent_at = none;
  updated_at = now;
}

-- `INSERT … ON CONFLICT (idempotency_key) DO UPDATE SET updated_at = updated_at RETURNING …`: the
-- row of the key, old or new. A new row with the primary key of another violates the constraint.
unfoldable pub insert_or_fail :
    ℕ → NotificationSendRequestedPayload → List Delivery → Bool → Result Delivery × List Delivery
insert_or_fail now p rows taken =
    if taken
    then (
      err (plain "duplicate key value violates unique constraint \"notification_deliveries_pkey\""),
      rows,
    )
    else (ok (new_delivery now p), rows ++ new_delivery now p ∷ [])

unfoldable pub upsert_row :
    ℕ → NotificationSendRequestedPayload → List Delivery → Result Delivery × List Delivery
unfolding insert_or_fail
upsert_row now p rows = elim (find (has_idempotency_key p.idempotency_key) rows) [
  | some d ↦ (ok d, rows)
  | none ↦ insert_or_fail now p rows (exists (has_notification_id p.notification_id) rows)
]

unfoldable pub upsert_pending : NotificationSendRequestedPayload → Deliver Delivery
upsert_pending p = wrapping "upsert notification delivery" do
  upserted ←
      pool_exec
        (λ w d. let (r, rows) = upsert_row w.now p d.tables in (r, record d { tables = rows }))
  lift upserted

-- `UPDATE … SET f WHERE idempotency_key = $1`
unfoldable pub update_rows : String → (Delivery → Delivery) → List Delivery → List Delivery
update_rows key f rows = update (has_idempotency_key key) f rows

unfoldable pub set_sent : ℕ → Delivery → Delivery
set_sent now d = record d {
  status = sent;
  sent_at = some now;
  updated_at = now;
  last_error = "";
  next_attempt_at = none;
}

unfoldable pub set_failed : ℕ → String → ℕ → Delivery → Delivery
set_failed now error next_attempt_at d = record d {
  status = failed;
  attempt_count = d.attempt_count + 1;
  last_error = error;
  next_attempt_at = some next_attempt_at;
  updated_at = now;
}

unfoldable pub set_dead : ℕ → String → Delivery → Delivery
set_dead now error d = record d {
  status = dead;
  attempt_count = d.attempt_count + 1;
  last_error = error;
  next_attempt_at = none;
  updated_at = now;
}

unfoldable pub set_pending : ℕ → Delivery → Delivery
set_pending now d = record d { status = pending; next_attempt_at = none; updated_at = now }

unfoldable pub mark_sent : String → Deliver (Unit {0})
mark_sent key =
    wrapping "mark notification sent"
      (pool_exec (λ w d. (tt, record d { tables = update_rows key (set_sent w.now) d.tables })))

unfoldable pub mark_failed : String → Error → ℕ → Deliver (Unit {0})
mark_failed key cause next_attempt_at = wrapping "mark notification failed" (
    pool_exec (λ w d. (
      tt,
      record d {
        tables = update_rows key (set_failed w.now (message cause) next_attempt_at) d.tables;
      },
    )))

unfoldable pub mark_dead : String → Error → Deliver (Unit {0})
mark_dead key cause = wrapping "mark notification dead" (
    pool_exec (λ w d.
      (tt, record d { tables = update_rows key (set_dead w.now (message cause)) d.tables })))

-- `status = 'failed' AND next_attempt_at IS NOT NULL AND next_attempt_at <= now()`, with the rows
-- that are locked left out.
abbrev is_failed : DeliveryStatus → Bool
is_failed failed = true
is_failed _ = false

abbrev is_reached : ℕ → Option ℕ → Bool
is_reached now none = false
is_reached now (some t) = leb t now

unfoldable pub is_due : ℕ → (String → Bool) → Delivery → Bool
is_due now locked d =
    is_failed d.status && is_reached now d.next_attempt_at && not (locked d.notification_id)

-- `ORDER BY next_attempt_at, updated_at, notification_id`
abbrev instant_or_zero : Option ℕ → ℕ
instant_or_zero none = 0
instant_or_zero (some t) = t

abbrev is_due_before : Delivery → Delivery → Bool
is_due_before a b =
    let s = instant_or_zero a.next_attempt_at in
    let t = instant_or_zero b.next_attempt_at in
    if ltb s t
    then true
    else if ltb t s
    then false
    else if ltb a.updated_at b.updated_at
    then true
    else if ltb b.updated_at a.updated_at
    then false
    else is_le (compare_text a.notification_id b.notification_id)

unfoldable pub due_retries : ℕ → ℕ → (String → Bool) → List Delivery → List Delivery
unfolding is_due
due_retries limit now locked rows =
    take limit (order_by is_due_before (select (is_due now locked) rows))

-- The payload of a retry, from the row.
abbrev pub payload_of : Delivery → NotificationSendRequestedPayload
payload_of d = record {
  notification_id = d.notification_id;
  idempotency_key = d.idempotency_key;
  recipient_email = d.recipient_email;
  email_hash = d.email_hash;
  repo = d.repo;
  tag = d.tag;
  message = d.message;
}

-- `marshalRetryEvent`
unfoldable pub marshal_retry_event : NotificationSendRequestedPayload → ℕ → String → Bytes
marshal_retry_event payload occurred_at event_id =
    let event : Envelope NotificationSendRequestedPayload = record {
      event_id = event_id;
      event_type = event_notification_requested;
      occurred_at = occurred_at;
      source = "notification-service";
      correlation_id = payload.notification_id;
      not_before = none;
      payload = payload;
    } in
    marshal event

module _ (u : Uuid) where
  -- One delivery of the loop of `EnqueueDueRetries`.
  unfoldable pub enqueue_retry : ℕ → Delivery → Deliver (Unit {0})
  enqueue_retry now d = do
    inner_id ← new_string u
    event_id ← new_string u
    insert_tx (
        new_event event_id event_notification_requested now "notification-service" d.notification_id
          topic_notification_commands d.email_hash
          (marshal_retry_event (payload_of d) now inner_id))
    wrapping "mark notification retry pending" (
        exec (λ w x.
          (tt, record x { tables = update_rows d.idempotency_key (set_pending w.now) x.tables })))

  unfoldable pub enqueue_due_retries : ℤ → Deliver ℕ
  enqueue_due_retries limit = do
    wrapping "begin enqueue notification retries" begin
    deliveries ←
        wrapping "fetch due notification retries"
          (query (λ w d. due_retries (positive_or limit 100) w.now w.locked d.tables))
    now ← gets (λ w. w.now)
    for_each (enqueue_retry now) deliveries
    wrapping "commit enqueue notification retries" commit
    pure (length deliveries)
