-- ===== src/Delivery/Final.antt =====
-- What `Process` does with each delivery, by its status.
use software_engineering_sch.Base.{ℕ, Option, none, some, Bool, true, false, List, ◌≡◌, refl, find}
use software_engineering_sch.Errors.{Error, Result, ok}
use software_engineering_sch.Contracts.{NotificationSendRequestedPayload}
use software_engineering_sch.Uuid.{Uuid}
use software_engineering_sch.Db.{
  World, fault_of, rest_of, attempt, ◌>>=◌, lift, pure, pool_exec, call, wrapping,
}
use software_engineering_sch.Delivery.Repository.{
  DeliveryStatus, pending, sent, failed, dead, Delivery, DeliveryTables, Deliver,
  has_idempotency_key, upsert_row, upsert_pending,
}
use software_engineering_sch.Delivery.Service.{Settings, process, process_row}

-- The statement of `UpsertPending`.
abbrev pool_answer : NotificationSendRequestedPayload → Deliver (Result Delivery)
pool_answer payload w =
    let (r, rows) = upsert_row w.now payload w.db.tables in
    (ok r, record w { db = record w.db { tables = rows } })

pub upsert_row_known :
    (now : ℕ) (payload : NotificationSendRequestedPayload) (d : Delivery) (rows : List Delivery)
    → find (has_idempotency_key payload.idempotency_key) rows ≡ some d
    → upsert_row now payload rows ≡ (ok d, rows)
unfolding upsert_row
upsert_row_known now payload d rows found = rw (found, upsert_row) refl

-- Nothing more is to be done for the delivery: it was sent, or given up.
abbrev pub is_settled : DeliveryStatus → Bool
is_settled sent = true
is_settled dead = true
is_settled _ = false

-- The worlds do not differ in what was mailed, in what was published and in the database.
abbrev pub IsUntouched : World DeliveryTables → World DeliveryTables → Type 0
IsUntouched w' w = (w'.mails ≡ w.mails) × (w'.sent ≡ w.sent) × (w'.db ≡ w.db)

module _ (u : Uuid) (s : Settings) (payload : NotificationSendRequestedPayload) (d : Delivery) where
  process_row_settled :
      (status : DeliveryStatus) (w : World DeliveryTables)
      → is_settled status ≡ true
      → process_row u s payload d status w ≡ (ok tt, w)
  unfolding process_row pure
  process_row_settled sent w h = refl
  process_row_settled dead w h = refl
  process_row_settled pending w h = cc
  process_row_settled failed w h = cc

  settled-IsUntouched :
      (o : Option Error) (w : World DeliveryTables)
      → find (has_idempotency_key payload.idempotency_key) w.db.tables ≡ some d
      → is_settled d.status ≡ true
      → IsUntouched
          ((wrapping "upsert notification delivery" (attempt o (pool_answer payload) >>= lift)
              >>= λ d. process_row u s payload d d.status)
            w).1
          w
  unfolding ◌>>=◌ lift wrapping
  settled-IsUntouched none w found settled =
      rw
        (upsert_row_known w.now payload d w.db.tables found, process_row_settled d.status w settled)
        (refl, refl, refl)
  settled-IsUntouched (some e) w found settled = (refl, refl, refl)

-- A notification whose delivery was sent or is dead, whichever calls fail: processing it again mails
-- nothing, publishes nothing and changes nothing in the database.
pub settled_not_mailed :
    (u : Uuid) (s : Settings) (payload : NotificationSendRequestedPayload) (d : Delivery)
    (w : World DeliveryTables)
    → find (has_idempotency_key payload.idempotency_key) w.db.tables ≡ some d
    → is_settled d.status ≡ true
    → IsUntouched (process u s payload w).1 w
unfolding process upsert_pending pool_exec call ◌>>=◌ wrapping lift
settled_not_mailed u s payload d w found settled =
    settled-IsUntouched u s payload d (fault_of w.faults) (record w { faults = rest_of w.faults })
      found settled
