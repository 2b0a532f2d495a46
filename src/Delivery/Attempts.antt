-- ===== src/Delivery/Attempts.antt =====
-- What one attempt to deliver a notification leaves behind, by the SMTP server's answer.
use software_engineering_sch.Base.{
  ◌==◌, update, ◌&&◌, ℕ, ◌+◌, ◌++◌, String, Option, none, some, Bool, true, false, List, [], ◌∷◌,
  ◌≡◌, refl, find, leb, add_duration, if◌then◌else◌,
}
use software_engineering_sch.Errors.{Error, message, Result, ok}
use software_engineering_sch.Contracts.{
  Envelope, NotificationSendRequestedPayload, event_notification_requested, topic_notification_dlq,
}
use software_engineering_sch.Contracts.Codec.{notification_codec, unmarshal}
use software_engineering_sch.Contracts.Codec.RoundTrip.{unmarshal-marshal}
use software_engineering_sch.Uuid.{Uuid, new_string}
use software_engineering_sch.Db.{
  Message, World, fault_of, rest_of, eq-calm, eq-faults, Mail, ◌>>=◌, lift, pure, pool_exec, call,
  wrapping, send_mail, try, publish, gets,
}
use software_engineering_sch.Delivery.Repository.{
  DeliveryStatus, pending, sent, failed, dead, Delivery, DeliveryTables, has_idempotency_key,
  upsert_pending, mark_sent, set_sent, mark_failed, set_failed, mark_dead, update_rows, set_dead,
}
use software_engineering_sch.Delivery.Service.{
  Settings, process, process_row, attempt_delivery, record_attempt, handle_failure, give_up,
  schedule_retry, dead_letter, publish_notification,
}
use software_engineering_sch.Delivery.Final.{is_settled, upsert_row_known}
use software_engineering_sch.Delivery.Waits.{wait, retry_delay-wait}

module _ (u : Uuid) (s : Settings) (payload : NotificationSendRequestedPayload) (d : Delivery) where
  process_row_open :
      (status : DeliveryStatus) (w : World DeliveryTables)
      → is_settled status ≡ false
      → process_row u s payload d status w ≡ attempt_delivery u s payload d.attempt_count w
  unfolding process_row
  process_row_open sent w h = cc
  process_row_open dead w h = cc
  process_row_open pending w h = refl
  process_row_open failed w h = refl

  -- Once the row is read, a delivery that is not settled is attempted.
  process_unsettled :
      (fs : List (Option Error)) (w : World DeliveryTables)
      → fault_of fs ≡ none
      → find (has_idempotency_key payload.idempotency_key) w.db.tables ≡ some d
      → is_settled d.status ≡ false
      → process u s payload (record w { faults = fs })
        ≡ attempt_delivery u s payload d.attempt_count (record w { faults = rest_of fs })
  unfolding process upsert_pending pool_exec call ◌>>=◌ wrapping lift
  process_unsettled fs w reached found unsettled =
      rw (reached, upsert_row_known w.now payload d w.db.tables found)
        (process_row_open d.status (record w { faults = rest_of fs }) unsettled)

-- The mail of a notification.
abbrev pub mail_of : NotificationSendRequestedPayload → Mail
mail_of payload = record { recipient = payload.recipient_email; body = payload.message }

-- The rows of a key, changed by `f`, and the others as they were.
abbrev pub changed : String → (Delivery → Delivery) → List Delivery → List Delivery
changed key f rows = update (λ r. r.idempotency_key == key) f rows

-- A delivery that is not settled, when no call fails: processing its notification is no error, mails
-- it exactly once, marks exactly the rows of its key as sent, now and with no error, and publishes
-- nothing.
pub open_delivered :
    (u : Uuid) (s : Settings) (payload : NotificationSendRequestedPayload) (d : Delivery)
    (w : World DeliveryTables)
    → w.faults ≡ []
    → find (has_idempotency_key payload.idempotency_key) w.db.tables ≡ some d
    → is_settled d.status ≡ false
    → ((process u s payload w).0 ≡ ok tt)
      × ((process u s payload w).1.mails ≡ w.mails ++ mail_of payload ∷ [])
      × ((process u s payload w).1.sent ≡ w.sent)
      × ((process u s payload w).1.db.tables
          ≡ changed payload.idempotency_key
              (λ r. record r {
                status = sent;
                sent_at = some w.now;
                updated_at = w.now;
                last_error = "";
                next_attempt_at = none;
              })
              w.db.tables)
unfolding attempt_delivery record_attempt mark_sent try send_mail pool_exec call wrapping ◌>>=◌
    set_sent update_rows
open_delivered u s payload d w reachable found unsettled =
    rw (eq-calm w reachable, process_unsettled u s payload d [] w refl found unsettled)
      (refl, refl, refl, refl)

-- The dead letter of a notification.
pub record IsDeadLetter (payload : NotificationSendRequestedPayload) (m : Message) : Type 0 where
  pub topic : m.topic ≡ topic_notification_dlq
  pub key : m.key ≡ payload.email_hash
  pub letter : Envelope NotificationSendRequestedPayload
  pub decoded : unmarshal ⦃c = notification_codec⦄ m.value ≡ some letter
  pub typed : letter.event_type ≡ event_notification_requested
  pub same : letter.payload ≡ payload

-- What was published meanwhile: one dead letter, or nothing.
abbrev pub Letters : Bool → NotificationSendRequestedPayload → List Message → List Message → Type 0
Letters true payload before after =
    (m : Message) × IsDeadLetter payload m × (after ≡ before ++ m ∷ [])
Letters false payload before after = after ≡ before

-- The row after a failure.
abbrev pub failed_row : (last : Bool) (now next : ℕ) (error : String) → Delivery → Delivery
failed_row last now next error r = record r {
  status = if last then dead else failed;
  attempt_count = r.attempt_count + 1;
  last_error = error;
  next_attempt_at = if last then none else some next;
  updated_at = now;
}

-- An action that succeeds, mails nothing, sets the rows of the key by `f` and publishes dead letters.
abbrev Sets :
    Bool
    → NotificationSendRequestedPayload
    → (Delivery → Delivery)
    → World DeliveryTables
    → Result (Unit {0}) × World DeliveryTables
    → Type 0
Sets lettered payload f w (r, w') =
    (r ≡ ok tt)
    × (w'.mails ≡ w.mails)
    × (w'.db.tables ≡ changed payload.idempotency_key f w.db.tables)
    × Letters lettered payload w.sent w'.sent

module _ (u : Uuid) (s : Settings) (payload : NotificationSendRequestedPayload) (n : ℕ)
    (cause : Error) (w : World DeliveryTables) where
  gave_up :
      (b : Bool) (next : ℕ)
      → Sets b payload
          (failed_row true w.now next (message cause))
          w
          (give_up u (record s { has_retries = b }) payload cause (record w { faults = [] }))
  unfolding give_up mark_dead pool_exec call wrapping ◌>>=◌ dead_letter publish_notification publish
      new_string gets pure set_dead update_rows
  gave_up true next = (
    refl,
    refl,
    refl,
    (
      _,
      record {
        topic = refl;
        key = refl;
        letter = _;
        decoded = unmarshal-marshal _;
        typed = refl;
        same = refl;
      },
      refl,
    ),
  )
  gave_up false next = (refl, refl, refl, refl)

  refused :
      (last : Bool)
      → Sets
          (last && s.has_retries)
          payload
          (failed_row last w.now (add_duration w.now (wait s.retry_delays n)) (message cause))
          w
          ((if last then give_up u s payload cause else schedule_retry u s payload (n + 1) cause)
            (record w { faults = [] }))
  unfolding schedule_retry mark_failed pool_exec call wrapping ◌>>=◌ gets set_failed update_rows
  refused true = gave_up s.has_retries (add_duration w.now (wait s.retry_delays n))
  refused false = rw (retry_delay-wait s s.retry_delays n refl) (refl, refl, refl, refl)

-- A delivery that is not settled, when the SMTP server refuses the mail and no other call fails:
-- processing its notification is no error and mails nothing; the rows of its key are dead, if this
-- was the last attempt that the settings allow, and are to be tried again after the delay of this
-- attempt otherwise, with one more attempt and the error of the server either way; one dead letter of
-- the notification is published if they are dead and the service has a publisher, and nothing else.
pub refusal_recorded :
    (u : Uuid) (s : Settings) (payload : NotificationSendRequestedPayload) (d : Delivery)
    (cause : Error) (w : World DeliveryTables)
    → w.faults ≡ none ∷ some cause ∷ []
    → find (has_idempotency_key payload.idempotency_key) w.db.tables ≡ some d
    → is_settled d.status ≡ false
    → let last = leb s.max_attempts (d.attempt_count + 1) in
      let next = add_duration w.now (wait s.retry_delays d.attempt_count) in
      ((process u s payload w).0 ≡ ok tt)
      × ((process u s payload w).1.mails ≡ w.mails)
      × ((process u s payload w).1.db.tables
          ≡ changed payload.idempotency_key
              (failed_row last w.now next (message cause))
              w.db.tables)
      × Letters (last && s.has_retries) payload w.sent (process u s payload w).1.sent
unfolding attempt_delivery record_attempt try send_mail call ◌>>=◌ handle_failure
refusal_recorded u s payload d cause w faults found unsettled =
    rw
      (
        eq-faults w faults,
        process_unsettled u s payload d (none ∷ some cause ∷ []) w refl found unsettled,
      )
      (refused u s payload d.attempt_count cause w (leb s.max_attempts (d.attempt_count + 1)))
