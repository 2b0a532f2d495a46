-- ===== src/Delivery/Marks.antt =====
-- What `Process` leaves in the deliveries' table, whichever calls fail.
use mathlib.Core.List.{Memᴰ}
use software_engineering_sch.Base.{
  ℕ, ◌+◌, ◌≤◌, String, Option, none, some, Bool, false, ◌≡◌, refl, sym, ap, subst, arith, leb,
  leb→le, lt_of_leb, if◌then◌else◌, Bool-cases, inl, inr, All-mem, add_duration,
}
use software_engineering_sch.Errors.{Error, message, Result, ok, err}
use software_engineering_sch.Contracts.{NotificationSendRequestedPayload}
use software_engineering_sch.Uuid.{Uuid}
use software_engineering_sch.Outbox.Insert.{outbox_quiet}
use software_engineering_sch.Db.{
  World, attempt, continue, labelled, fault_of, rest_of, wrapping, pool_exec, call, try, send_mail,
  lift, pure, gets, ◌>>=◌,
}
use software_engineering_sch.Db.Atomic.{IsQuiet}
use software_engineering_sch.Delivery.Repository.{
  DeliveryStatus, pending, sent, failed, dead, Delivery, DeliveryTables, Deliver, upsert_row,
  upsert_pending, update_rows, set_sent, set_failed, set_dead, mark_sent, mark_failed, mark_dead,
}
use software_engineering_sch.Delivery.Service.{
  Settings, retry_delay, publish_notification, dead_letter, give_up, schedule_retry, handle_failure,
  record_attempt, attempt_delivery, process_row, process,
}
use software_engineering_sch.Delivery.Final.{is_settled}
use software_engineering_sch.Delivery.Rows.{
  IsValidDelivery, AreValid, IsReturned, update-AreValid, upsert_row-AreValid,
  set_sent-IsValidDelivery, set_failed-IsValidDelivery, set_dead-IsValidDelivery,
}

module _ (limit : ℕ) where
  abbrev Stands : World DeliveryTables → Type 0
  Stands w = AreValid limit w.db.tables

  continued :
      {A B : Type 0} (r : Result A) (rest : A → Deliver B) (w : World DeliveryTables)
      → ((a : A) → IsQuiet (rest a))
      → Stands w
      → Stands (continue r rest w).1
  continued (ok a) rest w quiet h = subst (λ d. AreValid limit d.tables) (sym ((quiet a).quiet w)) h
  continued (err e) rest w quiet h = h

  -- A statement that sets the row of a key.
  marked :
      (o : Option Error) (label key : String) (f : ℕ → Delivery → Delivery) (d : Delivery)
      (w : World DeliveryTables)
      → ((t : ℕ) (x : Delivery) → (f t x).idempotency_key ≡ x.idempotency_key)
      → Memᴰ d w.db.tables
      → d.idempotency_key ≡ key
      → IsValidDelivery limit (f w.now d)
      → Stands w
      → Stands
          (wrapping label
            (attempt o (λ v. (
              ok tt,
              record v { db = record v.db { tables = update_rows key (f v.now) v.db.tables } },
            )))
            w).1
  unfolding wrapping
  marked none label key f d w same m at v h =
      update-AreValid limit key (f w.now) w.db.tables d (same w.now) m at v h
  marked (some e) label key f d w same m at v h = h

module _ (u : Uuid) (s : Settings) (payload : NotificationSendRequestedPayload) where
  dead_letter-IsQuiet : IsQuiet (dead_letter u payload)
  unfolding dead_letter publish_notification
  dead_letter-IsQuiet = search outbox_quiet depth 10

  told-IsQuiet :
      (b : Bool)
      → IsQuiet (if b then wrapping "publish notification dlq" (dead_letter u payload) else pure tt)
  told-IsQuiet b = search (outbox_quiet, dead_letter-IsQuiet) depth 8

  -- What an attempt leaves, by the answer to the mail.
  module _ (d : Delivery) (w : World DeliveryTables) (m : Memᴰ d w.db.tables)
      (at : d.idempotency_key ≡ payload.idempotency_key) (h : Stands s.max_attempts w) where
    given_up :
        (cause : Error)
        → d.attempt_count + 1 ≡ s.max_attempts
        → Stands s.max_attempts (give_up u s payload cause w).1
    unfolding give_up mark_dead pool_exec call wrapping ◌>>=◌ set_dead
    given_up cause last =
        let (r, after) = mark_dead payload.idempotency_key cause w in
        continued s.max_attempts r
          (λ _.
            if s.has_retries
            then wrapping "publish notification dlq" (dead_letter u payload)
            else pure tt)
          after (λ _. told-IsQuiet s.has_retries)
          (marked s.max_attempts (fault_of w.faults) "mark notification dead"
            payload.idempotency_key (λ t. set_dead t (message cause)) d
            (record w { faults = rest_of w.faults }) (λ t x. refl) m at
            (set_dead-IsValidDelivery s.max_attempts w.now (message cause) d last) h)

    put_off :
        (cause : Error)
        → d.attempt_count + 2 ≤ s.max_attempts
        → Stands s.max_attempts (schedule_retry u s payload (d.attempt_count + 1) cause w).1
    unfolding schedule_retry mark_failed pool_exec call wrapping gets ◌>>=◌ set_failed
    put_off cause left =
        let next = add_duration w.now (retry_delay s (d.attempt_count + 1)) in
        marked s.max_attempts (fault_of w.faults) "mark notification failed" payload.idempotency_key
          (λ t. set_failed t (message cause) next) d (record w { faults = rest_of w.faults })
          (λ t x. refl) m at
          (set_failed-IsValidDelivery s.max_attempts w.now (message cause) next d left) h

    attempt_noted :
        (v : IsValidDelivery s.max_attempts d) (answer : Result (Unit {0}))
        → is_settled d.status ≡ false
        → Stands s.max_attempts (record_attempt u s payload d.attempt_count answer w).1
    unfolding record_attempt mark_sent pool_exec call wrapping set_sent handle_failure
    attempt_noted v (ok _) unsettled =
        marked s.max_attempts (fault_of w.faults) "mark notification sent" payload.idempotency_key
          set_sent d (record w { faults = rest_of w.faults }) (λ t x. refl) m at
          (set_sent-IsValidDelivery s.max_attempts w.now d v) h
    attempt_noted v (err cause) unsettled =
        elim (Bool-cases (leb s.max_attempts (d.attempt_count + 1))) [
          | inl last ↦ rw last (
              given_up cause (
                omega
                  (arith, leb→le s.max_attempts (d.attempt_count + 1) last, v.unsettled unsettled)))
          | inr more ↦ rw more (
              put_off cause (
                omega (
                  arith,
                  lt_of_leb s.max_attempts (d.attempt_count + 1) more,
                  v.unsettled unsettled,
                )))
        ]

  module _ (positive : 1 ≤ s.max_attempts) where
    attempted :
        (o : Option Error) (d : Delivery) (w : World DeliveryTables)
        → Memᴰ d w.db.tables
        → d.idempotency_key ≡ payload.idempotency_key
        → is_settled d.status ≡ false
        → Stands s.max_attempts w
        → fault_of w.faults ≡ o
        → Stands s.max_attempts (attempt_delivery u s payload d.attempt_count w).1
    unfolding attempt_delivery try send_mail call ◌>>=◌
    attempted none d w m at unsettled h reached = rw reached (
        attempt_noted d _ m at h (All-mem (IsValidDelivery s.max_attempts) w.db.tables h.valid m)
          (ok tt) unsettled)
    attempted (some e) d w m at unsettled h refused = rw refused (
        attempt_noted d _ m at h (All-mem (IsValidDelivery s.max_attempts) w.db.tables h.valid m)
          (err e) unsettled)

    by_status :
        (status : DeliveryStatus) (d : Delivery) (w : World DeliveryTables)
        → d.status ≡ status
        → Memᴰ d w.db.tables
        → d.idempotency_key ≡ payload.idempotency_key
        → Stands s.max_attempts w
        → Stands s.max_attempts (process_row u s payload d status w).1
    unfolding process_row pure
    by_status sent d w e m at h = h
    by_status dead d w e m at h = h
    by_status pending d w e m at h = attempted _ d w m at (ap is_settled e) h refl
    by_status failed d w e m at h = attempted _ d w m at (ap is_settled e) h refl

    with_row :
        (r : Result Delivery) (w : World DeliveryTables)
        → Stands s.max_attempts w × IsReturned s.max_attempts payload.idempotency_key w.db.tables r
        → Stands s.max_attempts
            (continue
              (labelled "upsert notification delivery" r)
              (λ d. process_row u s payload d d.status)
              w).1
    with_row (ok d) w (h, (m, at)) = by_status d.status d w refl m at h
    with_row (err e) w (h, tt) = h

    -- By the outcome of the upsert's call.
    upserted :
        (o : Option Error) (w : World DeliveryTables)
        → fault_of w.faults ≡ o
        → Stands s.max_attempts w
        → Stands s.max_attempts (process u s payload w).1
    unfolding process upsert_pending pool_exec call lift wrapping ◌>>=◌
    upserted none w reached h = rw reached (
        with_row (upsert_row w.now payload w.db.tables).0 _
          (upsert_row-AreValid s.max_attempts w.now payload w.db.tables positive h))
    upserted (some e) w refused h = rw refused h

    pub process-AreValid :
        (w : World DeliveryTables)
        → Stands s.max_attempts w
        → Stands s.max_attempts (process u s payload w).1
    process-AreValid w h = upserted _ w refl h
