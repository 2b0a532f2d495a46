-- ===== src/Delivery/Service.antt =====
-- The delivery service (service.go), its dead letters (retry_publisher.go) and the loop that
-- enqueues retries (retry_scheduler.go).
use software_engineering_sch.Base.{
  ℕ, ◌+◌, ◌-◌, String, Option, none, some, Bool, ◌||◌, List, [], ◌∷◌, leb, eqb, if◌then◌else◌,
  length, get_or, ℤ, pos, positive_or, add_duration, minute,
}
use software_engineering_sch.Errors.{Error, ◌+++◌, Result, ok, err}
use software_engineering_sch.Contracts.{
  Envelope, NotificationSendRequestedPayload, event_notification_requested,
  topic_notification_retry_1m, topic_notification_retry_10m, topic_notification_dlq,
}
use software_engineering_sch.Contracts.Codec.{notification_codec, marshal}
use software_engineering_sch.Uuid.{Uuid, new_string}
use software_engineering_sch.Db.{
  pure, gets, ◌>>=◌, ◌>>◌, wrapping, try, publish, send_mail, wait_until, when,
}
use software_engineering_sch.Delivery.Repository.{
  DeliveryStatus, sent, dead, Delivery, Deliver, upsert_pending, mark_sent, mark_failed, mark_dead,
  enqueue_due_retries,
}

pub record Settings : Type 0 where
  pub max_attempts : ℕ
  pub retry_delays : List ℤ
  pub has_retries : Bool  -- whether `retries` is not nil

-- `NewService`: an unset limit is replaced.
unfoldable pub new_settings : ℤ → List ℤ → Bool → Settings
new_settings max_attempts retry_delays has_retries = record {
  max_attempts = positive_or max_attempts 3;
  retry_delays = retry_delays;
  has_retries = has_retries;
}

abbrev one_minute : ℤ
one_minute = pos minute

-- `retryDelay`
unfoldable pub retry_delay : Settings → ℕ → ℤ
retry_delay s attempt =
    if eqb attempt 0 || eqb (length s.retry_delays) 0
    then one_minute
    else if leb (length s.retry_delays) (attempt - 1)
    then get_or s.retry_delays (length s.retry_delays - 1) one_minute
    else get_or s.retry_delays (attempt - 1) one_minute

module _ (u : Uuid) where
  -- `KafkaRetryPublisher.publish`
  unfoldable pub publish_notification :
      String → NotificationSendRequestedPayload → Option ℕ → Deliver (Unit {0})
  publish_notification topic payload not_before = do
    event_id ← new_string u
    occurred_at ← gets (λ w. w.now)
    let event : Envelope NotificationSendRequestedPayload = record {
      event_id = event_id;
      event_type = event_notification_requested;
      occurred_at = occurred_at;
      source = "notification-service";
      correlation_id = event_id;
      not_before = not_before;
      payload = payload;
    }
    publish topic payload.email_hash (marshal event)

  -- `KafkaRetryPublisher.DeadLetter` and `.Retry`
  unfoldable pub dead_letter : NotificationSendRequestedPayload → Deliver (Unit {0})
  dead_letter payload = publish_notification topic_notification_dlq payload none

  unfoldable pub retry : NotificationSendRequestedPayload → ℕ → Deliver (Unit {0})
  retry payload delay = do
    now ← gets (λ w. w.now)
    publish_notification
        (if leb delay minute then topic_notification_retry_1m else topic_notification_retry_10m)
        payload (some (now + delay))

  -- The two branches of `handleFailure`.
  unfoldable pub give_up : Settings → NotificationSendRequestedPayload → Error → Deliver (Unit {0})
  give_up s payload cause = do
    mark_dead payload.idempotency_key cause
    when s.has_retries (wrapping "publish notification dlq" (dead_letter payload))

  unfoldable pub schedule_retry :
      Settings → NotificationSendRequestedPayload → ℕ → Error → Deliver (Unit {0})
  schedule_retry s payload attempt cause = do
    now ← gets (λ w. w.now)
    mark_failed payload.idempotency_key cause (add_duration now (retry_delay s attempt))

  unfoldable pub handle_failure :
      Settings → NotificationSendRequestedPayload → ℕ → Error → Deliver (Unit {0})
  handle_failure s payload current_attempts cause =
      if leb s.max_attempts (current_attempts + 1)
      then give_up s payload cause
      else schedule_retry s payload (current_attempts + 1) cause

  -- What `Process` does after the email sender's answer.
  unfoldable pub record_attempt :
      Settings → NotificationSendRequestedPayload → ℕ → Result (Unit {0}) → Deliver (Unit {0})
  record_attempt s payload attempts (ok _) = mark_sent payload.idempotency_key
  record_attempt s payload attempts (err cause) = handle_failure s payload attempts cause

  unfoldable pub attempt_delivery :
      Settings → NotificationSendRequestedPayload → ℕ → Deliver (Unit {0})
  attempt_delivery s payload attempts = do
    answer ← try (send_mail payload.recipient_email payload.message)
    record_attempt s payload attempts answer

  -- A delivery that is sent or dead is a duplicate.
  unfoldable pub process_row :
      Settings → NotificationSendRequestedPayload → Delivery → DeliveryStatus → Deliver (Unit {0})
  process_row s payload d sent = pure tt
  process_row s payload d dead = pure tt
  process_row s payload d _ = attempt_delivery s payload d.attempt_count

  unfoldable pub process : Settings → NotificationSendRequestedPayload → Deliver (Unit {0})
  process s payload = do d ← upsert_pending payload; process_row s payload d d.status

  -- `RetryScheduler.Start` over the ticks of its ticker: an error ends it.
  unfoldable pub start_scheduler : ℤ → List ℕ → Deliver (Unit {0})
  start_scheduler batch_size [] = pure tt
  start_scheduler batch_size (t ∷ ts) = do
    wait_until t
    enqueue_due_retries u (pos (positive_or batch_size 100))
    start_scheduler batch_size ts

-- `SendConfirmation`, which has no record and no retry.
unfoldable pub send_confirmation : (email confirm_url : String) → Deliver (Unit {0})
send_confirmation email confirm_url = wrapping "send confirmation email" (
    send_mail email (
      "Welcome! Please confirm your subscription to GitHub repository updates by clicking here: "
      +++ confirm_url))
