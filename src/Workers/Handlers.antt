-- ===== src/Workers/Handlers.antt =====
-- From the value of a message to the service that handles it.
use software_engineering_sch.Base.{String, Option, none, some, true, not, ◌&&◌, ◌==◌, if◌then◌else◌}
use software_engineering_sch.Errors.{
  Error, plain, classified, non_retryable, ◌+++◌, Result, ok, err,
}
use software_engineering_sch.Json.{Bytes}
use software_engineering_sch.Contracts.{
  Envelope, RepoWatchSagaPayload, RepoWatchAckPayload, ReleaseDetectedPayload,
  NotificationSendRequestedPayload, event_notification_requested,
}
use software_engineering_sch.Contracts.Codec.{
  saga_codec, ack_codec, release_codec, notification_codec, unmarshal,
}
use software_engineering_sch.Uuid.{Uuid}
use software_engineering_sch.Db.{lift, ◌>>=◌, ◌>>◌, fail_if}
use software_engineering_sch.Subscription.Repository.{Api}
use software_engineering_sch.Subscription.Publisher.{Hashing, expand}
use software_engineering_sch.Watchsaga.Orchestrator.{Orchestrator, Saga, handle_request, handle_ack}
use software_engineering_sch.Delivery.Repository.{Deliver}
use software_engineering_sch.Delivery.Service.{Settings, new_settings, process}
use software_engineering_sch.Scanner.Service.{Scanner, new_scanner}
use software_engineering_sch.Config.Services.{NotificationConfig, ScannerConfig}

abbrev decoded : {A : Type 0} → Error → Option A → Result A
decoded e none = err e
decoded e (some a) = ok a

abbrev pub undecoded : String → Error
undecoded s = classified non_retryable (plain s)

-- The consumer of the notification service
unfoldable pub handle_notification_command : Uuid → Settings → Bytes → Deliver (Unit {0})
handle_notification_command u s value = do
  event ← lift (
      decoded {A = Envelope NotificationSendRequestedPayload}
        (undecoded "decode notification command") (unmarshal value))
  fail_if (not (event.event_type == event_notification_requested)) (
      classified non_retryable
        (plain ("unsupported notification event type \"" +++ event.event_type +++ "\"")))
  process u s event.payload

-- The consumer of the subscription-api, with the publisher that writes to the outbox
unfoldable pub handle_release_event : Hashing → Uuid → Bytes → Api (Unit {0})
handle_release_event hashing u value = do
  event ← lift (
      decoded {A = Envelope ReleaseDetectedPayload} (plain "decode release event")
        (unmarshal value))
  expand hashing u event

-- The two consumers of the saga orchestrator
unfoldable pub handle_saga_request : Uuid → Orchestrator → Bytes → Saga (Unit {0})
handle_saga_request u o value = do
  event ← lift (
      decoded {A = Envelope RepoWatchSagaPayload} (undecoded "decode repo watch saga request")
        (unmarshal value))
  handle_request u o event

unfoldable pub handle_saga_ack : Bytes → Saga (Unit {0})
handle_saga_ack value = do
  event ← lift (
      decoded {A = Envelope RepoWatchAckPayload} (undecoded "decode repo watch ack")
        (unmarshal value))
  handle_ack event

-- `notificationTransport`; `strings.ToLower` is a parameter.
unfoldable pub notification_transport : (to_lower : String → String) → String → Result String
notification_transport to_lower value =
    let lower = to_lower value in
    let transport = if lower == "" then "kafka" else lower in
    if not (transport == "kafka") && not (transport == "grpc")
    then err (plain ("unsupported notification transport \"" +++ value +++ "\""))
    else ok transport

-- The settings of the delivery service in the process of the notification service
unfoldable pub delivery_settings : NotificationConfig → Settings
delivery_settings cfg =
    new_settings cfg.notification_retry_attempts cfg.notification_retry_delays true

-- The scanner in its process
unfoldable pub configured_scanner : ScannerConfig → Scanner
configured_scanner cfg = new_scanner cfg.scanner_batch_size cfg.scanner_interval
