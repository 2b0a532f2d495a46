-- ===== src/Contracts.antt =====
-- The Kafka contracts between the services (pkg/contracts/events.go): topics, event types, the
-- envelope and its payloads.
pub mod Codec
use software_engineering_sch.Base.{ℕ, String, Option}
use software_engineering_sch.Json.{Bytes}

abbrev pub topic_watchlist_saga_requests : String
topic_watchlist_saga_requests = "subber.watchlist.saga.requests"

abbrev pub topic_watchlist_commands : String
topic_watchlist_commands = "subber.watchlist.saga.commands"

abbrev pub topic_watchlist_saga_events : String
topic_watchlist_saga_events = "subber.watchlist.saga.events"

abbrev pub topic_watchlist_commands_dlq : String
topic_watchlist_commands_dlq = "subber.watchlist.commands.dlq"

abbrev pub topic_release_events : String
topic_release_events = "subber.release.events"

abbrev pub topic_notification_commands : String
topic_notification_commands = "subber.notification.commands"

abbrev pub topic_notification_retry_1m : String
topic_notification_retry_1m = "subber.notification.retry.1m"

abbrev pub topic_notification_retry_10m : String
topic_notification_retry_10m = "subber.notification.retry.10m"

abbrev pub topic_notification_dlq : String
topic_notification_dlq = "subber.notification.dlq"

abbrev pub repo_watch_action_start : String
repo_watch_action_start = "start_watch"

abbrev pub repo_watch_action_stop : String
repo_watch_action_stop = "stop_watch"

abbrev pub event_repo_watch_saga_requested : String
event_repo_watch_saga_requested = "RepoWatchSagaRequested"

abbrev pub event_start_watching_repo : String
event_start_watching_repo = "StartWatchingRepo"

abbrev pub event_stop_watching_repo : String
event_stop_watching_repo = "StopWatchingRepo"

abbrev pub event_repo_watch_started : String
event_repo_watch_started = "RepoWatchStarted"

abbrev pub event_repo_watch_stopped : String
event_repo_watch_stopped = "RepoWatchStopped"

abbrev pub event_repo_watch_failed : String
event_repo_watch_failed = "RepoWatchFailed"

abbrev pub event_release_detected : String
event_release_detected = "ReleaseDetected"

abbrev pub event_notification_requested : String
event_notification_requested = "NotificationSendRequested"

abbrev pub event_consumer_dead_lettered : String
event_consumer_dead_lettered = "ConsumerMessageDeadLettered"

pub record Envelope (P : Type 0) : Type 0 where
  pub event_id : String
  pub event_type : String
  pub occurred_at : ℕ
  pub source : String
  pub correlation_id : String
  pub not_before : Option ℕ
  pub payload : P

pub record RepoWatchSagaPayload : Type 0 where
  pub saga_id : String
  pub action : String
  pub repo : String
  pub email : String

pub record RepoWatchCommandPayload : Type 0 where
  pub saga_id : String
  pub action : String
  pub repo : String

pub record RepoWatchAckPayload : Type 0 where
  pub saga_id : String
  pub action : String
  pub repo : String
  pub error : String

pub record ReleaseDetectedPayload : Type 0 where
  pub repo : String
  pub tag : String

pub record NotificationSendRequestedPayload : Type 0 where
  pub notification_id : String
  pub idempotency_key : String
  pub recipient_email : String
  pub email_hash : String
  pub repo : String
  pub tag : String
  pub message : String

pub record DeadLetterPayload : Type 0 where
  pub original_topic : String
  pub original_partition : ℕ
  pub original_offset : ℕ
  pub original_key : String
  pub original_value : Bytes
  pub consumer_group : String
  pub cause : String
  pub failed_at : ℕ
