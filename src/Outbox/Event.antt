-- ===== src/Outbox/Event.antt =====
-- A row of the table outbox_events, which is `outbox.Event` (pkg/outbox/outbox.go) as it is stored.
use software_engineering_sch.Base.{ℕ, String, Option}
use software_engineering_sch.Json.{Bytes}

pub record OutboxEvent : Type 0 where
  pub event_id : String
  pub event_type : String
  pub occurred_at : ℕ
  pub source : String
  pub correlation_id : String
  pub topic : String
  pub kafka_key : String
  pub payload : Bytes
  pub published_at : Option ℕ
  pub locked_until : Option ℕ
  pub publish_attempts : ℕ
  pub last_error : Option String
