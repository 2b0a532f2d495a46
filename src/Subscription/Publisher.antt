-- ===== src/Subscription/Publisher.antt =====
-- The release notifications that the subscription-api writes to its outbox
-- (notification_publisher.go, release_expander.go), and the hashes of addresses
-- (services/subscription-api/internal/hash/hash.go).
use software_engineering_sch.Base.{ℕ, String, none}
use software_engineering_sch.Errors.{◌+++◌}
use software_engineering_sch.Contracts.{
  Envelope, NotificationSendRequestedPayload, ReleaseDetectedPayload, event_notification_requested,
  topic_notification_commands,
}
use software_engineering_sch.Contracts.Codec.{notification_codec, marshal}
use software_engineering_sch.Outbox.Store.{new_event, insert_tx}
use software_engineering_sch.Uuid.{Uuid, new_string}
use software_engineering_sch.Db.{gets, ◌>>=◌, ◌>>◌, begin, commit, wrapping, for_each}
use software_engineering_sch.Subscription.Repository.{Api, get_subscribers}

-- The parts of the standard library that the hash of an address is made of.
pub record Hashing : Type 0 where
  pub trim_space : String → String
  pub to_lower : String → String
  pub sha256_hex_12 : String → String  -- the first twelve digits of the hexadecimal SHA-256

module _ (hashing : Hashing) where
  unfoldable pub text_hash : String → String
  text_hash value = hashing.sha256_hex_12 value

  unfoldable pub email_hash : String → String
  unfolding text_hash
  email_hash email = text_hash (hashing.to_lower (hashing.trim_space email))

  -- `buildReleaseNotification`
  unfoldable pub build_release_notification :
      (email repo tag notification_id correlation_id : String)
      → ℕ
      → Envelope NotificationSendRequestedPayload
  build_release_notification email repo tag notification_id correlation_id occurred_at =
      let hash = email_hash email in
      record {
        event_id = notification_id;
        event_type = event_notification_requested;
        occurred_at = occurred_at;
        source = "subscription-api";
        correlation_id = correlation_id;
        not_before = none;
        payload = record {
          notification_id = notification_id;
          idempotency_key = repo +++ ":" +++ tag +++ ":" +++ hash;
          recipient_email = email;
          email_hash = hash;
          repo = repo;
          tag = tag;
          message = "New release " +++ tag +++ " for " +++ repo +++ "!";
        };
      }

  -- `OutboxNotificationPublisher.PublishReleaseNotification`
  unfoldable pub publish_release_notification :
      Uuid → (email repo tag correlation_id : String) → Api (Unit {0})
  publish_release_notification u email repo tag correlation_id = do
    wrapping "begin release notification" begin
    notification_id ← new_string u
    now ← gets (λ w. w.now)
    let event = build_release_notification email repo tag notification_id correlation_id now
    insert_tx (
        new_event notification_id event_notification_requested event.occurred_at "subscription-api"
          correlation_id topic_notification_commands event.payload.email_hash (marshal event))
    commit

  -- `ReleaseExpander.Expand`: one transaction for each subscriber, until one fails.
  unfoldable pub expand : Uuid → Envelope ReleaseDetectedPayload → Api (Unit {0})
  expand u event = do
    emails ← wrapping "get release subscribers" (get_subscribers event.payload.repo)
    for_each
        (λ email. wrapping "publish release notification" (
          publish_release_notification u email event.payload.repo event.payload.tag
            event.correlation_id))
        emails
