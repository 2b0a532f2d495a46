-- ===== src/Notification/Grpc.antt =====
-- The gRPC publisher of the subscription-api
-- (services/subscription-api/internal/subscription/grpc_notification_publisher.go) and the gRPC server
-- of the notification service (services/notification-service/internal/grpcapi/server.go).
use software_engineering_sch.Base.{String, Option, Bool, ◌&&◌, not, ◌==◌, if◌then◌else◌, ◌≡◌, refl}
use software_engineering_sch.Errors.{plain, message, ◌+++◌, Result, ok, err}
use software_engineering_sch.Contracts.{NotificationSendRequestedPayload}
use software_engineering_sch.Uuid.{Uuid, new_string}
use software_engineering_sch.ApiTables.{ApiTables}
use software_engineering_sch.Db.{World, Action, raise, lift, gets, ◌>>=◌, wrapping, try}
use software_engineering_sch.Subscription.Repository.{Api, correlation_id_from_context}
use software_engineering_sch.Subscription.Service.{NotificationPublisher}
use software_engineering_sch.Subscription.Publisher.{
  Hashing, email_hash, text_hash, build_release_notification,
}

-- The message SendNotificationRequest (api/proto/notification/v1/notification.proto)
pub record SendNotificationRequest : Type 0 where
  pub notification_id : String
  pub idempotency_key : String
  pub recipient_email : String
  pub email_hash : String
  pub repo : String
  pub tag : String
  pub message : String
  pub correlation_id : String

abbrev is_filled : String → Bool
is_filled s = not (s == "")

-- The rules of the message's fields, which the validator checks.
unfoldable pub is_valid_request : SendNotificationRequest → Bool
is_valid_request r =
    is_filled r.notification_id
    && is_filled r.idempotency_key
    && is_filled r.recipient_email
    && is_filled r.email_hash
    && is_filled r.repo
    && is_filled r.message

unfoldable pub build_notification : SendNotificationRequest → NotificationSendRequestedPayload
build_notification r = record {
  notification_id = r.notification_id;
  idempotency_key = r.idempotency_key;
  recipient_email = r.recipient_email;
  email_hash = r.email_hash;
  repo = r.repo;
  tag = r.tag;
  message = r.message;
}

-- The status of a processor's answer.
abbrev pub status_of : Result (Unit {0}) → Result (Unit {0})
status_of (ok _) = ok tt
status_of (err e) = err (plain ("process notification: " +++ message e))

-- `server.SendNotification`; the processor does not read the correlation id.
unfoldable pub send_notification :
    {T : Type 0}
    → (NotificationSendRequestedPayload → Action T (Unit {0}))
    → SendNotificationRequest
    → Action T (Unit {0})
unfolding is_valid_request build_notification
send_notification process r =
    if not (is_valid_request r)
    then raise (plain "invalid notification request")
    else do answer ← try (process (build_notification r)); lift (status_of answer)

-- The client of a connection: what a call returns, a missed deadline included.
abbrev pub Client : Type 0
Client = SendNotificationRequest → Result (Unit {0})

abbrev pub to_request : NotificationSendRequestedPayload → String → SendNotificationRequest
to_request p correlation_id = record {
  notification_id = p.notification_id;
  idempotency_key = p.idempotency_key;
  recipient_email = p.recipient_email;
  email_hash = p.email_hash;
  repo = p.repo;
  tag = p.tag;
  message = p.message;
  correlation_id = correlation_id;
}

module _ (hashing : Hashing) (base_url : String) where
  unfoldable pub confirmation_payload :
      (email repo token notification_id : String) → NotificationSendRequestedPayload
  confirmation_payload email repo token notification_id =
      let text =
        "Welcome! Please confirm your subscription to GitHub repository updates by clicking here: "
        +++ base_url +++ "/api/confirm/" +++ token in
      let hash = email_hash hashing email in
      record {
        notification_id = notification_id;
        idempotency_key =
            "confirmation:" +++ repo +++ ":" +++ hash +++ ":" +++ text_hash hashing text;
        recipient_email = email;
        email_hash = hash;
        repo = repo;
        tag = "";
        message = text;
      }

module _ (u : Uuid) (hashing : Hashing) (client : Client) (base_url : String)
    (ctx : Option String) where
  -- `send`
  unfoldable pub send : NotificationSendRequestedPayload → String → Api (Unit {0})
  send p correlation_id =
      wrapping "send notification over grpc" (lift (client (to_request p correlation_id)))

  -- `GrpcNotificationPublisher.SendConfirmation`
  unfoldable pub send_confirmation : (email repo token : String) → Api (Unit {0})
  unfolding send confirmation_payload
  send_confirmation email repo token = do
    notification_id ← new_string u
    let correlation_id = correlation_id_from_context u ctx notification_id
    send (confirmation_payload hashing base_url email repo token notification_id) correlation_id

  -- `GrpcNotificationPublisher.PublishReleaseNotification`
  unfoldable pub publish_release_notification :
      (email repo tag correlation_id : String) → Api (Unit {0})
  publish_release_notification email repo tag correlation_id = do
    notification_id ← new_string u
    now ← gets (λ w. w.now)
    let event = build_release_notification hashing email repo tag notification_id correlation_id now
    send event.payload event.correlation_id

  pub send_confirmation-db :
      (email repo token : String) (w : World ApiTables)
      → ((send_confirmation email repo token w).1.db ≡ w.db)
        × ((send_confirmation email repo token w).1.tx ≡ w.tx)
  unfolding send_confirmation new_string wrapping lift ◌>>=◌
  send_confirmation-db email repo token w = (refl, refl)

  -- The publisher as the service uses it.
  unfoldable pub grpc_publisher : NotificationPublisher
  unfolding send_confirmation
  grpc_publisher = record {
    send_confirmation = send_confirmation;
    send_quiet = send_confirmation-db;
  }
