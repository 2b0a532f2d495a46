-- ===== src/Workers/Malformed.antt =====
-- What the consumers of the processes do with a message that cannot be decoded.
use software_engineering_sch.Base.{
  suc, Option, none, some, false, List, [], ◌∷◌, ◌++◌, ◌≡◌, refl, ◌∙◌,
}
use software_engineering_sch.Errors.{Error, plain, is, Result, ok, err}
use software_engineering_sch.Json.{Bytes}
use software_engineering_sch.Contracts.{
  ReleaseDetectedPayload, NotificationSendRequestedPayload, topic_release_events,
}
use software_engineering_sch.Contracts.Codec.{release_codec, notification_codec, unmarshal}
use software_engineering_sch.Uuid.{Uuid}
use software_engineering_sch.ApiTables.{ApiTables}
use software_engineering_sch.Db.{World, lift, ◌>>=◌}
use software_engineering_sch.Subscription.Publisher.{Hashing}
use software_engineering_sch.Delivery.Repository.{DeliveryTables}
use software_engineering_sch.Delivery.Service.{Settings}
use software_engineering_sch.Consumer.Loop.{
  KafkaMessage, failed, skipped, message_topic, Round, Progress, stopped, new_consumer,
  with_dead_letter, dead_letter_event, commit_message, publish_dead_letter, after_dead_letter,
  after_handler, round_of, start,
}
use software_engineering_sch.Workers.Handlers.{
  handle_release_event, handle_notification_command, undecoded,
}
use software_engineering_sch.Workers.Processes.{command_consumer}

-- What `Start` sees of a handler's answer.
abbrev pub answer_of : {A B : Type 0} → Result A × B → Option Error
answer_of (ok a, w) = none
answer_of (err e, w) = some e

-- A round in which the process's handler is given the message.
pub record IsHandled {A T : Type 0} (handler : Bytes → World T → Result A × World T) (w : World T)
    (m : KafkaMessage) (r : Round) : Type 0 where
  pub fetched : r.fetched ≡ ok m
  pub handled : r.handled ≡ answer_of (handler m.value w)
  pub running : r.cancelled ≡ false

release_refused :
    (hashing : Hashing) (u : Uuid) (value : Bytes) (w : World ApiTables)
    → unmarshal {P = ReleaseDetectedPayload} ⦃c = release_codec⦄ value ≡ none
    → answer_of (handle_release_event hashing u value w) ≡ some (plain "decode release event")
unfolding handle_release_event lift ◌>>=◌
release_refused hashing u value w bad = rw (bad, handle_release_event) refl

command_refused :
    (u : Uuid) (s : Settings) (value : Bytes) (w : World DeliveryTables)
    → unmarshal {P = NotificationSendRequestedPayload} ⦃c = notification_codec⦄ value ≡ none
    → answer_of (handle_notification_command u s value w)
      ≡ some (undecoded "decode notification command")
unfolding handle_notification_command lift ◌>>=◌
command_refused u s value w bad = rw (bad, handle_notification_command) refl

-- A value that is no release event, in the consumer of the subscription-api: the consumer stops with
-- an error, without a commit and without a dead letter, so that the same message comes first when
-- the process is started again.
pub malformed_release_stops :
    (hashing : Hashing) (u : Uuid) (w : World ApiTables) (m : KafkaMessage) (r : Round)
    (rs : List Round) (p : Progress)
    → unmarshal {P = ReleaseDetectedPayload} ⦃c = release_codec⦄ m.value ≡ none
    → IsHandled (handle_release_event hashing u) w m r
    → let consumer = new_consumer topic_release_events "subscription-api" in
      start u consumer (r ∷ rs) p
      ≡ stopped (some (plain "decode release event")) (record p {
        handed = p.handed ++ m ∷ [];
        observed = p.observed ++ failed (message_topic consumer m) "handler" ∷ [];
      })
unfolding start round_of after_handler is
malformed_release_stops hashing u w m r rs p bad h =
    rw (h.fetched, h.handled ∙ release_refused hashing u m.value w bad, h.running) refl

-- A value that is no command, in the consumer of the notification service, when its dead letter is
-- published and its commit succeeds: the loop goes on with the message committed and with one dead
-- letter, which is that of the message and the decoding error.
malformed_command_skipped :
    (u : Uuid) (s : Settings) (w : World DeliveryTables) (m : KafkaMessage) (r : Round)
    (rs : List Round) (p : Progress)
    → unmarshal {P = NotificationSendRequestedPayload} ⦃c = notification_codec⦄ m.value ≡ none
    → IsHandled (handle_notification_command u s) w m r
    → r.dead_lettered ≡ none
    → r.committed ≡ none
    → start u command_consumer (r ∷ rs) p
      ≡ start u command_consumer rs (record {
        handed = p.handed ++ m ∷ [];
        commits = p.commits ++ m ∷ [];
        dead_letters =
            p.dead_letters
            ++ (
              m,
              dead_letter_event u command_consumer p.ids r.now m
                  (undecoded "decode notification command"),
            )
              ∷ [];
        ids = suc p.ids;
        observed = p.observed ++ skipped (message_topic command_consumer m) ∷ [];
      })
unfolding start round_of after_handler publish_dead_letter after_dead_letter commit_message
    with_dead_letter new_consumer is
malformed_command_skipped u s w m r rs p bad h lettered committed =
    rw (h.fetched, h.handled ∙ command_refused u s m.value w bad, h.running, lettered, committed)
      refl
