-- ===== src/Examples/Services.antt =====
-- Examples for the outbox relay, the deliveries, the consumer, the subscriptions, the scanner and
-- the codecs.
use software_engineering_sch.Base.{
  ℕ, String, Option, none, some, true, false, List, [], ◌∷◌, ◌≡◌, refl, pos, minute, ◌+◌,
}
use software_engineering_sch.Json.{malformed}
use software_engineering_sch.Errors.{
  Error, plain, wrap, message, classified, non_retryable, ok, err,
}
use software_engineering_sch.Contracts.{repo_watch_action_start}
use software_engineering_sch.Contracts.Codec.{saga_codec, command_codec, marshal, unmarshal}
use software_engineering_sch.Contracts.Codec.RoundTrip.{unmarshal-marshal}
use software_engineering_sch.Outbox.Event.{OutboxEvent}
use software_engineering_sch.Outbox.Store.{new_event}
use software_engineering_sch.Outbox.Relay.{new_relay, publish_once}
use software_engineering_sch.Outbox.Order.{SentInOrder, batch, publish_once_in_order}
use software_engineering_sch.Db.{Database, World}
use software_engineering_sch.ApiTables.{ApiTables}
use software_engineering_sch.Delivery.Repository.{
  Delivery, DeliveryTables, new_delivery, set_sent, sent,
}
use software_engineering_sch.Delivery.Service.{Settings, new_settings, process}
use software_engineering_sch.Delivery.Final.{IsUntouched, settled_not_mailed}
use software_engineering_sch.Delivery.Attempts.{
  mail_of, changed, failed_row, Letters, open_delivered, refusal_recorded,
}
use software_engineering_sch.Consumer.Loop.{
  KafkaMessage, Consumer, Round, new_consumer, with_dead_letter, start,
}
use software_engineering_sch.Consumer.Order.{InOrder, start-InOrder}
use software_engineering_sch.Subscription.Service.{confirm}
use software_engineering_sch.Subscription.Confirm.{
  ConfirmedDb, IsWatchRequest, confirm_starts_watch,
}
use software_engineering_sch.Subscription.Interrupted.{confirm_loses_watch}
use software_engineering_sch.Watchsaga.Rules.{command_event_type, repo_watch_ack_event_type}
use software_engineering_sch.Scanner.Repository.{build_repo_watch_ack_event}
use software_engineering_sch.Scanner.Service.{check_command}
use software_engineering_sch.Scanner.Agreement.{command_understood}
use software_engineering_sch.Examples.Values.{
  uuid, world, start_request, start_command, go_repo, ann, ann_tables, notification,
}

unmarshal-marshal_example : unmarshal (marshal start_request) ≡ some start_request
unmarshal-marshal_example = unmarshal-marshal start_request

-- Two events, the second of which the broker refuses.
abbrev event : String → ℕ → OutboxEvent
event id t =
    new_event id "ReleaseDetected" t "scanner-service" id "release-events" go_repo (malformed "{}")

abbrev relay_world : World (Unit {0})
relay_world =
    let d : Database (Unit {0}) = record { outbox = event "b" 5 ∷ event "a" 3 ∷ []; tables = tt } in
    record (world tt (none ∷ none ∷ none ∷ some (plain "broker is down") ∷ [])) { db = d }

publish_once_in_order_example :
    SentInOrder
      (batch (record { batch_size = 100; interval = 2_000_000_000 }) relay_world)
      []
      (publish_once (new_relay (pos 0) (pos 0)) relay_world).1.sent
unfolding new_relay
publish_once_in_order_example = publish_once_in_order (new_relay (pos 0) (pos 0)) relay_world

abbrev settings : Settings
settings = new_settings (pos 1) [] true

abbrev row : Delivery
row = new_delivery 7 notification

abbrev sent_row : Delivery
sent_row = set_sent 9 row

abbrev delivery_world : Delivery → List (Option Error) → World DeliveryTables
delivery_world d faults = world (d ∷ []) faults

settled_not_mailed_example :
    IsUntouched
      (process uuid settings notification (delivery_world sent_row [])).1
      (delivery_world sent_row [])
unfolding set_sent
settled_not_mailed_example =
    settled_not_mailed uuid settings notification sent_row (delivery_world sent_row []) refl refl

open_delivered_example :
    let w = delivery_world row [] in
    ((process uuid settings notification w).0 ≡ ok tt)
    × ((process uuid settings notification w).1.mails ≡ mail_of notification ∷ [])
    × ((process uuid settings notification w).1.sent ≡ [])
    × ((process uuid settings notification w).1.db.tables
        ≡ changed "golang/go:v2:hash"
            (λ r. record r {
              status = sent;
              sent_at = some minute;
              updated_at = minute;
              last_error = "";
              next_attempt_at = none;
            })
            (row ∷ []))
open_delivered_example =
    open_delivered uuid settings notification row (delivery_world row []) refl refl refl

abbrev refused : Error
refused = plain "mailbox unavailable"

refusal_recorded_example :
    let w = delivery_world row (none ∷ some refused ∷ []) in
    ((process uuid settings notification w).0 ≡ ok tt)
    × ((process uuid settings notification w).1.mails ≡ [])
    × ((process uuid settings notification w).1.db.tables
        ≡ changed "golang/go:v2:hash"
            (failed_row true minute (minute + minute) (message refused))
            (row ∷ []))
    × Letters true notification [] (process uuid settings notification w).1.sent
unfolding new_settings
refusal_recorded_example =
    refusal_recorded uuid settings notification row refused
      (delivery_world row (none ∷ some refused ∷ [])) refl refl refl

abbrev message_at : ℕ → KafkaMessage
message_at offset = record {
  topic = "watchlist-commands";
  partition = 0;
  offset = offset;
  key = go_repo;
  value = malformed "{}";
}

abbrev consumer : Consumer
consumer = with_dead_letter (new_consumer "watchlist-commands" "scanner") "scanner-dlq"

-- The first message is handled, the second is given up, and the third is to be handled again.
abbrev rounds : List Round
rounds =
    let good : Round = record {
      fetched = ok (message_at 0);
      handled = none;
      dead_lettered = none;
      committed = none;
      cancelled = false;
      now = 1;
    } in
    good
    ∷ record good {
      fetched = ok (message_at 1);
      handled = some (classified non_retryable (plain "decode"));
    }
    ∷ record good { fetched = ok (message_at 2); handled = some (plain "connection reset") }
    ∷ []

start-InOrder_example : InOrder (
    start uuid consumer rounds
      (record { handed = []; commits = []; dead_letters = []; ids = 0; observed = [] }))
start-InOrder_example =
    start-InOrder uuid consumer rounds
      (record { handed = []; commits = []; dead_letters = []; ids = 0; observed = [] }) refl

abbrev api_world : List (Option Error) → World ApiTables
api_world faults = world ann_tables faults

confirm_starts_watch_example :
    let w = api_world [] in
    ((confirm uuid none "token-1" w).0 ≡ ok tt)
    × ((e : OutboxEvent) × IsWatchRequest repo_watch_action_start go_repo e
        × ((confirm uuid none "token-1" w).1.db
            ≡ record (ConfirmedDb "token-1" w.db) { outbox = e ∷ [] }))
confirm_starts_watch_example =
    confirm_starts_watch uuid none "token-1" ann (api_world []) refl refl refl refl refl

abbrev second_begin_fails : List (Option Error)
second_begin_fails = none ∷ none ∷ none ∷ none ∷ none ∷ some (plain "too many connections") ∷ []

confirm_loses_watch_example :
    let w = api_world second_begin_fails in
    ((confirm uuid none "token-1" w).0
      ≡ err (wrap "begin repo watch saga request" (plain "too many connections")))
    × ((confirm uuid none "token-1" w).1.db ≡ ConfirmedDb "token-1" w.db)
    × ((confirm uuid none "token-1" (confirm uuid none "token-1" w).1).0 ≡ ok tt)
    × ((confirm uuid none "token-1" (confirm uuid none "token-1" w).1).1.db.outbox ≡ [])
confirm_loses_watch_example =
    confirm_loses_watch uuid none "token-1" ann (plain "too many connections")
      (api_world second_begin_fails) refl refl refl refl

command_understood_example :
    let ack = build_repo_watch_ack_event start_command.payload "ack-1" "saga-1" 9 none in
    (check_command start_command ≡ ok tt)
    × (repo_watch_ack_event_type "start_watch" ≡ ok ack.event_type)
    × (ack.payload.saga_id ≡ "saga-1")
    × (ack.payload.repo ≡ go_repo)
    × (ack.payload.action ≡ "start_watch")
unfolding command_event_type
command_understood_example =
    command_understood start_command "ack-1" "saga-1" 9 refl (λ h. cc) (λ h. cc)
