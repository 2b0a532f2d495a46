-- ===== src/Examples/Relays.antt =====
-- Examples for the relay over its ticks, for the consumers of the processes and for the deliveries.
use mathlib.Core.List.{Memᴰ, Permᴰ}
use software_engineering_sch.Base.{
  pos, List, true, ℕ, String, none, some, false, [], ◌∷◌, map, ◌≡◌, ◌⊎◌, refl, arith, minute,
}
use software_engineering_sch.Json.{malformed}
use software_engineering_sch.Errors.{plain, ok}
use software_engineering_sch.Outbox.Event.{OutboxEvent}
use software_engineering_sch.Outbox.Store.{
  new_event, fetch_unpublished, candidates, is_candidate, mark_published,
}
use software_engineering_sch.Outbox.Relay.{Relay, publish_once, publish_all, settle, start}
use software_engineering_sch.Outbox.Order.{message_of}
use software_engineering_sch.Outbox.Sent.{WasMarked, published_was_sent}
use software_engineering_sch.Outbox.Metrics.{backlog}
use software_engineering_sch.Outbox.Emptied.{calm_round_empties_outbox}
use software_engineering_sch.Db.{
  Database, World, wrapping, lift, pool_exec, call, publish, try, pure, wait_until, ◌>>=◌,
}
use software_engineering_sch.Consumer.Loop as Loop
use software_engineering_sch.Consumer.Loop.{
  KafkaMessage, Consumer, Round, Progress, new_consumer, with_dead_letter, stopped, failed,
  message_topic,
}
use software_engineering_sch.Consumer.Counters.{IsCounted, start-IsCounted}
use software_engineering_sch.Contracts.{topic_release_events}
use software_engineering_sch.Contracts.{ReleaseDetectedPayload}
use software_engineering_sch.Contracts.Codec.{release_codec, unmarshal}
use software_engineering_sch.ApiTables.{ApiTables}
use software_engineering_sch.Workers.Handlers.{handle_release_event, undecoded}
use software_engineering_sch.Workers.Malformed.{IsHandled, malformed_release_stops}
use software_engineering_sch.Delivery.Repository.{
  failed as failed_once, Delivery, DeliveryTables, new_delivery,
}
use software_engineering_sch.Delivery.Service.{new_settings}
use software_engineering_sch.Delivery.Rows.{AreValid}
use software_engineering_sch.Delivery.Bounds.{Work, notified, ticked, work_all, attempts_bounded}
use software_engineering_sch.Examples.Values.{notification, uuid, world, go_repo}
use software_engineering_sch.Examples.Confirmations.{hashing}

abbrev event : String → ℕ → OutboxEvent
event id t =
    new_event id "ReleaseDetected" t "scanner-service" id "release-events" go_repo (malformed "{}")

abbrev one_event : World (Unit {0})
one_event =
    let d : Database (Unit {0}) = record { outbox = event "a" 3 ∷ []; tables = tt } in
    record (world tt []) { db = d }

abbrev relay : Relay
relay = record { batch_size = 10; interval = 1_000_000_000 }

abbrev marked : OutboxEvent
marked = record (event "a" 3) { published_at = some minute }

marked-mem : Memᴰ marked (start relay (minute ∷ []) one_event).1.db.outbox
unfolding start publish_once fetch_unpublished candidates is_candidate publish_all settle
    mark_published publish try wrapping pool_exec call pure wait_until ◌>>=◌
marked-mem = Memᴰ.head refl

published_was_sent_example :
    WasMarked (event "a" 3 ∷ []) "a"
    ⊎ Memᴰ (message_of marked) (start relay (minute ∷ []) one_event).1.sent
published_was_sent_example =
    published_was_sent relay (minute ∷ []) one_event marked (refl, tt) marked-mem (λ e. cc e)

calm_round_empties_outbox_example :
    ((publish_once relay one_event).0 ≡ ok tt)
    × ((es : List OutboxEvent) × Permᴰ (event "a" 3 ∷ []) es
        × ((publish_once relay one_event).1.sent ≡ map message_of es))
    × (backlog (publish_once relay one_event).1.db.outbox
        ≡ record { pending = 0; failed = 0; attempts = 0 })
calm_round_empties_outbox_example =
    calm_round_empties_outbox relay one_event refl (λ id. refl) (tt, tt) (omega arith)

abbrev unread : KafkaMessage
unread = record {
  topic = topic_release_events;
  partition = 0;
  offset = 7;
  key = go_repo;
  value = malformed "{";
}

abbrev refused : Round
refused = record {
  fetched = ok unread;
  handled = some (plain "decode release event");
  dead_lettered = none;
  committed = none;
  cancelled = false;
  now = minute;
}

abbrev at_rest : Progress
at_rest = record { handed = []; commits = []; dead_letters = []; ids = 0; observed = [] }

unread-IsRefused : unmarshal {P = ReleaseDetectedPayload} ⦃c = release_codec⦄ unread.value ≡ none
unfolding unmarshal
unread-IsRefused = refl

empty : World ApiTables
empty = world (record { subscriptions = []; sagas = [] }) []

refused-IsHandled : IsHandled (handle_release_event hashing uuid) empty unread refused
unfolding handle_release_event unmarshal lift ◌>>=◌
refused-IsHandled = record { fetched = refl; handled = refl; running = refl }

malformed_release_stops_example :
    let consumer = new_consumer topic_release_events "subscription-api" in
    Loop.start uuid consumer (refused ∷ []) at_rest
    ≡ stopped (some (plain "decode release event")) (record at_rest {
      handed = unread ∷ [];
      observed = failed (message_topic consumer unread) "handler" ∷ [];
    })
malformed_release_stops_example =
    malformed_release_stops hashing uuid empty unread refused [] at_rest unread-IsRefused
      refused-IsHandled

abbrev letters : Consumer
letters = with_dead_letter (new_consumer topic_release_events "subscription-api") "dlq"

abbrev lettered : Round
lettered = record refused { handled = some (undecoded "decode release event") }

start-IsCounted_example : IsCounted (Loop.start uuid letters (lettered ∷ refused ∷ []) at_rest)
unfolding with_dead_letter
start-IsCounted_example =
    start-IsCounted uuid letters (record { publisher = refl; topic = refl })
      (lettered ∷ refused ∷ []) at_rest (record { commits = refl; dead = refl; failing = refl })

-- A delivery that failed once, when the service gives up at the third time.
abbrev tried : Delivery
tried = record (new_delivery 3 notification) {
  status = failed_once;
  attempt_count = 1;
  next_attempt_at = some 5;
}

abbrev tried_world : World DeliveryTables
tried_world = world (tried ∷ []) (none ∷ none ∷ none ∷ none ∷ none ∷ some (plain "refused") ∷ [])

tried-AreValid : AreValid 3 tried_world.db.tables
tried-AreValid = record {
  distinct = (refl, tt);
  valid = (
    record {
      unsettled = λ e. omega arith;
      bounded = omega arith;
      exhausted = λ e. cc e;
      scheduled = λ s e. cc e;
      unscheduled = λ e. absurd (e refl);
    },
    tt,
  );
}

abbrev works : List (ℕ × Work)
works = (6, ticked (pos 10)) ∷ (7, notified notification) ∷ []

attempts_bounded_example :
    AreValid 3 (work_all uuid (new_settings (pos 0) [] true) works tried_world).db.tables
unfolding new_settings
attempts_bounded_example = attempts_bounded uuid (pos 0) [] true works tried_world tried-AreValid
