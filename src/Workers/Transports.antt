-- ===== src/Workers/Transports.antt =====
-- The transport of notifications, at both of its ends.
use mathlib.Core.List.{Memᴰ}
use software_engineering_sch.Base.{
  String, pos, true, List, [], ◌∷◌, ◌++◌, ◌≡◌, ◌⊎◌, refl, ap, subst, ◌==◌, eq_iff, Bool-cases, inl,
  inr, ◌||◌, All,
}
use software_engineering_sch.Errors.{Result, ok, err, ◌+++◌}
use software_engineering_sch.Config.Shared.{Database, Logging, dsn, postgres}
use software_engineering_sch.Config.Services.{ApiConfig, NotificationConfig}
use software_engineering_sch.Contracts.{Envelope, ReleaseDetectedPayload}
use software_engineering_sch.Uuid.{Uuid}
use software_engineering_sch.Outbox.Event.{OutboxEvent}
use software_engineering_sch.ApiTables.{ApiTables}
use software_engineering_sch.Db.{World}
use software_engineering_sch.Consumer.Loop.{Consumer, with_dead_letter, new_consumer}
use software_engineering_sch.Subscription.Publisher.{Hashing, expand}
use software_engineering_sch.Subscription.Expansion.{IsFresh, Notifies}
use software_engineering_sch.Subscription.Subscribers.{release_reaches_subscribers}
use software_engineering_sch.Workers.Handlers.{notification_transport}
use software_engineering_sch.Workers.Processes.{
  Platform, Part, grpc_server, metrics_server, retries, consumes, Publisher, by_outbox, by_grpc,
  after, started, command_consumer, http_parts, notification_parts, run_notification,
  choose_publisher, with_parts, run_api,
}

-- What the notification service needs to have for this publisher: it consumes the topic of every
-- event that the outbox has gained, or serves gRPC.
abbrev pub IsServed :
    Publisher → NotificationConfig → List Part → (before after : List OutboxEvent) → Type 0
IsServed (by_outbox base_url url) n parts before after =
    (c : Consumer) × Memᴰ (consumes c) parts
    × ((es : List OutboxEvent) × (after ≡ before ++ es) × All (λ e. e.topic ≡ c.topic) es)
IsServed (by_grpc address base_url) n parts before after =
    Memᴰ (grpc_server (":" +++ n.grpc_port)) parts

Notifies-topic :
    (hashing : Hashing) (u : Uuid) (repo tag correlation_id : String) (emails : List String)
    (es : List OutboxEvent)
    → Notifies hashing u repo tag correlation_id emails es
    → All (λ e. e.topic ≡ command_consumer.topic) es
unfolding with_dead_letter new_consumer
Notifies-topic hashing u repo tag correlation_id [] [] h = tt
Notifies-topic hashing u repo tag correlation_id [] (e ∷ es) h = absurd h
Notifies-topic hashing u repo tag correlation_id (m ∷ ms) [] h = tt
Notifies-topic hashing u repo tag correlation_id (m ∷ ms) (e ∷ es) (told, rest) =
    (told.topic, Notifies-topic hashing u repo tag correlation_id ms es rest)

mem_after : {A : Type 0} (xs ys : List A) {y : A} → Memᴰ y ys → Memᴰ y (xs ++ ys)
mem_after [] ys m = m
mem_after (x ∷ xs) ys m = Memᴰ.tail (mem_after xs ys m)

after_returns :
    {A B : Type 0} (label : String) (r : Result A) (rest : Result B) {b : B}
    → after label r rest ≡ ok b
    → rest ≡ ok b
after_returns label (ok a) rest h = h
after_returns label (err e) rest h = cc

started_returns :
    {A : Type 0} (p : Platform) (database : String) (logging : Logging) (d : Database)
    (r : Result A) {a : A}
    → started p database logging d r ≡ ok a
    → r ≡ ok a
started_returns p database logging d r h =
    let connected =
      after ("connect " +++ database +++ " database") (p.connect (dsn (postgres d))) r in
    after_returns ("connect " +++ database +++ " database") (p.connect (dsn (postgres d))) r
      (after_returns "configure logger" (p.configure_logs logging) connected h)

-- The choice of the subscription-api, by the value in lower case.
IsChosen : Platform → ApiConfig → (lower : String) → Publisher → Type 0
IsChosen p a lower publisher =
    (((lower == "" || lower == "kafka") ≡ true)
      × (publisher ≡ by_outbox a.base_url a.notification_service_url))
    ⊎ ((lower ≡ "grpc") × (publisher ≡ by_grpc a.notification_grpc_address a.base_url))

choose_publisher_returns :
    (p : Platform) (a : ApiConfig) {publisher : Publisher}
    → choose_publisher p a ≡ ok publisher
    → IsChosen p a (p.to_lower a.notification_transport) publisher
unfolding choose_publisher IsChosen
choose_publisher_returns p a h =
    let lower = p.to_lower a.notification_transport in
    elim (Bool-cases (lower == "" || lower == "kafka")) [
      | inl kafka ↦ inl (kafka, cc (simp kafka at h))
      | inr other ↦ elim (Bool-cases (lower == "grpc")) [
        | inl grpc ↦ inr (
          (eq_iff lower "grpc").0 grpc,
          cc (
              after_returns "create notification grpc client" (p.dial a.notification_grpc_address)
                (ok (by_grpc a.notification_grpc_address a.base_url)) (simp (other, grpc) at h)),
        )
        | inr neither ↦ cc (simp (other, neither) at h)
      ]
    ]

-- The transport of the notification service, for a value that the subscription-api takes for Kafka.
kafka_transport :
    (p : Platform) (value : String)
    → (p.to_lower value == "" || p.to_lower value == "kafka") ≡ true
    → notification_transport p.to_lower value ≡ ok "kafka"
unfolding notification_transport
kafka_transport p value h = elim (Bool-cases (p.to_lower value == "")) [
  | inl unset ↦ rw unset refl
  | inr given ↦
      let known : p.to_lower value ≡ "kafka" =
        (eq_iff (p.to_lower value) "kafka").0 (simp given at h) in
      rw known refl
]

grpc_transport :
    (p : Platform) (value : String)
    → p.to_lower value ≡ "grpc"
    → notification_transport p.to_lower value ≡ ok "grpc"
unfolding notification_transport
grpc_transport p value h = rw h refl

abbrev servers : Platform → NotificationConfig → List Part
servers p n = metrics_server (":" +++ n.metrics.metrics_port) ∷ http_parts p n.server_port

module _ (p : Platform) (n : NotificationConfig) {parts : List Part} where
  with_transport :
      (transport : String)
      → notification_transport p.to_lower n.notification_transport ≡ ok transport
      → run_notification p n ≡ ok parts
      → notification_parts p n transport ≡ ok parts
  unfolding run_notification
  with_transport transport e h =
      simp e at (started_returns p "notification" n.logging n.database _ h)

  kafka_served : notification_parts p n "kafka" ≡ ok parts → Memᴰ (consumes command_consumer) parts
  unfolding notification_parts
  kafka_served h =
      let same : servers p n ++ (retries (pos 100) ∷ consumes command_consumer ∷ []) ≡ parts =
        cc h in
      subst (λ l. Memᴰ (consumes command_consumer) l) same
        (mem_after (servers p n) _ (Memᴰ.tail (Memᴰ.head refl)))

  grpc_served :
      notification_parts p n "grpc" ≡ ok parts → Memᴰ (grpc_server (":" +++ n.grpc_port)) parts
  unfolding notification_parts
  grpc_served h =
      let server = grpc_server (":" +++ n.grpc_port) in
      let same : servers p n ++ (server ∷ retries (pos 100) ∷ []) ≡ parts = cc (
        after_returns "listen grpc" (p.listen (":" +++ n.grpc_port))
          (ok (servers p n ++ server ∷ retries (pos 100) ∷ [])) h) in
      subst (λ l. Memᴰ server l) same (mem_after (servers p n) _ (Memᴰ.head refl))

picked :
    (r : Result Publisher) (more : List Part) {parts : List Part} {publisher : Publisher}
    → with_parts r more ≡ ok (publisher, parts)
    → r ≡ ok publisher
picked (ok x) more {parts} {publisher} h =
    let same : ◌≡◌ {A = Publisher × List Part} (x, more) (publisher, parts) = cc h in
    ap (λ y. ok y.0) same
picked (err e) more h = cc

published :
    (p : Platform) (migrations : Result (Unit {0})) (a : ApiConfig) (publisher : Publisher)
    (parts : List Part)
    → run_api p migrations a ≡ ok (publisher, parts)
    → IsChosen p a (p.to_lower a.notification_transport) publisher
unfolding run_api
published p migrations a publisher parts h =
    let ready = started_returns p "subscription" a.logging a.database _ h in
    let listed = after_returns "migrate subscription database" migrations _ ready in
    choose_publisher_returns p a (picked (choose_publisher p a) _ listed)

module _ (hashing : Hashing) (u : Uuid) (event : Envelope ReleaseDetectedPayload)
    (w : World ApiTables) (fresh : IsFresh u w.ids w.db.outbox) where
  -- What the outbox gains is for the consumer of the commands.
  gained :
      (es : List OutboxEvent) × ((expand hashing u event w).1.db.outbox ≡ w.db.outbox ++ es)
      × All (λ e. e.topic ≡ command_consumer.topic) es
  gained =
      let ((es, same, told, _), distinct, read) =
        release_reaches_subscribers hashing u event w fresh in
      (es, ap (λ d. d.outbox) same, Notifies-topic hashing u _ _ _ _ es told)

-- When the two services have the same value for the transport and both start: the notification
-- service takes in what the subscription-api sends. Where that writes to the outbox, it consumes the
-- topic of every event that the expansion of a release adds there, whichever calls fail, when no UUID
-- that is still to be generated is in use; where that calls by gRPC, it serves gRPC.
pub transports_agree :
    (p : Platform) (migrations : Result (Unit {0})) (a : ApiConfig) (n : NotificationConfig)
    (publisher : Publisher) (api_parts parts : List Part) (hashing : Hashing) (u : Uuid)
    (event : Envelope ReleaseDetectedPayload) (w : World ApiTables)
    → a.notification_transport ≡ n.notification_transport
    → run_api p migrations a ≡ ok (publisher, api_parts)
    → run_notification p n ≡ ok parts
    → IsFresh u w.ids w.db.outbox
    → IsServed publisher n parts w.db.outbox (expand hashing u event w).1.db.outbox
unfolding IsChosen
transports_agree p migrations a n publisher api_parts parts hashing u event w same api notification
      fresh =
    elim (published p migrations a publisher api_parts api) [
      | inl (kafka, by) ↦ rw by (
        command_consumer,
        kafka_served p n (
            with_transport p n "kafka"
              (kafka_transport p n.notification_transport (rw same at kafka)) notification),
        gained hashing u event w fresh,
      )
      | inr (grpc, by) ↦ rw by (
          grpc_served p n (
            with_transport p n "grpc" (grpc_transport p n.notification_transport (rw same at grpc))
              notification))
    ]
