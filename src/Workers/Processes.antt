-- ===== src/Workers/Processes.antt =====
-- What the processes start, by their configuration: `run` of the services' main.go, of their relays
-- and of their migrations. The logs' set-up, the database, the listener and the client of gRPC are
-- parameters, by their answers. What a process starts runs until one part fails or a signal comes.
use software_engineering_sch.Base.{
  String, List, [], ◌∷◌, ◌++◌, ◌||◌, ◌==◌, if◌then◌else◌, pos, second, ℕ, ℤ,
}
use software_engineering_sch.Errors.{plain, wrap, ◌+++◌, Result, ok, err}
use software_engineering_sch.Contracts.{
  topic_notification_commands, topic_notification_dlq, topic_watchlist_commands,
  topic_watchlist_commands_dlq, topic_release_events, topic_watchlist_saga_requests,
  topic_watchlist_saga_events,
}
use software_engineering_sch.Config.Shared.{Database, Logging, dsn, postgres}
use software_engineering_sch.Config.Services.{ApiConfig, ScannerConfig, NotificationConfig}
use software_engineering_sch.Consumer.Loop.{Consumer, new_consumer, with_dead_letter}
use software_engineering_sch.Scanner.Service.{Scanner}
use software_engineering_sch.Watchsaga.Rules.{default_retry_limit}
use software_engineering_sch.Outbox.Relay.{Relay, new_relay}
use software_engineering_sch.Workers.Handlers.{notification_transport, configured_scanner}

pub record Platform : Type 0 where
  pub configure_logs : Logging → Result (Unit {0})
  pub connect : String → Result (Unit {0})  -- opening a pool by its address, and the ping
  pub listen : String → Result (Unit {0})
  pub dial : String → Result (Unit {0})
  pub to_lower : String → String

-- What a process gives to its group.
pub data Part : Type 0 where
  metrics_server : (address : String) → Part
  http_server : (address : String) → Part
  grpc_server : (address : String) → Part
  consumes : Consumer → Part
  retries : (batch_size : ℤ) → Part  -- the retry scheduler
  scans : Scanner → Part
  relays : Relay → Part
  sweeps : (interval limit : ℕ) → Part  -- the retries of the sagas

-- How the subscription-api sends notifications.
pub data Publisher : Type 0 where
  by_outbox : (base_url notification_service_url : String) → Publisher
  by_grpc : (address base_url : String) → Publisher

-- `if err != nil { return fmt.Errorf(…) }`, and what follows
abbrev pub after : {A B : Type 0} → String → Result A → Result B → Result B
after label (err e) rest = err (wrap label e)
after label (ok a) rest = rest

-- `registerNotificationCommandConsumers`
abbrev pub command_consumer : Consumer
command_consumer =
    with_dead_letter (new_consumer topic_notification_commands "notification-service")
      topic_notification_dlq

abbrev pub with_parts : Result Publisher → List Part → Result (Publisher × List Part)
with_parts (ok publisher) parts = ok (publisher, parts)
with_parts (err e) parts = err e

abbrev retry_sweep_interval : ℕ
retry_sweep_interval = 10_000_000_000

module _ (p : Platform) where
  abbrev pub started : {A : Type 0} → String → Logging → Database → Result A → Result A
  started database logging d rest =
      after "configure logger" (p.configure_logs logging)
        (after ("connect " +++ database +++ " database") (p.connect (dsn (postgres d))) rest)

  -- `registerHTTPServer`: without a port there is none.
  unfoldable pub http_parts : String → List Part
  http_parts port = if port == "" then [] else http_server (":" +++ port) ∷ []

  -- The parts of the notification service, by its transport.
  unfoldable pub notification_parts : NotificationConfig → (transport : String) → Result (List Part)
  unfolding http_parts
  notification_parts cfg transport =
      let servers =
        metrics_server (":" +++ cfg.metrics.metrics_port) ∷ http_parts cfg.server_port in
      if transport == "grpc"
      then after "listen grpc" (p.listen (":" +++ cfg.grpc_port))
          (ok (servers ++ grpc_server (":" +++ cfg.grpc_port) ∷ retries (pos 100) ∷ []))
      else if transport == "kafka"
      then ok (servers ++ retries (pos 100) ∷ consumes command_consumer ∷ [])
      else ok (servers ++ retries (pos 100) ∷ [])

  unfoldable pub run_notification : NotificationConfig → Result (List Part)
  unfolding notification_parts
  run_notification cfg =
      started "notification" cfg.logging cfg.database
        (elim (notification_transport p.to_lower cfg.notification_transport) [
          | err e ↦ err e
          | ok transport ↦ notification_parts cfg transport
        ])

  -- The `switch` on the transport in the subscription-api.
  unfoldable pub choose_publisher : ApiConfig → Result Publisher
  choose_publisher cfg =
      let lower = p.to_lower cfg.notification_transport in
      if lower == "" || lower == "kafka"
      then ok (by_outbox cfg.base_url cfg.notification_service_url)
      else if lower == "grpc"
      then after "create notification grpc client" (p.dial cfg.notification_grpc_address)
          (ok (by_grpc cfg.notification_grpc_address cfg.base_url))
      else err
          (plain ("unsupported notification transport \"" +++ cfg.notification_transport +++ "\""))

  -- The subscription-api also runs its migrations, of which the result is given.
  unfoldable pub run_api :
      (migrations : Result (Unit {0})) → ApiConfig → Result (Publisher × List Part)
  unfolding choose_publisher
  run_api migrations cfg = started "subscription" cfg.logging cfg.database (
      after "migrate subscription database" migrations (
        with_parts (choose_publisher cfg) (
          http_server (":" +++ cfg.server_port)
          ∷ consumes (new_consumer topic_release_events "subscription-api")
          ∷ [])))

  unfoldable pub run_scanner : ScannerConfig → Result (List Part)
  run_scanner cfg = started "scanner" cfg.logging cfg.database (
      ok (
        metrics_server (":" +++ cfg.metrics.metrics_port)
        ∷ scans (configured_scanner cfg)
        ∷ consumes (
            with_dead_letter (new_consumer topic_watchlist_commands "scanner-service")
              topic_watchlist_commands_dlq)
        ∷ []))

  unfoldable run_orchestrator : ApiConfig → Result (List Part)
  run_orchestrator cfg = started "subscription" cfg.logging cfg.database (
      ok (
        consumes (new_consumer topic_watchlist_saga_requests "subscription-api-saga-orchestrator")
        ∷ consumes (new_consumer topic_watchlist_saga_events "subscription-api-saga-orchestrator")
        ∷ sweeps retry_sweep_interval default_retry_limit
        ∷ []))

  -- `run` of cmd/outbox-relay, of the service whose database has this name.
  unfoldable run_relay : (database : String) → Logging → Database → Result (List Part)
  run_relay database logging d =
      started database logging d (ok (relays (new_relay (pos 100) (pos second)) ∷ []))

  -- `run` of cmd/migrate, by what its migrations return.
  unfoldable run_migrate :
      (database : String)
      → Logging
      → Database
      → (migrations : Result (Unit {0})) → Result (Unit {0})
  run_migrate database logging d migrations = started database logging d migrations
