-- ===== src/Examples/Started.antt =====
-- Examples for what the processes start.
use software_engineering_sch.Base.{false, List, [], ◌∷◌, ◌≡◌, refl, pos}
use software_engineering_sch.Errors.{ok}
use software_engineering_sch.Config.Shared.{Database, Kafka, Logging}
use software_engineering_sch.Config.Services.{ApiConfig, NotificationConfig}
use software_engineering_sch.Consumer.Loop.{new_consumer}
use software_engineering_sch.Contracts.{topic_release_events}
use software_engineering_sch.Workers.Handlers.{notification_transport}
use software_engineering_sch.Workers.Processes.{
  Platform, Part, metrics_server, http_server, consumes, retries, Publisher, by_outbox,
  command_consumer, http_parts, notification_parts, run_notification, choose_publisher, run_api,
}
use software_engineering_sch.Subscription.Publisher.{expand}
use software_engineering_sch.Examples.Values.{uuid}
use software_engineering_sch.Examples.Confirmations.{hashing}
use software_engineering_sch.Examples.Followed.{followers, release}
use software_engineering_sch.Workers.Transports.{IsServed, transports_agree}

abbrev platform : Platform
platform = record {
  configure_logs = λ logging. ok tt;
  connect = λ address. ok tt;
  listen = λ address. ok tt;
  dial = λ address. ok tt;
  to_lower = λ text. text;
}

abbrev database : Database
database = record {
  db_host = "db";
  db_port = "5432";
  db_user = "u";
  db_password = "p";
  db_name = "n";
}

abbrev kafka : Kafka
kafka = record { kafka_brokers = "kafka:9092" ∷ [] }

abbrev logging : Logging
logging = record {
  log_level = "info";
  log_file = "log";
  log_sidecar_enabled = false;
  log_sidecar_url = "";
}

abbrev api : ApiConfig
api = record {
  database = database;
  server_port = "8080";
  api_key = "key";
  base_url = "https://subber.example";
  notification_service_url = "http://notifications";
  notification_transport = "kafka";
  notification_grpc_address = "notifications:9093";
  kafka = kafka;
  github = record { github_token = ""; github_base_url = "" };
  logging = logging;
}

abbrev notifications : NotificationConfig
notifications = record {
  database = database;
  metrics = record { metrics_port = "2112" };
  kafka = kafka;
  server_port = "";
  smtp_host = "mail";
  smtp_port = "25";
  smtp_email = "";
  smtp_password = "";
  notification_retry_attempts = pos 3;
  notification_retry_delays = [];
  notification_transport = "kafka";
  grpc_port = "9093";
  logging = logging;
}

abbrev publisher : Publisher
publisher = by_outbox "https://subber.example" "http://notifications"

abbrev api_parts : List Part
api_parts =
    http_server ":8080" ∷ consumes (new_consumer topic_release_events "subscription-api") ∷ []

abbrev parts : List Part
parts = metrics_server ":2112" ∷ retries (pos 100) ∷ consumes command_consumer ∷ []

api-starts : run_api platform (ok tt) api ≡ ok (publisher, api_parts)
unfolding run_api choose_publisher
api-starts = refl

notifications-starts : run_notification platform notifications ≡ ok parts
unfolding run_notification notification_parts http_parts notification_transport
notifications-starts = refl

transports_agree_example :
    IsServed publisher notifications parts followers.db.outbox
      (expand hashing uuid release followers).1.db.outbox
transports_agree_example =
    transports_agree platform (ok tt) api notifications publisher api_parts parts hashing uuid
      release followers refl api-starts notifications-starts (λ n later. refl)
