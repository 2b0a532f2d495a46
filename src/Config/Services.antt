-- ===== src/Config/Services.antt =====
-- The configurations of the three services (services/*/internal/config/config.go). A struct that is
-- embedded is a field. `Postgres` of each of them is that of its field `database`.
use software_engineering_sch.Base.{String, List, [], ℤ, pos}
use software_engineering_sch.Config.Env.{Variables, Parsers, string, int, duration, duration_list}
use software_engineering_sch.Config.Shared.{
  Database, Kafka, GitHub, Logging, Metrics, load_database, load_kafka, load_github, load_logging,
  load_metrics,
}

pub record ApiConfig : Type 0 where
  pub database : Database
  pub server_port : String
  pub api_key : String
  pub base_url : String
  pub notification_service_url : String
  pub notification_transport : String
  pub notification_grpc_address : String
  pub kafka : Kafka
  pub github : GitHub
  pub logging : Logging

unfoldable pub load_api : Parsers → Variables → ApiConfig
load_api p env = record {
  database = load_database env;
  server_port = string env "PORT" "";
  api_key = string env "API_KEY" "";
  base_url = string env "BASE_URL" "";
  notification_service_url = string env "NOTIFICATION_SERVICE_URL" "";
  notification_transport = string env "NOTIFICATION_TRANSPORT" "kafka";
  notification_grpc_address = string env "NOTIFICATION_GRPC_ADDR" "notification-service:9093";
  kafka = load_kafka p env;
  github = load_github env;
  logging = load_logging p env;
}

pub record ScannerConfig : Type 0 where
  pub database : Database
  pub metrics : Metrics
  pub kafka : Kafka
  pub redis_addr : String
  pub github : GitHub
  pub scanner_batch_size : ℤ
  pub scanner_interval : ℤ
  pub logging : Logging

unfoldable pub load_scanner : Parsers → Variables → ScannerConfig
load_scanner p env = record {
  database = load_database env;
  metrics = load_metrics env;
  kafka = load_kafka p env;
  redis_addr = string env "REDIS_ADDR" "";
  github = load_github env;
  scanner_batch_size = int p env "SCANNER_BATCH_SIZE" (pos 0);
  scanner_interval = duration p env "SCANNER_INTERVAL" (pos 0);
  logging = load_logging p env;
}

pub record NotificationConfig : Type 0 where
  pub database : Database
  pub metrics : Metrics
  pub kafka : Kafka
  pub server_port : String
  pub smtp_host : String
  pub smtp_port : String
  pub smtp_email : String
  pub smtp_password : String
  pub notification_retry_attempts : ℤ
  pub notification_retry_delays : List ℤ
  pub notification_transport : String
  pub grpc_port : String
  pub logging : Logging

unfoldable pub load_notification : Parsers → Variables → NotificationConfig
load_notification p env = record {
  database = load_database env;
  metrics = load_metrics env;
  kafka = load_kafka p env;
  server_port = string env "PORT" "";
  smtp_host = string env "SMTP_HOST" "";
  smtp_port = string env "SMTP_PORT" "";
  smtp_email = string env "SMTP_EMAIL" "";
  smtp_password = string env "SMTP_PASSWORD" "";
  notification_retry_attempts = int p env "NOTIFICATION_RETRY_ATTEMPTS" (pos 0);
  notification_retry_delays = duration_list p env "NOTIFICATION_RETRY_DELAYS" [];
  notification_transport = string env "NOTIFICATION_TRANSPORT" "kafka";
  grpc_port = string env "GRPC_PORT" "9093";
  logging = load_logging p env;
}
