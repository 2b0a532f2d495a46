-- ===== src/Config/Shared.antt =====
-- The parts of a configuration that services share (pkg/config/config.go), and the address of a
-- database that they give to pkg/postgres.
use software_engineering_sch.Base.{String, List, Bool, false}
use software_engineering_sch.Errors.{◌+++◌}
use software_engineering_sch.Config.Env.{Variables, Parsers, string, bool, csv}

pub record Database : Type 0 where
  pub db_host : String
  pub db_port : String
  pub db_user : String
  pub db_password : String
  pub db_name : String

unfoldable pub load_database : Variables → Database
load_database env = record {
  db_host = string env "DB_HOST" "";
  db_port = string env "DB_PORT" "";
  db_user = string env "DB_USER" "";
  db_password = string env "DB_PASSWORD" "";
  db_name = string env "DB_NAME" "";
}

pub record Postgres : Type 0 where
  pub host : String
  pub port : String
  pub user : String
  pub password : String
  pub name : String

unfoldable pub postgres : Database → Postgres
postgres c = record {
  host = c.db_host;
  port = c.db_port;
  user = c.db_user;
  password = c.db_password;
  name = c.db_name;
}

-- `DSN`, the text that the pool is opened with
unfoldable pub dsn : Postgres → String
dsn cfg =
    "host=" +++ cfg.host +++ " port=" +++ cfg.port +++ " user=" +++ cfg.user +++ " password="
    +++ cfg.password +++ " dbname=" +++ cfg.name +++ " sslmode=disable"

pub record Kafka : Type 0 where
  pub kafka_brokers : List String

unfoldable pub load_kafka : Parsers → Variables → Kafka
load_kafka p env = record { kafka_brokers = csv p env "KAFKA_BROKERS" "" }

pub record GitHub : Type 0 where
  pub github_token : String
  pub github_base_url : String

unfoldable pub load_github : Variables → GitHub
load_github env = record {
  github_token = string env "GITHUB_TOKEN" "";
  github_base_url = string env "GITHUB_BASE_URL" "";
}

pub record Logging : Type 0 where
  pub log_level : String
  pub log_file : String
  pub log_sidecar_enabled : Bool
  pub log_sidecar_url : String

unfoldable pub load_logging : Parsers → Variables → Logging
load_logging p env = record {
  log_level = string env "LOG_LEVEL" "";
  log_file = string env "LOG_FILE" "";
  log_sidecar_enabled = bool p env "LOG_SIDECAR_ENABLED" false;
  log_sidecar_url = string env "LOG_SIDECAR_URL" "";
}

pub record Metrics : Type 0 where
  pub metrics_port : String

unfoldable pub load_metrics : Variables → Metrics
load_metrics env = record { metrics_port = string env "METRICS_PORT" "" }
