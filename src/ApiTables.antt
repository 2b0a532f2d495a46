-- ===== src/ApiTables.antt =====
-- The tables of the subscription-api's database
-- (services/subscription-api/internal/dbmigrations/*.sql), which the saga orchestrator shares.
use software_engineering_sch.Base.{ℕ, String, Bool, Option, List}

-- A row of subscriptions, which is the struct `Subscription`
-- (services/subscription-api/internal/subscription/model.go).
pub record Subscription : Type 0 where
  pub email : String
  pub repo : String
  pub confirmed : Bool
  pub last_seen_tag : String
  pub token : String

-- The values of the column status that the orchestrator writes.
pub data SagaStatus : Type 0 where
  command_sent retrying completed failed : SagaStatus

-- A row of saga_instances, which is the struct `Instance` with the columns that it leaves out.
pub record Instance : Type 0 where
  pub saga_id : String
  pub saga_type : String
  pub repo : String
  pub action : String
  pub status : SagaStatus
  pub attempts : ℕ
  pub correlation_id : String
  pub next_retry_at : Option ℕ
  pub deadline_at : ℕ
  pub last_error : Option String
  pub created_at : ℕ
  pub updated_at : ℕ

pub record ApiTables : Type 0 where
  pub subscriptions : List Subscription
  pub sagas : List Instance
