-- ===== src/Watchsaga/Lifecycle.antt =====
-- The life of a saga, without its columns: what the orchestrator promises of each saga.
use software_engineering_sch.Base.{◌≡◌, false}
use software_engineering_sch.ApiTables.{SagaStatus, retrying, completed, failed, Instance}
use software_engineering_sch.Watchsaga.Rules.{is_final}

-- A saga that is not final is retried, completed or failed; a final one does not move.
pub data Step : SagaStatus → SagaStatus → Type 0 where
  retries : {s : SagaStatus} → is_final s ≡ false → Step s retrying
  completes : {s : SagaStatus} → is_final s ≡ false → Step s completed
  fails : {s : SagaStatus} → is_final s ≡ false → Step s failed

pub data Steps : SagaStatus → SagaStatus → Type 0 where
  rests : {s : SagaStatus} → Steps s s
  moves : {s t r : SagaStatus} → Step s t → Steps t r → Steps s r

-- The columns that identify a saga.
abbrev pub IsSameSaga : Instance → Instance → Type 0
IsSameSaga i j =
    (j.saga_id ≡ i.saga_id)
    × (j.repo ≡ i.repo)
    × (j.action ≡ i.action)
    × (j.correlation_id ≡ i.correlation_id)
    × (j.created_at ≡ i.created_at)
    × (j.deadline_at ≡ i.deadline_at)
