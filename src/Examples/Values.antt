-- ===== src/Examples/Values.antt =====
-- The inputs that the examples share.
use Prim.Native.Nat.{pred}
use Prim.Native.Char.{Char}
use Prim.Native.String.{◌∷◌ as ◌before◌, count}
use Prim.Native.String.count as counts
use mathlib.Core.List.Permᴰ
use software_engineering_sch.Base.{
  ℕ, zero, suc, String, Option, none, some, true, false, List, [], ◌∷◌, ◌≡◌, refl, sym, ap, ◌∙◌,
  minute,
}
use software_engineering_sch.Errors.{Error, plain}
use software_engineering_sch.Contracts.{
  Envelope, RepoWatchSagaPayload, RepoWatchAckPayload, RepoWatchCommandPayload,
  NotificationSendRequestedPayload,
}
use software_engineering_sch.Uuid.{Uuid}
use software_engineering_sch.Db.{World}
use software_engineering_sch.ApiTables.{ApiTables, Instance, Subscription, command_sent, completed}

-- Texts of n + 1 marks stand for UUIDs.
abbrev pub mark : Char
mark = "i"

abbrev pub tally : ℕ → String
tally zero = ""
tally (suc n) = mark before tally n

pub tally-count : (n : ℕ) → count (tally n) ≡ n
tally-count zero = counts.nil
tally-count (suc n) = counts.cons mark (tally n) ∙ ap suc (tally-count n)

abbrev pub uuid : Uuid
uuid = record {
  generate = λ n. tally (suc n);
  parses = λ s. true;
  validates = λ s. true;
  is_canonical = λ s. true;
  parse_error = λ s. plain "invalid UUID";
  generate-injective =
      λ m n h. ap pred (sym (tally-count (suc m)) ∙ ap count h ∙ tally-count (suc n));
  parses-generate = λ n. refl;
  validates-generate = λ n. refl;
  is_canonical-generate = λ n. refl;
}

-- A world at rest over these tables.
abbrev pub world : {T : Type 0} → T → List (Option Error) → World T
world tables faults = record {
  db = record { outbox = []; tables = tables };
  tx = record { outbox = []; tables = tables };
  aborted = false;
  faults = faults;
  sent = [];
  mails = [];
  now = minute;
  ids = 0;
  locked = λ s. false;
  orders = record {
    returning = record { order = λ now rows. rows; permutes = λ now rows. Permᴰ.refl rows };
    listing = record { order = λ now rows. rows; permutes = λ now rows. Permᴰ.refl rows };
  };
}

abbrev pub go_repo : String
go_repo = "golang/go"

abbrev pub start_request : Envelope RepoWatchSagaPayload
start_request = record {
  event_id = "saga-1";
  event_type = "RepoWatchSagaRequested";
  occurred_at = 7;
  source = "subscription-api";
  correlation_id = "saga-1";
  not_before = none;
  payload = record {
    saga_id = "saga-1";
    action = "start_watch";
    repo = go_repo;
    email = "ann@example.com";
  };
}

abbrev pub ack_of : String → String → Envelope RepoWatchAckPayload
ack_of event_type error = record {
  event_id = "ack-1";
  event_type = event_type;
  occurred_at = 9;
  source = "scanner-service";
  correlation_id = "saga-1";
  not_before = none;
  payload = record { saga_id = "saga-1"; action = "start_watch"; repo = go_repo; error = error };
}

abbrev pub running_saga : Instance
running_saga = record {
  saga_id = "saga-1";
  saga_type = "repo_watch";
  repo = go_repo;
  action = "start_watch";
  status = command_sent;
  attempts = 1;
  correlation_id = "saga-1";
  next_retry_at = some minute;
  deadline_at = 86_400_000_000_000;
  last_error = none;
  created_at = 7;
  updated_at = 7;
}

abbrev pub finished_saga : Instance
finished_saga = record running_saga { status = completed }

abbrev pub tables_of : List Instance → ApiTables
tables_of sagas = record { subscriptions = []; sagas = sagas }

abbrev pub ann : Subscription
ann = record {
  email = "ann@example.com";
  repo = go_repo;
  confirmed = false;
  last_seen_tag = "v1";
  token = "token-1";
}

abbrev pub ann_tables : ApiTables
ann_tables = record { subscriptions = ann ∷ []; sagas = [] }

abbrev pub start_command : Envelope RepoWatchCommandPayload
start_command = record {
  event_id = "command-1";
  event_type = "StartWatchingRepo";
  occurred_at = 8;
  source = "subscription-api-saga-orchestrator";
  correlation_id = "saga-1";
  not_before = none;
  payload = record { saga_id = "saga-1"; action = "start_watch"; repo = go_repo };
}

abbrev pub notification : NotificationSendRequestedPayload
notification = record {
  notification_id = "notification-1";
  idempotency_key = "golang/go:v2:hash";
  recipient_email = "ann@example.com";
  email_hash = "hash";
  repo = go_repo;
  tag = "v2";
  message = "New release v2 for golang/go!";
}
