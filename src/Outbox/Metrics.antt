-- ===== src/Outbox/Metrics.antt =====
-- The gauges of the outbox (pkg/outbox/metrics.go).
use software_engineering_sch.Base.{
  ℕ, ◌+◌, String, Option, none, some, Bool, true, false, ◌&&◌, List, [], ◌∷◌, count, if◌then◌else◌,
}
use software_engineering_sch.Errors.{Error, Result, ok, err}
use software_engineering_sch.Outbox.Event.{OutboxEvent}
use software_engineering_sch.Outbox.Store.{is_unpublished}
use software_engineering_sch.Db.{Action, pure, ◌>>=◌, pool_query, try}

-- The three numbers of the query, each the value of a gauge.
pub record Backlog : Type 0 where
  pub pending : ℕ
  pub failed : ℕ
  pub attempts : ℕ

-- `published_at IS NULL`
abbrev pub is_pending : OutboxEvent → Bool
is_pending e = is_unpublished e.published_at

abbrev is_some : Option String → Bool
is_some none = false
is_some (some s) = true

-- `SUM(publish_attempts) FILTER (WHERE published_at IS NULL)`
abbrev pub pending_attempts : List OutboxEvent → ℕ
pending_attempts [] = 0
pending_attempts (e ∷ es) = (if is_pending e then e.publish_attempts else 0) + pending_attempts es

unfoldable pub backlog : List OutboxEvent → Backlog
backlog events = record {
  pending = count is_pending events;
  failed = count (λ e. is_pending e && is_some e.last_error) events;
  attempts = pending_attempts events;
}

-- What is sent to the channel of `Collect`: a metric of the service, or an invalid one.
pub data Metric : Type 0 where
  gauge : (name : String) → (value : ℕ) → (service : String) → Metric
  invalid : (name : String) → Error → Metric

abbrev gauges : String → Result Backlog → List Metric
gauges service (err e) = invalid "subber_outbox_pending" e ∷ []
gauges service (ok b) =
    gauge "subber_outbox_pending" b.pending service
    ∷ gauge "subber_outbox_failed" b.failed service
    ∷ gauge "subber_outbox_publish_attempts" b.attempts service
    ∷ []

-- `Collect`, of the collector of a service
unfoldable pub collect : {T : Type 0} → (service : String) → Action T (List Metric)
unfolding backlog
collect service = do
  numbers ← try (pool_query (λ w d. backlog d.outbox))
  pure (gauges service numbers)
