-- ===== src/Outbox/Relay.antt =====
-- The relay that moves events from the outbox to Kafka (pkg/outbox/relay.go).
use software_engineering_sch.Base.{
  ℕ, some, Bool, true, false, List, [], ◌∷◌, ℤ, positive_or, second,
}
use software_engineering_sch.Errors.{Result, ok, err}
use software_engineering_sch.Outbox.Event.{OutboxEvent}
use software_engineering_sch.Outbox.Store.{fetch_unpublished, mark_published, mark_failed}
use software_engineering_sch.Db.{Action, pure, ◌>>=◌, ◌>>◌, publish, try, wait_until}

pub record Relay : Type 0 where
  pub batch_size : ℕ
  pub interval : ℕ

-- `NewRelay`: unset values are replaced.
unfoldable pub new_relay : ℤ → ℤ → Relay
new_relay batch_size interval = record {
  batch_size = positive_or batch_size 100;
  interval = positive_or interval second;
}

module _ {T : Type 0} where
  -- What follows the broker's answer for one event: whether the loop goes on.
  unfoldable pub settle : OutboxEvent → Result (Unit {0}) → Action T Bool
  settle e (err cause) = do mark_failed e.event_id (some cause); pure false
  settle e (ok _) = do mark_published e.event_id; pure true

  -- The loop of `PublishOnce` over the fetched events; a failed publish ends it by `break`.
  unfoldable pub publish_all : List OutboxEvent → Action T (Unit {0})
  unfolding settle
  publish_all [] = pure tt
  publish_all (e ∷ es) = do
    answer ← try (publish e.topic e.kafka_key e.payload)
    more ← settle e answer
    elim more [ true ↦ publish_all es | false ↦ pure tt ]

  unfoldable pub publish_once : Relay → Action T (Unit {0})
  unfolding publish_all
  publish_once r = do events ← fetch_unpublished r.batch_size; publish_all events

  -- `Start` over the ticks of its ticker: an error ends it.
  unfoldable pub start : Relay → List ℕ → Action T (Unit {0})
  start r [] = pure tt
  start r (t ∷ ts) = do wait_until t; publish_once r; start r ts
