-- ===== src/Outbox/Store.antt =====
-- `InsertTx` and the methods of `outbox.Repository`.
use software_engineering_sch.Base.{
  ℕ, String, ◌+◌, Option, none, some, Bool, true, false, ◌&&◌, not, List, [], ◌∷◌, ◌++◌, ltb, eqb,
  ◌==◌, if◌then◌else◌, map, take, select, exists, update, order_by,
}
use Prim.Native.Nat.{compare, Ordering}
use Prim.Native.String.{compare as compare_text}
use text.Mathlib.Text.{is_le}
use software_engineering_sch.Json.{Bytes, encoded, malformed}
use software_engineering_sch.Errors.{Error, plain, message}
use software_engineering_sch.Outbox.Event.{OutboxEvent}
use software_engineering_sch.Db.{
  Database, World, Action, gets, ◌>>=◌, ◌>>◌, wrapping, exec, pool_exec, fail_if,
}

-- An event as the code builds it: the columns of delivery have their defaults.
abbrev pub new_event :
    (event_id event_type : String) (occurred_at : ℕ)
    (source correlation_id topic kafka_key : String)
    → Bytes
    → OutboxEvent
new_event event_id event_type occurred_at source correlation_id topic kafka_key payload = record {
  event_id = event_id;
  event_type = event_type;
  occurred_at = occurred_at;
  source = source;
  correlation_id = correlation_id;
  topic = topic;
  kafka_key = kafka_key;
  payload = payload;
  published_at = none;
  locked_until = none;
  publish_attempts = 0;
  last_error = none;
}

abbrev pub has_id : String → OutboxEvent → Bool
has_id id e = e.event_id == id

-- `INSERT … ON CONFLICT (event_id) DO NOTHING`
unfoldable pub add_event : OutboxEvent → List OutboxEvent → List OutboxEvent
add_event e events = if exists (has_id e.event_id) events then events else events ++ e ∷ []

abbrev is_valid_json : Bytes → Bool
is_valid_json (encoded j) = true
is_valid_json (malformed s) = false

-- An event with no time gets the clock's.
abbrev pub stamped : ℕ → OutboxEvent → OutboxEvent
stamped now e = if eqb e.occurred_at 0 then record e { occurred_at = now } else e

module _ {T : Type 0} where
  unfoldable pub insert_tx : OutboxEvent → Action T (Unit {0})
  insert_tx e = do
    now ← gets (λ w. w.now)
    fail_if (not (is_valid_json e.payload)) (plain "outbox payload must be valid JSON")
    wrapping "insert outbox event"
        (exec (λ w d. (tt, record d { outbox = add_event (stamped now e) d.outbox })))

-- `published_at IS NULL AND (locked_until IS NULL OR locked_until < now())`
abbrev pub is_unlocked : ℕ → Option ℕ → Bool
is_unlocked now none = true
is_unlocked now (some t) = ltb t now

abbrev pub is_unpublished : Option ℕ → Bool
is_unpublished none = true
is_unpublished (some t) = false

unfoldable pub is_candidate : ℕ → (String → Bool) → OutboxEvent → Bool
is_candidate now locked e =
    is_unpublished e.published_at && is_unlocked now e.locked_until && not (locked e.event_id)

-- `ORDER BY occurred_at, event_id`
abbrev pub occurs_before : OutboxEvent → OutboxEvent → Bool
occurs_before a b = elim (compare a.occurred_at b.occurred_at) [
  | Ordering.lt ↦ true
  | Ordering.eq ↦ is_le (compare_text a.event_id b.event_id)
  | Ordering.gt ↦ false
]

-- `interval '30 seconds'`
abbrev lease : ℕ
lease = 30_000_000_000

abbrev pub lock : ℕ → OutboxEvent → OutboxEvent
lock now e = record e { locked_until = some (now + lease) }

-- The rows of the CTE `candidates`.
unfoldable pub candidates : ℕ → ℕ → (String → Bool) → List OutboxEvent → List OutboxEvent
unfolding is_candidate
candidates limit now locked events =
    take limit (order_by occurs_before (select (is_candidate now locked) events))

abbrev pub is_among : List OutboxEvent → OutboxEvent → Bool
is_among chosen e = exists (has_id e.event_id) chosen

abbrev error_text : Option Error → String
error_text none = ""
error_text (some e) = message e

module _ {T : Type 0} where
  -- The statement that locks a batch and returns it, in the order of the world.
  abbrev pub locked_batch : ℕ → World T → Database T → List OutboxEvent × Database T
  locked_batch limit w d =
      let chosen = candidates limit w.now w.locked d.outbox in
      (
        map (lock w.now) (w.orders.returning.order w.now chosen),
        record d { outbox = update (is_among chosen) (lock w.now) d.outbox },
      )

  unfoldable pub fetch_unpublished : ℕ → Action T (List OutboxEvent)
  unfolding candidates
  fetch_unpublished limit =
      wrapping "fetch unpublished outbox events" (pool_exec (locked_batch limit))

  unfoldable pub mark_published : String → Action T (Unit {0})
  mark_published id = wrapping "mark outbox event published" (
      pool_exec (λ w d. (
        tt,
        record d {
          outbox =
              update (has_id id)
                (λ e. record e {
                  published_at = some w.now;
                  locked_until = none;
                  last_error = none;
                })
                d.outbox;
        },
      )))

  unfoldable pub mark_failed : String → Option Error → Action T (Unit {0})
  mark_failed id cause = wrapping "mark outbox event failed" (
      pool_exec (λ w d. (
        tt,
        record d {
          outbox =
              update (has_id id)
                (λ e. record e {
                  publish_attempts = e.publish_attempts + 1;
                  locked_until = none;
                  last_error = some (error_text cause);
                })
                d.outbox;
        },
      )))
