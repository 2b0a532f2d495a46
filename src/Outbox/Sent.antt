-- ===== src/Outbox/Sent.antt =====
-- An event that is marked as published was sent.
use mathlib.Core.List.{Memᴰ}
use software_engineering_sch.Base.{
  ℕ, String, Option, none, some, true, false, List, [], ◌∷◌, ◌++◌, ◌≡◌, ◌≢◌, ◌⊎◌, inl, inr, refl,
  All-intro, All-mem, Option-cases, HasDistinctKeys, mem_last,
}
use software_engineering_sch.Errors.{Error, message, Result, ok, err}
use software_engineering_sch.Outbox.Event.{OutboxEvent}
use software_engineering_sch.Outbox.Store.{fetch_unpublished, mark_published, mark_failed}
use software_engineering_sch.Outbox.Relay.{Relay, settle, publish_all, publish_once, start}
use software_engineering_sch.Outbox.Order.{message_of}
use software_engineering_sch.Db.{
  World, Database, Action, pure, ◌>>=◌, publish, try, attempt, call, pool_exec, wrapping, fault_of,
  rest_of, wait_until,
}
use software_engineering_sch.Outbox.Marking.{
  Row, later, at_end, sending, marking, failing, fetching, In,
}

module _ {T : Type 0} (Old : String → Type 0) where
  -- A statement on the pool, by what it does if it is reached.
  pooled :
      {A : Type 0} (es : List OutboxEvent) (f : World T → Database T → A × Database T) (w : World T)
      → In Old es w
      → In Old es (record w { db = (f (record w { faults = rest_of w.faults }) w.db).1 })
      → In Old es (pool_exec f w).1
  unfolding pool_exec call
  pooled es f w before after = elim (Option-cases (fault_of w.faults)) [
    | inl reached ↦ rw reached after
    | inr (e, failed) ↦ rw failed before
  ]

  mark_published-In :
      (e : OutboxEvent) (es : List OutboxEvent) (w : World T)
      → Memᴰ (message_of e) w.sent
      → In Old (e ∷ es) w
      → In Old (e ∷ es) (mark_published e.event_id w).1
  unfolding mark_published wrapping
  mark_published-In e es w was i =
      pooled (e ∷ es) _ w i (marking Old es e w.sent w.now w.db.outbox was i)

  mark_failed-In :
      (id : String) (cause : Error) (es : List OutboxEvent) (w : World T)
      → In Old es w
      → In Old es (mark_failed id (some cause) w).1
  unfolding mark_failed wrapping
  mark_failed-In id cause es w i =
      pooled es _ w i (failing Old es id (message cause) w.sent w.db.outbox i)

  -- After the mark: the loop goes on if there was no error.
  goes_on :
      (x : Result (Unit {0}) × World T) (es : List OutboxEvent) (w : World T)
      → In Old es x.1
      → In Old [] (publish_all es x.1).1
      → In Old []
          ((((λ _. x) >>= λ _. pure true) >>= λ more. elim more [
            | true ↦ publish_all es
            | false ↦ pure tt
          ])
            w).1
  unfolding ◌>>=◌ pure
  goes_on (ok _, v) es w i rest = rest
  goes_on (err _, v) es w i rest = at_end Old es v.sent v.db.outbox i

  ends :
      (x : Result (Unit {0}) × World T) (es : List OutboxEvent) (w : World T)
      (k : Action T (Unit {0}))
      → In Old es x.1
      → In Old []
          ((((λ _. x) >>= λ _. pure false) >>= λ more. elim more [ true ↦ k | false ↦ pure tt ])
            w).1
  unfolding ◌>>=◌ pure
  ends (ok _, v) es w k i = at_end Old es v.sent v.db.outbox i
  ends (err _, v) es w k i = at_end Old es v.sent v.db.outbox i

  -- The loop, after the broker's answer.
  after_publish :
      (o : Option Error) (e : OutboxEvent) (es : List OutboxEvent) (w : World T)
      → ((v : World T) → In Old es v → In Old [] (publish_all es v).1)
      → In Old (e ∷ es) w
      → In Old []
          ((try (attempt o (λ v. (ok tt, record v { sent = v.sent ++ message_of e ∷ [] })))
              >>= λ answer.
                  settle e answer >>= λ more. elim more [ true ↦ publish_all es | false ↦ pure tt ])
            w).1
  unfolding ◌>>=◌ pure try settle
  after_publish none e es w rest i =
      let w' = record w { sent = w.sent ++ message_of e ∷ [] } in
      let after = later Old es e _ _ (
        mark_published-In e es w' (mem_last w.sent (message_of e))
          (sending Old (e ∷ es) (message_of e) w.sent w.db.outbox i)) in
      goes_on (mark_published e.event_id w') es w after (rest _ after)
  after_publish (some cause) e es w rest i =
      ends (mark_failed e.event_id (some cause) w) (e ∷ es) w (publish_all es)
        (mark_failed-In e.event_id cause (e ∷ es) w i)

  publish_all-In :
      (es : List OutboxEvent) (w : World T) → In Old es w → In Old [] (publish_all es w).1
  unfolding publish_all publish call pure try ◌>>=◌
  publish_all-In [] w i = i
  publish_all-In (e ∷ es) w i =
      after_publish (fault_of w.faults) e es (record w { faults = rest_of w.faults })
        (publish_all-In es) i

  publish_once-In : (r : Relay) (w : World T) → In Old [] w → In Old [] (publish_once r w).1
  unfolding publish_once fetch_unpublished pool_exec call wrapping ◌>>=◌
  publish_once-In r w i = elim (Option-cases (fault_of w.faults)) [
    | inl reached ↦ rw reached (
        publish_all-In _ _
          (fetching Old r.batch_size w.now w.locked w.orders.returning w.sent w.db.outbox i))
    | inr (e, failed) ↦ rw failed i
  ]

  ticked :
      (x : Result (Unit {0}) × World T) (r : Relay) (ts : List ℕ) (w : World T)
      → In Old [] x.1
      → ((v : World T) → In Old [] v → In Old [] (start r ts v).1)
      → In Old [] (((λ _. x) >>= λ _. start r ts) w).1
  unfolding ◌>>=◌
  ticked (ok _, v) r ts w i rest = rest v i
  ticked (err _, v) r ts w i rest = i

  start-In : (r : Relay) (ts : List ℕ) (w : World T) → In Old [] w → In Old [] (start r ts w).1
  unfolding start wait_until ◌>>=◌
  start-In r [] w i = i
  start-In r (t ∷ ts) w i =
      ticked (publish_once r (record w { now = t })) r ts w
        (publish_once-In r (record w { now = t }) i) (start-In r ts)

-- An event with the id was marked as published.
abbrev pub WasMarked : List OutboxEvent → String → Type 0
WasMarked events id =
    (e : OutboxEvent) × Memᴰ e events × (e.published_at ≢ none) × (e.event_id ≡ id)

-- Whatever calls fail, over any ticks of the relay, if the ids of the events are distinct: an event
-- that is marked as published afterwards was marked before, or a message with its topic, key and
-- payload was accepted by the broker.
pub published_was_sent :
    {T : Type 0} (r : Relay) (ts : List ℕ) (w : World T) (e : OutboxEvent)
    → HasDistinctKeys (λ x. x.event_id) w.db.outbox
    → Memᴰ e (start r ts w).1.db.outbox
    → e.published_at ≢ none
    → WasMarked w.db.outbox e.event_id ⊎ Memᴰ (message_of e) (start r ts w).1.sent
published_was_sent r ts w e distinct m marked =
    let Old = WasMarked w.db.outbox in
    let i : In Old [] w = record {
      distinct = distinct;
      rows =
          All-intro (Row Old [] w.sent) w.db.outbox (λ x at. (λ was. inl (x, at, was, refl), tt));
    } in
    (All-mem (Row Old [] _) _ (start-In Old r ts w i).rows m).0 marked
