-- ===== src/Outbox/Order.antt =====
-- What the relay sends, and in which order.
use software_engineering_sch.Base.{
  ℕ, zero, suc, Option, none, some, true, false, List, [], ◌∷◌, ◌++◌, map, take, ◌≡◌, refl, sym,
  ◌∙◌, ap, String,
}
use mathlib.Core.List.{append-nil, append_assoc}
use software_engineering_sch.Errors.{Error, Result, ok, err}
use software_engineering_sch.Outbox.Event.{OutboxEvent}
use software_engineering_sch.Outbox.Store.{
  fetch_unpublished, mark_published, mark_failed, candidates, lock, locked_batch,
}
use software_engineering_sch.Outbox.Relay.{Relay, settle, publish_all, publish_once}
use software_engineering_sch.Db.{
  World, Database, Message, Action, pure, ◌>>=◌, publish, try, attempt, call, pool_exec, wrapping,
  fault_of, rest_of,
}

-- The message of an event.
abbrev pub message_of : OutboxEvent → Message
message_of e = record { topic = e.topic; key = e.kafka_key; value = e.payload }

-- What was sent meanwhile are the messages of the first of the events, in their order.
pub record SentInOrder (es : List OutboxEvent) (before after : List Message) : Type 0 where
  pub published : ℕ
  pub in_order : after ≡ before ++ map message_of (take published es)

module _ {T : Type 0} where
  attempt-sent :
      {A : Type 0} (o : Option Error) (f : World T → Database T → A × Database T) (w : World T)
      → (attempt o (λ w. let (a, d) = f w w.db in (ok a, record w { db = d })) w).1.sent ≡ w.sent
  attempt-sent none f w = refl
  attempt-sent (some e) f w = refl

  pool_exec-sent :
      {A : Type 0} (f : World T → Database T → A × Database T) (w : World T)
      → (pool_exec f w).1.sent ≡ w.sent
  unfolding pool_exec call
  pool_exec-sent f w = attempt-sent (fault_of w.faults) f (record w { faults = rest_of w.faults })

  mark_published-sent : (id : String) (w : World T) → (mark_published id w).1.sent ≡ w.sent
  unfolding mark_published wrapping
  mark_published-sent id w = pool_exec-sent _ w

  mark_failed-sent :
      (id : String) (cause : Option Error) (w : World T) → (mark_failed id cause w).1.sent ≡ w.sent
  unfolding mark_failed wrapping
  mark_failed-sent id cause w = pool_exec-sent _ w

  fetch_unpublished-sent : (limit : ℕ) (w : World T) → (fetch_unpublished limit w).1.sent ≡ w.sent
  unfolding fetch_unpublished wrapping
  fetch_unpublished-sent limit w = pool_exec-sent _ w

  -- The loop, after its event is marked or has failed to be.
  goes_on :
      (x : Result (Unit {0}) × World T) (e : OutboxEvent) (es : List OutboxEvent) (w : World T)
      → x.1.sent ≡ w.sent ++ message_of e ∷ []
      → SentInOrder es x.1.sent (publish_all es x.1).1.sent
      → SentInOrder
          (e ∷ es)
          w.sent
          ((((λ _. x) >>= λ _. pure true) >>= λ more. elim more [
            | true ↦ publish_all es
            | false ↦ pure tt
          ])
            w).1.sent
  unfolding ◌>>=◌ pure
  goes_on (ok _, w') e es w h rest = record {
    published = suc rest.published;
    in_order = rw (rest.in_order, h) (append_assoc w.sent (message_of e ∷ []) _);
  }
  goes_on (err _, w') e es w h rest = record { published = 1; in_order = h }

  ends :
      (x : Result (Unit {0}) × World T) (es : List OutboxEvent) (w : World T)
      → x.1.sent ≡ w.sent
      → (k : Action T (Unit {0}))
      → SentInOrder es w.sent
          ((((λ _. x) >>= λ _. pure false) >>= λ more. elim more [ true ↦ k | false ↦ pure tt ])
            w).1.sent
  unfolding ◌>>=◌ pure
  ends (ok _, w') es w h k = record { published = 0; in_order = h ∙ sym (append-nil w.sent) }
  ends (err _, w') es w h k = record { published = 0; in_order = h ∙ sym (append-nil w.sent) }

  -- The loop, after the broker's answer.
  after_publish :
      (o : Option Error) (e : OutboxEvent) (es : List OutboxEvent) (w : World T)
      → ((v : World T) → SentInOrder es v.sent (publish_all es v).1.sent)
      → SentInOrder
          (e ∷ es)
          w.sent
          ((try (attempt o (λ v. (ok tt, record v { sent = v.sent ++ message_of e ∷ [] })))
              >>= λ answer.
                  settle e answer >>= λ more. elim more [ true ↦ publish_all es | false ↦ pure tt ])
            w).1.sent
  unfolding ◌>>=◌ pure try settle
  after_publish none e es w rest =
      let w' = record w { sent = w.sent ++ message_of e ∷ [] } in
      goes_on (mark_published e.event_id w') e es w (mark_published-sent e.event_id w') (rest _)
  after_publish (some cause) e es w rest =
      ends (mark_failed e.event_id (some cause) w) (e ∷ es) w
        (mark_failed-sent e.event_id (some cause) w) (publish_all es)

  publish_all-SentInOrder :
      (es : List OutboxEvent) (w : World T) → SentInOrder es w.sent (publish_all es w).1.sent
  unfolding publish_all publish call pure try ◌>>=◌
  publish_all-SentInOrder [] w = record { published = 0; in_order = sym (append-nil w.sent) }
  publish_all-SentInOrder (e ∷ es) w =
      after_publish (fault_of w.faults) e es (record w { faults = rest_of w.faults })
        (publish_all-SentInOrder es)

-- The batch of a round, in the order in which the database returns it.
abbrev pub batch : {T : Type 0} → Relay → World T → List OutboxEvent
batch r w = w.orders.returning.order w.now (candidates r.batch_size w.now w.locked w.db.outbox)

-- The lease does not change the message.
take-map-lock :
    (now n : ℕ) (es : List OutboxEvent)
    → map message_of (take n (map (lock now) es)) ≡ map message_of (take n es)
take-map-lock now zero es = refl
take-map-lock now (suc n) [] = refl
take-map-lock now (suc n) (e ∷ es) = ap (λ l. message_of e ∷ l) (take-map-lock now n es)

module _ {T : Type 0} (r : Relay) where
  after_fetch :
      (o : Option Error) (w : World T)
      → SentInOrder
          (batch r w)
          w.sent
          ((wrapping "fetch unpublished outbox events" (
                attempt o (λ v.
                  let (es, d) = locked_batch r.batch_size v v.db in (ok es, record v { db = d })))
              >>= publish_all)
            w).1.sent
  unfolding ◌>>=◌ wrapping
  after_fetch none w =
      let done = publish_all-SentInOrder (map (lock w.now) (batch r w)) _ in
      record {
        published = done.published;
        in_order = done.in_order ∙ ap (λ l. w.sent ++ l) (take-map-lock w.now done.published _);
      }
  after_fetch (some e) w = record { published = 0; in_order = sym (append-nil w.sent) }

-- Whatever calls fail, one round of the relay sends the messages of the first of the batch's events,
-- each once and in the order in which the database returns the batch, and sends nothing else.
pub publish_once_in_order :
    {T : Type 0} (r : Relay) (w : World T)
    → SentInOrder (batch r w) w.sent (publish_once r w).1.sent
unfolding publish_once fetch_unpublished pool_exec call wrapping ◌>>=◌
publish_once_in_order r w =
    after_fetch r (fault_of w.faults) (record w { faults = rest_of w.faults })
