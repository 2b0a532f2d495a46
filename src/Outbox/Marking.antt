-- ===== src/Outbox/Marking.antt =====
-- The table while the relay goes through its batch: what is marked as published was sent.
use mathlib.Core.List.{Memᴰ}
use software_engineering_sch.Base.{
  ℕ, ◌+◌, String, none, some, Bool, List, [], ◌∷◌, ◌++◌, map, take, ◌≡◌, ◌≢◌, ◌⊎◌, inl, inr, refl,
  sym, ap, subst, eq_iff, update, select, order_by, All, All-imp, All-intro, All-mem, All-take,
  All-perm, All-order_by, All-select_mem, All-update, HasDistinctKeys, update-HasDistinctKeys,
  eq_of_key, mem-concat,
}
use software_engineering_sch.Outbox.Event.{OutboxEvent}
use software_engineering_sch.Outbox.Store.{
  has_id, candidates, is_candidate, is_among, occurs_before, lock,
}
use software_engineering_sch.Outbox.Order.{message_of}
use software_engineering_sch.Db.{World, Message, Returning}

-- An event whose message is among these, if it is marked, unless `Old` holds of its id.
abbrev pub IsSent : (String → Type 0) → List Message → OutboxEvent → Type 0
IsSent Old sent e = e.published_at ≢ none → Old e.event_id ⊎ Memᴰ (message_of e) sent

-- The lease changes neither the id nor the message.
All-map-lock :
    (now : ℕ) (es : List OutboxEvent) (r : OutboxEvent)
    → All (λ e. e.event_id ≡ r.event_id → message_of e ≡ message_of r) es
    → All (λ e. e.event_id ≡ r.event_id → message_of e ≡ message_of r) (map (lock now) es)
All-map-lock now [] r h = tt
All-map-lock now (e ∷ es) r h = (h.0, All-map-lock now es r h.1)

module _ (Old : String → Type 0) where
  -- A row and the events of the batch that are left to publish.
  abbrev pub Row : List OutboxEvent → List Message → OutboxEvent → Type 0
  Row es sent r =
      IsSent Old sent r × All (λ e. e.event_id ≡ r.event_id → message_of e ≡ message_of r) es

  pub record IsSettled (es : List OutboxEvent) (sent : List Message) (events : List OutboxEvent)
      : Type 0 where
    pub distinct : HasDistinctKeys (λ e. e.event_id) events
    pub rows : All (Row es sent) events

  pub later :
      (es : List OutboxEvent) (e : OutboxEvent) (sent : List Message) (events : List OutboxEvent)
      → IsSettled (e ∷ es) sent events
      → IsSettled es sent events
  later es e sent events i = record {
    distinct = i.distinct;
    rows = All-imp (Row (e ∷ es) sent) (Row es sent) events (λ r h. (h.0, h.1.1)) i.rows;
  }

  pub at_end :
      (es : List OutboxEvent) (sent : List Message) (events : List OutboxEvent)
      → IsSettled es sent events
      → IsSettled [] sent events
  at_end es sent events i = record {
    distinct = i.distinct;
    rows = All-imp (Row es sent) (Row [] sent) events (λ r h. (h.0, tt)) i.rows;
  }

  pub sending :
      (es : List OutboxEvent) (m : Message) (sent : List Message) (events : List OutboxEvent)
      → IsSettled es sent events
      → IsSettled es (sent ++ m ∷ []) events
  sending es m sent events i = record {
    distinct = i.distinct;
    rows =
        All-imp (Row es sent) (Row es (sent ++ m ∷ [])) events
          (λ r h. (
            λ marked. elim (h.0 marked) [
              | inl old ↦ inl old
              | inr mem ↦ inr (mem-concat sent m mem)
            ],
            h.1,
          ))
          i.rows;
  }

  -- Marking the event whose message was sent.
  pub marking :
      (es : List OutboxEvent) (e : OutboxEvent) (sent : List Message) (now : ℕ)
      (events : List OutboxEvent)
      → Memᴰ (message_of e) sent
      → IsSettled (e ∷ es) sent events
      → IsSettled (e ∷ es) sent (
          update
            (has_id e.event_id)
            (λ r. record r { published_at = some now; locked_until = none; last_error = none })
            events)
  marking es e sent now events was i = record {
    distinct =
        update-HasDistinctKeys (λ x. x.event_id) (has_id e.event_id) _ events (λ x. refl)
          i.distinct;
    rows =
        All-update (Row (e ∷ es) sent) (has_id e.event_id) _ events
          (λ r chosen h. (
            λ _. inr (
                subst (λ m. Memᴰ m sent) (h.1.0 (sym ((eq_iff r.event_id e.event_id).0 chosen)))
                  was),
            h.1,
          ))
          i.rows;
  }

  pub failing :
      (es : List OutboxEvent) (id : String) (text : String) (sent : List Message)
      (events : List OutboxEvent)
      → IsSettled es sent events
      → IsSettled es sent (
          update
            (has_id id)
            (λ r. record r {
              publish_attempts = r.publish_attempts + 1;
              locked_until = none;
              last_error = some text;
            })
            events)
  failing es id text sent events i = record {
    distinct = update-HasDistinctKeys (λ x. x.event_id) (has_id id) _ events (λ x. refl) i.distinct;
    rows = All-update (Row es sent) (has_id id) _ events (λ r chosen h. h) i.rows;
  }

  -- The batch of a fetch is made of rows.
  pub fetching :
      (limit now : ℕ) (locked : String → Bool) (returning : Returning OutboxEvent)
      (sent : List Message) (events : List OutboxEvent)
      → IsSettled [] sent events
      → let chosen = candidates limit now locked events in
        IsSettled
          (map (lock now) (returning.order now chosen))
          sent
          (update (is_among chosen) (lock now) events)
  unfolding candidates
  fetching limit now locked returning sent events i =
      let open_rows = select (is_candidate now locked) events in
      let chosen = take limit (order_by occurs_before open_rows) in
      let batch = returning.order now chosen in
      let are_rows : All (λ c. Memᴰ c events) chosen =
        All-take (λ c. Memᴰ c events) limit (order_by occurs_before open_rows)
          (All-order_by (λ c. Memᴰ c events) occurs_before open_rows
            (All-select_mem (λ c. Memᴰ c events) (is_candidate now locked) events (λ x m _. m))) in
      let told : (r : OutboxEvent)
          → Memᴰ r events
          → All (λ e. e.event_id ≡ r.event_id → message_of e ≡ message_of r)
              (map (lock now) batch) =
        λ r m. All-map-lock now batch r (
          All-imp (λ c. Memᴰ c events) _ batch
            (λ c at same. ap message_of (eq_of_key (λ x. x.event_id) events i.distinct at m same))
            (All-perm (λ c. Memᴰ c events) (returning.permutes now chosen) are_rows)) in
      record {
        distinct =
            update-HasDistinctKeys (λ x. x.event_id) (is_among chosen) _ events (λ x. refl)
              i.distinct;
        rows =
            All-update (Row (map (lock now) batch) sent) (is_among chosen) (lock now) events
              (λ r _ h. h)
              (All-intro (Row (map (lock now) batch) sent) events
                (λ r m. ((All-mem (Row [] sent) events i.rows m).0, told r m)));
      }

  -- The invariant of a world in which these events are left to publish.
  abbrev pub In : {T : Type 0} → List OutboxEvent → World T → Type 0
  In es w = IsSettled es w.sent w.db.outbox
