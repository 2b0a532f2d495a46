-- ===== src/Outbox/Emptied.antt =====
-- A round of the relay in which nothing fails leaves nothing to publish.
use mathlib.Core.List.{Memᴰ, Permᴰ, append-nil, append_assoc}
use software_engineering_sch.Base.{
  ℕ, zero, suc, ◌≤◌, String, none, some, Bool, true, false, List, [], ◌∷◌, ◌++◌, map, take, select,
  exists, update, length, order_by, order_by-perm, exists-perm, length-perm, Option, ◌≡◌, inl, inr,
  refl, sym, ap, ◌∙◌, arith, eq_iff, eq_refl, All, All-imp, All-intro, All-update, Bool-cases,
  if◌then◌else◌,
}
use software_engineering_sch.Errors.{ok}
use software_engineering_sch.Outbox.Event.{OutboxEvent}
use software_engineering_sch.Outbox.Store.{
  has_id, fetch_unpublished, mark_published, candidates, is_candidate, is_unlocked, is_unpublished,
  is_among, occurs_before, lock,
}
use software_engineering_sch.Outbox.Relay.{Relay, settle, publish_all, publish_once}
use software_engineering_sch.Outbox.Order.{message_of}
use software_engineering_sch.Outbox.Metrics.{backlog, is_pending}
use software_engineering_sch.Db.{
  World, eq-calm, calm, pure, ◌>>=◌, publish, try, call, pool_exec, wrapping,
}

-- Every pending event is one of these.
abbrev IsLeft : List OutboxEvent → OutboxEvent → Type 0
IsLeft es r = is_pending r ≡ true → exists (has_id r.event_id) es ≡ true

marked_off :
    (e : OutboxEvent) (es : List OutboxEvent) (now : ℕ) (events : List OutboxEvent)
    → All (IsLeft (e ∷ es)) events
    → All (IsLeft es) (
        update
          (has_id e.event_id)
          (λ r. record r { published_at = some now; locked_until = none; last_error = none })
          events)
marked_off e es now [] h = tt
marked_off e es now (r ∷ rs) (first, rest) = (
  ground (arith, first, eq_iff r.event_id e.event_id, eq_iff e.event_id r.event_id),
  marked_off e es now rs rest,
)

module _ {T : Type 0} where
  -- The loop, when no call fails: every event of the batch is sent, and is no longer left.
  empties :
      (es : List OutboxEvent) (w : World T)
      → All (IsLeft es) w.db.outbox
      → ((publish_all es (calm w)).0 ≡ ok tt)
        × All (IsLeft []) (publish_all es (calm w)).1.db.outbox
        × ((publish_all es (calm w)).1.sent ≡ w.sent ++ map message_of es)
  unfolding publish_all settle publish mark_published pool_exec call pure try wrapping ◌>>=◌
  empties [] w h = (refl, h, sym (append-nil w.sent))
  empties (e ∷ es) w h =
      let w' = record w {
        sent = w.sent ++ message_of e ∷ [];
        db = record w.db {
          outbox =
              update (has_id e.event_id)
                (λ r. record r {
                  published_at = some w.now;
                  locked_until = none;
                  last_error = none;
                })
                w.db.outbox;
        };
      } in
      let (done, left, sent) = empties es w' (marked_off e es w.now w.db.outbox h) in
      (done, left, sent ∙ append_assoc w.sent (message_of e ∷ []) (map message_of es))

select_congr :
    (p q : OutboxEvent → Bool) (xs : List OutboxEvent)
    → All (λ x. p x ≡ q x) xs
    → select p xs ≡ select q xs
select_congr p q [] h = refl
select_congr p q (x ∷ xs) h = rw (h.0, select_congr p q xs h.1) refl

length-order_by :
    (before : OutboxEvent → OutboxEvent → Bool) (xs : List OutboxEvent)
    → length (order_by before xs) ≡ length xs
length-order_by before xs = sym (length-perm (order_by-perm before xs))

take_all : (n : ℕ) (xs : List OutboxEvent) → length xs ≤ n → take n xs ≡ xs
take_all zero [] h = refl
take_all zero (x ∷ xs) h = absurd (omega arith)
take_all (suc n) [] h = refl
take_all (suc n) (x ∷ xs) h = ap (λ l. x ∷ l) (take_all n xs (omega (arith, h)))

-- An id of a selected row is found in the batch.
exists-lock :
    (now : ℕ) (id : String) (xs : List OutboxEvent)
    → exists (has_id id) (map (lock now) xs) ≡ exists (has_id id) xs
exists-lock now id [] = refl
exists-lock now id (x ∷ xs) = ap (λ b. if has_id id x then true else b) (exists-lock now id xs)

exists-select :
    (p : OutboxEvent → Bool) (xs : List OutboxEvent) (x : OutboxEvent)
    → Memᴰ x xs
    → p x ≡ true
    → exists (has_id x.event_id) (select p xs) ≡ true
exists-select p [] x m h = elim m [ ]
exists-select p (y ∷ ys) x (Memᴰ.head e) h = rw (← e, h) (ground (arith, eq_refl x.event_id))
exists-select p (y ∷ ys) x (Memᴰ.tail m) h = ground (arith, exists-select p ys x m h)

-- The events with no time of publishing.
abbrev has_none : Option ℕ → Bool
has_none none = true
has_none (some t) = false

abbrev pub unpublished : List OutboxEvent → List OutboxEvent
unpublished events = select (λ e. has_none e.published_at) events

-- No lease, or one that is over.
abbrev pub IsOver : ℕ → Option ℕ → Type 0
IsOver now none = Unit
IsOver now (some t) = suc t ≤ now

pending-has_none : (o : Option ℕ) → is_unpublished o ≡ has_none o
pending-has_none none = refl
pending-has_none (some t) = refl

over_unlocked : (now : ℕ) (o : Option ℕ) → IsOver now o → is_unlocked now o ≡ true
over_unlocked now none h = refl
over_unlocked now (some t) h = ground (arith, h)

-- With no lease and no lock in the way, and room for all, the batch is all that is not published.
whole_batch :
    (limit now : ℕ) (locked : String → Bool) (events : List OutboxEvent)
    → ((id : String) → locked id ≡ false)
    → All (λ e. IsOver now e.locked_until) events
    → length (unpublished events) ≤ limit
    → candidates limit now locked events ≡ order_by occurs_before (unpublished events)
unfolding candidates is_candidate
whole_batch limit now locked events free over room =
    rw
      (select_congr (is_candidate now locked) (λ e. has_none e.published_at) events
        (All-imp (λ e. IsOver now e.locked_until) _ events
          (λ e h.
            rw
              (over_unlocked now e.locked_until h, free e.event_id, pending-has_none e.published_at)
              (ground arith))
          over))
      (take_all limit (order_by occurs_before (unpublished events))
        (omega (arith, length-order_by occurs_before (unpublished events), room)))

batch_rest :
    (now : ℕ) (events es : List OutboxEvent)
    → Permᴰ (unpublished events) es
    → All (IsLeft (map (lock now) es)) events
batch_rest now events es p = All-intro (IsLeft (map (lock now) es)) events λ r m pending.
    exists-lock now r.event_id es
    ∙ sym (exists-perm (has_id r.event_id) p)
    ∙ exists-select (λ e. has_none e.published_at) events r m
        (sym (pending-has_none r.published_at) ∙ pending)

none_left :
    (events : List OutboxEvent)
    → All (IsLeft []) events
    → backlog events ≡ record { pending = 0; failed = 0; attempts = 0 }
unfolding backlog
none_left [] h = refl
none_left (e ∷ es) h = elim (Bool-cases (is_pending e)) [
  | inl pending ↦ cc (h.0 pending)
  | inr sent ↦ rw (sent) (ground (arith, none_left es h.1))
]

unlocked :
    (now : ℕ) (es : List OutboxEvent) → map message_of (map (lock now) es) ≡ map message_of es
unlocked now [] = refl
unlocked now (e ∷ es) = ap (λ l. message_of e ∷ l) (unlocked now es)

-- A round of the relay when no call fails, no other transaction holds a row, every lease is over and
-- the batch has room for all events that are not published: it is no error, sends the messages of
-- exactly these events, each once, in some order, and all three gauges are then zero.
pub calm_round_empties_outbox :
    {T : Type 0} (r : Relay) (w : World T)
    → w.faults ≡ []
    → ((id : String) → w.locked id ≡ false)
    → All (λ e. IsOver w.now e.locked_until) w.db.outbox
    → length (unpublished w.db.outbox) ≤ r.batch_size
    → ((publish_once r w).0 ≡ ok tt)
      × ((es : List OutboxEvent) × Permᴰ (unpublished w.db.outbox) es
          × ((publish_once r w).1.sent ≡ w.sent ++ map message_of es))
      × (backlog (publish_once r w).1.db.outbox ≡ record { pending = 0; failed = 0; attempts = 0 })
unfolding publish_once fetch_unpublished pool_exec call wrapping ◌>>=◌
calm_round_empties_outbox r w reachable free over room =
    let chosen = order_by occurs_before (unpublished w.db.outbox) in
    let es = w.orders.returning.order w.now chosen in
    let all : Permᴰ (unpublished w.db.outbox) es =
      Permᴰ.trans (order_by-perm occurs_before (unpublished w.db.outbox))
        (w.orders.returning.permutes w.now chosen) in
    let v = record w {
      db = record w.db { outbox = update (is_among chosen) (lock w.now) w.db.outbox };
    } in
    let (done, left, sent) = empties (map (lock w.now) es) v (
      All-update (IsLeft (map (lock w.now) es)) (is_among chosen) (lock w.now) w.db.outbox
        (λ x _ h. h) (batch_rest w.now w.db.outbox es all)) in
    rw (eq-calm w reachable, whole_batch r.batch_size w.now w.locked w.db.outbox free over room)
      (done, (es, all, sent ∙ ap (λ l. w.sent ++ l) (unlocked w.now es)), none_left _ left)
