-- ===== src/Subscription/Expansion.antt =====
-- The expansion of a release: what one notification's transaction does, whichever calls fail.
use mathlib.Core.List.{append_assoc, append-nil}
use software_engineering_sch.Base.{
  ℕ, suc, ◌≤◌, String, Option, none, some, false, List, [], ◌∷◌, ◌++◌, ◌≡◌, inl, inr, refl, sym, ap,
  arith, exists, length, String-cases, eq_iff, exists-concat, ◌∙◌, ◌==◌,
}
use software_engineering_sch.Errors.{Error, Result, ok, err, ◌+++◌}
use software_engineering_sch.Contracts.{
  Envelope, NotificationSendRequestedPayload, event_notification_requested,
  topic_notification_commands,
}
use software_engineering_sch.Contracts.Codec.{notification_codec, marshal, unmarshal}
use software_engineering_sch.Contracts.Codec.RoundTrip.{unmarshal-marshal}
use software_engineering_sch.Uuid.{Uuid, new_string}
use software_engineering_sch.Outbox.Event.{OutboxEvent}
use software_engineering_sch.Outbox.Store.{new_event, has_id, insert_tx, add_event}
use software_engineering_sch.ApiTables.{ApiTables}
use software_engineering_sch.Db.{
  World, Database, fault_of, rest_of, pure, gets, begin, commit, call, call_tx, exec, wrapping,
  for_each, ◌>>=◌, continue, labelled,
}
use software_engineering_sch.Subscription.Repository.{Api}
use software_engineering_sch.Subscription.Publisher.{
  Hashing, email_hash, build_release_notification, publish_release_notification,
}

-- The event asks the notification service to mail this release to this address.
pub record IsNotification (hashing : Hashing) (email repo tag correlation_id : String)
    (e : OutboxEvent) : Type 0 where
  pub topic : e.topic ≡ topic_notification_commands
  pub key : e.kafka_key ≡ email_hash hashing email
  pub unsent : e.published_at ≡ none
  pub asked : Envelope NotificationSendRequestedPayload
  pub decoded : unmarshal ⦃c = notification_codec⦄ e.payload ≡ some asked
  pub typed : asked.event_type ≡ event_notification_requested
  pub correlated : asked.correlation_id ≡ correlation_id
  pub recipient : asked.payload.recipient_email ≡ email
  pub repo_told : asked.payload.repo ≡ repo
  pub tag_told : asked.payload.tag ≡ tag
  pub keyed :
      asked.payload.idempotency_key ≡ repo +++ ":" +++ tag +++ ":" +++ email_hash hashing email

-- No UUID that is still to be generated is in use.
abbrev pub IsFresh : Uuid → ℕ → List OutboxEvent → Type 0
IsFresh u ids events = (n : ℕ) → ids ≤ n → exists (has_id (u.generate n)) events ≡ false

pub other_id : (u : Uuid) (m n : ℕ) → suc m ≤ n → (u.generate m == u.generate n) ≡ false
other_id u m n later = elim (String-cases (u.generate m) (u.generate n)) [
  | inl same ↦ absurd (omega (arith, u.generate-injective m n same))
  | inr other ↦ ground (arith, eq_iff (u.generate m) (u.generate n))
]

-- The outbox with nothing added.
pub nothing_added : (d : Database ApiTables) → d ≡ record d { outbox = d.outbox ++ [] }
nothing_added d = ap (λ l. record d { outbox = l }) (sym (append-nil d.outbox))

module _ (hashing : Hashing) (u : Uuid) (repo tag correlation_id : String) where
  unfoldable notification_row : String → World ApiTables → OutboxEvent
  notification_row email w =
      let id = u.generate w.ids in
      let event = build_release_notification hashing email repo tag id correlation_id w.now in
      new_event id event_notification_requested event.occurred_at "subscription-api" correlation_id
        topic_notification_commands event.payload.email_hash (marshal event)

  notification_row-IsNotification :
      (email : String) (w : World ApiTables)
      → IsNotification hashing email repo tag correlation_id (notification_row email w)
  unfolding notification_row build_release_notification
  notification_row-IsNotification email w = record {
    topic = refl;
    key = refl;
    unsent = refl;
    asked = _;
    decoded = unmarshal-marshal _;
    typed = refl;
    correlated = refl;
    recipient = refl;
    repo_told = refl;
    tag_told = refl;
    keyed = refl;
  }

  -- What the transaction did: it added the row, or failed and did nothing.
  abbrev IsSettled : String → World ApiTables → Result (Unit {0}) × World ApiTables → Type 0
  IsSettled email w (ok _, w') =
      (w'.db ≡ record w.db { outbox = w.db.outbox ++ notification_row email w ∷ [] })
      × (w'.ids ≡ suc w.ids)
  IsSettled email w (err e, w') = w'.db ≡ w.db

  settled_by :
      (email : String) (w : World ApiTables) (f g h : Option Error)
      → fault_of w.faults ≡ f
      → fault_of (rest_of w.faults) ≡ g
      → fault_of (rest_of (rest_of w.faults)) ≡ h
      → exists (has_id (u.generate w.ids)) w.db.outbox ≡ false
      → IsSettled email w (publish_release_notification hashing u email repo tag correlation_id w)
  unfolding publish_release_notification new_string gets insert_tx begin commit call call_tx exec
      wrapping pure ◌>>=◌ add_event notification_row build_release_notification marshal
  settled_by email w none none none p q r fresh = rw (p, q, r) (ground (arith, fresh))
  settled_by email w none none (some e) p q r fresh = rw (p, q, r) refl
  settled_by email w none (some e) h p q r fresh = rw (p, q) refl
  settled_by email w (some e) g h p q r fresh = rw p refl

  settled :
      (email : String) (w : World ApiTables)
      → IsFresh u w.ids w.db.outbox
      → IsSettled email w (publish_release_notification hashing u email repo tag correlation_id w)
  settled email w fresh =
      settled_by email w (fault_of w.faults) (fault_of (rest_of w.faults))
        (fault_of (rest_of (rest_of w.faults))) refl refl refl (fresh w.ids (omega arith))

  -- The UUID of a new row is not generated again.
  IsFresh-notification_row :
      (email : String) (w : World ApiTables)
      → IsFresh u w.ids w.db.outbox
      → IsFresh u (suc w.ids) (w.db.outbox ++ notification_row email w ∷ [])
  unfolding notification_row
  IsFresh-notification_row email w fresh n later =
      exists-concat (λ e. e.event_id) (u.generate n) w.db.outbox (notification_row email w)
        (fresh n (omega (arith, later))) (other_id u w.ids n later)

  -- One event for each of the addresses, in their order, up to some address.
  abbrev pub Notifies : List String → List OutboxEvent → Type 0
  Notifies [] [] = Unit
  Notifies [] (e ∷ es) = ⊥
  Notifies (m ∷ ms) [] = Unit
  Notifies (m ∷ ms) (e ∷ es) = IsNotification hashing m repo tag correlation_id e × Notifies ms es

  -- What the outbox has gained: the notifications of the first addresses, of all if there is no error.
  abbrev pub IsExpanded :
      List String → World ApiTables → Result (Unit {0}) × World ApiTables → Type 0
  IsExpanded emails w (r, w') =
      (es : List OutboxEvent) × (w'.db ≡ record w.db { outbox = w.db.outbox ++ es })
      × Notifies emails es
      × (r ≡ ok tt → length es ≡ length emails)

  pub Notifies-nil : (emails : List String) → Notifies emails []
  Notifies-nil [] = tt
  Notifies-nil (m ∷ ms) = tt

  -- The loop of `Expand`.
  abbrev loop : List String → Api (Unit {0})
  loop = for_each λ email.
      wrapping "publish release notification"
        (publish_release_notification hashing u email repo tag correlation_id)

  -- The loop after the first address, by what its transaction did.
  then_expands :
      (m : String) (ms : List String) (w : World ApiTables)
      (out : Result (Unit {0}) × World ApiTables)
      → IsFresh u w.ids w.db.outbox
      → IsSettled m w out
      → ((w' : World ApiTables) → IsFresh u w'.ids w'.db.outbox → IsExpanded ms w' (loop ms w'))
      → IsExpanded
          (m ∷ ms)
          w
          (continue (labelled "publish release notification" out.0) (λ _. loop ms) out.1)
  then_expands m ms w (err e, w') fresh same next = ([], same ∙ nothing_added w.db, tt, λ h. cc h)
  then_expands m ms w (ok _, w') fresh (same, ids) next =
      let (es, after, told, whole) = next w' (
        rw (ids, ap (λ (d : Database ApiTables). d.outbox) same)
          (IsFresh-notification_row m w fresh)) in
      (
        notification_row m w ∷ es,
        after
            ∙ rw same (
                ap (λ l. record w.db { outbox = l })
                  (append_assoc w.db.outbox (notification_row m w ∷ []) es)),
        (notification_row-IsNotification m w, told),
        λ h. omega (arith, whole h),
      )

  pub expands :
      (emails : List String) (w : World ApiTables)
      → IsFresh u w.ids w.db.outbox
      → IsExpanded emails w (loop emails w)
  unfolding for_each wrapping ◌>>=◌ pure
  expands [] w fresh = ([], nothing_added w.db, tt, λ e. refl)
  expands (m ∷ ms) w fresh =
      then_expands m ms w (publish_release_notification hashing u m repo tag correlation_id w) fresh
        (settled m w fresh) (expands ms)
