-- ===== src/Watchsaga/Resent.antt =====
-- The commands that the sweep sends again.
use mathlib.Core.List.{Memᴰ, append_assoc, append-nil}
use software_engineering_sch.Base.{
  ℕ, suc, String, Bool, none, some, true, false, List, [], ◌∷◌, ◌++◌, ◌≡◌, refl, sym, ap, ◌∙◌,
  arith, leb, if◌then◌else◌, All, exists, exists-concat, subst, eqb,
}
use software_engineering_sch.Errors.{Result, ok, err}
use software_engineering_sch.Contracts.{Envelope, RepoWatchCommandPayload, topic_watchlist_commands}
use software_engineering_sch.Contracts.Codec.{command_codec, unmarshal, marshal}
use software_engineering_sch.Contracts.Codec.RoundTrip.{unmarshal-marshal}
use software_engineering_sch.Uuid.{Uuid}
use software_engineering_sch.Outbox.Event.{OutboxEvent}
use software_engineering_sch.Outbox.Store.{has_id, add_event, new_event}
use software_engineering_sch.Db.{World}
use software_engineering_sch.ApiTables.{ApiTables, Instance}
use software_engineering_sch.Subscription.Expansion.{IsFresh, other_id}
use software_engineering_sch.Watchsaga.Rules.{command_event_type, validate_action}
use software_engineering_sch.Watchsaga.Swept.{row_again, type_of, after, after_instance, after_all}

-- The event carries the saga's command to the scanner.
pub record IsCommandAgain (i : Instance) (e : OutboxEvent) : Type 0 where
  pub topic : e.topic ≡ topic_watchlist_commands
  pub key : e.kafka_key ≡ i.repo
  pub unsent : e.published_at ≡ none
  pub command : Envelope RepoWatchCommandPayload
  pub decoded : unmarshal e.payload ≡ some command
  pub typed : command_event_type i.action ≡ ok command.event_type
  pub correlated : command.correlation_id ≡ i.correlation_id
  pub saga_id : command.payload.saga_id ≡ i.saga_id
  pub action : command.payload.action ≡ i.action
  pub repo : command.payload.repo ≡ i.repo

typed_by :
    (action : String) (event_type : Result String)
    → command_event_type action ≡ event_type
    → validate_action action ≡ ok tt
    → command_event_type action ≡ ok (type_of event_type)
unfolding validate_action
typed_by action (ok t) same known = same
typed_by action (err e) same known = cc

-- An event whose time is the clock's stays as it is.
unchanged : (b : Bool) (e : OutboxEvent) → (if b then e else e) ≡ e
unchanged true e = refl
unchanged false e = refl

module _ (u : Uuid) where
  row_of : Instance → World ApiTables → OutboxEvent
  row_of i w =
      let id = u.generate w.ids in
      let event_type = type_of (command_event_type i.action) in
      let command : Envelope RepoWatchCommandPayload = record {
        event_id = id;
        event_type = event_type;
        occurred_at = w.now;
        source = "subscription-api-saga-orchestrator";
        correlation_id = i.correlation_id;
        not_before = none;
        payload = record { saga_id = i.saga_id; action = i.action; repo = i.repo };
      } in
      new_event id event_type w.now "subscription-api-saga-orchestrator" i.correlation_id
        topic_watchlist_commands i.repo (marshal command)

  again-row_of :
      (i : Instance) (w : World ApiTables)
      → row_again u (type_of (command_event_type i.action)) i w ≡ row_of i w
  unfolding row_of
  again-row_of i w = unchanged (eqb w.now 0) (row_of i w)

  row_of-IsCommandAgain :
      (i : Instance) (w : World ApiTables)
      → validate_action i.action ≡ ok tt
      → IsCommandAgain i (row_of i w)
  unfolding row_of
  row_of-IsCommandAgain i w known = record {
    topic = refl;
    key = refl;
    unsent = refl;
    command = _;
    decoded = unmarshal-marshal _;
    typed = typed_by i.action (command_event_type i.action) refl known;
    correlated = refl;
    saga_id = refl;
    action = refl;
    repo = refl;
  }

  adds :
      (i : Instance) (w : World ApiTables)
      → exists (has_id (u.generate w.ids)) w.tx.outbox ≡ false
      → add_event (row_of i w) w.tx.outbox ≡ w.tx.outbox ++ row_of i w ∷ []
  unfolding row_of add_event
  adds i w unused = rw unused refl

  -- The outbox after an instance that is sent again.
  added :
      (i : Instance) (w : World ApiTables)
      → IsFresh u w.ids w.tx.outbox
      → (after u i w false).tx.outbox ≡ w.tx.outbox ++ row_of i w ∷ []
  added i w fresh =
      ap (λ e. add_event e w.tx.outbox) (again-row_of i w) ∙ adds i w (fresh w.ids (omega arith))

  row_of-IsFresh :
      (i : Instance) (w : World ApiTables)
      → IsFresh u w.ids w.tx.outbox
      → IsFresh u (suc w.ids) (w.tx.outbox ++ row_of i w ∷ [])
  unfolding row_of
  row_of-IsFresh i w fresh n later =
      exists-concat (λ e. e.event_id) (u.generate n) w.tx.outbox (row_of i w)
        (fresh n (omega (arith, later))) (other_id u w.ids n later)

  -- What the loop adds to the outbox: among it, the command of each instance that is not late.
  abbrev pub IsResent : ℕ → List Instance → List OutboxEvent → List OutboxEvent → Type 0
  IsResent now is before after =
      (es : List OutboxEvent) × (after ≡ before ++ es)
      × ((i : Instance)
          → Memᴰ i is
          → leb i.deadline_at now ≡ false
          → (e : OutboxEvent) × Memᴰ e es × IsCommandAgain i e)

  after-IsResent :
      (late : Bool) (i : Instance) (is : List Instance) (w : World ApiTables)
      → leb i.deadline_at w.now ≡ late
      → validate_action i.action ≡ ok tt
      → IsFresh u w.ids w.tx.outbox
      → (IsFresh u (after u i w late).ids (after u i w late).tx.outbox
          → IsResent w.now is
              (after u i w late).tx.outbox
              (after_all u is (after u i w late)).tx.outbox)
      → IsResent w.now (i ∷ is) w.tx.outbox (after_all u is (after u i w late)).tx.outbox
  after-IsResent true i is w late known fresh next =
      let (es, same, again) = next fresh in
      (
        es,
        same,
        λ j m on_time. elim m [
          | Memᴰ.head e ↦ absurd (cc (ap (λ x. leb x.deadline_at w.now) e, late, on_time))
          | Memᴰ.tail later ↦ again j later on_time
        ],
      )
  after-IsResent false i is w late known fresh next =
      let (es, same, again) =
        next (subst (IsFresh u (suc w.ids)) (sym (added i w fresh)) (row_of-IsFresh i w fresh)) in
      (
        row_of i w ∷ es,
        same ∙ ap (λ l. l ++ es) (added i w fresh) ∙ append_assoc w.tx.outbox (row_of i w ∷ []) es,
        λ j m on_time. elim m [
          | Memᴰ.head e ↦ (
            row_of i w,
            Memᴰ.head refl,
            subst (λ x. IsCommandAgain x (row_of i w)) (sym e) (row_of-IsCommandAgain i w known),
          )
          | Memᴰ.tail later ↦
              (let (e, listed, carries) = again j later on_time in (e, Memᴰ.tail listed, carries))
        ],
      )

  pub resent :
      (is : List Instance) (w : World ApiTables)
      → All (λ i. validate_action i.action ≡ ok tt) is
      → IsFresh u w.ids w.tx.outbox
      → IsResent w.now is w.tx.outbox (after_all u is w).tx.outbox
  resent [] w known fresh = ([], sym (append-nil w.tx.outbox), λ i m on_time. elim m [ ])
  resent (i ∷ is) w (known, rest) fresh =
      after-IsResent (leb i.deadline_at w.now) i is w refl known fresh
        (resent is (after_instance u i w) rest)
