-- ===== src/Watchsaga/Swept.antt =====
-- The loop of `RetryDue` over the due sagas, and what it makes of their rows.
use software_engineering_sch.Base.{
  none, ℕ, suc, ◌+◌, String, Bool, true, false, List, [], ◌∷◌, ◌≡◌, refl, sym, ap, ◌∙◌, subst, ◌⊎◌,
  inl, inr, leb, if◌then◌else◌, update, All, ◌==◌, mem-update, mem-update_ne, eq_iff,
}
use mathlib.Core.List.{Memᴰ}
use software_engineering_sch.Errors.{Result, ok, err}
use software_engineering_sch.Contracts.{Envelope, RepoWatchCommandPayload, topic_watchlist_commands}
use software_engineering_sch.Contracts.Codec.{command_codec, marshal}
use software_engineering_sch.Uuid.{Uuid, new_string}
use software_engineering_sch.Outbox.Event.{OutboxEvent}
use software_engineering_sch.Outbox.Store.{new_event, insert_tx, add_event, stamped}
use software_engineering_sch.Db.{World, gets, ◌>>=◌, call_tx, wrapping, exec, for_each, pure, lift}
use software_engineering_sch.ApiTables.{ApiTables, Instance}
use software_engineering_sch.Watchsaga.Rules.{
  command_event_type, validate_action, retry_delay, has_saga_id, set_expired, set_retried,
}
use software_engineering_sch.Watchsaga.Orchestrator.{
  update_sagas, prepare_watch_command, expire_instance, resend_command, retry_instance,
}

-- What the sweep makes of a due saga's row.
abbrev pub settled_by : Bool → ℕ → Instance → Instance → Instance
settled_by true now i r = set_expired now r
settled_by false now i r = set_retried now (i.attempts + 1) (now + retry_delay (i.attempts + 1)) r

abbrev pub settled : ℕ → Instance → Instance → Instance
settled now i r = settled_by (leb i.deadline_at now) now i r

-- The command that a saga gets again.
abbrev pub row_again : Uuid → String → Instance → World ApiTables → OutboxEvent
row_again u event_type i w =
    let id = u.generate w.ids in
    let command : Envelope RepoWatchCommandPayload = record {
      event_id = id;
      event_type = event_type;
      occurred_at = w.now;
      source = "subscription-api-saga-orchestrator";
      correlation_id = i.correlation_id;
      not_before = none;
      payload = record { saga_id = i.saga_id; action = i.action; repo = i.repo };
    } in
    stamped w.now (
      new_event id event_type w.now "subscription-api-saga-orchestrator" i.correlation_id
        topic_watchlist_commands i.repo (marshal command))

abbrev ready : World ApiTables → World ApiTables
ready w = record w { faults = []; aborted = false }

abbrev pub type_of : Result String → String
type_of (ok t) = t
type_of (err e) = ""

module _ (u : Uuid) (i : Instance) (w : World ApiTables) where
  -- The world after an instance of the loop.
  abbrev pub after : Bool → World ApiTables
  after late = record w {
    ids = if late then w.ids else suc w.ids;
    tx = record {
      outbox =
          if late
          then w.tx.outbox
          else add_event (row_again u (type_of (command_event_type i.action)) i w) w.tx.outbox;
      tables = record w.tx.tables {
        sagas = update (has_saga_id i.saga_id) (settled_by late w.now i) w.tx.tables.sagas;
      };
    };
  }

  retried :
      (event_type : Result String) (late : Bool)
      → command_event_type i.action ≡ event_type
      → validate_action i.action ≡ ok tt
      → (if late then expire_instance i else resend_command u w.now i) (ready w)
        ≡ (ok tt, ready (after late))
  unfolding validate_action expire_instance resend_command update_sagas prepare_watch_command
      insert_tx new_string exec call_tx wrapping lift gets pure ◌>>=◌ marshal
  retried event_type true same known = refl
  retried (ok t) false same known = rw same refl
  retried (err e) false same known = cc

module _ (u : Uuid) where
  abbrev pub after_instance : Instance → World ApiTables → World ApiTables
  after_instance i w = after u i w (leb i.deadline_at w.now)

  retry_instance_lem :
      (i : Instance) (w : World ApiTables)
      → validate_action i.action ≡ ok tt
      → retry_instance u w.now i (ready w) ≡ (ok tt, ready (after_instance i w))
  unfolding retry_instance
  retry_instance_lem i w known =
      retried u i w (command_event_type i.action) (leb i.deadline_at w.now) refl known

  abbrev pub after_all : List Instance → World ApiTables → World ApiTables
  after_all [] w = w
  after_all (i ∷ is) w = after_all is (after_instance i w)

  pub swept :
      (is : List Instance) (w : World ApiTables)
      → All (λ i. validate_action i.action ≡ ok tt) is
      → for_each (retry_instance u w.now) is (ready w) ≡ (ok tt, ready (after_all is w))
  unfolding for_each pure ◌>>=◌
  swept [] w known = refl
  swept (i ∷ is) w (known, rest) =
      rw (retry_instance_lem i w known) (swept is (after_instance i w) rest)

  -- The instances of the loop that have the id of the row `i` are that row.
  abbrev pub IsApart : Instance → List Instance → Type 0
  IsApart i is = All (λ j. (has_saga_id j.saga_id i ≡ false) ⊎ (j ≡ i)) is

  settled-id :
      (late : Bool) (now : ℕ) (i r : Instance) → (settled_by late now i r).saga_id ≡ r.saga_id
  unfolding set_expired set_retried
  settled-id true now i r = refl
  settled-id false now i r = refl

  settled_twice :
      (late : Bool) (now : ℕ) (i : Instance)
      → settled_by late now i (settled_by late now i i) ≡ settled_by late now i i
  unfolding set_expired set_retried
  settled_twice true now i = refl
  settled_twice false now i = refl

  -- The update by another instance, and by the row's own.
  other-update :
      (r j : Instance) (w : World ApiTables)
      → has_saga_id j.saga_id r ≡ false
      → Memᴰ r w.tx.tables.sagas
      → Memᴰ r (after_instance j w).tx.tables.sagas
  other-update r j w other m =
      mem-update_ne (has_saga_id j.saga_id) (settled w.now j) w.tx.tables.sagas m other

  own-update :
      (r i j : Instance) (w : World ApiTables)
      → j ≡ i
      → r.saga_id ≡ i.saga_id
      → Memᴰ r w.tx.tables.sagas
      → Memᴰ (settled w.now i r) (after_instance j w).tx.tables.sagas
  own-update r i j w same id m =
      let chosen : has_saga_id j.saga_id r ≡ true =
        (eq_iff r.saga_id j.saga_id).1 (id ∙ sym (ap (λ x. x.saga_id) same)) in
      let moved = mem-update (has_saga_id j.saga_id) (settled w.now j) w.tx.tables.sagas m in
      subst (λ x. Memᴰ x (after_instance j w).tx.tables.sagas)
        (ap (λ b. if b then settled w.now j r else r) chosen ∙ ap (λ x. settled w.now x r) same)
        moved

  -- A settled row stays so.
  stays_settled :
      (i : Instance) (is : List Instance) (w : World ApiTables)
      → IsApart i is
      → Memᴰ (settled w.now i i) w.tx.tables.sagas
      → Memᴰ (settled w.now i i) (after_all is w).tx.tables.sagas
  stays_settled i [] w apart m = m
  stays_settled i (j ∷ is) w (inl other, apart) m =
      let id = settled-id (leb i.deadline_at w.now) w.now i i in
      stays_settled i is (after_instance j w) apart
        (other-update (settled w.now i i) j w (ap (λ s. s == j.saga_id) id ∙ other) m)
  stays_settled i (j ∷ is) w (inr same, apart) m =
      let late = leb i.deadline_at w.now in
      stays_settled i is (after_instance j w) apart (
        subst (λ r. Memᴰ r (after_instance j w).tx.tables.sagas) (settled_twice late w.now i)
          (own-update (settled w.now i i) i j w same (settled-id late w.now i i) m))

  pub gets_settled :
      (i : Instance) (is : List Instance) (w : World ApiTables)
      → IsApart i is
      → Memᴰ i is
      → Memᴰ i w.tx.tables.sagas
      → Memᴰ (settled w.now i i) (after_all is w).tx.tables.sagas
  gets_settled i [] w apart m listed = elim m [ ]
  gets_settled i (j ∷ is) w (_, apart) (Memᴰ.head same) listed =
      stays_settled i is (after_instance j w) apart (own-update i i j w (sym same) refl listed)
  gets_settled i (j ∷ is) w (inr same, apart) (Memᴰ.tail m) listed =
      stays_settled i is (after_instance j w) apart (own-update i i j w same refl listed)
  gets_settled i (j ∷ is) w (inl other, apart) (Memᴰ.tail m) listed =
      gets_settled i is (after_instance j w) apart m (other-update i j w other listed)
