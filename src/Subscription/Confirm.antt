-- ===== src/Subscription/Confirm.antt =====
-- Confirming a subscription: the first one of a repository starts its watch, in a second
-- transaction.
use software_engineering_sch.Base.{
  String, Option, none, some, true, false, not, ◌&&◌, List, [], ◌∷◌, ◌++◌, ◌≡◌, refl, find, count,
  update, exists, eqb, arith,
}
use software_engineering_sch.Errors.{Error, ok}
use software_engineering_sch.Contracts.{
  Envelope, RepoWatchSagaPayload, event_repo_watch_saga_requested, repo_watch_action_start,
  topic_watchlist_saga_requests,
}
use software_engineering_sch.Contracts.Codec.{saga_codec, marshal, unmarshal}
use software_engineering_sch.Contracts.Codec.RoundTrip.{unmarshal-marshal}
use software_engineering_sch.Uuid.{Uuid, new_string}
use software_engineering_sch.Outbox.Event.{OutboxEvent}
use software_engineering_sch.Outbox.Store.{new_event, has_id, insert_tx, add_event}
use software_engineering_sch.ApiTables.{ApiTables, Subscription}
use software_engineering_sch.Db.{
  World, Database, fault_of, rest_of, eq-calm, pure, lift, gets, begin, commit, call, call_tx,
  query, query_row, exec, try, wrapping, ◌>>=◌,
}
use software_engineering_sch.Subscription.Rows.{has_token, is_confirmed_for}
use software_engineering_sch.Subscription.Repository.{
  with_rows, confirm_subscription_by_token, request_repo_watch_saga, insert_repo_watch_saga_request,
  build_repo_watch_saga_request, correlation_id_from_context,
}
use software_engineering_sch.Subscription.Service.{confirm}

-- The next five calls succeed.
abbrev pub FiveCalls : List (Option Error) → Type 0
FiveCalls fs =
    (fault_of fs ≡ none)
    × (fault_of (rest_of fs) ≡ none)
    × (fault_of (rest_of (rest_of fs)) ≡ none)
    × (fault_of (rest_of (rest_of (rest_of fs))) ≡ none)
    × (fault_of (rest_of (rest_of (rest_of (rest_of fs)))) ≡ none)

abbrev pub after_five : List (Option Error) → List (Option Error)
after_five fs = rest_of (rest_of (rest_of (rest_of (rest_of fs))))

-- The row of the token, confirmed.
abbrev pub confirmed_row : Subscription → Subscription
confirmed_row s = record s { confirmed = true }

abbrev pub ConfirmedDb : String → Database ApiTables → Database ApiTables
ConfirmedDb token d =
    with_rows d
      (update (has_token token) (λ r. record r { confirmed = true }) d.tables.subscriptions)

confirm_subscription_by_token_lem :
    (token : String) (s : Subscription) (fs : List (Option Error)) (w : World ApiTables)
    → FiveCalls fs
    → find (has_token token) w.db.tables.subscriptions ≡ some s
    → confirm_subscription_by_token token (record w { faults = fs }) ≡ (
      ok (record {
        repo = s.repo;
        email = s.email;
        was_first_confirmed =
            not s.confirmed && eqb (count (is_confirmed_for s.repo) w.db.tables.subscriptions) 0;
      }),
      record w {
        db = ConfirmedDb token w.db;
        tx = ConfirmedDb token w.db;
        aborted = false;
        faults = after_five fs;
      },
    )
unfolding confirm_subscription_by_token begin commit call call_tx query query_row exec try wrapping
    lift pure ◌>>=◌
confirm_subscription_by_token_lem token s fs w (h0, h1, h2, h3, h4) found =
    rw (h0, h1, found, h2, h3, h4) refl

-- The request to watch the repository, which the row of the outbox holds.
unfoldable pub request_row :
    Uuid → Option String → String → (repo email : String) → World ApiTables → OutboxEvent
request_row u ctx action repo email w =
    let id = u.generate w.ids in
    let correlation_id = correlation_id_from_context u ctx id in
    let event = build_repo_watch_saga_request u action repo email id correlation_id w.now in
    new_event id event.event_type event.occurred_at event.source correlation_id
      topic_watchlist_saga_requests repo (marshal event)

request_repo_watch_saga_lem :
    (u : Uuid) (ctx : Option String) (action repo email : String) (w : World ApiTables)
    → exists (has_id (u.generate w.ids)) w.db.outbox ≡ false
    → w.faults ≡ []
    → ((request_repo_watch_saga u ctx action repo email w).0 ≡ ok tt)
      × ((request_repo_watch_saga u ctx action repo email w).1.db
          ≡ record w.db { outbox = w.db.outbox ++ request_row u ctx action repo email w ∷ [] })
unfolding request_repo_watch_saga insert_repo_watch_saga_request new_string gets insert_tx begin
    commit call call_tx exec wrapping pure ◌>>=◌ add_event request_row marshal
request_repo_watch_saga_lem u ctx action repo email w fresh reachable =
    rw (eq-calm w reachable) (ground (arith, fresh))

-- The event asks the orchestrator for a saga with this action on this repository.
pub record IsWatchRequest (action repo : String) (e : OutboxEvent) : Type 0 where
  pub topic : e.topic ≡ topic_watchlist_saga_requests
  pub key : e.kafka_key ≡ repo
  pub unsent : e.published_at ≡ none
  pub asked : Envelope RepoWatchSagaPayload
  pub decoded : unmarshal ⦃c = saga_codec⦄ e.payload ≡ some asked
  pub typed : asked.event_type ≡ event_repo_watch_saga_requested
  pub saga_id : asked.payload.saga_id ≡ e.event_id
  pub action_asked : asked.payload.action ≡ action
  pub repo_asked : asked.payload.repo ≡ repo

pub request_row-IsWatchRequest :
    (u : Uuid) (ctx : Option String) (action repo email : String) (w : World ApiTables)
    → IsWatchRequest action repo (request_row u ctx action repo email w)
unfolding request_row
request_row-IsWatchRequest u ctx action repo email w = record {
  topic = refl;
  key = refl;
  unsent = refl;
  asked = _;
  decoded = unmarshal-marshal _;
  typed = refl;
  saga_id = refl;
  action_asked = refl;
  repo_asked = refl;
}

five_reached : FiveCalls []
five_reached = (refl, refl, refl, refl, refl)

pub confirm_first :
    (u : Uuid) (ctx : Option String) (token : String) (s : Subscription) (fs : List (Option Error))
    (w : World ApiTables)
    → FiveCalls fs
    → find (has_token token) w.db.tables.subscriptions ≡ some s
    → s.confirmed ≡ false
    → count (is_confirmed_for s.repo) w.db.tables.subscriptions ≡ 0
    → confirm u ctx token (record w { faults = fs })
      ≡ request_repo_watch_saga u ctx repo_watch_action_start s.repo s.email (record w {
        db = ConfirmedDb token w.db;
        tx = ConfirmedDb token w.db;
        aborted = false;
        faults = after_five fs;
      })
unfolding confirm ◌>>=◌
confirm_first u ctx token s fs w reached found unconfirmed first =
    rw (confirm_subscription_by_token_lem token s fs w reached found, unconfirmed, first) refl

pub confirm_again :
    (u : Uuid) (ctx : Option String) (token : String) (s : Subscription) (w : World ApiTables)
    → find (has_token token) w.db.tables.subscriptions ≡ some s
    → s.confirmed ≡ true
    → confirm u ctx token (record w { faults = [] }) ≡ (
      ok tt,
      record w {
        db = ConfirmedDb token w.db;
        tx = ConfirmedDb token w.db;
        aborted = false;
        faults = [];
      },
    )
unfolding confirm ◌>>=◌ pure
confirm_again u ctx token s w found known =
    rw (confirm_subscription_by_token_lem token s [] w five_reached found, known) refl

-- The link in a confirmation mail of a subscription that is not confirmed, when the repository has
-- no confirmed subscription and no call fails: it is no error, confirms exactly the rows of the
-- token, and adds exactly one event to the outbox, which asks the orchestrator to start the
-- repository's watch. The hypothesis on the outbox is that the next generated UUID is not in use.
pub confirm_starts_watch :
    (u : Uuid) (ctx : Option String) (token : String) (s : Subscription) (w : World ApiTables)
    → w.faults ≡ []
    → exists (has_id (u.generate w.ids)) w.db.outbox ≡ false
    → find (has_token token) w.db.tables.subscriptions ≡ some s
    → s.confirmed ≡ false
    → count (is_confirmed_for s.repo) w.db.tables.subscriptions ≡ 0
    → ((confirm u ctx token w).0 ≡ ok tt)
      × ((e : OutboxEvent) × IsWatchRequest repo_watch_action_start s.repo e
          × ((confirm u ctx token w).1.db
              ≡ record (ConfirmedDb token w.db) { outbox = w.db.outbox ++ e ∷ [] }))
unfolding request_row
confirm_starts_watch u ctx token s w reachable fresh found unconfirmed first =
    rw (eq-calm w reachable, confirm_first u ctx token s [] w five_reached found unconfirmed first)
      (let (done, after) =
          request_repo_watch_saga_lem u ctx repo_watch_action_start s.repo s.email _ fresh refl in
        (
          done,
          (_, request_row-IsWatchRequest u ctx repo_watch_action_start s.repo s.email w, after),
        ))
