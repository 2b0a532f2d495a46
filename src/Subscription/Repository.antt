-- ===== src/Subscription/Repository.antt =====
-- The methods of `Repository` (repository.go).
use software_engineering_sch.Base.{
  ℕ, String, Option, none, some, Bool, true, ◌&&◌, not, List, eqb, if◌then◌else◌, exists, find,
  update, delete, count,
}
use software_engineering_sch.Errors.{Error, sentinel, plain, token_not_found, Result, ok, err}
use software_engineering_sch.Contracts.{
  Envelope, RepoWatchSagaPayload, event_repo_watch_saga_requested, topic_watchlist_saga_requests,
  repo_watch_action_stop,
}
use software_engineering_sch.Contracts.Codec.{saga_codec, marshal}
use software_engineering_sch.Outbox.Store.{new_event, insert_tx}
use software_engineering_sch.Uuid.{Uuid, new_string}
use software_engineering_sch.ApiTables.{Subscription, ApiTables}
use software_engineering_sch.Db.{
  Database, Action, pure, lift, gets, ◌>>=◌, ◌>>◌, begin, commit, wrapping, query, pool_query,
  query_row, exec, pool_exec, try, fail_if, when,
}
use software_engineering_sch.Subscription.Rows.{
  is_of, has_token, is_confirmed_for, is_unconfirmed, save_row, subscribers, subscriptions_of,
}

abbrev pub Api : Type 0 → Type 0
Api A = Action ApiTables A

-- `ConfirmSubscriptionResult`
pub record Confirmation : Type 0 where
  pub repo : String
  pub email : String
  pub was_first_confirmed : Bool

abbrev pub with_rows : Database ApiTables → List Subscription → Database ApiTables
with_rows d rows = record d { tables = record d.tables { subscriptions = rows } }

unfoldable pub subscription_exists : String → String → Api Bool
subscription_exists email repo =
    wrapping "check subscription exists"
      (pool_query (λ w d. exists (is_of email repo) d.tables.subscriptions))

-- `saveSubscription`; a violated constraint is an error of the statement.
unfoldable pub save_in_tx : Subscription → Api (Unit {0})
save_in_tx s = wrapping "save subscription" do
  saved ← exec (λ w d. let (r, rows) = save_row s d.tables.subscriptions in (r, with_rows d rows))
  lift saved

unfoldable pub save_subscription : Subscription → Api (Unit {0})
save_subscription s = do wrapping "begin save subscription" begin; save_in_tx s; commit

unfoldable pub delete_unconfirmed_subscription : String → String → String → Api (Unit {0})
delete_unconfirmed_subscription email repo token = do
  affected ← wrapping "delete unconfirmed subscription compensation" (
      pool_exec (λ w d. (
        count (is_unconfirmed email repo token) d.tables.subscriptions,
        with_rows d (delete (is_unconfirmed email repo token) d.tables.subscriptions),
      )))
  fail_if (eqb affected 0) (plain "unconfirmed subscription compensation skipped")

unfoldable pub get_subscriptions : String → Api (List Subscription)
get_subscriptions email =
    wrapping "query subscriptions"
      (pool_query (λ w d. subscriptions_of email d.tables.subscriptions))

unfoldable pub get_subscribers : String → Api (List String)
get_subscribers repo =
    wrapping "query subscribers"
      (pool_query (λ w d. w.orders.listing.order w.now (subscribers repo d.tables.subscriptions)))

-- An error of the row query, whatever it is, is reported as one error.
abbrev or_error : {A : Type 0} → Error → Result A → Result A
or_error e (ok a) = ok a
or_error e (err _) = err e

unfoldable pub confirm_subscription_by_token : String → Api Confirmation
confirm_subscription_by_token token = do
  wrapping "begin confirm subscription" begin
  found ← try (query_row (λ d. find (has_token token) d.tables.subscriptions))
  s ← lift (or_error (sentinel token_not_found) found)
  confirmed_before ←
      wrapping "count confirmed subscriptions"
        (query (λ w d. count (is_confirmed_for s.repo) d.tables.subscriptions))
  wrapping "confirm subscription" (
      exec (λ w d. (
        tt,
        with_rows d
            (update (has_token token) (λ r. record r { confirmed = true }) d.tables.subscriptions),
      )))
  commit
  pure (record {
    repo = s.repo;
    email = s.email;
    was_first_confirmed = not s.confirmed && eqb confirmed_before 0;
  })

module _ (u : Uuid) where
  -- `correlationIDFromContext`: the request's id, if it is a UUID.
  unfoldable pub correlation_id_from_context : Option String → String → String
  correlation_id_from_context none fallback = fallback
  correlation_id_from_context (some id) fallback = if u.parses id then id else fallback

  abbrev pub build_repo_watch_saga_request :
      (action repo email saga_id correlation_id : String) → ℕ → Envelope RepoWatchSagaPayload
  build_repo_watch_saga_request action repo email saga_id correlation_id occurred_at = record {
    event_id = saga_id;
    event_type = event_repo_watch_saga_requested;
    occurred_at = occurred_at;
    source = "subscription-api";
    correlation_id = correlation_id;
    not_before = none;
    payload = record { saga_id = saga_id; action = action; repo = repo; email = email };
  }

  unfoldable pub insert_repo_watch_saga_request :
      Option String → (action repo email : String) → Api (Unit {0})
  insert_repo_watch_saga_request ctx action repo email = do
    saga_id ← new_string u
    let correlation_id = correlation_id_from_context ctx saga_id
    occurred_at ← gets (λ w. w.now)
    let event = build_repo_watch_saga_request action repo email saga_id correlation_id occurred_at
    insert_tx (
        new_event saga_id event.event_type event.occurred_at event.source correlation_id
          topic_watchlist_saga_requests repo (marshal event))

  unfoldable pub request_repo_watch_saga :
      Option String → (action repo email : String) → Api (Unit {0})
  request_repo_watch_saga ctx action repo email = do
    wrapping "begin repo watch saga request" begin
    insert_repo_watch_saga_request ctx action repo email
    commit

  -- What `Unsubscribe` does once a confirmed subscription is deleted.
  unfoldable pub stop_if_last : Option String → String → Api (Unit {0})
  stop_if_last ctx repo = do
    confirmed_after ←
        wrapping "count remaining confirmed subscriptions"
          (query (λ w d. count (is_confirmed_for repo) d.tables.subscriptions))
    when (eqb confirmed_after 0) (insert_repo_watch_saga_request ctx repo_watch_action_stop repo "")

  unfoldable pub unsubscribe : Option String → String → Api (Unit {0})
  unsubscribe ctx token = do
    wrapping "begin unsubscribe" begin
    found ← try (query_row (λ d. find (has_token token) d.tables.subscriptions))
    s ← lift (or_error (plain "token not found") found)
    wrapping "delete subscription"
        (exec (λ w d. (tt, with_rows d (delete (has_token token) d.tables.subscriptions))))
    when s.confirmed (stop_if_last ctx s.repo)
    commit
