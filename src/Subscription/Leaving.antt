-- ===== src/Subscription/Leaving.antt =====
-- Unsubscribing: the last confirmed subscription of a repository ends its watch.
use software_engineering_sch.Base.{
  String, Option, some, Bool, true, false, [], ◌∷◌, ◌++◌, ◌≡◌, refl, arith, exists, find, count,
  delete, if◌then◌else◌, eqb,
}
use software_engineering_sch.Errors.{ok}
use software_engineering_sch.Contracts.{repo_watch_action_stop}
use software_engineering_sch.Contracts.Codec.{marshal}
use software_engineering_sch.Uuid.{Uuid, new_string}
use software_engineering_sch.Outbox.Event.{OutboxEvent}
use software_engineering_sch.Outbox.Store.{has_id, insert_tx, add_event}
use software_engineering_sch.ApiTables.{ApiTables, Subscription}
use software_engineering_sch.Db.{
  World, Database, eq-calm, calm, pure, lift, gets, begin, commit, call, call_tx, query, query_row,
  exec, try, wrapping, ◌>>=◌,
}
use software_engineering_sch.Subscription.Rows.{has_token, is_confirmed_for}
use software_engineering_sch.Subscription.Repository.{
  with_rows, insert_repo_watch_saga_request, stop_if_last, unsubscribe,
}
use software_engineering_sch.Subscription.Confirm.{
  IsWatchRequest, request_row, request_row-IsWatchRequest,
}

-- The database without the rows of the token.
abbrev pub WithoutToken : String → Database ApiTables → Database ApiTables
WithoutToken token d = with_rows d (delete (has_token token) d.tables.subscriptions)

module _ (u : Uuid) (ctx : Option String) (token : String) (s : Subscription)
    (w : World ApiTables) where
  stopped :
      exists (has_id (u.generate w.ids)) w.db.outbox ≡ false
      → find (has_token token) w.db.tables.subscriptions ≡ some s
      → s.confirmed ≡ true
      → count (is_confirmed_for s.repo) (delete (has_token token) w.db.tables.subscriptions) ≡ 0
      → ((unsubscribe u ctx token (calm w)).0 ≡ ok tt)
        × ((unsubscribe u ctx token (calm w)).1.db ≡ record (WithoutToken token w.db) {
          outbox = w.db.outbox ++ request_row u ctx repo_watch_action_stop s.repo "" w ∷ [];
        })
  unfolding unsubscribe stop_if_last insert_repo_watch_saga_request new_string gets insert_tx begin
      commit call call_tx query query_row exec try wrapping lift pure ◌>>=◌ add_event request_row
      marshal
  stopped fresh found confirmed last = rw (found, confirmed, last) (ground (arith, fresh))

  -- By the two tests that decide on the request.
  watched :
      find (has_token token) w.db.tables.subscriptions ≡ some s
      → (confirmed none_left : Bool) → s.confirmed ≡ confirmed
      → eqb (count (is_confirmed_for s.repo) (delete (has_token token) w.db.tables.subscriptions)) 0
        ≡ none_left
      → (if confirmed then none_left else false) ≡ false
      → ((unsubscribe u ctx token (calm w)).0 ≡ ok tt)
        × ((unsubscribe u ctx token (calm w)).1.db ≡ WithoutToken token w.db)
  unfolding unsubscribe stop_if_last begin commit call call_tx query query_row exec try wrapping
      lift pure ◌>>=◌
  watched found false none_left confirmed left h = rw (found, confirmed) (refl, refl)
  watched found true false confirmed left h = rw (found, confirmed, left) (refl, refl)
  watched found true true confirmed left h = cc

-- A confirmed subscription, when no call fails and the repository has no other confirmed one:
-- unsubscribing is no error, removes exactly the rows of the token, and adds exactly one event, which
-- asks the orchestrator to stop the repository's watch. The hypothesis on the outbox is that the next
-- generated UUID is not in use.
pub last_unsubscribe_stops_watch :
    (u : Uuid) (ctx : Option String) (token : String) (s : Subscription) (w : World ApiTables)
    → w.faults ≡ []
    → exists (has_id (u.generate w.ids)) w.db.outbox ≡ false
    → find (has_token token) w.db.tables.subscriptions ≡ some s
    → s.confirmed ≡ true
    → count (is_confirmed_for s.repo) (delete (has_token token) w.db.tables.subscriptions) ≡ 0
    → ((unsubscribe u ctx token w).0 ≡ ok tt)
      × ((e : OutboxEvent) × IsWatchRequest repo_watch_action_stop s.repo e
          × ((unsubscribe u ctx token w).1.db
              ≡ record (WithoutToken token w.db) { outbox = w.db.outbox ++ e ∷ [] }))
last_unsubscribe_stops_watch u ctx token s w reachable fresh found confirmed last =
    let (done, after) = stopped u ctx token s w fresh found confirmed last in
    rw (eq-calm w reachable)
      (done, (_, request_row-IsWatchRequest u ctx repo_watch_action_stop s.repo "" w, after))

-- A subscription that is not confirmed, or whose repository has another confirmed one, when no call
-- fails: unsubscribing is no error, removes exactly the rows of the token, and leaves the outbox as it
-- was.
other_unsubscribe_keeps_watch :
    (u : Uuid) (ctx : Option String) (token : String) (s : Subscription) (w : World ApiTables)
    → w.faults ≡ []
    → find (has_token token) w.db.tables.subscriptions ≡ some s
    → (if s.confirmed
        then eqb
            (count (is_confirmed_for s.repo) (delete (has_token token) w.db.tables.subscriptions))
            0
        else false)
      ≡ false
    → ((unsubscribe u ctx token w).0 ≡ ok tt)
      × ((unsubscribe u ctx token w).1.db ≡ WithoutToken token w.db)
other_unsubscribe_keeps_watch u ctx token s w reachable found kept =
    rw (eq-calm w reachable) (watched u ctx token s w found s.confirmed _ refl refl kept)
