-- ===== src/Scanner/Repository.antt =====
-- The methods of `Repository` (repository.go) on scanner_watchlist and scanner_releases.
use Prim.Native.Nat.{min}
use Prim.Native.String.{compare as compare_text}
use text.Mathlib.Text.{is_le}
use software_engineering_sch.Base.{
  ℕ, ◌+◌, String, Option, none, some, Bool, true, false, ◌&&◌, not, List, [], ◌∷◌, ◌++◌, ◌==◌, leb,
  ltb, if◌then◌else◌, exists, update, delete, select, take, order_by,
}
use software_engineering_sch.Errors.{Error, plain, join, message, ◌+++◌, Result, ok, err}
use software_engineering_sch.Contracts.{
  Envelope, RepoWatchCommandPayload, RepoWatchAckPayload, ReleaseDetectedPayload,
  repo_watch_action_start, repo_watch_action_stop, event_repo_watch_started,
  event_repo_watch_stopped, event_repo_watch_failed, event_release_detected,
  topic_watchlist_saga_events, topic_release_events,
}
use software_engineering_sch.Contracts.Codec.{ack_codec, release_codec, marshal}
use software_engineering_sch.Outbox.Store.{new_event, insert_tx}
use software_engineering_sch.Uuid.{Uuid, new_string}
use software_engineering_sch.Db.{
  Database, Action, pure, raise, lift, gets, ◌>>=◌, ◌>>◌, begin, commit, wrapping, query, exec,
  pool_exec, try, for_each,
}

-- A row of scanner_watchlist, which is `WatchedRepo` with the time of the next scan, and a row of
-- scanner_releases (services/scanner-service/internal/dbmigrations/000001_create_scanner_schema.sql).
pub record WatchedRepo : Type 0 where
  pub repo : String
  pub last_seen_tag : String
  pub next_scan_at : ℕ

pub record Release : Type 0 where
  pub repo : String
  pub tag : String
  pub detected_at : ℕ

pub record ScannerTables : Type 0 where
  pub watchlist : List WatchedRepo
  pub releases : List Release

abbrev pub Scan : Type 0 → Type 0
Scan A = Action ScannerTables A

abbrev pub watches : String → WatchedRepo → Bool
watches repo r = r.repo == repo

-- `WHERE next_scan_at <= now() ORDER BY next_scan_at, repo … SKIP LOCKED LIMIT $1`
abbrev is_due : ℕ → (String → Bool) → WatchedRepo → Bool
is_due now locked r = leb r.next_scan_at now && not (locked r.repo)

abbrev is_due_before : WatchedRepo → WatchedRepo → Bool
is_due_before a b =
    if ltb a.next_scan_at b.next_scan_at
    then true
    else if ltb b.next_scan_at a.next_scan_at
    then false
    else is_le (compare_text a.repo b.repo)

unfoldable pub due_repos : ℕ → ℕ → (String → Bool) → List WatchedRepo → List WatchedRepo
due_repos limit now locked rows =
    take limit (order_by is_due_before (select (is_due now locked) rows))

-- `INSERT … ON CONFLICT (repo) DO UPDATE SET next_scan_at = LEAST(next_scan_at, now())`
unfoldable pub start_row : ℕ → String → List WatchedRepo → List WatchedRepo
start_row now repo rows =
    if exists (watches repo) rows
    then update (watches repo) (λ r. record r { next_scan_at = min r.next_scan_at now }) rows
    else rows ++ record { repo = repo; last_seen_tag = ""; next_scan_at = now } ∷ []

unfoldable pub stop_row : String → List WatchedRepo → List WatchedRepo
stop_row repo rows = delete (watches repo) rows

abbrev pub is_release : String → String → Release → Bool
is_release repo tag r = r.repo == repo && r.tag == tag

-- `INSERT … ON CONFLICT (repo, tag) DO NOTHING`, with whether a row was inserted.
unfoldable pub add_release : ℕ → String → String → List Release → Bool × List Release
add_release now repo tag rows =
    if exists (is_release repo tag) rows
    then (false, rows)
    else (true, rows ++ record { repo = repo; tag = tag; detected_at = now } ∷ [])

abbrev pub with_watchlist : Database ScannerTables → List WatchedRepo → Database ScannerTables
with_watchlist d rows = record d { tables = record d.tables { watchlist = rows } }

abbrev pub with_releases : Database ScannerTables → List Release → Database ScannerTables
with_releases d rows = record d { tables = record d.tables { releases = rows } }

-- One claimed repository is put off by the scan interval.
unfoldable pub reserve : ℕ → WatchedRepo → Scan (Unit {0})
reserve next_scan_in r = wrapping ("reserve next scan for " +++ r.repo) (
    exec (λ w d. (
      tt,
      with_watchlist d (
          update (watches r.repo) (λ x. record x { next_scan_at = w.now + next_scan_in })
            d.tables.watchlist),
    )))

unfoldable pub claim_due : ℕ → ℕ → Scan (List WatchedRepo)
claim_due limit next_scan_in = do
  wrapping "begin claim due repos" begin
  repos ←
      wrapping "select due repos" (query (λ w d. due_repos limit w.now w.locked d.tables.watchlist))
  for_each (reserve next_scan_in) repos
  wrapping "commit due repo claim" commit
  pure repos

-- `StartWatching` and `StopWatching`, on the pool.
unfoldable pub start_watching : String → Scan (Unit {0})
start_watching repo =
    wrapping "start watching repo"
      (pool_exec (λ w d. (tt, with_watchlist d (start_row w.now repo d.tables.watchlist))))

unfoldable pub stop_watching : String → Scan (Unit {0})
stop_watching repo =
    wrapping "stop watching repo"
      (pool_exec (λ w d. (tt, with_watchlist d (stop_row repo d.tables.watchlist))))

unfoldable pub start_watching_tx : String → Scan (Unit {0})
start_watching_tx repo =
    wrapping "start watching repo"
      (exec (λ w d. (tt, with_watchlist d (start_row w.now repo d.tables.watchlist))))

unfoldable pub stop_watching_tx : String → Scan (Unit {0})
stop_watching_tx repo =
    wrapping "stop watching repo"
      (exec (λ w d. (tt, with_watchlist d (stop_row repo d.tables.watchlist))))

abbrev quoted : String → String
quoted s = "\"" +++ s +++ "\""

-- The type and the error text of an acknowledgement, by the action and the cause of a failure.
unfoldable pub ack_outcome : String → Option Error → String × String
ack_outcome action (some cause) = (event_repo_watch_failed, message cause)
ack_outcome action none =
    if action == repo_watch_action_start
    then (event_repo_watch_started, "")
    else if action == repo_watch_action_stop
    then (event_repo_watch_stopped, "")
    else (event_repo_watch_failed, "unsupported repo watch action " +++ quoted action)

unfoldable pub build_repo_watch_ack_event :
    RepoWatchCommandPayload
    → (event_id correlation_id : String) → ℕ
    → Option Error
    → Envelope RepoWatchAckPayload
build_repo_watch_ack_event payload event_id correlation_id occurred_at cause =
    let (event_type, error) = ack_outcome payload.action cause in
    record {
      event_id = event_id;
      event_type = event_type;
      occurred_at = occurred_at;
      source = "scanner-service";
      correlation_id = correlation_id;
      not_before = none;
      payload = record {
        saga_id = payload.saga_id;
        action = payload.action;
        repo = payload.repo;
        error = error;
      };
    }

unfoldable pub build_release_detected_event :
    (repo tag event_id correlation_id : String) → ℕ → Envelope ReleaseDetectedPayload
build_release_detected_event repo tag event_id correlation_id occurred_at = record {
  event_id = event_id;
  event_type = event_release_detected;
  occurred_at = occurred_at;
  source = "scanner-service";
  correlation_id = correlation_id;
  not_before = none;
  payload = record { repo = repo; tag = tag };
}

-- The `switch` of `ApplyWatchCommand`.
unfoldable pub apply_action : RepoWatchCommandPayload → Scan (Unit {0})
apply_action payload =
    if payload.action == repo_watch_action_start
    then start_watching_tx payload.repo
    else if payload.action == repo_watch_action_stop
    then stop_watching_tx payload.repo
    else raise (plain ("unsupported repo watch action " +++ quoted payload.action))

module _ (u : Uuid) where
  unfoldable pub insert_watch_ack_tx :
      RepoWatchCommandPayload → String → Option Error → Scan (Unit {0})
  insert_watch_ack_tx payload correlation_id cause = do
    event_id ← new_string u
    now ← gets (λ w. w.now)
    let event = build_repo_watch_ack_event payload event_id correlation_id now cause
    insert_tx (
        new_event event_id event.event_type event.occurred_at event.source correlation_id
          topic_watchlist_saga_events payload.repo (marshal event))

  -- The end of `ApplyWatchCommand`, by the outcome of the action.
  unfoldable pub acknowledge :
      RepoWatchCommandPayload → String → Result (Unit {0}) → Scan (Unit {0})
  acknowledge payload correlation_id (ok _) = do
    insert_watch_ack_tx payload correlation_id none
    wrapping "commit watch command" commit
  acknowledge payload correlation_id (err cause) = do
    acked ← try (insert_watch_ack_tx payload correlation_id (some cause))
    lift (elim acked [ ok _ ↦ ok tt | err e ↦ err (join cause "; publish failure ack: " e) ])
    wrapping "commit watch failure ack" commit

  unfoldable pub apply_watch_command : RepoWatchCommandPayload → String → Scan (Unit {0})
  apply_watch_command payload correlation_id = do
    wrapping "begin watch command" begin
    applied ← try (apply_action payload)
    acknowledge payload correlation_id applied

  -- What `MarkReleaseDetected` does with a release that is new.
  unfoldable pub announce : (repo tag correlation_id : String) → Scan Bool
  announce repo tag correlation_id = do
    wrapping "update last seen tag" (
        exec (λ w d. (
          tt,
          with_watchlist d
              (update (watches repo) (λ r. record r { last_seen_tag = tag }) d.tables.watchlist),
        )))
    event_id ← new_string u
    now ← gets (λ w. w.now)
    let event = build_release_detected_event repo tag event_id correlation_id now
    insert_tx (
        new_event event_id event.event_type event.occurred_at event.source correlation_id
          topic_release_events repo (marshal event))
    wrapping "commit release detection" commit
    pure true

  unfoldable pub mark_release_detected : (repo tag correlation_id : String) → Scan Bool
  mark_release_detected repo tag correlation_id = do
    wrapping "begin release detection" begin
    inserted ← wrapping "insert scanner release" (
        exec (λ w d.
          let (new, rows) = add_release w.now repo tag d.tables.releases in
          (new, with_releases d rows)))
    if inserted then announce repo tag correlation_id else (commit >> pure false)
