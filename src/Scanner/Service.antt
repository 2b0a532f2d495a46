-- ===== src/Scanner/Service.antt =====
-- The scanner's service (service.go): scanning the due repositories, and the commands of the watch
-- saga.
use software_engineering_sch.Base.{
  ℕ, String, Option, none, some, Bool, true, false, ◌||◌, List, [], ◌∷◌, ◌==◌, if◌then◌else◌, ℤ,
  positive_or,
}
use software_engineering_sch.Errors.{plain, classified, non_retryable, ◌+++◌, Result, ok, err}
use software_engineering_sch.Json.{Bytes}
use software_engineering_sch.Contracts.{
  Envelope, RepoWatchCommandPayload, event_start_watching_repo, event_stop_watching_repo,
  repo_watch_action_start, repo_watch_action_stop,
}
use software_engineering_sch.Contracts.Codec.{command_codec, unmarshal}
use software_engineering_sch.Uuid.{Uuid, new_string}
use software_engineering_sch.Db.{pure, lift, ◌>>=◌, ◌>>◌, wrapping, try, for_each, wait_until}
use software_engineering_sch.Scanner.Repository.{
  WatchedRepo, Scan, claim_due, apply_watch_command, mark_release_detected,
}

-- `ReleaseProvider`, by the answers that it gives.
abbrev pub ReleaseProvider : Type 0
ReleaseProvider = String → Result String

pub record Scanner : Type 0 where
  pub batch_size : ℕ
  pub scan_backoff : ℕ

-- `NewService`: unset values are replaced.
unfoldable pub new_scanner : ℤ → ℤ → Scanner
new_scanner batch_size scan_backoff = record {
  batch_size = positive_or batch_size 100;
  scan_backoff = positive_or scan_backoff 30_000_000_000;
}

-- `kafka.NonRetryable(err)` for an error that is one
abbrev pub rejected {ℓ} : {A : Type ℓ} → String → Result A
rejected s = err (classified non_retryable (plain s))

-- The checks of a watchlist command, before it is applied.
unfoldable pub check_command : Envelope RepoWatchCommandPayload → Result (Unit {0})
check_command event =
    let missing = event.payload.saga_id == "" || event.payload.repo == "" in
    let named : Result (Unit {0}) =
      if missing then rejected "watchlist command requires saga_id and repo" else ok tt in
    if event.event_type == event_start_watching_repo
    then (if event.payload.action == repo_watch_action_start
        then named
        else rejected ("start command action = \"" +++ event.payload.action +++ "\""))
    else if event.event_type == event_stop_watching_repo
    then (if event.payload.action == repo_watch_action_stop
        then named
        else rejected ("stop command action = \"" +++ event.payload.action +++ "\""))
    else rejected ("unsupported watchlist command type \"" +++ event.event_type +++ "\"")

abbrev decoded :
    Option (Envelope RepoWatchCommandPayload) → Result (Envelope RepoWatchCommandPayload)
decoded none = rejected "decode watchlist command"
decoded (some event) = ok event

module _ (u : Uuid) where
  unfoldable pub handle_watchlist_command : Bytes → Scan (Unit {0})
  handle_watchlist_command value = do
    event ← lift (decoded (unmarshal value))
    lift (check_command event)
    apply_watch_command u event.payload event.correlation_id

  -- `if tag == "" || tag == watched.LastSeenTag { return nil }`
  unfoldable pub scan_repo : ReleaseProvider → String → WatchedRepo → Scan (Unit {0})
  scan_repo releases correlation_id watched = do
    tag ← wrapping "get latest tag" (lift (releases watched.repo))
    if tag == "" || tag == watched.last_seen_tag
        then pure tt
        else (mark_release_detected u watched.repo tag correlation_id >> pure tt)

  -- The loop of `ScanOnce`: an error of one repository is logged and passed over.
  unfoldable pub scan_all : ReleaseProvider → String → List WatchedRepo → Scan (Unit {0})
  scan_all releases correlation_id repos =
      for_each (λ watched. try (scan_repo releases correlation_id watched) >> pure tt) repos

  abbrev is_empty : List WatchedRepo → Bool
  is_empty [] = true
  is_empty (_ ∷ _) = false

  unfoldable pub scan_once : Scanner → ReleaseProvider → Scan (Unit {0})
  scan_once s releases = do
    repos ← claim_due s.batch_size s.scan_backoff
    if is_empty repos
        then pure tt
        else do correlation_id ← new_string u; scan_all releases correlation_id repos

  -- `Start` over the ticks of its ticker: an error is logged.
  unfoldable pub start : Scanner → ReleaseProvider → List ℕ → Scan (Unit {0})
  start s releases [] = pure tt
  start s releases (t ∷ ts) = do wait_until t; try (scan_once s releases); start s releases ts
