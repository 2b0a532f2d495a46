-- ===== src/Scanner/Atomicity.antt =====
-- The scanner's transactions are all or nothing.
use software_engineering_sch.Base.{String, Option, ◌≡◌}
use software_engineering_sch.Errors.{Error, Result, ok, err}
use software_engineering_sch.Contracts.{RepoWatchCommandPayload}
use software_engineering_sch.Json.{Bytes}
use software_engineering_sch.Uuid.{Uuid}
use software_engineering_sch.Db.{World}
use software_engineering_sch.Outbox.Insert.{outbox_quiet}
use software_engineering_sch.Db.Atomic.{IsQuiet, IsAtomic, atomic_rules}
use software_engineering_sch.Scanner.Repository.{
  ScannerTables, start_watching_tx, stop_watching_tx, apply_action, insert_watch_ack_tx,
  acknowledge, apply_watch_command,
}
use software_engineering_sch.Scanner.Service.{handle_watchlist_command}

apply_action-IsQuiet : (payload : RepoWatchCommandPayload) → IsQuiet (apply_action payload)
unfolding apply_action start_watching_tx stop_watching_tx
apply_action-IsQuiet payload = search outbox_quiet depth 8

module _ (u : Uuid) where
  insert_watch_ack_tx-IsQuiet :
      (payload : RepoWatchCommandPayload) (correlation_id : String) (cause : Option Error)
      → IsQuiet (insert_watch_ack_tx u payload correlation_id cause)
  unfolding insert_watch_ack_tx
  insert_watch_ack_tx-IsQuiet payload correlation_id cause = search outbox_quiet

  acknowledge-IsAtomic :
      (payload : RepoWatchCommandPayload) (correlation_id : String) (r : Result (Unit {0}))
      → IsAtomic (acknowledge u payload correlation_id r)
  unfolding acknowledge
  acknowledge-IsAtomic payload correlation_id (ok _) =
      search (atomic_rules, insert_watch_ack_tx-IsQuiet) depth 8
  acknowledge-IsAtomic payload correlation_id (err cause) =
      search (atomic_rules, insert_watch_ack_tx-IsQuiet) depth 8

  handle_watchlist_command-IsAtomic : (value : Bytes) → IsAtomic (handle_watchlist_command u value)
  unfolding handle_watchlist_command apply_watch_command
  handle_watchlist_command-IsAtomic value =
      search (atomic_rules, apply_action-IsQuiet, acknowledge-IsAtomic) depth 12

-- Handling a message of the topic of watchlist commands, whatever it holds, either returns no error
-- or leaves the committed watchlist, releases and outbox as they were, whichever calls fail: a
-- command is never applied without its acknowledgement.
handle_watchlist_command_atomic :
    (u : Uuid) (value : Bytes) (w : World ScannerTables) (e : Error)
    → (handle_watchlist_command u value w).0 ≡ err e
    → (handle_watchlist_command u value w).1.db ≡ w.db
handle_watchlist_command_atomic u value w e failed =
    (handle_watchlist_command-IsAtomic u value).atomic w e failed
