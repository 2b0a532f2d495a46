-- ===== src/Subscription/Atomicity.antt =====
-- Unsubscribing is all or nothing.
use software_engineering_sch.Base.{String, Option, ◌≡◌}
use software_engineering_sch.Errors.{Error, err}
use software_engineering_sch.Uuid.{Uuid}
use software_engineering_sch.ApiTables.{ApiTables}
use software_engineering_sch.Db.{World}
use software_engineering_sch.Outbox.Insert.{outbox_quiet}
use software_engineering_sch.Db.Atomic.{IsQuiet, IsAtomic, quiet_rules, atomic_rules}
use software_engineering_sch.Subscription.Repository.{
  insert_repo_watch_saga_request, stop_if_last, unsubscribe,
}

module _ (u : Uuid) where
  insert_repo_watch_saga_request-IsQuiet :
      (ctx : Option String) (action repo email : String)
      → IsQuiet (insert_repo_watch_saga_request u ctx action repo email)
  unfolding insert_repo_watch_saga_request
  insert_repo_watch_saga_request-IsQuiet ctx action repo email = search outbox_quiet

  stop_if_last-IsQuiet : (ctx : Option String) (repo : String) → IsQuiet (stop_if_last u ctx repo)
  unfolding stop_if_last
  stop_if_last-IsQuiet ctx repo =
      search (quiet_rules, insert_repo_watch_saga_request-IsQuiet) depth 8

  unsubscribe-IsAtomic : (ctx : Option String) (token : String) → IsAtomic (unsubscribe u ctx token)
  unfolding unsubscribe
  unsubscribe-IsAtomic ctx token = search (atomic_rules, stop_if_last-IsQuiet) depth 14

-- Unsubscribing either returns no error or leaves the committed subscriptions and the outbox as they
-- were, whichever calls fail: the row is never deleted without the request to stop the watch.
pub unsubscribe_atomic :
    (u : Uuid) (ctx : Option String) (token : String) (w : World ApiTables) (e : Error)
    → (unsubscribe u ctx token w).0 ≡ err e
    → (unsubscribe u ctx token w).1.db ≡ w.db
unsubscribe_atomic u ctx token w e failed = (unsubscribe-IsAtomic u ctx token).atomic w e failed
