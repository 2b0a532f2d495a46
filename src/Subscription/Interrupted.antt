-- ===== src/Subscription/Interrupted.antt =====
-- A confirmation whose second transaction fails.
use software_engineering_sch.Base.{
  String, Option, none, some, false, [], ◌∷◌, ◌≡◌, refl, find, find-update, find-holds, count,
}
use software_engineering_sch.Errors.{Error, wrap, ok, err}
use software_engineering_sch.Contracts.Codec.{saga_codec}
use software_engineering_sch.Uuid.{Uuid}
use software_engineering_sch.ApiTables.{ApiTables, Subscription}
use software_engineering_sch.Db.{World, Database, eq-faults, begin, call, wrapping, ◌>>=◌}
use software_engineering_sch.Subscription.Rows.{has_token, is_confirmed_for}
use software_engineering_sch.Subscription.Repository.{request_repo_watch_saga}
use software_engineering_sch.Subscription.Service.{confirm}
use software_engineering_sch.Subscription.Confirm.{
  ConfirmedDb, confirmed_row, confirm_first, confirm_again,
}

confirmed_row_found :
    (token : String) (s : Subscription) (d : Database ApiTables)
    → find (has_token token) d.tables.subscriptions ≡ some s
    → find (has_token token) (ConfirmedDb token d).tables.subscriptions ≡ some (confirmed_row s)
confirmed_row_found token s d found =
    let rows = d.tables.subscriptions in
    find-update (λ r. r.token) token (has_token token) confirmed_row rows s (λ r. refl)
      (find-holds (has_token token) rows found) found

-- The first attempt: the transaction of the confirmation is committed.
confirm_interrupted :
    (u : Uuid) (ctx : Option String) (token : String) (s : Subscription) (cause : Error)
    (w : World ApiTables)
    → find (has_token token) w.db.tables.subscriptions ≡ some s
    → s.confirmed ≡ false
    → count (is_confirmed_for s.repo) w.db.tables.subscriptions ≡ 0
    → confirm u ctx token (record w { faults = none ∷ none ∷ none ∷ none ∷ none ∷ some cause ∷ [] })
      ≡ (
        err (wrap "begin repo watch saga request" cause),
        record w {
          db = ConfirmedDb token w.db;
          tx = ConfirmedDb token w.db;
          aborted = false;
          faults = [];
        },
      )
unfolding request_repo_watch_saga begin call wrapping ◌>>=◌
confirm_interrupted u ctx token s cause w found unconfirmed first =
    confirm_first u ctx token s _ w (refl, refl, refl, refl, refl) found unconfirmed first

-- The link in a confirmation mail of a subscription that is not confirmed, when the repository has no
-- confirmed subscription, the five calls of the first transaction succeed, the second transaction
-- cannot be begun, and no later call fails: the answer is an error, exactly the rows of the token are
-- confirmed, and the outbox is as it was; following the link again is no error and leaves the outbox
-- as it was.
pub confirm_loses_watch :
    (u : Uuid) (ctx : Option String) (token : String) (s : Subscription) (cause : Error)
    (w : World ApiTables)
    → w.faults ≡ none ∷ none ∷ none ∷ none ∷ none ∷ some cause ∷ []
    → find (has_token token) w.db.tables.subscriptions ≡ some s
    → s.confirmed ≡ false
    → count (is_confirmed_for s.repo) w.db.tables.subscriptions ≡ 0
    → ((confirm u ctx token w).0 ≡ err (wrap "begin repo watch saga request" cause))
      × ((confirm u ctx token w).1.db ≡ ConfirmedDb token w.db)
      × ((confirm u ctx token (confirm u ctx token w).1).0 ≡ ok tt)
      × ((confirm u ctx token (confirm u ctx token w).1).1.db.outbox ≡ w.db.outbox)
confirm_loses_watch u ctx token s cause w faults found unconfirmed first =
    rw
      (
        eq-faults w faults,
        confirm_interrupted u ctx token s cause w found unconfirmed first,
        confirm_again u ctx token (confirmed_row s)
            (record w { db = ConfirmedDb token w.db; tx = ConfirmedDb token w.db; aborted = false })
            (confirmed_row_found token s w.db found) refl,
      )
      (refl, refl, refl, refl)
