-- ===== src/Subscription/Compensation.antt =====
-- Subscribing: the row that is written, and its removal when the confirmation cannot be sent.
use software_engineering_sch.Base.{
  ℕ, String, false, List, [], ◌∷◌, ◌++◌, ◌≡◌, refl, arith, exists, delete, count, suc, eq_refl,
}
use software_engineering_sch.Errors.{Error, ok, err, sentinel, join, confirmation_unavailable}
use software_engineering_sch.Uuid.{Uuid, new_string}
use software_engineering_sch.ApiTables.{ApiTables, Subscription}
use software_engineering_sch.Db.{
  World, Database, eq-calm, calm, pure, raise, lift, begin, commit, call, call_tx, exec, pool_exec,
  pool_query, try, wrapping, ◌>>=◌,
}
use software_engineering_sch.Subscription.Rows.{is_of, has_token, is_unconfirmed, save_row}
use software_engineering_sch.Subscription.Repository.{
  with_rows, subscription_exists, save_in_tx, save_subscription, delete_unconfirmed_subscription,
}
use software_engineering_sch.Subscription.Service.{
  GitHub, NotificationPublisher, validate_repo, tag_or_empty, unavailable, conclude, subscribe,
}

-- The row of a new subscription.
abbrev pub new_subscription : Uuid → GitHub → (email repo : String) → ℕ → Subscription
new_subscription u github email repo ids = record {
  email = email;
  repo = repo;
  confirmed = false;
  last_seen_tag = tag_or_empty (github.get_latest_tag repo);
  token = u.generate ids;
}

-- Removing the row that was just added removes nothing else.
delete_added :
    (s : Subscription) (rows : List Subscription)
    → s.confirmed ≡ false
    → exists (is_of s.email s.repo) rows ≡ false
    → (delete (is_unconfirmed s.email s.repo s.token) (rows ++ s ∷ []) ≡ rows)
      × (count (is_unconfirmed s.email s.repo s.token) (rows ++ s ∷ []) ≡ 1)
delete_added s [] fresh new =
    ground (arith, fresh, eq_refl s.email, eq_refl s.repo, eq_refl s.token)
delete_added s (r ∷ rows) fresh new = ground (arith, new, delete_added s rows fresh)

validate_repo_known :
    (github : GitHub) (repo : String)
    → github.check_if_repo_exists repo ≡ ok tt
    → validate_repo github repo ≡ ok tt
unfolding validate_repo
validate_repo_known github repo approved = rw (approved, validate_repo) refl

module _ (u : Uuid) (publisher : NotificationPublisher) (github : GitHub) (email repo : String)
    (w : World ApiTables) where
  abbrev added : Database ApiTables
  added =
      with_rows w.db (w.db.tables.subscriptions ++ new_subscription u github email repo w.ids ∷ [])

  -- Everything before the confirmation is sent.
  subscribe_saves :
      exists (is_of email repo) w.db.tables.subscriptions ≡ false
      → exists (has_token (u.generate w.ids)) w.db.tables.subscriptions ≡ false
      → github.check_if_repo_exists repo ≡ ok tt
      → subscribe u publisher github email repo (calm w)
        ≡ (try (publisher.send_confirmation email repo (u.generate w.ids))
              >>= conclude u publisher github (new_subscription u github email repo w.ids))
            (record w { db = added; tx = added; aborted = false; faults = []; ids = suc w.ids })
  unfolding subscribe subscription_exists save_subscription save_in_tx save_row new_string begin
      commit call call_tx exec pool_query wrapping lift pure ◌>>=◌
  subscribe_saves new fresh approved =
      rw (new, validate_repo_known github repo approved, new, fresh) refl

-- A subscription to a repository that GitHub knows, for an address that has none to it, when no call
-- fails but the sending of the confirmation, which has no effect then: the answer is that the
-- confirmation is unavailable, with the cause, and the subscriptions and the outbox are as they were.
-- The hypothesis on the tokens is that the next generated UUID is not in use.
pub unsent_confirmation_undone :
    (u : Uuid) (publisher : NotificationPublisher) (github : GitHub) (email repo : String)
    (cause : Error) (w : World ApiTables)
    → w.faults ≡ []
    → exists (is_of email repo) w.db.tables.subscriptions ≡ false
    → exists (has_token (u.generate w.ids)) w.db.tables.subscriptions ≡ false
    → github.check_if_repo_exists repo ≡ ok tt
    → ((v : World ApiTables)
        → publisher.send_confirmation email repo (u.generate w.ids) v ≡ (err cause, v))
    → ((subscribe u publisher github email repo w).0
        ≡ err (join (sentinel confirmation_unavailable) ": " cause))
      × ((subscribe u publisher github email repo w).1.db ≡ w.db)
unfolding try conclude delete_unconfirmed_subscription call pool_exec wrapping raise unavailable
    ◌>>=◌
unsent_confirmation_undone u publisher github email repo cause w reachable new fresh approved
      unsent =
    let s = new_subscription u github email repo w.ids in
    let undone = delete_added s w.db.tables.subscriptions refl new in
    rw
      (
        eq-calm w reachable,
        subscribe_saves u publisher github email repo w new fresh approved,
        unsent,
        undone.1,
        undone.0,
      )
      (refl, refl)

-- A subscription to a repository that GitHub knows, for an address that has none to it, when no call
-- fails and the confirmation is sent, which leaves the service's world alone: it is no error, and
-- exactly one row is added, which is not confirmed and has the token that was sent. The hypothesis on
-- the tokens is that the next generated UUID is not in use.
pub sent_confirmation_kept :
    (u : Uuid) (publisher : NotificationPublisher) (github : GitHub) (email repo : String)
    (w : World ApiTables)
    → w.faults ≡ []
    → exists (is_of email repo) w.db.tables.subscriptions ≡ false
    → exists (has_token (u.generate w.ids)) w.db.tables.subscriptions ≡ false
    → github.check_if_repo_exists repo ≡ ok tt
    → ((v : World ApiTables)
        → publisher.send_confirmation email repo (u.generate w.ids) v ≡ (ok tt, v))
    → ((subscribe u publisher github email repo w).0 ≡ ok tt)
      × ((subscribe u publisher github email repo w).1.db
          ≡ with_rows w.db
              (w.db.tables.subscriptions ++ new_subscription u github email repo w.ids ∷ []))
unfolding try conclude pure ◌>>=◌
sent_confirmation_kept u publisher github email repo w reachable new fresh approved sent =
    rw
      (
        eq-calm w reachable,
        subscribe_saves u publisher github email repo w new fresh approved,
        sent,
      )
      (refl, refl)
