-- ===== src/Subscription/Consent.antt =====
-- What the operations of the service make of the confirmed rows: only a confirmation by its token
-- confirms a row, and a row keeps its address, repository and token.
use software_engineering_sch.Base.{
  String, Option, Bool, true, false, delete, update, exists, List, Bool-cases, inl, inr, subst, sym,
  ◌≡◌, All, All-concat, All-update, All-delete, eq_iff,
}
use software_engineering_sch.Errors.{Result, ok, err}
use software_engineering_sch.Uuid.{Uuid}
use software_engineering_sch.Outbox.Event.{OutboxEvent}
use software_engineering_sch.Outbox.Store.{insert_tx}
use software_engineering_sch.Outbox.Insert.{new_string-Keeps, insert_tx-Keeps}
use software_engineering_sch.ApiTables.{ApiTables, Subscription}
use software_engineering_sch.Db.{Database, World}
use software_engineering_sch.Db.Keeps.{Keeps, Keeps-pure, Keeps-exec, Keeps-pool_exec, keeps_rules}
use software_engineering_sch.Subscription.Rows.{is_of, has_token, save_row}
use software_engineering_sch.Subscription.Repository.{
  with_rows, subscription_exists, save_in_tx, save_subscription, delete_unconfirmed_subscription,
  confirm_subscription_by_token, insert_repo_watch_saga_request, request_repo_watch_saga,
  stop_if_last, unsubscribe,
}
use software_engineering_sch.Subscription.Service.{
  NotificationPublisher, GitHub, conclude, subscribe, confirm,
}

-- `Asked email repo token` is what is known of a row that is confirmed.
module _ (Asked : (email repo token : String) → Type 0) where
  abbrev pub IsConsented : Subscription → Type 0
  IsConsented s = s.confirmed ≡ true → Asked s.email s.repo s.token

  pub record AreConsented (d : Database ApiTables) : Type 0 where
    pub rows : All IsConsented d.tables.subscriptions

  insert_tx-AreConsented : (e : OutboxEvent) → Keeps AreConsented (insert_tx e)
  insert_tx-AreConsented e = insert_tx-Keeps e (λ now d h. record { rows = h.rows })

  save_row-IsConsented :
      (s : Subscription) (rows : List Subscription)
      → s.confirmed ≡ false
      → All IsConsented rows
      → All IsConsented (save_row s rows).1
  unfolding save_row
  save_row-IsConsented s rows new h = elim (Bool-cases (exists (is_of s.email s.repo) rows)) [
    | inl known ↦ rw known (All-update IsConsented (is_of s.email s.repo) _ rows (λ x _ c. c) h)
    | inr unknown ↦ elim (Bool-cases (exists (has_token s.token) rows)) [
      | inl taken ↦ rw (unknown, taken) h
      | inr free ↦ rw (unknown, free) (All-concat IsConsented rows s h (λ e. cc (e, new)))
    ]
  ]

  save_in_tx-AreConsented :
      (s : Subscription) → s.confirmed ≡ false → Keeps AreConsented (save_in_tx s)
  unfolding save_in_tx
  save_in_tx-AreConsented s new = search (keeps_rules, Keeps-exec, saving s new)
    where
      saving :
          (s : Subscription)
          → s.confirmed ≡ false
          → (w : World ApiTables) (d : Database ApiTables) → AreConsented d
          → AreConsented (with_rows d (save_row s d.tables.subscriptions).1)
      saving s new w d h = record {
        rows = save_row-IsConsented s d.tables.subscriptions new h.rows;
      }

  deleted :
      (p : Subscription → Bool) (d : Database ApiTables)
      → AreConsented d
      → AreConsented (with_rows d (delete p d.tables.subscriptions))
  deleted p d h = record { rows = All-delete IsConsented p d.tables.subscriptions h.rows }

  -- Confirming the rows of a token.
  confirmed_by :
      (token : String) (d : Database ApiTables)
      → ((email repo : String) → Asked email repo token)
      → AreConsented d
      → AreConsented (
          with_rows d
            (update (has_token token) (λ r. record r { confirmed = true }) d.tables.subscriptions))
  confirmed_by token d asked h = record {
    rows =
        All-update IsConsented (has_token token) _ d.tables.subscriptions
          (λ x chosen _ _.
            subst (Asked x.email x.repo) (sym ((eq_iff x.token token).0 chosen))
              (asked x.email x.repo))
          h.rows;
  }

  insert_repo_watch_saga_request-AreConsented :
      (u : Uuid) (ctx : Option String) (action repo email : String)
      → Keeps AreConsented (insert_repo_watch_saga_request u ctx action repo email)
  unfolding insert_repo_watch_saga_request
  insert_repo_watch_saga_request-AreConsented u ctx action repo email =
      search (keeps_rules, new_string-Keeps, insert_tx-AreConsented)

  pub unsubscribe-AreConsented :
      (u : Uuid) (ctx : Option String) (token : String)
      → Keeps AreConsented (unsubscribe u ctx token)
  unfolding unsubscribe stop_if_last
  unsubscribe-AreConsented u ctx token =
      search (keeps_rules, Keeps-exec, deleted, insert_repo_watch_saga_request-AreConsented) depth
        14

  pub confirm-AreConsented :
      (u : Uuid) (ctx : Option String) (token : String)
      → ((email repo : String) → Asked email repo token)
      → Keeps AreConsented (confirm u ctx token)
  unfolding confirm confirm_subscription_by_token request_repo_watch_saga
  confirm-AreConsented u ctx token asked =
      search (keeps_rules, Keeps-exec, confirmed_by, insert_repo_watch_saga_request-AreConsented)
        depth 14

  delete_unconfirmed-AreConsented :
      (email repo token : String)
      → Keeps AreConsented (delete_unconfirmed_subscription email repo token)
  unfolding delete_unconfirmed_subscription
  delete_unconfirmed-AreConsented email repo token =
      search (keeps_rules, Keeps-pool_exec, deleted) depth 12

  send-AreConsented :
      (publisher : NotificationPublisher) (email repo token : String)
      → Keeps AreConsented (publisher.send_confirmation email repo token)
  send-AreConsented publisher email repo token = record {
    kept = λ w h.
        let (same_db, same_tx) = publisher.send_quiet email repo token w in
        (rw same_db h.0, rw same_tx h.1);
  }

  conclude-AreConsented :
      (u : Uuid) (publisher : NotificationPublisher) (github : GitHub) (s : Subscription)
      (r : Result (Unit {0}))
      → Keeps AreConsented (conclude u publisher github s r)
  unfolding conclude
  conclude-AreConsented u publisher github s (ok _) = Keeps-pure tt
  conclude-AreConsented u publisher github s (err e) =
      search (keeps_rules, delete_unconfirmed-AreConsented)

  pub subscribe-AreConsented :
      (u : Uuid) (publisher : NotificationPublisher) (github : GitHub) (email repo : String)
      → Keeps AreConsented (subscribe u publisher github email repo)
  unfolding subscribe subscription_exists save_subscription conclude
  subscribe-AreConsented u publisher github email repo =
      search
        (
          keeps_rules,
          new_string-Keeps,
          send-AreConsented,
          save_in_tx-AreConsented,
          conclude-AreConsented u,
        )
        depth 14
