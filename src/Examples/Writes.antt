-- ===== src/Examples/Writes.antt =====
-- Examples for what subscribing, unsubscribing, detecting a release and enqueueing retries write.
use software_engineering_sch.Base.{none, true, List, [], ◌∷◌, ◌≡◌, refl, minute}
use software_engineering_sch.Errors.{
  Error, plain, ok, err, sentinel, join, confirmation_unavailable,
}
use software_engineering_sch.Contracts.{repo_watch_action_stop}
use software_engineering_sch.Outbox.Event.{OutboxEvent}
use software_engineering_sch.Db.{World}
use software_engineering_sch.ApiTables.{ApiTables, Subscription}
use software_engineering_sch.Subscription.Repository.{unsubscribe}
use software_engineering_sch.Subscription.Service.{GitHub, NotificationPublisher, subscribe}
use software_engineering_sch.Subscription.Confirm.{IsWatchRequest}
use software_engineering_sch.Subscription.Leaving.{WithoutToken, last_unsubscribe_stops_watch}
use software_engineering_sch.Subscription.Compensation.{unsent_confirmation_undone}
use software_engineering_sch.Scanner.Repository.{ScannerTables, Release, mark_release_detected}
use software_engineering_sch.Scanner.Releases.{IsReleaseEvent, Announced, new_release_announced}
use software_engineering_sch.Examples.Values.{uuid, world, go_repo, ann}

abbrev pub github : GitHub
github = record { check_if_repo_exists = λ r. ok tt; get_latest_tag = λ r. ok "v1" }

abbrev pub timeout : Error
timeout = plain "timeout"

-- A publisher that sends nothing, and one that sends.
abbrev silent : NotificationPublisher
silent = record {
  send_confirmation = λ email repo token w. (err timeout, w);
  send_quiet = λ email repo token w. (refl, refl);
}

abbrev pub heard : NotificationPublisher
heard = record {
  send_confirmation = λ email repo token w. (ok tt, w);
  send_quiet = λ email repo token w. (refl, refl);
}

abbrev pub no_subscriptions : World ApiTables
no_subscriptions = world (record { subscriptions = []; sagas = [] }) []

unsent_confirmation_undone_example :
    ((subscribe uuid silent github "bob@example.com" go_repo no_subscriptions).0
      ≡ err (join (sentinel confirmation_unavailable) ": " timeout))
    × ((subscribe uuid silent github "bob@example.com" go_repo no_subscriptions).1.db
        ≡ no_subscriptions.db)
unsent_confirmation_undone_example =
    unsent_confirmation_undone uuid silent github "bob@example.com" go_repo timeout no_subscriptions
      refl refl refl refl (λ v. refl)

abbrev confirmed_ann : Subscription
confirmed_ann = record ann { confirmed = true }

abbrev confirmed_world : World ApiTables
confirmed_world = world (record { subscriptions = confirmed_ann ∷ []; sagas = [] }) []

last_unsubscribe_stops_watch_example :
    ((unsubscribe uuid none "token-1" confirmed_world).0 ≡ ok tt)
    × ((e : OutboxEvent) × IsWatchRequest repo_watch_action_stop go_repo e
        × ((unsubscribe uuid none "token-1" confirmed_world).1.db
            ≡ record (WithoutToken "token-1" confirmed_world.db) { outbox = e ∷ [] }))
last_unsubscribe_stops_watch_example =
    last_unsubscribe_stops_watch uuid none "token-1" confirmed_ann confirmed_world refl refl refl
      refl refl

abbrev releases_world : List Release → World ScannerTables
releases_world releases = world (record { watchlist = []; releases = releases }) []

abbrev known : List Release
known = record { repo = go_repo; tag = "v2"; detected_at = 7 } ∷ []

new_release_announced_example :
    let w = releases_world [] in
    ((mark_release_detected uuid go_repo "v2" "scan-1" w).0 ≡ ok true)
    × ((e : OutboxEvent) × IsReleaseEvent go_repo "v2" "scan-1" e
        × ((mark_release_detected uuid go_repo "v2" "scan-1" w).1.db
            ≡ Announced go_repo "v2" minute e w.db))
new_release_announced_example =
    new_release_announced uuid go_repo "v2" "scan-1" (releases_world []) refl refl refl
