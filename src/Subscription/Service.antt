-- ===== src/Subscription/Service.antt =====
-- The subscription service (service.go), over the repository, the GitHub client and a publisher of
-- confirmation notifications.
use software_engineering_sch.Base.{String, Option, false, not, if◌then◌else◌, ◌≡◌}
use software_engineering_sch.Errors.{
  Error, sentinel, wrap, join, is, Result, ok, err, already_subscribed, repo_not_found,
  github_rate_limit, github_unavailable, confirmation_unavailable, github_not_found,
  github_api_limit,
}
use software_engineering_sch.Contracts.{repo_watch_action_start}
use software_engineering_sch.Uuid.{Uuid, new_string}
use software_engineering_sch.ApiTables.{Subscription, ApiTables}
use software_engineering_sch.Db.{World, pure, raise, lift, ◌>>=◌, ◌>>◌, wrapping, try, fail_if}
use software_engineering_sch.Subscription.Repository.{
  Api, subscription_exists, save_subscription, delete_unconfirmed_subscription,
  confirm_subscription_by_token, request_repo_watch_saga,
}

-- `GitHubClient`, by the answers that it gives to this call of the service.
pub record GitHub : Type 0 where
  pub check_if_repo_exists : String → Result (Unit {0})
  pub get_latest_tag : String → Result String

-- `NotificationPublisher`: sending a confirmation does not use the service's database.
pub record NotificationPublisher : Type 0 where
  pub send_confirmation : (email repo token : String) → Api (Unit {0})
  pub send_quiet :
      (email repo token : String) (w : World ApiTables)
      → ((send_confirmation email repo token w).1.db ≡ w.db)
        × ((send_confirmation email repo token w).1.tx ≡ w.tx)

-- `validateRepo`
unfoldable pub validate_repo : GitHub → String → Result (Unit {0})
validate_repo github repo = elim (github.check_if_repo_exists repo) [
  | ok _ ↦ ok tt
  | err e ↦
      if is e github_not_found
      then err (sentinel repo_not_found)
      else if is e github_api_limit
      then err (sentinel github_rate_limit)
      else err (join (sentinel github_unavailable) ": " e)
]

-- A tag that could not be fetched is logged and left empty.
abbrev pub tag_or_empty : Result String → String
tag_or_empty (ok tag) = tag
tag_or_empty (err e) = ""

module _ (u : Uuid) (publisher : NotificationPublisher) (github : GitHub) where
  -- The error of `Subscribe` after a failed confirmation, by the outcome of its compensation.
  unfoldable pub unavailable : Error → Result (Unit {0}) → Error
  unavailable e (ok _) = join (sentinel confirmation_unavailable) ": " e
  unavailable e (err c) =
      join (sentinel confirmation_unavailable) ": "
        (join (wrap "send confirmation" e) "; " (wrap "compensate subscription" c))

  -- The end of `Subscribe`, by the publisher's answer.
  unfoldable pub conclude : Subscription → Result (Unit {0}) → Api (Unit {0})
  conclude s (ok _) = pure tt
  conclude s (err e) = do
    compensated ← try (delete_unconfirmed_subscription s.email s.repo s.token)
    raise (unavailable e compensated)

  unfoldable pub subscribe : String → String → Api (Unit {0})
  subscribe email repo = do
    known ← wrapping "check subscription" (subscription_exists email repo)
    fail_if known (sentinel already_subscribed)
    lift (validate_repo github repo)
    token ← new_string u
    let s : Subscription = record {
      email = email;
      repo = repo;
      confirmed = false;
      last_seen_tag = tag_or_empty (github.get_latest_tag repo);
      token = token;
    }
    save_subscription s
    sent ← try (publisher.send_confirmation s.email s.repo s.token)
    conclude s sent

-- `Service.ConfirmSubscriptionByToken`
unfoldable pub confirm : Uuid → Option String → String → Api (Unit {0})
confirm u ctx token = do
  result ← confirm_subscription_by_token token
  if not result.was_first_confirmed
      then pure tt
      else request_repo_watch_saga u ctx repo_watch_action_start result.repo result.email
