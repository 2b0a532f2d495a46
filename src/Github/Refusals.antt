-- ===== src/Github/Refusals.antt =====
-- What the API answers to a subscription when GitHub does not confirm the repository.
use software_engineering_sch.Base.{
  ℕ, String, some, true, false, [], ◌≡◌, ◌≢◌, refl, eqb, if◌then◌else◌, exists, arith, ap, ◌∙◌,
  Bool-cases, inl, inr,
}
use software_engineering_sch.Errors.{
  Error, is, ok, err, plain, join, sentinel, repo_not_found, github_rate_limit, github_unavailable,
  github_not_found, github_api_limit,
}
use software_engineering_sch.Json.{Bytes}
use software_engineering_sch.Uuid.{Uuid}
use software_engineering_sch.ApiTables.{ApiTables}
use software_engineering_sch.Db.{
  World, eq-calm, pure, raise, lift, ◌>>=◌, call, pool_query, wrapping,
}
use software_engineering_sch.Subscription.Rows.{is_of}
use software_engineering_sch.Subscription.Repository.{subscription_exists}
use software_engineering_sch.Subscription.Service.{
  GitHub, NotificationPublisher, validate_repo, subscribe,
}
use software_engineering_sch.Http.Patterns.{is_email, is_repo, is_request_id}
use software_engineering_sch.Http.Router.{
  Response, respond, error, Input, bind_input, subscribe_failure, serve,
}
use software_engineering_sch.Http.Outcomes.{post, serve-subscribe}
use software_engineering_sch.Github.Client.{
  Server, Call, Answer, answered, HttpClient, new_request, repo_answer, check_if_repo_exists,
  http_github,
}
use software_engineering_sch.Errors.{◌+++◌}

-- The answer to the client, by GitHub's status.
abbrev pub refusal : ℕ → Response
refusal status =
    if eqb status 404
    then respond 404 (error "Repository not found on GitHub")
    else if eqb status 429
    then respond 429 (error "GitHub API rate limit exceeded. Try again later.")
    else respond 502 (error "External API error")

-- The call that asks whether a repository exists.
abbrev pub head_call : HttpClient → String → Call
head_call c repo = new_request c "HEAD" (c.base_url +++ "/repos/" +++ repo)

-- What the client makes of another status than 200.
asked_status :
    (server : Server) (c : HttpClient) (repo : String) (answer : Answer)
    → server (head_call c repo) ≡ ok answer
    → (http_github server c).check_if_repo_exists repo ≡ repo_answer answer
unfolding http_github check_if_repo_exists
asked_status server c repo answer asked = ap (λ r. answered r repo_answer) asked

abbrev client_error : ℕ → Error
client_error status =
    if eqb status 404
    then sentinel github_not_found
    else if eqb status 429
    then sentinel github_api_limit
    else plain "github error"

unknown_status :
    (answer : Answer) (e : Error)
    → answer.status ≢ 200
    → client_error answer.status ≡ e
    → repo_answer answer ≡ err e
unfolding repo_answer
unknown_status answer e other same = ground (arith, other, same)

service_error :
    (github : GitHub) (repo : String) (e : Error)
    → github.check_if_repo_exists repo ≡ err e
    → validate_repo github repo ≡ (
        if is e github_not_found
        then err (sentinel repo_not_found)
        else if is e github_api_limit
        then err (sentinel github_rate_limit)
        else err (join (sentinel github_unavailable) ": " e))
unfolding validate_repo
service_error github repo e failed = rw (failed, validate_repo) refl

-- The service's error, by GitHub's answer.
unconfirmed :
    (server : Server) (c : HttpClient) (repo : String) (answer : Answer)
    → server (head_call c repo) ≡ ok answer
    → answer.status ≢ 200
    → (e : Error) × (validate_repo (http_github server c) repo ≡ err e)
      × (subscribe_failure e ≡ refusal answer.status)
unfolding subscribe_failure is
unconfirmed server c repo answer asked other =
    let failed = λ (e : Error) (same : client_error answer.status ≡ e).
      service_error (http_github server c) repo e
        (asked_status server c repo answer asked ∙ unknown_status answer e other same) in
    elim (Bool-cases (eqb answer.status 404)) [
      | inl missing ↦ (
        sentinel repo_not_found,
        failed (sentinel github_not_found) (rw missing refl),
        rw missing refl,
      )
      | inr found ↦ elim (Bool-cases (eqb answer.status 429)) [
        | inl limited ↦ (
          sentinel github_rate_limit,
          failed (sentinel github_api_limit) (rw (found, limited) refl),
          rw (found, limited) refl,
        )
        | inr free ↦ (
          join (sentinel github_unavailable) ": " (plain "github error"),
          failed (plain "github error") (rw (found, free) refl),
          rw (found, free) refl,
        )
      ]
    ]

-- A request to subscribe that has the API key, a request id and input in their formats, for an
-- address that has no row for the repository, when no call fails and GitHub answers the client's
-- question for the repository with another status than 200: the answer is 404 if GitHub's status is
-- 404, 429 if it is 429, and 502 otherwise, under the same request id, and the subscriptions and the
-- outbox are as they were.
pub unconfirmed_repository_refused :
    (u : Uuid) (publisher : NotificationPublisher) (server : Server) (c : HttpClient)
    (api_key request_id : String) (body : Bytes) (input : Input) (answer : Answer)
    (w : World ApiTables)
    → bind_input body ≡ some input
    → is_email input.email ≡ true
    → is_repo input.repo ≡ true
    → is_request_id request_id ≡ true
    → w.faults ≡ []
    → exists (is_of input.email input.repo) w.db.tables.subscriptions ≡ false
    → server (head_call c input.repo) ≡ ok answer
    → answer.status ≢ 200
    → let (r, w') =
        serve u publisher (http_github server c) api_key (post api_key request_id body) w in
      (r ≡ ok (refusal answer.status, request_id)) × (w'.db ≡ w.db)
unfolding subscribe subscription_exists wrapping pool_query call raise lift pure ◌>>=◌
unconfirmed_repository_refused u publisher server c api_key request_id body input answer w read
      email_ok repo_ok id_ok reachable new asked other =
    let (e, failed, answered) = unconfirmed server c input.repo answer asked other in
    rw
      (
        serve-subscribe u publisher (http_github server c) api_key request_id body input w read
            email_ok repo_ok id_ok,
        eq-calm w reachable,
        new,
        failed,
        answered,
      )
      (refl, refl)
