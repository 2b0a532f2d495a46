-- ===== src/Examples/Requests.antt =====
-- Examples for the requests of the HTTP API.
use software_engineering_sch.Base.{String, true, [], ◌∷◌, ◌≡◌, ◌↔◌, refl, arith, eq_iff}
use software_engineering_sch.Errors.{ok}
use software_engineering_sch.Json.{Bytes, encoded, malformed, str, obj, field, end, lookup}
use software_engineering_sch.Text.Codes.{codes}
use software_engineering_sch.Text.Derivative.{match_string}
use software_engineering_sch.Subscription.Repository.{with_rows}
use software_engineering_sch.Subscription.Compensation.{new_subscription}
use software_engineering_sch.Http.Patterns.{is_email, is_repo, is_request_id}
use software_engineering_sch.Http.Router.{
  get_list, Request, respond, error, success, Input, bind_input, serve,
}
use software_engineering_sch.Http.Repositories.{IsOwnedName, is_repo_iff}
use software_engineering_sch.Http.Guards.{Answers, unauthorized_idle}
use software_engineering_sch.Http.Outcomes.{post, accepted_subscription_saved}
use software_engineering_sch.Github.Client.{Server, HttpClient, http_github}
use software_engineering_sch.Github.Refusals.{unconfirmed_repository_refused}
use software_engineering_sch.Examples.Values.{uuid, go_repo}
use software_engineering_sch.Examples.Writes.{github, heard, no_subscriptions}

is_repo_iff_example : (is_repo go_repo ≡ true) ↔ IsOwnedName (codes go_repo)
is_repo_iff_example = is_repo_iff go_repo

abbrev body_of : String → Bytes
body_of email = encoded (obj (field "email" (str email) (field "repo" (str go_repo) end)))

abbrev list_request : Request
list_request = record {
  endpoint = get_list;
  api_key = "guess";
  request_id = "r-1";
  email = "ann@example.com";
  body = malformed "";
}

unauthorized_idle_example :
    Answers uuid heard github "key" list_request
      (respond 401 (error "Unauthorized"))
      no_subscriptions
unauthorized_idle_example =
    unauthorized_idle uuid heard github "key" list_request no_subscriptions (λ e. cc e)
      (λ e. cc ((eq_iff "guess" "key").1 e)) refl

abbrev bob : Input
bob = record { email = "bob@example.com"; repo = go_repo }

accepted_subscription_saved_example :
    let (r, w') =
      serve uuid heard github "key" (post "key" "r-1" (body_of bob.email)) no_subscriptions in
    (r ≡ ok (respond 200 (success "Subscription successful. Confirmation email sent."), "r-1"))
    × (w'.db
        ≡ with_rows no_subscriptions.db (new_subscription uuid github bob.email bob.repo 0 ∷ []))
unfolding bind_input is_email is_repo is_request_id match_string lookup
accepted_subscription_saved_example =
    accepted_subscription_saved uuid heard github "key" "r-1" (body_of bob.email) bob
      no_subscriptions refl refl refl refl refl refl refl refl (λ v. refl)

-- GitHub knows no repository.
abbrev empty_github : Server
empty_github call = ok (record { status = 404; body = malformed "" })

abbrev client : HttpClient
client = record { base_url = "https://api.github.com"; token = "" }

unconfirmed_repository_refused_example :
    let (r, w') =
      serve uuid heard
        (http_github empty_github client)
        "key"
        (post "key" "r-1" (body_of bob.email))
        no_subscriptions in
    (r ≡ ok (respond 404 (error "Repository not found on GitHub"), "r-1"))
    × (w'.db ≡ no_subscriptions.db)
unfolding bind_input is_email is_repo is_request_id match_string lookup
unconfirmed_repository_refused_example =
    unconfirmed_repository_refused uuid heard empty_github client "key" "r-1" (body_of bob.email)
      bob (record { status = 404; body = malformed "" }) no_subscriptions refl refl refl refl refl
      refl refl (λ e. omega (arith, e))
