-- ===== src/Http/Router.antt =====
-- The handlers and the middleware that `SetupRouter` puts together. Finding the endpoint of a path
-- is gin's.
use software_engineering_sch.Base.{
  ℕ, String, Option, none, some, ◌||◌, not, List, ◌==◌, if◌then◌else◌,
}
use software_engineering_sch.Errors.{
  Error, is, Result, ok, err, already_subscribed, repo_not_found, github_rate_limit,
  github_unavailable, confirmation_unavailable, token_not_found,
}
use software_engineering_sch.Json.{
  Bytes, encoded, malformed, Fields, lookup, read_string, read_bool, and_then,
}
use software_engineering_sch.Contracts.Codec.{read_object}
use software_engineering_sch.Uuid.{Uuid, new_string}
use software_engineering_sch.ApiTables.{Subscription}
use software_engineering_sch.Db.{pure, ◌>>=◌, try}
use software_engineering_sch.Subscription.Repository.{Api, get_subscriptions, unsubscribe}
use software_engineering_sch.Subscription.Service.{
  GitHub, NotificationPublisher, subscribe, confirm,
}
use software_engineering_sch.Http.Patterns.{is_email, is_repo, is_request_id}

-- The endpoints of the group `/api`; `confirm` and `unsubscribe` have the token of their path.
pub data Endpoint : Type 0 where
  confirm_token : String → Endpoint
  unsubscribe_token : String → Endpoint
  post_subscribe : Endpoint
  get_list : Endpoint

pub record Request : Type 0 where
  pub endpoint : Endpoint
  pub api_key : String  -- the header X-API-Key, which is empty if it is absent
  pub request_id : String  -- the header X-Request-ID, likewise
  pub email : String  -- the parameter of the query, likewise
  pub body : Bytes

-- What is written as JSON: `{"error": …}`, `{"success": …}`, `{"message": …}`, or the subscriptions.
pub data Body : Type 0 where
  error : String → Body
  success : String → Body
  message : String → Body
  listing : List Subscription → Body

pub record Response : Type 0 where
  pub status : ℕ
  pub body : Body

abbrev pub respond : ℕ → Body → Response
respond status body = record { status = status; body = body }

-- `ShouldBindJSON(&input)`, by the two fields that the handler reads; the others only have to have
-- their types. A token is not read.
pub record Input : Type 0 where
  pub email : String
  pub repo : String

unfoldable read_input : Fields → Option Input
unfolding lookup
read_input fs = and_then (read_string (lookup "email" fs)) λ email.
    and_then (read_string (lookup "repo" fs)) λ repo.
      and_then (read_bool (lookup "confirmed" fs)) λ _.
        and_then (read_string (lookup "last_seen_tag" fs))
          λ _. some (record { email = email; repo = repo })

unfoldable pub bind_input : Bytes → Option Input
unfolding read_input
bind_input (malformed s) = none
bind_input (encoded j) = and_then (read_object j) read_input

-- The `switch` on the error of `Subscribe`.
unfoldable pub subscribe_failure : Error → Response
subscribe_failure e =
    if is e already_subscribed
    then respond 409 (error "Email already subscribed to this repository")
    else if is e repo_not_found
    then respond 404 (error "Repository not found on GitHub")
    else if is e github_rate_limit
    then respond 429 (error "GitHub API rate limit exceeded. Try again later.")
    else if is e github_unavailable
    then respond 502 (error "External API error")
    else if is e confirmation_unavailable
    then respond 503 (error "Service temporarily unavailable. Try again later.")
    else respond 500 (error "Internal server error")

abbrev pub subscribed : Result (Unit {0}) → Response
subscribed (ok _) = respond 200 (success "Subscription successful. Confirmation email sent.")
subscribed (err e) = subscribe_failure e

abbrev listed : Result (List Subscription) → Response
listed (ok rows) = respond 200 (listing rows)
listed (err e) = respond 500 (error "Internal server error")

abbrev confirmed : Result (Unit {0}) → Response
confirmed (ok _) = respond 200 (message "Subscription confirmed successfully")
confirmed (err e) =
    if is e token_not_found
    then respond 404 (error "Token not found")
    else respond 500 (error "Internal server error")

abbrev unsubscribed : Result (Unit {0}) → Response
unsubscribed (ok _) = respond 200 (message "Unsubscribed successfully")
unsubscribed (err e) = respond 404 (error "Token not found.")

-- The answer of an action, which a handler always has.
abbrev answering : {A : Type 0} → Api A → (Result A → Response) → Api Response
answering m f = do r ← try m; pure (f r)

module _ (u : Uuid) (publisher : NotificationPublisher) (github : GitHub) where
  unfoldable pub subscribe_input : Input → Api Response
  subscribe_input input =
      if not (is_email input.email)
      then pure (respond 400 (error "Invalid email"))
      else if not (is_repo input.repo)
      then pure (respond 400 (error "Invalid repository format"))
      else answering (subscribe u publisher github input.email input.repo) subscribed

  -- `handler.subscribe`
  unfoldable pub handle_subscribe : Bytes → Api Response
  unfolding subscribe_input
  handle_subscribe body = elim (bind_input body) [
    | none ↦ pure (respond 400 (error "Invalid JSON"))
    | some input ↦ subscribe_input input
  ]

  -- `handler.getSubscriptions`
  unfoldable pub handle_list : String → Api Response
  handle_list email =
      if email == "" || not (is_email email)
      then pure (respond 400 (error "Invalid email"))
      else answering (get_subscriptions email) listed

  -- `handler.confirm` and `handler.unsubscribe`
  unfoldable pub handle_confirm : Option String → String → Api Response
  handle_confirm ctx token =
      if not (u.validates token)
      then pure (respond 400 (error "Invalid token"))
      else answering (confirm u ctx token) confirmed

  unfoldable pub handle_unsubscribe : Option String → String → Api Response
  handle_unsubscribe ctx token =
      if not (u.validates token)
      then pure (respond 400 (error "Invalid token"))
      else answering (unsubscribe u ctx token) unsubscribed

  -- `requestid.Normalize`
  unfoldable pub normalize : String → Api String
  normalize id = if is_request_id id then pure id else new_string u

  -- `requestid.FromContext`, of a context with the id
  abbrev pub from_context : String → Option String
  from_context id = if id == "" then none else some id

  -- `apiKeyAuth`, in front of a handler
  unfoldable pub authorized : (api_key : String) → Request → Api Response → Api Response
  authorized api_key request handler =
      if api_key == "" || request.api_key == api_key
      then handler
      else pure (respond 401 (error "Unauthorized"))

  -- The handlers of an endpoint, behind the API key where `SetupRouter` protects them.
  unfoldable pub dispatch : (api_key : String) → Option String → Request → Endpoint → Api Response
  unfolding authorized
  dispatch api_key ctx request (confirm_token token) = handle_confirm ctx token
  dispatch api_key ctx request (unsubscribe_token token) = handle_unsubscribe ctx token
  dispatch api_key ctx request post_subscribe =
      authorized api_key request (handle_subscribe request.body)
  dispatch api_key ctx request get_list = authorized api_key request (handle_list request.email)

  -- A request through the router: the response, with the header X-Request-ID.
  unfoldable pub serve : (api_key : String) → Request → Api (Response × String)
  unfolding dispatch
  serve api_key request = do
    id ← normalize request.request_id
    response ← dispatch api_key (from_context id) request request.endpoint
    pure (response, id)
