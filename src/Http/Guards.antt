-- ===== src/Http/Guards.antt =====
-- What the API turns away before it does any work.
use software_engineering_sch.Base.{
  String, Option, none, some, Bool, true, false, ◌&&◌, ◌||◌, not, ◌≡◌, ◌≢◌, refl, arith, eq_iff,
  ◌==◌, if◌then◌else◌, ◌⊎◌, inl, inr,
}
use software_engineering_sch.Errors.{ok}
use software_engineering_sch.Uuid.{Uuid, new_string}
use software_engineering_sch.ApiTables.{ApiTables}
use software_engineering_sch.Db.{World, pure, ◌>>=◌}
use software_engineering_sch.Subscription.Repository.{Api}
use software_engineering_sch.Subscription.Service.{GitHub, NotificationPublisher}
use software_engineering_sch.Json.{Bytes}
use software_engineering_sch.Http.Patterns.{is_email, is_repo, is_request_id}
use software_engineering_sch.Http.Router.{
  Endpoint, confirm_token, unsubscribe_token, post_subscribe, get_list, Request, Response, respond,
  error, Input, bind_input, subscribe_input, handle_subscribe, normalize, from_context, authorized,
  dispatch, serve,
}

-- Nothing has happened but that UUIDs may have been generated.
abbrev pub IsIdle : World ApiTables → World ApiTables → Type 0
IsIdle w' w = (w'.db ≡ w.db) × (w'.sent ≡ w.sent) × (w'.mails ≡ w.mails) × (w'.faults ≡ w.faults)

module _ (u : Uuid) (publisher : NotificationPublisher) (github : GitHub) (api_key : String)
    (request : Request) where
  -- The response to a request, and the world after it.
  abbrev pub Answers : Response → World ApiTables → Type 0
  Answers response w =
      let (r, w') = serve u publisher github api_key request w in
      ((id : String) × (r ≡ ok (response, id))) × IsIdle w' w

  identified :
      (known : Bool) (response : Response) (w : World ApiTables)
      → ((ctx : Option String)
          → dispatch u publisher github api_key ctx request request.endpoint ≡ pure response)
      → let (r, w') =
          ((if known then pure request.request_id else new_string u) >>= λ id.
          dispatch u publisher github api_key
            (from_context u publisher github id)
            request
            request.endpoint
          >>= λ answer. let pair : Response × String = (answer, id) in pure pair)
            w in
        ((id : String) × (r ≡ ok (response, id))) × IsIdle w' w
  unfolding ◌>>=◌ pure new_string
  identified true response w h =
      rw (h (from_context u publisher github request.request_id))
        ((_, refl), (refl, refl, refl, refl))
  identified false response w h =
      rw (h (from_context u publisher github (u.generate w.ids)))
        ((_, refl), (refl, refl, refl, refl))

  -- The request id comes first, and then the endpoint's handlers, if these only respond.
  serve_responds :
      (response : Response) (w : World ApiTables)
      → ((ctx : Option String)
          → dispatch u publisher github api_key ctx request request.endpoint ≡ pure response)
      → Answers response w
  unfolding serve normalize
  serve_responds response w h = identified (is_request_id request.request_id) response w h

-- The endpoints behind the API key.
abbrev pub is_protected : Endpoint → Bool
is_protected post_subscribe = true
is_protected get_list = true
is_protected _ = false

-- A body that is read, with an address and a repository in their formats.
abbrev pub is_subscribable : Option Input → Bool
is_subscribable none = false
is_subscribable (some input) = is_email input.email && is_repo input.repo

module _ (u : Uuid) (publisher : NotificationPublisher) (github : GitHub) (api_key : String)
    (request : Request) where
  turned_away :
      (e : Endpoint) (ctx : Option String)
      → (api_key == "" || request.api_key == api_key) ≡ false
      → is_protected e ≡ true
      → dispatch u publisher github api_key ctx request e
        ≡ pure (respond 401 (error "Unauthorized"))
  unfolding dispatch
  turned_away post_subscribe ctx wrong h = rw wrong refl
  turned_away get_list ctx wrong h = rw wrong refl
  turned_away (confirm_token token) ctx wrong h = cc
  turned_away (unsubscribe_token token) ctx wrong h = cc

  -- The two guards on the input, in front of an action.
  guarded_input :
      (email_ok repo_ok : Bool) (action : Api Response)
      → (email_ok && repo_ok) ≡ false
      → (response : Response) × (response.status ≡ 400)
        × ((if not email_ok
              then pure (respond 400 (error "Invalid email"))
              else if not repo_ok
              then pure (respond 400 (error "Invalid repository format"))
              else action)
            ≡ pure response)
  guarded_input false _ action h = (_, refl, refl)
  guarded_input true false action h = (_, refl, refl)
  guarded_input true true action h = cc

  malformed_input :
      (input : Input)
      → (is_email input.email && is_repo input.repo) ≡ false
      → (response : Response) × (response.status ≡ 400)
        × (subscribe_input u publisher github input ≡ pure response)
  unfolding subscribe_input
  malformed_input input h = guarded_input (is_email input.email) (is_repo input.repo) _ h

  -- Without input, or with wrong input.
  refused_input :
      (input : Option Input)
      → is_subscribable input ≡ false
      → (response : Response) × (response.status ≡ 400)
        × (elim input [
          | none ↦ pure (respond 400 (error "Invalid JSON"))
          | some i ↦ subscribe_input u publisher github i
        ]
            ≡ pure {T = ApiTables} response)
  refused_input none h = (_, refl, refl)
  refused_input (some i) h = malformed_input i h

  -- By the test of the API key.
  refused_body :
      (known : Bool) (body : Bytes)
      → is_subscribable (bind_input body) ≡ false
      → (response : Response) × ((response.status ≡ 400) ⊎ (response.status ≡ 401))
        × ((if known
              then handle_subscribe u publisher github body
              else pure (respond 401 (error "Unauthorized")))
            ≡ pure response)
  unfolding handle_subscribe
  refused_body true body h =
      let (response, status, same) = refused_input (bind_input body) h in
      (response, inl status, same)
  refused_body false body h = (_, inr refl, refl)

  subscribing :
      (e : Endpoint) (ctx : Option String) (response : Response)
      → e ≡ post_subscribe
      → authorized u publisher github api_key request
          (handle_subscribe u publisher github request.body)
        ≡ pure response
      → dispatch u publisher github api_key ctx request e ≡ pure response
  unfolding dispatch
  subscribing post_subscribe ctx response h same = same
  subscribing get_list ctx response h same = cc
  subscribing (confirm_token token) ctx response h same = cc
  subscribing (unsubscribe_token token) ctx response h same = cc

-- If an API key is set, a request to a protected endpoint that does not have it is answered with 401,
-- and nothing else happens: the database, Kafka and the mails are as they were, and no call is made.
pub unauthorized_idle :
    (u : Uuid) (publisher : NotificationPublisher) (github : GitHub) (api_key : String)
    (request : Request) (w : World ApiTables)
    → api_key ≢ ""
    → request.api_key ≢ api_key
    → is_protected request.endpoint ≡ true
    → Answers u publisher github api_key request (respond 401 (error "Unauthorized")) w
unauthorized_idle u publisher github api_key request w set wrong protected =
    let refused : (api_key == "" || request.api_key == api_key) ≡ false =
      ground (arith, set, wrong, eq_iff api_key "", eq_iff request.api_key api_key) in
    serve_responds u publisher github api_key request _ w
      (λ ctx. turned_away u publisher github api_key request request.endpoint ctx refused protected)

-- A request to subscribe whose body is not JSON for the handler's input, or whose address or
-- repository is not in its format, is answered with 400, or with 401 if the API key is wrong; nothing
-- else happens.
wrong_input_refused :
    (u : Uuid) (publisher : NotificationPublisher) (github : GitHub) (api_key : String)
    (request : Request) (w : World ApiTables)
    → request.endpoint ≡ post_subscribe
    → is_subscribable (bind_input request.body) ≡ false
    → (response : Response) × ((response.status ≡ 400) ⊎ (response.status ≡ 401))
      × Answers u publisher github api_key request response w
unfolding authorized
wrong_input_refused u publisher github api_key request w h wrong =
    let (response, status, same) =
      refused_body u publisher github api_key request (api_key == "" || request.api_key == api_key)
        request.body wrong in
    (
      response,
      status,
      serve_responds u publisher github api_key request response w (λ ctx.
          subscribing u publisher github api_key request request.endpoint ctx response h same),
    )
