-- ===== src/Http/Outcomes.antt =====
-- What a client of the API learns from the status of a response, down to the database.
use software_engineering_sch.Base.{
  String, Option, some, true, false, ◌||◌, [], ◌∷◌, ◌++◌, ◌≡◌, refl, ◌==◌, exists, eq_refl, arith,
}
use software_engineering_sch.Errors.{Error, is, ok, err}
use software_engineering_sch.Json.{Bytes}
use software_engineering_sch.Uuid.{Uuid}
use software_engineering_sch.ApiTables.{ApiTables}
use software_engineering_sch.Db.{
  World, eq-calm, pure, raise, ◌>>=◌, try, call, pool_query, wrapping,
}
use software_engineering_sch.Subscription.Rows.{is_of, has_token}
use software_engineering_sch.Subscription.Repository.{with_rows, subscription_exists, unsubscribe}
use software_engineering_sch.Subscription.Service.{GitHub, NotificationPublisher, subscribe}
use software_engineering_sch.Subscription.Atomicity.{unsubscribe_atomic}
use software_engineering_sch.Subscription.Compensation.{new_subscription, sent_confirmation_kept}
use software_engineering_sch.Http.Patterns.{is_email, is_repo, is_request_id}
use software_engineering_sch.Http.Router.{
  post_subscribe, Request, respond, error, success, Input, bind_input, subscribe_failure,
  subscribed, subscribe_input, handle_subscribe, handle_unsubscribe, normalize, authorized,
  dispatch, serve,
}

-- An unsubscription with a token that is a UUID, which fails for whatever reason, is answered with
-- 404, also when the database cannot be reached; the subscriptions and the outbox are as they were.
failed_unsubscribe_hidden :
    (u : Uuid) (publisher : NotificationPublisher) (github : GitHub) (ctx : Option String)
    (token : String) (w : World ApiTables) (e : Error)
    → u.validates token ≡ true
    → (unsubscribe u ctx token w).0 ≡ err e
    → ((handle_unsubscribe u publisher github ctx token w).0
        ≡ ok (respond 404 (error "Token not found.")))
      × ((handle_unsubscribe u publisher github ctx token w).1.db ≡ w.db)
unfolding handle_unsubscribe try pure ◌>>=◌
failed_unsubscribe_hidden u publisher github ctx token w e valid failed =
    rw (valid, failed) (refl, unsubscribe_atomic u ctx token w e failed)

-- A request to subscribe, with the API key and a request id of the client.
abbrev pub post : (api_key request_id : String) → Bytes → Request
post api_key request_id body = record {
  endpoint = post_subscribe;
  api_key = api_key;
  request_id = request_id;
  email = "";
  body = body;
}

own_key : (api_key : String) → (api_key == "" || api_key == api_key) ≡ true
own_key api_key = ground (arith, eq_refl api_key)

module _ (u : Uuid) (publisher : NotificationPublisher) (github : GitHub)
    (api_key request_id : String) (body : Bytes) (input : Input) (w : World ApiTables) where
  -- Through the router to the service.
  pub serve-subscribe :
      bind_input body ≡ some input
      → is_email input.email ≡ true
      → is_repo input.repo ≡ true
      → is_request_id request_id ≡ true
      → serve u publisher github api_key (post api_key request_id body) w ≡ (
          let (r, w') = subscribe u publisher github input.email input.repo w in
          (ok (subscribed r, request_id), w'))
  unfolding serve dispatch authorized handle_subscribe subscribe_input normalize try pure ◌>>=◌
      bind_input subscribe
  serve-subscribe read email_ok repo_ok id_ok =
      rw (id_ok, own_key api_key, read, email_ok, repo_ok) refl

-- A request to subscribe that has the API key, a request id and input in their formats, when no call
-- fails, for a repository that GitHub knows and an address that has no row for it, and a
-- confirmation that is sent and leaves the service's world alone: the answer is 200 under the same
-- request id, and exactly the row of the new subscription is added. The hypothesis on the tokens is
-- that the next generated UUID is not in use.
pub accepted_subscription_saved :
    (u : Uuid) (publisher : NotificationPublisher) (github : GitHub) (api_key request_id : String)
    (body : Bytes) (input : Input) (w : World ApiTables)
    → bind_input body ≡ some input
    → is_email input.email ≡ true
    → is_repo input.repo ≡ true
    → is_request_id request_id ≡ true
    → w.faults ≡ []
    → exists (is_of input.email input.repo) w.db.tables.subscriptions ≡ false
    → exists (has_token (u.generate w.ids)) w.db.tables.subscriptions ≡ false
    → github.check_if_repo_exists input.repo ≡ ok tt
    → ((v : World ApiTables)
        → publisher.send_confirmation input.email input.repo (u.generate w.ids) v ≡ (ok tt, v))
    → let (r, w') = serve u publisher github api_key (post api_key request_id body) w in
      (r
        ≡ ok
            (respond 200 (success "Subscription successful. Confirmation email sent."), request_id))
      × (w'.db
          ≡ with_rows w.db (
              w.db.tables.subscriptions
              ++ new_subscription u github input.email input.repo w.ids ∷ []))
accepted_subscription_saved u publisher github api_key request_id body input w read email_ok repo_ok
      id_ok reachable new fresh approved sent =
    let saved =
      sent_confirmation_kept u publisher github input.email input.repo w reachable new fresh
        approved sent in
    rw
      (
        serve-subscribe u publisher github api_key request_id body input w read email_ok repo_ok
            id_ok,
        saved.0,
      )
      (refl, saved.1)

-- A request to subscribe that has the API key, a request id and input in their formats, for an
-- address that has a row for the repository already, when no call fails: the answer is 409 under the
-- same request id, and the subscriptions and the outbox are as they were.
pub second_subscription_conflicts :
    (u : Uuid) (publisher : NotificationPublisher) (github : GitHub) (api_key request_id : String)
    (body : Bytes) (input : Input) (w : World ApiTables)
    → bind_input body ≡ some input
    → is_email input.email ≡ true
    → is_repo input.repo ≡ true
    → is_request_id request_id ≡ true
    → w.faults ≡ []
    → exists (is_of input.email input.repo) w.db.tables.subscriptions ≡ true
    → let (r, w') = serve u publisher github api_key (post api_key request_id body) w in
      (r ≡ ok (respond 409 (error "Email already subscribed to this repository"), request_id))
      × (w'.db ≡ w.db)
unfolding subscribe subscription_exists wrapping pool_query call raise ◌>>=◌ subscribe_failure is
second_subscription_conflicts u publisher github api_key request_id body input w read email_ok
      repo_ok id_ok reachable taken =
    rw
      (
        serve-subscribe u publisher github api_key request_id body input w read email_ok repo_ok
            id_ok,
        eq-calm w reachable,
        taken,
      )
      (refl, refl)
