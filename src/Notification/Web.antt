-- ===== src/Notification/Web.antt =====
-- The confirmation over HTTP: `OutboxNotificationPublisher.SendConfirmation`
-- (services/subscription-api/internal/subscription/notification_publisher.go) and the handler of the
-- notification service (services/notification-service/internal/delivery/http.go).
use Prim.Native.Char.{code}
use Prim.Native.String.{◌∷◌ as ◌before◌}
use software_engineering_sch.Base.{
  ℕ, String, Option, none, some, ◌&&◌, ◌||◌, not, ◌==◌, eqb, leb, if◌then◌else◌, ◌≡◌, refl,
  Bool-cases, inl, inr,
}
use software_engineering_sch.Errors.{plain, wrap, ◌+++◌, Result, ok, err}
use software_engineering_sch.Json.{
  Bytes, encoded, malformed, str, obj, field, end, Fields, lookup, read_string, and_then,
}
use software_engineering_sch.Contracts.Codec.{read_object}
use software_engineering_sch.ApiTables.{ApiTables}
use software_engineering_sch.Db.{World, pure, lift, ◌>>=◌, try}
use software_engineering_sch.Subscription.Repository.{Api}
use software_engineering_sch.Subscription.Service.{NotificationPublisher}
use software_engineering_sch.Delivery.Repository.{Deliver}
use software_engineering_sch.Delivery.Service.{send_confirmation}

pub record ConfirmationRequest : Type 0 where
  pub email : String
  pub repo : String
  pub confirm_url : String

read_fields : Fields → Option ConfirmationRequest
unfolding lookup
read_fields fs = and_then (read_string (lookup "email" fs)) λ email.
    and_then (read_string (lookup "repo" fs)) λ repo.
      and_then (read_string (lookup "confirm_url" fs))
        λ confirm_url. some (record { email = email; repo = repo; confirm_url = confirm_url })

unfoldable pub read_confirmation : Bytes → Option ConfirmationRequest
unfolding read_fields
read_confirmation (malformed s) = none
read_confirmation (encoded j) = and_then (read_object j) read_fields

abbrev sent_status : Result (Unit {0}) → ℕ
sent_status (ok _) = 202
sent_status (err e) = 503

-- The handler's status
unfoldable pub confirm_request : ConfirmationRequest → Deliver ℕ
confirm_request r =
    if r.email == "" || r.repo == "" || r.confirm_url == ""
    then pure 400
    else do sent ← try (send_confirmation r.email r.confirm_url); pure (sent_status sent)

unfoldable pub handle_confirmation : (method : String) → Bytes → Deliver ℕ
unfolding confirm_request
handle_confirmation method body =
    if not (method == "POST")
    then pure 405
    else elim (read_confirmation body) [ none ↦ pure 400 | some r ↦ confirm_request r ]

-- The multiplexer of `NewHTTPHandler`, by the path of the request.
unfoldable pub serve_path : (path method : String) → Bytes → Deliver ℕ
serve_path path method body =
    if path == "/internal/notifications/confirmation"
    then handle_confirmation method body
    else pure 404

-- `strings.TrimRight(url, "/")`
unfoldable pub trim_slashes : String → String
trim_slashes String.[] = ""
trim_slashes (String.◌∷◌ c s) =
    let rest = trim_slashes s in if rest == "" && eqb (code c) b'/' then "" else c before rest

-- The body of the request
unfoldable pub confirmation_body : ConfirmationRequest → Bytes
confirmation_body r = encoded (
    obj (
      field "email" (str r.email)
        (field "repo" (str r.repo) (field "confirm_url" (str r.confirm_url) end))))

-- The status of an exchange, or its error
abbrev pub accepted : Result ℕ → Result (Unit {0})
accepted (ok status) =
    if leb 200 status && not (leb 300 status)
    then ok tt
    else err (plain "send confirmation request")
accepted (err e) = err (wrap "send confirmation request" e)

-- `client.Do`: a request by its method, its address and its body.
abbrev pub Exchange : Type 0
Exchange = (method url : String) → Bytes → Result ℕ

-- The URL is trimmed when the publisher is made.
module _ (exchange : Exchange) (base_url notification_service_url : String) where
  unfoldable pub post_confirmation : (email repo token : String) → Api (Unit {0})
  unfolding confirmation_body trim_slashes
  post_confirmation email repo token =
      let url = trim_slashes notification_service_url in
      let r : ConfirmationRequest = record {
        email = email;
        repo = repo;
        confirm_url = base_url +++ "/api/confirm/" +++ token;
      } in
      if url == ""
      then lift (err (plain "notification service url is empty"))
      else lift (
          accepted (
            exchange "POST" (url +++ "/internal/notifications/confirmation") (confirmation_body r)))

  pub post_confirmation-db :
      (email repo token : String) (w : World ApiTables)
      → ((post_confirmation email repo token w).1.db ≡ w.db)
        × ((post_confirmation email repo token w).1.tx ≡ w.tx)
  unfolding post_confirmation lift
  post_confirmation-db email repo token w =
      elim (Bool-cases (trim_slashes notification_service_url == "")) [
        | inl unset ↦ rw unset (refl, refl)
        | inr known ↦ rw known (refl, refl)
      ]

  -- The publisher as the service uses it.
  unfoldable pub web_publisher : NotificationPublisher
  unfolding post_confirmation
  web_publisher = record {
    send_confirmation = post_confirmation;
    send_quiet = post_confirmation-db;
  }
