-- ===== src/Notification/Delivered.antt =====
-- A confirmation over gRPC, from the one service to the other.
use software_engineering_sch.Base.{
  filled, append_filled, filled_by_length, String, Option, true, false, ◌==◌, ◌≡◌, ◌≢◌, refl, arith,
  ap,
}
use software_engineering_sch.Contracts.{NotificationSendRequestedPayload}
use software_engineering_sch.Uuid.{Uuid, new_string}
use software_engineering_sch.ApiTables.{ApiTables}
use software_engineering_sch.Db.{World, Action, labelled, lift, ◌>>=◌, wrapping, try}
use software_engineering_sch.Subscription.Publisher.{Hashing, email_hash}
use software_engineering_sch.Subscription.Repository.{correlation_id_from_context}
use software_engineering_sch.Notification.Grpc.{
  Client, to_request, SendNotificationRequest, is_valid_request, build_notification, status_of,
  send_notification, send, confirmation_payload, grpc_publisher, send_confirmation,
}

module _ {T : Type 0} (process : NotificationSendRequestedPayload → Action T (Unit {0}))
    (v : World T) where
  -- The connection to a server whose world is `v`.
  abbrev pub connected : Client
  connected r = (send_notification process r v).0

  served :
      (r : SendNotificationRequest)
      → is_valid_request r ≡ true
      → connected r ≡ status_of (process (build_notification r) v).0
  unfolding send_notification try lift ◌>>=◌
  served r valid = rw (valid, connected) refl

filled_request :
    (hashing : Hashing) (base_url email repo token id correlation_id : String)
    → email ≢ ""
    → repo ≢ ""
    → id ≢ ""
    → email_hash hashing email ≢ ""
    → is_valid_request
        (to_request (confirmation_payload hashing base_url email repo token id) correlation_id)
      ≡ true
unfolding is_valid_request confirmation_payload
filled_request hashing base_url email repo token id correlation_id e r i h =
    let p = confirmation_payload hashing base_url email repo token id in
    let key : (p.idempotency_key == "") ≡ false = filled_by_length p.idempotency_key (
      append_filled _ _ (
        append_filled _ _ (
          append_filled _ _
            (append_filled _ _ (append_filled "confirmation:" repo (omega arith)))))) in
    let text : (p.message == "") ≡ false = filled_by_length p.message (
      append_filled _ _ (
        append_filled _ _ (
          append_filled
            "Welcome! Please confirm your subscription to GitHub repository updates by clicking here: "
            base_url (omega arith)))) in
    rw (filled email e, filled repo r, filled id i, filled (email_hash hashing email) h, key, text)
      refl

-- A confirmation for an address and a repository that are not empty, over a connection to the server:
-- the server takes the request, the notification is processed with that address and repository and
-- with the link of the token in its text, and the publisher's answer is an error exactly as the
-- processor's is. The hypotheses on texts are that neither UUIDs nor digests are empty.
confirmation_processed :
    {T : Type 0} (process : NotificationSendRequestedPayload → Action T (Unit {0})) (v : World T)
    (u : Uuid) (hashing : Hashing) (base_url : String) (ctx : Option String)
    (email repo token : String) (w : World ApiTables)
    → email ≢ ""
    → repo ≢ ""
    → u.generate w.ids ≢ ""
    → email_hash hashing email ≢ ""
    → let p = confirmation_payload hashing base_url email repo token (u.generate w.ids) in
      (p.recipient_email ≡ email)
      × (p.repo ≡ repo)
      × (((grpc_publisher u hashing (connected process v) base_url ctx).send_confirmation email repo
            token w).0
          ≡ labelled "send notification over grpc" (status_of (process p v).0))
unfolding grpc_publisher send_confirmation send confirmation_payload new_string wrapping lift ◌>>=◌
    is_valid_request build_notification
confirmation_processed process v u hashing base_url ctx email repo token w e r i h =
    let id = u.generate w.ids in
    let correlation_id = correlation_id_from_context u ctx id in
    let request =
      to_request (confirmation_payload hashing base_url email repo token id) correlation_id in
    (
      refl,
      refl,
      ap (labelled "send notification over grpc") (
          served process v request
            (filled_request hashing base_url email repo token id correlation_id e r i h)),
    )
