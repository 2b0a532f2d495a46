-- ===== src/Contracts/Codec.antt =====
-- json.Marshal and json.Unmarshal at the contracts' types, by the field tags of
-- pkg/contracts/events.go. Unknown keys are ignored, as the decoder does.
pub mod RoundTrip
use software_engineering_sch.Base.{ℕ, Option, none, some, ◌≡◌, arith, eq_iff}
use software_engineering_sch.Json.{
  Json, null, num, str, instant, base64, obj, Fields, end, field, Bytes, encoded, malformed, lookup,
  read_string, read_instant, read_optional_instant, field_omitempty,
}
use software_engineering_sch.Contracts.{
  Envelope, RepoWatchSagaPayload, RepoWatchCommandPayload, RepoWatchAckPayload,
  ReleaseDetectedPayload, NotificationSendRequestedPayload, DeadLetterPayload,
}

infixl 10 ◌>>=◌
abbrev ◌>>=◌ {ℓ κ} : {A : Type ℓ} {B : Type κ} → Option A → (A → Option B) → Option B
none >>= f = none
some a >>= f = f a

-- How a payload is written, and read from the fields of its object: what is written is read back.
pub record Codec (P : Type 0) : Type 0 where
  pub write : P → Fields
  pub read : Fields → Option P
  pub read-write : (p : P) → read (write p) ≡ some p

unfoldable pub write_saga : RepoWatchSagaPayload → Fields
unfolding field_omitempty
write_saga p = field "saga_id" (str p.saga_id) (
    field "action" (str p.action) (field "repo" (str p.repo) (field_omitempty "email" p.email end)))

unfoldable pub read_saga : Fields → Option RepoWatchSagaPayload
unfolding lookup
read_saga fs = do
  saga_id ← read_string (lookup "saga_id" fs)
  action ← read_string (lookup "action" fs)
  repo ← read_string (lookup "repo" fs)
  email ← read_string (lookup "email" fs)
  some (record { saga_id = saga_id; action = action; repo = repo; email = email })

pub read-write_saga : (p : RepoWatchSagaPayload) → read_saga (write_saga p) ≡ some p
unfolding read_saga write_saga
read-write_saga p = ground (arith, eq_iff p.email "")

instance abbrev pub saga_codec : Codec RepoWatchSagaPayload
saga_codec = record { write = write_saga; read = read_saga; read-write = read-write_saga }

unfoldable pub write_command : RepoWatchCommandPayload → Fields
write_command p =
    field "saga_id" (str p.saga_id) (field "action" (str p.action) (field "repo" (str p.repo) end))

unfoldable pub read_command : Fields → Option RepoWatchCommandPayload
unfolding lookup
read_command fs = do
  saga_id ← read_string (lookup "saga_id" fs)
  action ← read_string (lookup "action" fs)
  repo ← read_string (lookup "repo" fs)
  some (record { saga_id = saga_id; action = action; repo = repo })

pub read-write_command : (p : RepoWatchCommandPayload) → read_command (write_command p) ≡ some p
unfolding read_command write_command
read-write_command p = ground arith

instance abbrev pub command_codec : Codec RepoWatchCommandPayload
command_codec = record {
  write = write_command;
  read = read_command;
  read-write = read-write_command;
}

unfoldable pub write_ack : RepoWatchAckPayload → Fields
unfolding field_omitempty
write_ack p = field "saga_id" (str p.saga_id) (
    field "action" (str p.action) (field "repo" (str p.repo) (field_omitempty "error" p.error end)))

unfoldable pub read_ack : Fields → Option RepoWatchAckPayload
unfolding lookup
read_ack fs = do
  saga_id ← read_string (lookup "saga_id" fs)
  action ← read_string (lookup "action" fs)
  repo ← read_string (lookup "repo" fs)
  error ← read_string (lookup "error" fs)
  some (record { saga_id = saga_id; action = action; repo = repo; error = error })

pub read-write_ack : (p : RepoWatchAckPayload) → read_ack (write_ack p) ≡ some p
unfolding read_ack write_ack
read-write_ack p = ground (arith, eq_iff p.error "")

instance abbrev pub ack_codec : Codec RepoWatchAckPayload
ack_codec = record { write = write_ack; read = read_ack; read-write = read-write_ack }

unfoldable pub write_release : ReleaseDetectedPayload → Fields
write_release p = field "repo" (str p.repo) (field "tag" (str p.tag) end)

unfoldable pub read_release : Fields → Option ReleaseDetectedPayload
unfolding lookup
read_release fs = do
  repo ← read_string (lookup "repo" fs)
  tag ← read_string (lookup "tag" fs)
  some (record { repo = repo; tag = tag })

pub read-write_release : (p : ReleaseDetectedPayload) → read_release (write_release p) ≡ some p
unfolding read_release write_release
read-write_release p = ground arith

instance abbrev pub release_codec : Codec ReleaseDetectedPayload
release_codec = record {
  write = write_release;
  read = read_release;
  read-write = read-write_release;
}

unfoldable pub write_notification : NotificationSendRequestedPayload → Fields
write_notification p = field "notification_id" (str p.notification_id) (
    field "idempotency_key" (str p.idempotency_key) (
      field "recipient_email" (str p.recipient_email) (
        field "email_hash" (str p.email_hash) (
          field "repo" (str p.repo)
            (field "tag" (str p.tag) (field "message" (str p.message) end))))))

unfoldable pub read_notification : Fields → Option NotificationSendRequestedPayload
unfolding lookup
read_notification fs = do
  notification_id ← read_string (lookup "notification_id" fs)
  idempotency_key ← read_string (lookup "idempotency_key" fs)
  recipient_email ← read_string (lookup "recipient_email" fs)
  email_hash ← read_string (lookup "email_hash" fs)
  repo ← read_string (lookup "repo" fs)
  tag ← read_string (lookup "tag" fs)
  message ← read_string (lookup "message" fs)
  some (record {
    notification_id = notification_id;
    idempotency_key = idempotency_key;
    recipient_email = recipient_email;
    email_hash = email_hash;
    repo = repo;
    tag = tag;
    message = message;
  })

pub read-write_notification :
    (p : NotificationSendRequestedPayload) → read_notification (write_notification p) ≡ some p
unfolding read_notification write_notification
read-write_notification p = ground arith

instance abbrev pub notification_codec : Codec NotificationSendRequestedPayload
notification_codec = record {
  write = write_notification;
  read = read_notification;
  read-write = read-write_notification;
}

-- A dead letter is only written.
unfoldable pub write_dead_letter : DeadLetterPayload → Fields
write_dead_letter p = field "original_topic" (str p.original_topic) (
    field "original_partition" (num p.original_partition) (
      field "original_offset" (num p.original_offset) (
        field "original_key" (str p.original_key) (
          field "original_value" (base64 p.original_value) (
            field "consumer_group" (str p.consumer_group)
              (field "cause" (str p.cause) (field "failed_at" (instant p.failed_at) end)))))))

-- `not_before,omitempty` stands before the payload.
abbrev write_not_before : Option ℕ → Fields → Fields
write_not_before none rest = rest
write_not_before (some t) rest = field "not_before" (instant t) rest

-- The fields of an envelope around the fields of its payload.
unfoldable pub write_envelope : {P : Type 0} → Envelope P → Fields → Json
write_envelope e payload = obj (
    field "event_id" (str e.event_id) (
      field "event_type" (str e.event_type) (
        field "occurred_at" (instant e.occurred_at) (
          field "source" (str e.source) (
            field "correlation_id" (str e.correlation_id)
              (write_not_before e.not_before (field "payload" (obj payload) end)))))))

-- An absent payload has every field at its zero value.
abbrev read_payload : {P : Type 0} → (Fields → Option P) → Option Json → Option P
read_payload read none = read end
read_payload read (some null) = read end
read_payload read (some (obj fs)) = read fs
read_payload read (some _) = none

abbrev pub read_object : Json → Option Fields
read_object null = some end
read_object (obj fs) = some fs
read_object _ = none

module _ {P : Type 0} ⦃c : Codec P⦄ where
  -- `json.Marshal(event)`
  unfoldable pub marshal : Envelope P → Bytes
  unfolding write_envelope
  marshal e = encoded (write_envelope e (c.write e.payload))

  read_envelope : Fields → Option (Envelope P)
  unfolding lookup
  read_envelope fs = do
    event_id ← read_string (lookup "event_id" fs)
    event_type ← read_string (lookup "event_type" fs)
    occurred_at ← read_instant (lookup "occurred_at" fs)
    source ← read_string (lookup "source" fs)
    correlation_id ← read_string (lookup "correlation_id" fs)
    not_before ← read_optional_instant (lookup "not_before" fs)
    payload ← read_payload c.read (lookup "payload" fs)
    some (record {
      event_id = event_id;
      event_type = event_type;
      occurred_at = occurred_at;
      source = source;
      correlation_id = correlation_id;
      not_before = not_before;
      payload = payload;
    })

  -- `json.Unmarshal(value, &event)`; none is a decoding error.
  unfoldable pub unmarshal : Bytes → Option (Envelope P)
  unfolding read_envelope
  unmarshal (malformed s) = none
  unmarshal (encoded j) = do fs ← read_object j; read_envelope fs
