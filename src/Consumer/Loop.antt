-- ===== src/Consumer/Loop.antt =====
-- The loop of `Consumer.Start`, over what each round of it meets.
use software_engineering_sch.Base.{
  ℕ, suc, String, Option, none, some, Bool, true, false, List, [], ◌∷◌, ◌++◌, ◌==◌, if◌then◌else◌,
}
use software_engineering_sch.Errors.{Error, wrap, is, message, non_retryable, Result, ok, err}
use software_engineering_sch.Json.{Bytes, encoded}
use software_engineering_sch.Contracts.{Envelope, DeadLetterPayload, event_consumer_dead_lettered}
use software_engineering_sch.Contracts.Codec.{write_envelope, write_dead_letter}
use software_engineering_sch.Uuid.{Uuid}

-- A `kafka.Message`.
pub record KafkaMessage : Type 0 where
  pub topic : String
  pub partition : ℕ
  pub offset : ℕ
  pub key : String
  pub value : Bytes

-- The consumer; it has a dead letter publisher only after `WithDeadLetter`.
pub record Consumer : Type 0 where
  pub topic : String
  pub group_id : String
  pub dead_letter_topic : String
  pub has_publisher : Bool

unfoldable pub new_consumer : String → String → Consumer
new_consumer topic group_id = record {
  topic = topic;
  group_id = group_id;
  dead_letter_topic = "";
  has_publisher = false;
}

unfoldable pub with_dead_letter : Consumer → String → Consumer
with_dead_letter c topic = record c { dead_letter_topic = topic; has_publisher = true }

unfoldable pub message_topic : Consumer → KafkaMessage → String
message_topic c m = if m.topic == "" then c.topic else m.topic

-- What is published for a message that is given up.
unfoldable pub dead_letter_event : Uuid → Consumer → ℕ → ℕ → KafkaMessage → Error → Bytes
dead_letter_event u c ids now m cause =
    let id = u.generate ids in
    let payload : DeadLetterPayload = record {
      original_topic = message_topic c m;
      original_partition = m.partition;
      original_offset = m.offset;
      original_key = m.key;
      original_value = m.value;
      consumer_group = c.group_id;
      cause = message cause;
      failed_at = now;
    } in
    let event : Envelope DeadLetterPayload = record {
      event_id = id;
      event_type = event_consumer_dead_lettered;
      occurred_at = now;
      source = c.group_id;
      correlation_id = id;
      not_before = none;
      payload = payload;
    } in
    encoded (write_envelope event (write_dead_letter payload))

-- What one round meets: a fetched message or the error of the fetch, the handler's answer, the
-- answers of the dead letter publisher and of the commit, and whether the context is cancelled by
-- then.
pub record Round : Type 0 where
  pub fetched : Result KafkaMessage
  pub handled : Option Error
  pub dead_lettered : Option Error
  pub committed : Option Error
  pub cancelled : Bool
  pub now : ℕ

-- An increment of one of the counters (pkg/kafka/metrics.go), by its labels beside the group.
pub data Observation : Type 0 where
  processed : (topic : String) → Observation
  failed : (topic stage : String) → Observation
  skipped : (topic : String) → Observation

-- What the loop has done: the messages given to the handler, those committed, and the dead letters
-- published with their messages, each in order; the UUIDs generated; and what was counted, in order.
pub record Progress : Type 0 where
  pub handed : List KafkaMessage
  pub commits : List KafkaMessage
  pub dead_letters : List (KafkaMessage × Bytes)
  pub ids : ℕ
  pub observed : List Observation

pub data Outcome : Type 0 where
  next : Progress → Outcome  -- the loop goes on
  stopped : Option Error → Progress → Outcome  -- `Start` returns

abbrev pub observing : Observation → Progress → Progress
observing o p = record p { observed = p.observed ++ o ∷ [] }

-- `CommitMessages`, and what follows it.
unfoldable pub commit_message :
    Consumer → String → Observation → KafkaMessage → Option Error → Progress → Outcome
unfolding message_topic
commit_message c label done m none p =
    next (observing done (record p { commits = p.commits ++ m ∷ [] }))
commit_message c label done m (some e) p =
    stopped (some (wrap label e)) (observing (failed (message_topic c m) "commit") p)

-- `publishDeadLetter`: without a publisher or a topic nothing is published.
unfoldable pub publish_dead_letter :
    Uuid → Consumer → Round → KafkaMessage → Error → Progress → Option Error × Progress
publish_dead_letter u c r m cause p =
    if c.has_publisher
    then (if c.dead_letter_topic == "" then (none, p) else elim r.dead_lettered [
      | none ↦ (
        none,
        record p {
          dead_letters = p.dead_letters ++ (m, dead_letter_event u c p.ids r.now m cause) ∷ [];
          ids = suc p.ids;
        },
      )
      | some e ↦ (some e, record p { ids = suc p.ids })
    ])
    else (none, p)

unfoldable pub after_dead_letter :
    Consumer → Round → KafkaMessage → Option Error × Progress → Outcome
unfolding commit_message
after_dead_letter c r m (some e, p) =
    stopped (some (wrap "publish kafka dead letter" e))
      (observing (failed (message_topic c m) "dlq") p)
after_dead_letter c r m (none, p) =
    commit_message c "commit skipped kafka message" (skipped (message_topic c m)) m r.committed p

-- What follows the handler's answer.
unfoldable pub after_handler :
    Uuid → Consumer → Round → KafkaMessage → Option Error → Progress → Outcome
unfolding after_dead_letter
after_handler u c r m none p =
    commit_message c "commit kafka message" (processed (message_topic c m)) m r.committed p
after_handler u c r m (some e) p =
    if r.cancelled
    then stopped none p
    else if is e non_retryable
    then after_dead_letter c r m (publish_dead_letter u c r m e p)
    else stopped (some e) (observing (failed (message_topic c m) "handler") p)

unfoldable pub round_of : Uuid → Consumer → Round → Progress → Outcome
unfolding after_handler
round_of u c r p = elim r.fetched [
  | err e ↦
      if r.cancelled
      then stopped none p
      else stopped (some (wrap "fetch kafka message" e)) (observing (failed c.topic "fetch") p)
  | ok m ↦ after_handler u c r m r.handled (record p { handed = p.handed ++ m ∷ [] })
]

-- `Start`; a list of rounds that ends before the loop does leaves it waiting in its next fetch.
unfoldable pub start : Uuid → Consumer → List Round → Progress → Outcome
start u c [] p = next p
start u c (r ∷ rs) p = elim (round_of u c r p) [
  | next p' ↦ start u c rs p'
  | stopped e p' ↦ stopped e p'
]
