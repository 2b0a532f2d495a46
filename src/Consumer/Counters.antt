-- ===== src/Consumer/Counters.antt =====
-- The counters of a consumer against what it did.
use software_engineering_sch.Base.{
  ℕ, suc, ◌+◌, ◌≤◌, String, Option, none, some, Bool, true, false, List, [], ◌∷◌, ◌++◌, count,
  length, length-append, ◌≡◌, refl, arith, ◌==◌, if◌then◌else◌, Bool-cases, inl, inr,
}
use software_engineering_sch.Errors.{Error, Result, ok, err, is, non_retryable}
use software_engineering_sch.Uuid.{Uuid}
use software_engineering_sch.Consumer.Loop.{
  KafkaMessage, Consumer, Observation, processed, failed, skipped, Round, Progress, Outcome, next,
  stopped, commit_message, publish_dead_letter, after_dead_letter, after_handler, round_of, start,
  message_topic, observing, dead_letter_event,
}

abbrev pub is_processed : Observation → Bool
is_processed (processed topic) = true
is_processed _ = false

abbrev pub is_skipped : Observation → Bool
is_skipped (skipped topic) = true
is_skipped _ = false

abbrev pub is_failed : Observation → Bool
is_failed (failed topic stage) = true
is_failed _ = false

-- Each commit is counted once, `letters` more dead letters were published than messages skipped, and
-- `failures` failures were counted.
pub record AreCounted (letters failures : ℕ) (p : Progress) : Type 0 where
  pub commits : length p.commits ≡ count is_processed p.observed + count is_skipped p.observed
  pub dead : length p.dead_letters ≡ count is_skipped p.observed + letters
  pub failing : count is_failed p.observed ≡ failures

-- While the loop goes on nothing has failed; it stops at the first failure, or with none if it was
-- cancelled.
pub data IsCounted : Outcome → Type 0 where
  going : {p : Progress} → AreCounted 0 0 p → IsCounted (next p)
  ending :
      {e : Option Error} {p : Progress} {letters failures : ℕ}
      → letters ≤ 1
      → failures ≤ 1
      → AreCounted letters failures p
      → IsCounted (stopped e p)

count-concat :
    (p : Observation → Bool) (xs : List Observation) (x : Observation)
    → count p (xs ++ x ∷ []) ≡ count p xs + (if p x then 1 else 0)
count-concat p [] x = ground arith
count-concat p (y ∷ ys) x = ground (arith, count-concat p ys x)

-- A failure is counted, and the loop ends.
failing_once :
    {e : Option Error} (letters : ℕ) (topic stage : String) (p : Progress)
    → letters ≤ 1
    → AreCounted letters 0 p
    → IsCounted (stopped e (observing (failed topic stage) p))
failing_once letters topic stage p few a =
    ending {letters = letters} {failures = 1} few (omega arith) (record {
      commits = omega (
        arith,
        a.commits,
        count-concat is_processed p.observed (failed topic stage),
        count-concat is_skipped p.observed (failed topic stage),
      );
      dead = omega (arith, a.dead, count-concat is_skipped p.observed (failed topic stage));
      failing = omega (arith, a.failing, count-concat is_failed p.observed (failed topic stage));
    })

handled-IsCounted :
    (c : Consumer) (label topic : String) (m : KafkaMessage) (o : Option Error) (p : Progress)
    → AreCounted 0 0 p
    → IsCounted (commit_message c label (processed topic) m o p)
unfolding commit_message
handled-IsCounted c label topic m none p a = going (record {
  commits = omega (
    arith,
    a.commits,
    length-append p.commits (m ∷ []),
    count-concat is_processed p.observed (processed topic),
    count-concat is_skipped p.observed (processed topic),
  );
  dead = omega (arith, a.dead, count-concat is_skipped p.observed (processed topic));
  failing = omega (arith, a.failing, count-concat is_failed p.observed (processed topic));
})
handled-IsCounted c label topic m (some e) p a = failing_once 0 _ "commit" p (omega arith) a

skipped-IsCounted :
    (c : Consumer) (label topic : String) (m : KafkaMessage) (o : Option Error) (p : Progress)
    → AreCounted 1 0 p
    → IsCounted (commit_message c label (skipped topic) m o p)
unfolding commit_message
skipped-IsCounted c label topic m none p a = going (record {
  commits = omega (
    arith,
    a.commits,
    length-append p.commits (m ∷ []),
    count-concat is_processed p.observed (skipped topic),
    count-concat is_skipped p.observed (skipped topic),
  );
  dead = omega (arith, a.dead, count-concat is_skipped p.observed (skipped topic));
  failing = omega (arith, a.failing, count-concat is_failed p.observed (skipped topic));
})
skipped-IsCounted c label topic m (some e) p a = failing_once 1 _ "commit" p (omega arith) a

-- A consumer with a dead letter publisher and a topic for it.
pub record HasDeadLetters (c : Consumer) : Type 0 where
  pub publisher : c.has_publisher ≡ true
  pub topic : (c.dead_letter_topic == "") ≡ false

module _ (u : Uuid) (c : Consumer) (dead : HasDeadLetters c) where
  lettered :
      (r : Round) (m : KafkaMessage) (e : Error) (o : Option Error) (p : Progress)
      → r.dead_lettered ≡ o
      → AreCounted 0 0 p
      → IsCounted (after_dead_letter c r m (publish_dead_letter u c r m e p))
  unfolding publish_dead_letter after_dead_letter
  lettered r m e none p sent a =
      rw (dead.publisher, dead.topic, sent)
        (skipped-IsCounted c "commit skipped kafka message" (message_topic c m) m r.committed _
          (record {
            commits = a.commits;
            dead = omega (
              arith,
              a.dead,
              length-append p.dead_letters ((m, dead_letter_event u c p.ids r.now m e) ∷ []),
            );
            failing = a.failing;
          }))
  lettered r m e (some x) p unsent a =
      rw (dead.publisher, dead.topic, unsent)
        (failing_once 0 (message_topic c m) "dlq" (record p { ids = suc p.ids }) (omega arith)
          (record { commits = a.commits; dead = a.dead; failing = a.failing }))

  after_handler-IsCounted :
      (r : Round) (m : KafkaMessage) (o : Option Error) (p : Progress)
      → AreCounted 0 0 p
      → IsCounted (after_handler u c r m o p)
  unfolding after_handler publish_dead_letter
  after_handler-IsCounted r m none p a = handled-IsCounted c _ (message_topic c m) m r.committed p a
  after_handler-IsCounted r m (some e) p a = elim (Bool-cases r.cancelled) [
    | inl cancelled ↦
        rw cancelled (ending {letters = 0} {failures = 0} (omega arith) (omega arith) a)
    | inr running ↦ elim (Bool-cases (is e non_retryable)) [
      | inl rejected ↦ rw (running, rejected) (lettered r m e r.dead_lettered p refl a)
      | inr retried ↦
          rw (running, retried) (failing_once 0 (message_topic c m) "handler" p (omega arith) a)
    ]
  ]

  fetched-IsCounted :
      (r : Round) (f : Result KafkaMessage) (p : Progress)
      → r.fetched ≡ f
      → AreCounted 0 0 p
      → IsCounted (round_of u c r p)
  unfolding round_of
  fetched-IsCounted r (ok m) p e a =
      rw (e, round_of)
        (after_handler-IsCounted r m r.handled _
          (record { commits = a.commits; dead = a.dead; failing = a.failing }))
  fetched-IsCounted r (err x) p e a = elim (Bool-cases r.cancelled) [
    | inl cancelled ↦
        rw (e, cancelled) (ending {letters = 0} {failures = 0} (omega arith) (omega arith) a)
    | inr running ↦ rw (e, running) (failing_once 0 c.topic "fetch" p (omega arith) a)
  ]

  resume :
      (rs : List Round) (o : Outcome)
      → ((p : Progress) → AreCounted 0 0 p → IsCounted (start u c rs p))
      → IsCounted o
      → IsCounted (elim o [ next p ↦ start u c rs p | stopped e p ↦ stopped e p ])
  resume rs (next p) rest (going a) = rest p a
  resume rs (stopped e p) rest a = a

  -- A consumer that publishes dead letters, after any rounds and whatever they meet, if its counters
  -- agreed at first: every committed message was counted once, as processed or as skipped; while it
  -- goes on, as many dead letters were published as messages skipped and no failure was counted; one
  -- that has stopped has counted one failure at most, and has at most one dead letter more.
  pub start-IsCounted :
      (rs : List Round) (p : Progress) → AreCounted 0 0 p → IsCounted (start u c rs p)
  unfolding start
  start-IsCounted [] p a = going a
  start-IsCounted (r ∷ rs) p a =
      resume rs (round_of u c r p) (start-IsCounted rs) (fetched-IsCounted r r.fetched p refl a)
