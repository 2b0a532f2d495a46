-- ===== src/Consumer/Order.antt =====
-- In which order the consumer commits, and what it may skip.
use software_engineering_sch.Base.{
  Option, none, some, Bool, true, false, List, [], ◌∷◌, ◌++◌, ◌≡◌, ◌∙◌, ap, sym, arith,
  if◌then◌else◌, String,
}
use software_engineering_sch.Errors.{Error, Result, ok, err, is, non_retryable}
use software_engineering_sch.Uuid.{Uuid}
use software_engineering_sch.Consumer.Loop.{
  KafkaMessage, Consumer, Observation, Round, Progress, Outcome, next, stopped, commit_message,
  publish_dead_letter, after_dead_letter, after_handler, round_of, start,
}

-- Every message that was handed to the handler is committed, in order, but for the last one of a
-- consumer that has stopped.
pub data InOrder : Outcome → Type 0 where
  all_committed : {p : Progress} → p.commits ≡ p.handed → InOrder (next p)
  none_left : {e : Option Error} {p : Progress} → p.commits ≡ p.handed → InOrder (stopped e p)
  last_left :
      {e : Option Error} {p : Progress} (m : KafkaMessage)
      → p.handed ≡ p.commits ++ m ∷ []
      → InOrder (stopped e p)

commit_message-InOrder :
    (c : Consumer) (label : String) (done : Observation) (m : KafkaMessage) (o : Option Error)
    (p : Progress)
    → p.handed ≡ p.commits ++ m ∷ []
    → InOrder (commit_message c label done m o p)
unfolding commit_message
commit_message-InOrder c label done m none p h = all_committed (sym h)
commit_message-InOrder c label done m (some e) p h = last_left m h

if-InOrder : (b : Bool) {o o' : Outcome} → InOrder o → InOrder o' → InOrder (if b then o else o')
if-InOrder true h h' = h
if-InOrder false h h' = h'

-- A dead letter changes neither list.
publish_dead_letter-lists :
    (u : Uuid) (c : Consumer) (r : Round) (m : KafkaMessage) (e : Error) (p : Progress)
    → ((publish_dead_letter u c r m e p).1.handed ≡ p.handed)
      × ((publish_dead_letter u c r m e p).1.commits ≡ p.commits)
unfolding publish_dead_letter
publish_dead_letter-lists u c r m e p = ground arith

after_dead_letter-InOrder :
    (c : Consumer) (r : Round) (m : KafkaMessage) (x : Option Error × Progress)
    → x.1.handed ≡ x.1.commits ++ m ∷ []
    → InOrder (after_dead_letter c r m x)
unfolding after_dead_letter
after_dead_letter-InOrder c r m (none, p) h = commit_message-InOrder c _ _ m r.committed p h
after_dead_letter-InOrder c r m (some e, p) h = last_left m h

module _ (u : Uuid) (c : Consumer) (r : Round) (m : KafkaMessage) where
  rejected-InOrder :
      (e : Error) (p : Progress)
      → p.handed ≡ p.commits ++ m ∷ []
      → InOrder (after_dead_letter c r m (publish_dead_letter u c r m e p))
  rejected-InOrder e p h =
      let (handed, commits) = publish_dead_letter-lists u c r m e p in
      after_dead_letter-InOrder c r m _ (handed ∙ h ∙ ap (λ l. l ++ m ∷ []) (sym commits))

  after_handler-InOrder :
      (o : Option Error) (p : Progress)
      → p.handed ≡ p.commits ++ m ∷ []
      → InOrder (after_handler u c r m o p)
  unfolding after_handler
  after_handler-InOrder none p h = commit_message-InOrder c _ _ m r.committed p h
  after_handler-InOrder (some e) p h =
      if-InOrder r.cancelled (last_left m h)
        (if-InOrder (is e non_retryable) (rejected-InOrder e p h) (last_left m h))

fetched-InOrder :
    (u : Uuid) (c : Consumer) (r : Round) (p : Progress)
    → p.commits ≡ p.handed
    → (f : Result KafkaMessage) → InOrder (round_of u c (record r { fetched = f }) p)
unfolding round_of
fetched-InOrder u c r p h (ok m) =
    after_handler-InOrder u c _ m r.handled _ (ap (λ l. l ++ m ∷ []) (sym h))
fetched-InOrder u c r p h (err e) = if-InOrder r.cancelled (none_left h) (none_left h)

round_of-InOrder :
    (u : Uuid) (c : Consumer) (r : Round) (p : Progress)
    → p.commits ≡ p.handed
    → InOrder (round_of u c r p)
unfolding round_of
round_of-InOrder u c r p h = fetched-InOrder u c r p h r.fetched

-- The rest of the rounds, after one that has kept the order.
resume :
    (u : Uuid) (c : Consumer) (rs : List Round) (o : Outcome)
    → ((p : Progress) → p.commits ≡ p.handed → InOrder (start u c rs p))
    → InOrder o
    → InOrder (elim o [ next p ↦ start u c rs p | stopped e p ↦ stopped e p ])
resume u c rs (next p) rest (all_committed h) = rest p h
resume u c rs (stopped e p) rest h = h

-- A consumer that has committed what it handed to the handler does so after any rounds, whatever
-- the fetches, the handler, the dead letter publisher and the commits answer: as long as it goes on,
-- every message that it handed to the handler is committed, in order, and one that has stopped has
-- left at most its last message uncommitted, which is delivered again.
pub start-InOrder :
    (u : Uuid) (c : Consumer) (rs : List Round) (p : Progress)
    → p.commits ≡ p.handed
    → InOrder (start u c rs p)
unfolding start
start-InOrder u c [] p h = all_committed h
start-InOrder u c (r ∷ rs) p h =
    resume u c rs (round_of u c r p) (start-InOrder u c rs) (round_of-InOrder u c r p h)
