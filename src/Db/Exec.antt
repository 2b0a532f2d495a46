-- ===== src/Db/Exec.antt =====
-- The actions that the repositories are built from, and Go's error handling between them.
use mathlib.Core.List.{Permᴰ}
use software_engineering_sch.Base.{
  ℕ, String, Bool, true, false, Option, none, some, List, [], ◌∷◌, ◌++◌, if◌then◌else◌, ◌≡◌,
}
use software_engineering_sch.Errors.{Error, sentinel, plain, wrap, no_rows, Result, ok, err}
use software_engineering_sch.Json.{Bytes}
use software_engineering_sch.Outbox.Event.{OutboxEvent}

-- Every service has an outbox table beside its own tables.
pub record Database (T : Type 0) : Type 0 where
  pub outbox : List OutboxEvent
  pub tables : T

-- A Kafka message, and an email.
pub record Message : Type 0 where
  pub topic : String
  pub key : String
  pub value : Bytes

pub record Mail : Type 0 where
  pub recipient : String
  pub body : String

-- The order in which a statement gives its rows, which PostgreSQL leaves open where the statement does:
-- in `UPDATE … RETURNING` and in `SELECT DISTINCT`.
pub record Returning (A : Type 0) : Type 0 where
  pub order : ℕ → List A → List A
  pub permutes : (now : ℕ) (rows : List A) → Permᴰ rows (order now rows)

pub record Orders : Type 0 where
  pub returning : Returning OutboxEvent  -- of the events that an update returns
  pub listing : Returning String  -- of the texts that a selection lists

pub record World (T : Type 0) : Type 0 where
  pub db : Database T  -- what is committed
  pub tx : Database T  -- the view of the open transaction
  pub aborted : Bool  -- a call of the open transaction has failed, and PostgreSQL ignores the rest
  pub faults : List (Option Error)  -- the errors of the next calls; past its end no call fails
  pub sent : List Message  -- what the Kafka broker has accepted, in order
  pub mails : List Mail  -- what the SMTP server has accepted, in order
  pub now : ℕ  -- the clock, in nanoseconds; 0 is Go's zero time
  pub ids : ℕ  -- how many UUIDs were generated
  pub locked : String → Bool  -- rows that other transactions hold, which SKIP LOCKED passes over
  pub orders : Orders  -- the orders of rows that PostgreSQL chooses

abbrev pub Action : Type 0 → Type 0 → Type 0
Action T A = World T → Result A × World T

abbrev pub labelled {ℓ} : {A : Type ℓ} → String → Result A → Result A
labelled label (ok a) = ok a
labelled label (err e) = err (wrap label e)

module _ {T A : Type 0} where
  unfoldable pub pure : A → Action T A
  pure a w = (ok a, w)

  unfoldable pub raise : Error → Action T A
  raise e w = (err e, w)

  -- `return err` where a pure function has computed the error
  unfoldable pub lift : Result A → Action T A
  lift r w = (r, w)

  unfoldable pub gets : (World T → A) → Action T A
  gets f w = (ok (f w), w)

module _ {T A B : Type 0} where
  abbrev pub continue : Result A → (A → Action T B) → Action T B
  continue (ok a) f w = f a w
  continue (err e) f w = (err e, w)

  infixl 10 ◌>>=◌
  unfoldable pub ◌>>=◌ : Action T A → (A → Action T B) → Action T B
  unfolding pure raise lift gets
  ◌>>=◌ m f w = let (r, w') = m w in continue r f w'

infixl 10 ◌>>◌
abbrev pub ◌>>◌ : {T A B : Type 0} → Action T A → Action T B → Action T B
m >> n = m >>= λ _. n

-- A call to the database: the schedule's next entry, if it is an error, is returned instead.
abbrev pub fault_of : List (Option Error) → Option Error
fault_of [] = none
fault_of (f ∷ fs) = f

abbrev pub rest_of : List (Option Error) → List (Option Error)
rest_of [] = []
rest_of (f ∷ fs) = fs

abbrev pub or_no_rows : {A : Type 0} → Option A → Result A
or_no_rows none = err (sentinel no_rows)
or_no_rows (some a) = ok a

module _ {T A : Type 0} where
  abbrev pub attempt : Option Error → Action T A → Action T A
  attempt none m w = m w
  attempt (some e) m w = (err e, w)

  unfoldable pub call : Action T A → Action T A
  call m w = attempt (fault_of w.faults) m (record w { faults = rest_of w.faults })

  -- A call in the open transaction: the first that fails aborts it, and all later ones fail.
  abbrev pub attempt_tx : Bool → Option Error → Action T A → Action T A
  attempt_tx true f m w = (err (plain "current transaction is aborted"), w)
  attempt_tx false none m w = m w
  attempt_tx false (some e) m w = (err e, record w { aborted = true })

  unfoldable pub call_tx : Action T A → Action T A
  call_tx m w = attempt_tx w.aborted (fault_of w.faults) m (record w { faults = rest_of w.faults })

  -- `fmt.Errorf("label: %w", err)` on the error of an action
  unfoldable pub wrapping : String → Action T A → Action T A
  wrapping label m w = let (r, w') = m w in (labelled label r, w')

  -- A query on the transaction, and on the pool.
  unfoldable pub query : (World T → Database T → A) → Action T A
  unfolding call_tx
  query f = call_tx (λ w. (ok (f w w.tx), w))

  unfoldable pub pool_query : (World T → Database T → A) → Action T A
  unfolding call
  pool_query f = call (λ w. (ok (f w w.db), w))

  -- `QueryRow(…).Scan(…)`: no row is the error ErrNoRows.
  unfoldable pub query_row : (Database T → Option A) → Action T A
  unfolding call_tx
  query_row f = call_tx (λ w. (or_no_rows (f w.tx), w))

  -- A statement that writes, on the transaction and on the pool; it returns what the code reads of
  -- the command tag or of the rows.
  unfoldable pub exec : (World T → Database T → A × Database T) → Action T A
  unfolding call_tx
  exec f = call_tx (λ w. let (a, d) = f w w.tx in (ok a, record w { tx = d }))

  unfoldable pub pool_exec : (World T → Database T → A × Database T) → Action T A
  unfolding call
  pool_exec f = call (λ w. let (a, d) = f w w.db in (ok a, record w { db = d }))

module _ {T : Type 0} where
  -- `pool.Begin`
  unfoldable pub begin : Action T (Unit {0})
  unfolding call
  begin = call (λ w. (ok tt, record w { tx = w.db; aborted = false }))

  -- `tx.Commit`; what is not committed is forgotten by the deferred `tx.Rollback`.
  unfoldable pub commit : Action T (Unit {0})
  unfolding call_tx
  commit = call_tx (λ w. (ok tt, record w { db = w.tx }))

module _ {T : Type 0} where
  -- `Publish` of a Kafka producer: a message that is not accepted is an error.
  unfoldable pub publish : String → String → Bytes → Action T (Unit {0})
  unfolding call
  publish topic key value =
      let m : Message = record { topic = topic; key = key; value = value } in
      call (λ w. (ok tt, record w { sent = w.sent ++ m ∷ [] }))

  -- `Send` of the email sender.
  unfoldable pub send_mail : String → String → Action T (Unit {0})
  unfolding call
  send_mail recipient body =
      let m : Mail = record { recipient = recipient; body = body } in
      call (λ w. (ok tt, record w { mails = w.mails ++ m ∷ [] }))

  -- The clock has come to `t`.
  unfoldable pub wait_until : ℕ → Action T (Unit {0})
  wait_until t w = (ok tt, record w { now = t })

-- The error as a value, for code that goes on after it.
unfoldable pub try : {T A : Type 0} → Action T A → Action T (Result A)
try m w = let (r, w') = m w in (ok r, w')

-- `for _, x := range xs { if err := f(x); err != nil { return err } }`
unfoldable pub for_each : {T A : Type 0} → (A → Action T (Unit {0})) → List A → Action T (Unit {0})
unfolding ◌>>=◌
for_each f [] = pure tt
for_each f (x ∷ xs) = do f x; for_each f xs

-- `if c { action }` with nothing to do otherwise
abbrev pub when : {T : Type 0} → Bool → Action T (Unit {0}) → Action T (Unit {0})
when c m = if c then m else pure tt

-- `if c { return err }`
abbrev pub fail_if : {T : Type 0} → Bool → Error → Action T (Unit {0})
fail_if c e = if c then raise e else pure tt

-- The same world, where no call fails.
abbrev pub calm : {T : Type 0} → World T → World T
calm w = record w { faults = [] }

pub eq-calm : {T : Type 0} (w : World T) → w.faults ≡ [] → w ≡ calm w
eq-calm w h = λ i. record w { faults = h i }

-- A world whose schedule is known.
pub eq-faults :
    {T : Type 0} (w : World T) {fs : List (Option Error)}
    → w.faults ≡ fs
    → w ≡ record w { faults = fs }
eq-faults w h = λ i. record w { faults = h i }
