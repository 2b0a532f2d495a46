-- ===== src/Db/Keeps.antt =====
-- Invariants of the database: one rule for each way to build an action.
use software_engineering_sch.Base.{
  Bool, true, false, List, [], ◌∷◌, ◌≡◌, refl, String, Option, none, some, if◌then◌else◌, All,
}
use software_engineering_sch.Json.{Bytes}
use software_engineering_sch.Errors.{Error, Result, ok, err}
use software_engineering_sch.Db.Exec.{
  Database, World, Action, pure, raise, lift, gets, ◌>>=◌, call, begin, commit, wrapping, query,
  pool_query, query_row, exec, pool_exec, for_each, publish, send_mail, try, attempt, attempt_tx,
  call_tx, fault_of,
}

-- The invariant holds of what is committed and of the open transaction's view.
abbrev pub Holds : {T : Type 0} → (Database T → Type 0) → World T → Type 0
Holds P w = P w.db × P w.tx

-- `m` keeps `P`, whether it returns or fails, under every schedule of failures.
pub record Keeps {T A : Type 0} (P : Database T → Type 0) (m : Action T A) : Type 0 where
  pub kept : (w : World T) → Holds P w → Holds P (m w).1

module _ {T A : Type 0} {P : Database T → Type 0} where
  pub Keeps-pure : (a : A) → Keeps P (pure a)
  unfolding pure
  Keeps-pure a = record { kept = λ w h. h }

  pub Keeps-raise : (e : Error) → Keeps P (raise {A = A} e)
  unfolding raise
  Keeps-raise e = record { kept = λ w h. h }

  pub Keeps-lift : (r : Result A) → Keeps P (lift r)
  unfolding lift
  Keeps-lift r = record { kept = λ w h. h }

  pub Keeps-gets : (f : World T → A) → Keeps P (gets f)
  unfolding gets
  Keeps-gets f = record { kept = λ w h. h }

  pub Keeps-wrapping : (label : String) (m : Action T A) → Keeps P m → Keeps P (wrapping label m)
  unfolding wrapping
  Keeps-wrapping label m k = record { kept = λ w h. k.kept w h }

  -- A branch is taken only where its test has that outcome.
  pub Keeps-if :
      (test : Bool) (this that : Action T A)
      → (test ≡ true → Keeps P this)
      → (test ≡ false → Keeps P that)
      → Keeps P (if test then this else that)
  Keeps-if false this that k l = l refl
  Keeps-if true this that k l = k refl

  Keeps-attempt : (f : Option Error) (m : Action T A) → Keeps P m → Keeps P (attempt f m)
  Keeps-attempt none m k = record { kept = λ w h. k.kept w h }
  Keeps-attempt (some e) m k = record { kept = λ w h. h }

  Keeps-attempt_tx :
      (b : Bool) (f : Option Error) (m : Action T A) → Keeps P m → Keeps P (attempt_tx b f m)
  Keeps-attempt_tx true f m k = record { kept = λ w h. h }
  Keeps-attempt_tx false none m k = record { kept = λ w h. k.kept w h }
  Keeps-attempt_tx false (some e) m k = record { kept = λ w h. h }

  Keeps-call_tx : (m : Action T A) → Keeps P m → Keeps P (call_tx m)
  unfolding call_tx
  Keeps-call_tx m k = record {
    kept = λ w h. (Keeps-attempt_tx w.aborted (fault_of w.faults) m k).kept _ h;
  }

  Keeps-call : (m : Action T A) → Keeps P m → Keeps P (call m)
  unfolding call
  Keeps-call m k = record { kept = λ w h. (Keeps-attempt (fault_of w.faults) m k).kept _ h }

  pub Keeps-try : (m : Action T A) → Keeps P m → Keeps P (try m)
  unfolding try
  Keeps-try m k = record { kept = λ w h. k.kept w h }

  pub Keeps-query : (f : World T → Database T → A) → Keeps P (query f)
  unfolding query
  Keeps-query f = Keeps-call_tx _ (record { kept = λ w h. h })

  pub Keeps-pool_query : (f : World T → Database T → A) → Keeps P (pool_query f)
  unfolding pool_query
  Keeps-pool_query f = Keeps-call _ (record { kept = λ w h. h })

  pub Keeps-query_row : (f : Database T → Option A) → Keeps P (query_row f)
  unfolding query_row
  Keeps-query_row f = Keeps-call_tx _ (record { kept = λ w h. h })

  -- A statement keeps `P` if what it writes does.
  pub Keeps-exec :
      (f : World T → Database T → A × Database T)
      → ((w : World T) (d : Database T) → P d → P (f w d).1)
      → Keeps P (exec f)
  unfolding exec
  Keeps-exec f keep = Keeps-call_tx _ (record { kept = λ w h. (h.0, keep w w.tx h.1) })

  pub Keeps-pool_exec :
      (f : World T → Database T → A × Database T)
      → ((w : World T) (d : Database T) → P d → P (f w d).1)
      → Keeps P (pool_exec f)
  unfolding pool_exec
  Keeps-pool_exec f keep = Keeps-call _ (record { kept = λ w h. (keep w w.db h.0, h.1) })

module _ {T : Type 0} {P : Database T → Type 0} where
  pub Keeps-begin : Keeps P (begin {T = T})
  unfolding begin
  Keeps-begin = Keeps-call _ (record { kept = λ w h. (h.0, h.0) })

  pub Keeps-commit : Keeps P (commit {T = T})
  unfolding commit
  Keeps-commit = Keeps-call_tx _ (record { kept = λ w h. (h.1, h.1) })

  pub Keeps-publish :
      (topic key : String) (value : Bytes) → Keeps P (publish {T = T} topic key value)
  unfolding publish
  Keeps-publish topic key value = Keeps-call _ (record { kept = λ w h. h })

  pub Keeps-send_mail : (recipient body : String) → Keeps P (send_mail {T = T} recipient body)
  unfolding send_mail
  Keeps-send_mail recipient body = Keeps-call _ (record { kept = λ w h. h })

module _ {T A B : Type 0} {P : Database T → Type 0} where
  -- The rest of the block may use that `r` did not fail.
  pub Keeps-bind_lift :
      (r : Result A) (rest : A → Action T B)
      → ((x : A) → r ≡ ok x → Keeps P (rest x))
      → Keeps P (lift r >>= rest)
  unfolding ◌>>=◌
  Keeps-bind_lift (err e) rest later = Keeps-raise e
  Keeps-bind_lift (ok x) rest later = later x refl

  pub Keeps-bind :
      (m : Action T A) (rest : A → Action T B)
      → Keeps P m
      → ((x : A) → Keeps P (rest x))
      → Keeps P (m >>= rest)
  unfolding ◌>>=◌
  Keeps-bind m rest first later = record {
    kept = λ w h.
        let (r, v) = m w in (Keeps-bind_lift r rest (λ x _. later x)).kept v (first.kept w h);
  }

module _ {T A B : Type 0} {P : Database T → Type 0} where
  Keeps-answered :
      (Q : A → Type 0) (label : String) (f : World T → Database T → A) (k : A → Action T B)
      → ((w : World T) (d : Database T) → P d → Q (f w d))
      → ((a : A) → Q a → Keeps P (k a))
      → (b : Bool) (o : Option Error)
      → Keeps P (wrapping label (attempt_tx b o (λ v. (ok (f v v.tx), v))) >>= k)
  unfolding wrapping ◌>>=◌
  Keeps-answered Q label f k found kk true o = record { kept = λ w h. h }
  Keeps-answered Q label f k found kk false none = record {
    kept = λ w h. (kk (f w w.tx) (found w w.tx h.1)).kept w h;
  }
  Keeps-answered Q label f k found kk false (some e) = record { kept = λ w h. h }

  -- The rest of the block may use what the invariant says of the rows that a query returns.
  pub Keeps-bind_query :
      (Q : A → Type 0) (label : String) (f : World T → Database T → A) (k : A → Action T B)
      → ((w : World T) (d : Database T) → P d → Q (f w d))
      → ((a : A) → Q a → Keeps P (k a))
      → Keeps P (wrapping label (query f) >>= k)
  unfolding query call_tx wrapping ◌>>=◌
  Keeps-bind_query Q label f k found kk = record {
    kept = λ w h. (Keeps-answered Q label f k found kk w.aborted (fault_of w.faults)).kept _ h;
  }

pub Keeps-for_each-All :
    {T A : Type 0} {P : Database T → Type 0} (Q : A → Type 0) (f : A → Action T (Unit {0}))
    (xs : List A)
    → All Q xs
    → ((a : A) → Q a → Keeps P (f a))
    → Keeps P (for_each f xs)
unfolding for_each
Keeps-for_each-All Q f [] q k = Keeps-pure tt
Keeps-for_each-All Q f (x ∷ xs) q k =
    Keeps-bind (f x) (λ _. for_each f xs) (k x q.0) (λ _. Keeps-for_each-All Q f xs q.1 k)

pub Keeps-for_each :
    {T A : Type 0} {P : Database T → Type 0} (f : A → Action T (Unit {0})) (xs : List A)
    → ((a : A) → Keeps P (f a))
    → Keeps P (for_each f xs)
unfolding for_each
Keeps-for_each f [] k = Keeps-pure tt
Keeps-for_each f (x ∷ xs) k =
    Keeps-bind (f x) (λ _. for_each f xs) (k x) (λ _. Keeps-for_each f xs k)

pub ruleset keeps_rules = (
  Keeps-pure, Keeps-raise, Keeps-lift, Keeps-gets, Keeps-wrapping, Keeps-if, Keeps-query,
  Keeps-pool_query, Keeps-query_row, Keeps-begin, Keeps-commit, Keeps-bind, Keeps-for_each,
  Keeps-publish, Keeps-send_mail, Keeps-try,
)
