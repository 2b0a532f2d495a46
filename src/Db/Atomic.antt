-- ===== src/Db/Atomic.antt =====
-- Atomicity: an action that fails leaves the committed database as it was, whichever of its calls
-- failed. An action is atomic if every call before its commit is quiet.
use software_engineering_sch.Base.{
  Bool, true, false, List, [], ◌∷◌, ◌≡◌, refl, ◌∙◌, ap, String, Option, none, some, if◌then◌else◌,
}
use software_engineering_sch.Json.{Bytes}
use software_engineering_sch.Errors.{Error, Result, ok, err}
use software_engineering_sch.Db.Exec.{
  Database, World, Action, pure, raise, lift, gets, ◌>>=◌, call, begin, commit, wrapping, query,
  pool_query, query_row, exec, for_each, publish, try, labelled, continue, attempt, attempt_tx,
  call_tx, fault_of, pool_exec,
}

-- `m` leaves the committed database alone.
pub record IsQuiet {T A : Type 0} (m : Action T A) : Type 0 where
  pub quiet : (w : World T) → (m w).1.db ≡ w.db

-- If `m` fails, it leaves the committed database alone.
pub record IsAtomic {T A : Type 0} (m : Action T A) : Type 0 where
  pub atomic : (w : World T) (e : Error) → (m w).0 ≡ err e → (m w).1.db ≡ w.db

-- A label does not turn an error into a success.
labelled_error :
    {A : Type 0} (label : String) (r : Result A) (e : Error)
    → labelled label r ≡ err e
    → (x : Error) × (r ≡ err x)
labelled_error label (ok a) e h = cc
labelled_error label (err x) e h = (x, refl)

module _ {T A : Type 0} where
  pub IsAtomic-IsQuiet : (m : Action T A) → IsQuiet m → IsAtomic m
  IsAtomic-IsQuiet m q = record { atomic = λ w e h. q.quiet w }

  pub IsQuiet-pure : (a : A) → IsQuiet {T = T} (pure a)
  unfolding pure
  IsQuiet-pure a = record { quiet = λ w. refl }

  pub IsQuiet-raise : (e : Error) → IsQuiet {T = T} (raise {A = A} e)
  unfolding raise
  IsQuiet-raise e = record { quiet = λ w. refl }

  pub IsQuiet-lift : (r : Result A) → IsQuiet {T = T} (lift r)
  unfolding lift
  IsQuiet-lift r = record { quiet = λ w. refl }

  pub IsQuiet-gets : (f : World T → A) → IsQuiet (gets f)
  unfolding gets
  IsQuiet-gets f = record { quiet = λ w. refl }

  pub IsQuiet-wrapping : (label : String) (m : Action T A) → IsQuiet m → IsQuiet (wrapping label m)
  unfolding wrapping
  IsQuiet-wrapping label m q = record { quiet = λ w. q.quiet w }

  pub IsQuiet-if :
      (b : Bool) (m n : Action T A) → IsQuiet m → IsQuiet n → IsQuiet (if b then m else n)
  IsQuiet-if true m n qm qn = qm
  IsQuiet-if false m n qm qn = qn

  pub IsAtomic-if :
      (b : Bool) (m n : Action T A) → IsAtomic m → IsAtomic n → IsAtomic (if b then m else n)
  IsAtomic-if true m n qm qn = qm
  IsAtomic-if false m n qm qn = qn

  pub IsAtomic-wrapping :
      (label : String) (m : Action T A) → IsAtomic m → IsAtomic (wrapping label m)
  unfolding wrapping
  IsAtomic-wrapping label m q = record {
    atomic = λ w e h. let (x, failed) = labelled_error label (m w).0 e h in q.atomic w x failed;
  }

  pub IsQuiet-try : (m : Action T A) → IsQuiet m → IsQuiet (try m)
  unfolding try
  IsQuiet-try m q = record { quiet = λ w. q.quiet w }

  IsQuiet-attempt : (f : Option Error) (m : Action T A) → IsQuiet m → IsQuiet (attempt f m)
  IsQuiet-attempt none m q = record { quiet = λ w. q.quiet w }
  IsQuiet-attempt (some e) m q = record { quiet = λ w. refl }

  IsQuiet-call : (m : Action T A) → IsQuiet m → IsQuiet (call m)
  unfolding call
  IsQuiet-call m q = record { quiet = λ w. (IsQuiet-attempt (fault_of w.faults) m q).quiet _ }

  IsQuiet-attempt_tx :
      (b : Bool) (f : Option Error) (m : Action T A) → IsQuiet m → IsQuiet (attempt_tx b f m)
  IsQuiet-attempt_tx true f m q = record { quiet = λ w. refl }
  IsQuiet-attempt_tx false none m q = record { quiet = λ w. q.quiet w }
  IsQuiet-attempt_tx false (some e) m q = record { quiet = λ w. refl }

  IsQuiet-call_tx : (m : Action T A) → IsQuiet m → IsQuiet (call_tx m)
  unfolding call_tx
  IsQuiet-call_tx m q = record {
    quiet = λ w. (IsQuiet-attempt_tx w.aborted (fault_of w.faults) m q).quiet _;
  }

  IsAtomic-attempt_tx :
      (b : Bool) (f : Option Error) (m : Action T A) → IsAtomic m → IsAtomic (attempt_tx b f m)
  IsAtomic-attempt_tx true f m q = record { atomic = λ w e h. refl }
  IsAtomic-attempt_tx false none m q = record { atomic = λ w e h. q.atomic w e h }
  IsAtomic-attempt_tx false (some x) m q = record { atomic = λ w e h. refl }

  IsAtomic-call_tx : (m : Action T A) → IsAtomic m → IsAtomic (call_tx m)
  unfolding call_tx
  IsAtomic-call_tx m q = record {
    atomic = λ w e h. (IsAtomic-attempt_tx w.aborted (fault_of w.faults) m q).atomic _ e h;
  }

  IsAtomic-attempt : (f : Option Error) (m : Action T A) → IsAtomic m → IsAtomic (attempt f m)
  IsAtomic-attempt none m q = record { atomic = λ w e h. q.atomic w e h }
  IsAtomic-attempt (some x) m q = record { atomic = λ w e h. refl }

  IsAtomic-call : (m : Action T A) → IsAtomic m → IsAtomic (call m)
  unfolding call
  IsAtomic-call m q = record {
    atomic = λ w e h. (IsAtomic-attempt (fault_of w.faults) m q).atomic _ e h;
  }

  pub IsQuiet-query : (f : World T → Database T → A) → IsQuiet (query f)
  unfolding query
  IsQuiet-query f = IsQuiet-call_tx _ (record { quiet = λ w. refl })

  pub IsQuiet-pool_query : (f : World T → Database T → A) → IsQuiet (pool_query f)
  unfolding pool_query
  IsQuiet-pool_query f = IsQuiet-call _ (record { quiet = λ w. refl })

  pub IsQuiet-query_row : (f : Database T → Option A) → IsQuiet (query_row f)
  unfolding query_row
  IsQuiet-query_row f = IsQuiet-call_tx _ (record { quiet = λ w. refl })

  pub IsQuiet-exec : (f : World T → Database T → A × Database T) → IsQuiet (exec f)
  unfolding exec
  IsQuiet-exec f = IsQuiet-call_tx _ (record { quiet = λ w. refl })

  -- A single statement on the pool commits by itself, if it does not fail.
  pub IsAtomic-pool_exec : (f : World T → Database T → A × Database T) → IsAtomic (pool_exec f)
  unfolding pool_exec
  IsAtomic-pool_exec f = IsAtomic-call _ (record { atomic = λ w e h. cc })

module _ {T : Type 0} where
  pub IsQuiet-begin : IsQuiet (begin {T = T})
  unfolding begin
  IsQuiet-begin = IsQuiet-call _ (record { quiet = λ w. refl })

  pub IsAtomic-commit : IsAtomic (commit {T = T})
  unfolding commit
  IsAtomic-commit = IsAtomic-call_tx _ (record { atomic = λ w e h. cc })

  pub IsQuiet-publish :
      (topic key : String) (value : Bytes) → IsQuiet (publish {T = T} topic key value)
  unfolding publish
  IsQuiet-publish topic key value = IsQuiet-call _ (record { quiet = λ w. refl })

module _ {T A B : Type 0} where
  IsQuiet-bind_lift :
      (r : Result A) (f : A → Action T B) → ((a : A) → IsQuiet (f a)) → IsQuiet (lift r >>= f)
  unfolding ◌>>=◌
  IsQuiet-bind_lift (ok a) f q = q a
  IsQuiet-bind_lift (err e) f q = IsQuiet-raise e

  pub IsQuiet-bind :
      (m : Action T A) (f : A → Action T B)
      → IsQuiet m
      → ((a : A) → IsQuiet (f a))
      → IsQuiet (m >>= f)
  unfolding ◌>>=◌
  IsQuiet-bind m f qm qf = record {
    quiet = λ w. let (r, w') = m w in (IsQuiet-bind_lift r f qf).quiet w' ∙ qm.quiet w;
  }

  IsAtomic-bind_lift :
      (r : Result A) (f : A → Action T B) → ((a : A) → IsAtomic (f a)) → IsAtomic (lift r >>= f)
  unfolding ◌>>=◌
  IsAtomic-bind_lift (ok a) f q = q a
  IsAtomic-bind_lift (err e) f q = IsAtomic-IsQuiet _ (IsQuiet-raise e)

  pub IsAtomic-bind :
      (m : Action T A) (f : A → Action T B)
      → IsQuiet m
      → ((a : A) → IsAtomic (f a))
      → IsAtomic (m >>= f)
  unfolding ◌>>=◌
  IsAtomic-bind m f qm qf = record {
    atomic = λ w e h. let (r, w') = m w in (IsAtomic-bind_lift r f qf).atomic w' e h ∙ qm.quiet w;
  }

module _ {T A B : Type 0} where
  continued_error :
      (r : Result A) (b : B) (w : World T) (e : Error)
      → (continue r (λ _. pure {T = T} b) w).0 ≡ err e
      → (x : Error) × (r ≡ err x) × ((continue r (λ _. pure {T = T} b) w).1 ≡ w)
  unfolding pure
  continued_error (ok a) b w e h = cc
  continued_error (err x) b w e h = (x, refl, refl)

  -- What only names the answer may follow the commit.
  pub IsAtomic-bind_pure : (m : Action T A) (b : B) → IsAtomic m → IsAtomic (m >>= λ _. pure b)
  unfolding ◌>>=◌
  IsAtomic-bind_pure m b q = record {
    atomic = λ w e h.
        let (x, failed, same) = continued_error (m w).0 b (m w).1 e h in
        ap (λ v. v.db) same ∙ q.atomic w x failed;
  }

pub IsQuiet-for_each :
    {T A : Type 0} (f : A → Action T (Unit {0})) (xs : List A)
    → ((a : A) → IsQuiet (f a))
    → IsQuiet (for_each f xs)
unfolding for_each
IsQuiet-for_each f [] q = IsQuiet-pure tt
IsQuiet-for_each f (x ∷ xs) q =
    IsQuiet-bind (f x) (λ _. for_each f xs) (q x) (λ _. IsQuiet-for_each f xs q)

pub ruleset quiet_rules = (
  IsQuiet-pure, IsQuiet-raise, IsQuiet-lift, IsQuiet-gets, IsQuiet-wrapping, IsQuiet-if,
  IsQuiet-query, IsQuiet-pool_query, IsQuiet-query_row, IsQuiet-exec, IsQuiet-begin, IsQuiet-bind,
  IsQuiet-for_each, IsQuiet-publish, IsQuiet-try,
)

pub ruleset atomic_rules = (
  quiet_rules, IsAtomic-IsQuiet, IsAtomic-if, IsAtomic-wrapping, IsAtomic-commit,
  IsAtomic-pool_exec, IsAtomic-bind,
)
