-- ===== src/Db/Carries.antt =====
-- Properties of the committed database that an action which begins a transaction carries over,
-- whatever view an earlier transaction has left.
use software_engineering_sch.Base.{sym, subst, String, Option, none, some, false}
use software_engineering_sch.Errors.{Error, Result, ok, err}
use software_engineering_sch.Db.Exec.{
  Database, World, Action, lift, ◌>>=◌, begin, wrapping, attempt, call, fault_of,
}
use software_engineering_sch.Db.Keeps.{Keeps}
use software_engineering_sch.Db.Atomic.{IsQuiet}

pub record Carries {T A : Type 0} (P : Database T → Type 0) (m : Action T A) : Type 0 where
  pub carried : (w : World T) → P w.db → P (m w).1.db

module _ {T A B : Type 0} {P : Database T → Type 0} where
  Carries-bind_lift :
      (r : Result A) (rest : A → Action T B)
      → ((x : A) → Carries P (rest x))
      → Carries P (lift r >>= rest)
  unfolding lift ◌>>=◌
  Carries-bind_lift (ok x) rest later = later x
  Carries-bind_lift (err e) rest later = record { carried = λ w h. h }

  -- Before the transaction nothing is written.
  pub Carries-bind :
      (m : Action T A) (rest : A → Action T B)
      → IsQuiet m
      → ((x : A) → Carries P (rest x))
      → Carries P (m >>= rest)
  unfolding ◌>>=◌
  Carries-bind m rest quiet later = record {
    carried = λ w h.
        let (r, v) = m w in
        (Carries-bind_lift r rest later).carried v (subst P (sym (quiet.quiet w)) h);
  }

module _ {T B : Type 0} {P : Database T → Type 0} where
  begun :
      (label : String) (fault : Option Error) (rest : Unit {0} → Action T B)
      → ((x : Unit {0}) → Keeps P (rest x))
      → Carries P (
          wrapping label (attempt fault (λ w. (ok tt, record w { tx = w.db; aborted = false })))
          >>= rest)
  unfolding wrapping ◌>>=◌
  begun label none rest keep = record { carried = λ w h. ((keep tt).kept _ (h, h)).0 }
  begun label (some e) rest keep = record { carried = λ w h. h }

  -- The transaction starts from what is committed.
  pub Carries-begin :
      (label : String) (rest : Unit {0} → Action T B)
      → ((x : Unit {0}) → Keeps P (rest x))
      → Carries P (wrapping label begin >>= rest)
  unfolding begin call wrapping ◌>>=◌
  Carries-begin label rest keep = record {
    carried = λ w h. (begun label (fault_of w.faults) rest keep).carried _ h;
  }
