-- ===== src/Db/Success.antt =====
-- What is known of the parts of an action that returned no error: none of their calls failed.
use software_engineering_sch.Base.{
  Bool, true, false, ◌≡◌, refl, sym, ap, subst, String, Option, none, some, ◌⊎◌, inl, inr,
}
use software_engineering_sch.Errors.{Error, Result, ok, err}
use software_engineering_sch.Db.Exec.{
  Database, World, Action, lift, ◌>>=◌, begin, commit, wrapping, labelled, continue, query_row,
  or_no_rows, exec, try, attempt, attempt_tx, call, call_tx, fault_of, rest_of,
}

module _ {T A : Type 0} where
  -- `m` returns `a` in the world `w`, and leaves the world `w'`.
  abbrev pub Yields : Action T A → World T → A → World T → Type 0
  Yields m w a w' = m w ≡ (ok a, w')

  unlabelled :
      (label : String) (r : Result A) (w : World T) {w' : World T} {a : A}
      → Yields (lift (labelled label r)) w a w'
      → Yields (lift r) w a w'
  unfolding lift
  unlabelled label (ok b) w h = h
  unlabelled label (err e) w h = cc (ap (λ p. p.0) h)

  pub wrapping_returns :
      (label : String) (m : Action T A) (w : World T) {w' : World T} {a : A}
      → Yields (wrapping label m) w a w'
      → Yields m w a w'
  unfolding wrapping lift
  wrapping_returns label m w h = let (r, v) = m w in unlabelled label r v h

  pub lift_returns :
      (r : Result A) {w w' : World T} {a : A} → Yields (lift r) w a w' → (r ≡ ok a) × (w ≡ w')
  unfolding lift
  lift_returns r h = (ap (λ p. p.0) h, ap (λ p. p.1) h)

  -- What a call that returned did, in the world without the fault's entry.
  attempt_returns :
      (f : Option Error) (m : Action T A) {w w' : World T} {a : A}
      → Yields (attempt f m) w a w'
      → Yields m w a w'
  attempt_returns none m h = h
  attempt_returns (some e) m h = cc

  attempt_tx_returns :
      (aborted : Bool) (f : Option Error) (m : Action T A) {w w' : World T} {a : A}
      → Yields (attempt_tx aborted f m) w a w'
      → (aborted ≡ false) × Yields m w a w'
  attempt_tx_returns false none m h = (refl, h)
  attempt_tx_returns false (some e) m h = cc
  attempt_tx_returns true f m h = cc

  pub call_returns :
      (m : Action T A) (w : World T) {w' : World T} {a : A}
      → Yields (call m) w a w'
      → Yields m (record w { faults = rest_of w.faults }) a w'
  unfolding call
  call_returns m w h = attempt_returns (fault_of w.faults) m h

  pub call_tx_returns :
      (m : Action T A) (w : World T) {w' : World T} {a : A}
      → Yields (call_tx m) w a w'
      → (w.aborted ≡ false) × Yields m (record w { faults = rest_of w.faults }) a w'
  unfolding call_tx
  call_tx_returns m w h = attempt_tx_returns w.aborted (fault_of w.faults) m h

module _ {T : Type 0} where
  pub begin_returns :
      (w : World T) {w' : World T}
      → Yields begin w tt w'
      → w' ≡ record w { faults = rest_of w.faults; tx = w.db; aborted = false }
  unfolding begin
  begin_returns w h = sym (ap (λ p. p.1) (call_returns _ w h))

  pub commit_returns :
      (w : World T) {w' : World T} → Yields commit w tt w' → (w.aborted ≡ false) × (w'.db ≡ w.tx)
  unfolding commit
  commit_returns w h =
      let (open_tx, done) = call_tx_returns _ w h in (open_tx, sym (ap (λ p. p.1.db) done))

module _ {T A : Type 0} where
  -- A statement that returned, in a transaction that was not aborted.
  pub exec_returns :
      (f : World T → Database T → A × Database T) (w : World T) {w' : World T} {a : A}
      → Yields (exec f) w a w'
      → let (b, d) = f (record w { faults = rest_of w.faults }) w.tx in
        (w.aborted ≡ false) × (b ≡ a) × (d ≡ w'.tx) × (w.db ≡ w'.db)
  unfolding exec
  exec_returns f w h =
      let (open_tx, done) = call_tx_returns _ w h in
      (open_tx, cc (ap (λ p. p.0) done), ap (λ p. p.1.tx) done, ap (λ p. p.1.db) done)

  attempted_row :
      (aborted : Bool) (fault : Option Error) (f : Database T → Option A) (v : World T)
      → v.aborted ≡ aborted
      → let (r, w') = attempt_tx aborted fault (λ w. (or_no_rows (f w.tx), w)) v in
        ((r ≡ or_no_rows (f v.tx)) ⊎ (w'.aborted ≡ true)) × (w'.tx ≡ v.tx) × (w'.db ≡ v.db)
  attempted_row true fault f v h = (inr h, refl, refl)
  attempted_row false none f v h = (inl refl, refl, refl)
  attempted_row false (some e) f v h = (inr refl, refl, refl)

  -- A row query, whose error is a value: either its answer is the transaction's, or the transaction is
  -- aborted.
  tried_row :
      (f : Database T → Option A) (w : World T)
      → let (r, w') = query_row f w in
        ((r ≡ or_no_rows (f w.tx)) ⊎ (w'.aborted ≡ true)) × (w'.tx ≡ w.tx) × (w'.db ≡ w.db)
  unfolding query_row call_tx
  tried_row f w = attempted_row w.aborted (fault_of w.faults) f _ refl

  -- What is known of the answer `r`.
  abbrev IsTried : (Database T → Option A) → World T → Result (Result A) × World T → Type 0
  IsTried f w (ok r, w') =
      ((r ≡ or_no_rows (f w.tx)) ⊎ (w'.aborted ≡ true)) × (w'.tx ≡ w.tx) × (w'.db ≡ w.db)
  IsTried f w (err e, w') = Unit

  pub tried_row_returns :
      (f : Database T → Option A) (w : World T) {w' : World T} {r : Result A}
      → Yields (try (query_row f)) w r w'
      → ((r ≡ or_no_rows (f w.tx)) ⊎ (w'.aborted ≡ true)) × (w'.tx ≡ w.tx) × (w'.db ≡ w.db)
  unfolding try
  tried_row_returns f w h = subst (IsTried f w) h (tried_row f w)

module _ {T A B : Type 0} where
  continue_returns :
      (r : Result A) (f : A → Action T B) (v : World T) {w' : World T} {b : B}
      → Yields (continue r f) v b w'
      → (a : A) × (r ≡ ok a) × Yields (f a) v b w'
  continue_returns (ok a) f v h = (a, refl, h)
  continue_returns (err e) f v h = cc (ap (λ p. p.0) h)

  -- The first part of an action that returned has returned, and the second one after it.
  pub bind_returns :
      (m : Action T A) (f : A → Action T B) (w : World T) {w' : World T} {b : B}
      → Yields (m >>= f) w b w'
      → (a : A) × (v : World T) × Yields m w a v × Yields (f a) v b w'
  unfolding ◌>>=◌
  bind_returns m f w h =
      let (a, same, next) = continue_returns (m w).0 f (m w).1 h in
      (a, (m w).1, (λ i. (same i, (m w).1)), next)
