-- ===== src/Migrations/Outcome.antt =====
-- What `apply` has done when it returns no error, under every schedule of failures.
use software_engineering_sch.Base.{
  String, Option, some, none, Bool, true, false, not, [], ◌∷◌, ◌++◌, ◌==◌, ◌≡◌, refl, sym, ap, ◌∙◌,
  subst, ◌⊎◌, if◌then◌else◌, find, eq_iff, inl, inr,
}
use software_engineering_sch.Errors.{Error, is, no_rows, plain, wrap, Result, ok, err}
use software_engineering_sch.Db.{World, Database, raise, commit, or_no_rows, try}
use software_engineering_sch.Db.Success.{
  Yields, wrapping_returns, lift_returns, begin_returns, commit_returns, exec_returns,
  tried_row_returns, bind_returns,
}
use software_engineering_sch.Migrations.Load.{Migration}
use software_engineering_sch.Migrations.Run.{
  Applied, Schema, rows_of, is_version, executed, apply_new, apply_found, apply,
}

-- The row that puts a migration on record.
pub record IsRowOf (service : String) (m : Migration) (row : Applied) : Type 0 where
  pub of_service : row.service ≡ service
  pub of_version : row.version ≡ m.version
  pub of_checksum : row.checksum ≡ m.checksum

module _ {S : Type 0} (service : String) (m : Migration) where
  -- The row that a migration has.
  abbrev pub row_of : Database (Schema S) → Option Applied
  row_of d = find (is_version service m.version) (rows_of d.tables.applied)

  -- The migration's row has its checksum.
  abbrev pub IsRecorded : Database (Schema S) → Type 0
  IsRecorded d = (row : Applied) × (row_of d ≡ some row) × (row.checksum ≡ m.checksum)

  -- Exactly the migration's row is added.
  abbrev pub IsAdded : Database (Schema S) → Database (Schema S) → Type 0
  IsAdded d d' =
      (row : Applied) × IsRowOf service m row
      × (d'.tables.applied ≡ some (rows_of d.tables.applied ++ row ∷ []))

module _ {S : Type 0} (execute : String → S → Result S) (service : String) (m : Migration) where
  executed_lem :
      (d d' : Database (Schema S)) (r : Result S)
      → (executed execute d r).1 ≡ d'
      → d'.tables.applied ≡ d.tables.applied
  executed_lem d d' (ok rest) same = ap (λ x. x.tables.applied) (sym same)
  executed_lem d d' (err e) same = ap (λ x. x.tables.applied) (sym same)

  apply_new_returns :
      (v : World (Schema S)) {w' : World (Schema S)}
      → Yields (apply_new execute service m) v tt w'
      → (v.aborted ≡ false) × IsAdded service m v.tx w'.db
  unfolding apply_new
  apply_new_returns v h =
      let (outcome, w1, h1, k1) = bind_returns _ _ v h in
      let (open_tx, _, tx1, _) = exec_returns _ v (wrapping_returns _ _ v h1) in
      let (_, w2, h2, k2) = bind_returns _ _ w1 k1 in
      let (_, same) = lift_returns outcome (wrapping_returns _ _ w1 h2) in
      let (_, w3, h3, k3) = bind_returns _ _ w2 k2 in
      let (_, _, tx3, _) = exec_returns _ w2 (wrapping_returns _ _ w2 h3) in
      let (_, committed) = commit_returns w3 (wrapping_returns _ _ w3 k3) in
      let row : Applied = record {
        service = service;
        version = m.version;
        name = m.name;
        checksum = m.checksum;
        applied_at = w2.now;
      } in
      let kept : w2.tx.tables.applied ≡ v.tx.tables.applied =
        ap (λ w. w.tx.tables.applied) (sym same)
        ∙ executed_lem v.tx w1.tx (execute m.sql v.tx.tables.rest) tx1 in
      (
        open_tx,
        (
          row,
          record { of_service = refl; of_version = refl; of_checksum = refl },
          ap (λ d. d.tables.applied) (committed ∙ sym tx3)
              ∙ ap (λ l. some (rows_of l ++ row ∷ [])) kept,
        ),
      )

  -- Either it was on record, and nothing is done, or it is put on record.
  abbrev pub Outcome : Database (Schema S) → Database (Schema S) → Type 0
  Outcome d d' =
      (IsRecorded service m d × (d' ≡ d)) ⊎ ((row_of service m d ≡ none) × IsAdded service m d d')

  -- The answer of the row query, unless its transaction is aborted.
  abbrev IsAnswer : Result Applied → World (Schema S) → Type 0
  IsAnswer found v = (found ≡ or_no_rows (row_of service m v.tx)) ⊎ (v.aborted ≡ true)

  row_answered :
      (found : Result Applied) (v : World (Schema S))
      → IsAnswer found v
      → v.aborted ≡ false
      → found ≡ or_no_rows (row_of service m v.tx)
  row_answered found v (inl same) open_tx = same
  row_answered found v (inr aborted) open_tx = cc

  no_row : (o : Option Applied) (e : Error) → err e ≡ or_no_rows o → o ≡ none
  no_row none e h = refl
  no_row (some row) e h = cc

  a_row : (o : Option Applied) (row : Applied) → ok row ≡ or_no_rows o → o ≡ some row
  a_row none row h = cc
  a_row (some other) row h = cc

  unchanged_returns :
      (same : Bool) (v : World (Schema S)) {w' : World (Schema S)}
      → Yields (if not same then raise (plain "migration checksum mismatch") else commit) v tt w'
      → (same ≡ true) × (v.aborted ≡ false) × (w'.db ≡ v.tx)
  unfolding raise
  unchanged_returns true v h = let (open_tx, done) = commit_returns v h in (refl, open_tx, done)
  unchanged_returns false v h = cc (ap (λ p. p.0) h)

  missing_returns :
      (b : Bool) (e : Error) (v : World (Schema S)) {w' : World (Schema S)}
      → Yields
          (if not b then raise (wrap "check migration" e) else apply_new execute service m)
          v
          tt
          w'
      → (v.aborted ≡ false) × IsAdded service m v.tx w'.db
  unfolding raise
  missing_returns true e v h = apply_new_returns v h
  missing_returns false e v h = cc (ap (λ p. p.0) h)

  apply_found_returns :
      (found : Result Applied) (v : World (Schema S)) {w' : World (Schema S)}
      → IsAnswer found v
      → Yields (apply_found execute service m found) v tt w'
      → Outcome v.tx w'.db
  unfolding apply_found
  apply_found_returns (ok row) v answer h =
      let (same, open_tx, done) = unchanged_returns (row.checksum == m.checksum) v h in
      inl (
        (
          row,
          a_row (row_of service m v.tx) row (row_answered (ok row) v answer open_tx),
          (eq_iff row.checksum m.checksum).0 same,
        ),
        done,
      )
  apply_found_returns (err e) v answer h =
      let (open_tx, added) = missing_returns (is e no_rows) e v h in
      inr (no_row (row_of service m v.tx) e (row_answered (err e) v answer open_tx), added)

  pub apply_returns :
      (w : World (Schema S)) {w' : World (Schema S)}
      → Yields (apply execute service m) w tt w'
      → Outcome w.db w'.db
  unfolding apply try
  apply_returns w {w'} h =
      let (_, w1, h1, k1) = bind_returns _ _ w h in
      let begun = begin_returns w (wrapping_returns _ _ w h1) in
      let (found, w2, h2, k2) = bind_returns _ _ w1 k1 in
      let (answer, tx2, _) = tried_row_returns _ w1 h2 in
      let tx : w2.tx ≡ w.db = tx2 ∙ ap (λ v. v.tx) begun in
      let answered : IsAnswer found w2 = elim answer [
        | inl same ↦ inl (cc (same, tx2))
        | inr aborted ↦ inr aborted
      ] in
      subst (λ d. Outcome d w'.db) tx (apply_found_returns found w2 answered k2)
