-- ===== src/Migrations/Records.antt =====
-- What runs of migrations put on record, and that it stays there.
use software_engineering_sch.Base.{
  String, some, none, Bool, true, false, List, [], ◌∷◌, ◌++◌, ◌==◌, ◌≡◌, refl, sym, ap, subst, ◌∙◌,
  All, arith, find, eq_iff, inl, inr,
}
use software_engineering_sch.Errors.{Result, ok}
use software_engineering_sch.Db.{
  World, Database, calm, pure, ◌>>=◌, begin, commit, call, call_tx, wrapping, query_row, pool_exec,
  try, for_each,
}
use software_engineering_sch.Db.Success.{Yields, wrapping_returns, call_returns, bind_returns}
use software_engineering_sch.Migrations.Load.{Migration}
use software_engineering_sch.Migrations.Outcome.{row_of, IsRecorded, Outcome, apply_returns}
use software_engineering_sch.Migrations.Run.{
  Schema, rows_of, is_version, with_applied, apply_found, apply, create_table, run,
}

module _ {S : Type 0} (execute : String → S → Result S) (service : String) (m : Migration)
    (w : World (Schema S)) where
  -- A migration that is on record, when no call fails.
  apply_recorded :
      IsRecorded service m w.db
      → apply execute service m (calm w)
        ≡ (ok tt, record w { tx = w.db; aborted = false; faults = [] })
  unfolding apply apply_found begin commit call call_tx query_row try wrapping ◌>>=◌
  apply_recorded (row, found, same) =
      let unchanged : (row.checksum == m.checksum) ≡ true =
        (eq_iff row.checksum m.checksum).1 same in
      rw (found, unchanged) refl

module _ {A : Type 0} (p : A → Bool) where
  find-concat : (xs : List A) (y : A) {x : A} → find p xs ≡ some x → find p (xs ++ y ∷ []) ≡ some x
  find-concat [] y h = cc
  find-concat (z ∷ zs) y {x} h = ground (arith, find-concat zs y {x = x})

  find-concat_new :
      (xs : List A) (y : A) → find p xs ≡ none → p y ≡ true → find p (xs ++ y ∷ []) ≡ some y
  find-concat_new [] y h chosen = rw chosen refl
  find-concat_new (z ∷ zs) y h chosen = ground (arith, find-concat_new zs y)

-- The table is there.
abbrev pub IsCreated : {S : Type 0} → Database (Schema S) → Type 0
IsCreated d = d.tables.applied ≡ some (rows_of d.tables.applied)

module _ {S : Type 0} (execute : String → S → Result S) (service : String) (m : Migration)
    (d d' : Database (Schema S)) where
  done_after : Outcome execute service m d d' → IsRecorded service m d'
  done_after (inl ((row, found, same), unchanged)) =
      (row, ap (row_of service m) unchanged ∙ found, same)
  done_after (inr (missing, (row, fits, added))) =
      let chosen : is_version service m.version row ≡ true =
        ground (arith, eq_iff row.service service, fits.of_service, fits.of_version) in
      (
        row,
        ap (λ rows. find (is_version service m.version) (rows_of rows)) added
            ∙ find-concat_new (is_version service m.version) (rows_of d.tables.applied) row missing
                chosen,
        fits.of_checksum,
      )

  -- What is on record stays on record.
  done_still :
      (other : String) (n : Migration)
      → Outcome execute service m d d'
      → IsRecorded other n d
      → IsRecorded other n d'
  done_still other n (inl (_, unchanged)) (row, found, same) =
      (row, ap (row_of other n) unchanged ∙ found, same)
  done_still other n (inr (_, (_, _, added))) (row, found, same) = (
    row,
    ap (λ rows. find (is_version other n.version) (rows_of rows)) added
        ∙ find-concat (is_version other n.version) (rows_of d.tables.applied) _ found,
    same,
  )

  table_still : Outcome execute service m d d' → IsCreated d → IsCreated d'
  table_still (inl (_, unchanged)) h = subst IsCreated (sym unchanged) h
  table_still (inr (_, (row, _, added))) h = added ∙ sym (ap (λ rows. some (rows_of rows)) added)

module _ {S : Type 0} (execute : String → S → Result S) (service : String) where
  for_each_keeps :
      (ms : List Migration) (other : String) (n : Migration) (w : World (Schema S))
      {w' : World (Schema S)}
      → Yields (for_each (apply execute service) ms) w tt w'
      → IsRecorded other n w.db
      → IsRecorded other n w'.db
  unfolding for_each pure
  for_each_keeps [] other n w h recorded =
      subst (λ v. IsRecorded other n v.db) (ap (λ p. p.1) h) recorded
  for_each_keeps (m ∷ ms) other n w h recorded =
      let (_, v, first, later) =
        bind_returns (apply execute service m) (λ _. for_each (apply execute service) ms) w h in
      for_each_keeps ms other n v later (
        done_still execute service m w.db v.db other n (apply_returns execute service m w first)
          recorded)

  -- Once they have all been applied, they are all on record.
  for_each_records :
      (ms : List Migration) (w : World (Schema S)) {w' : World (Schema S)}
      → Yields (for_each (apply execute service) ms) w tt w'
      → IsCreated w.db
      → All (λ m. IsRecorded service m w'.db) ms × IsCreated w'.db
  unfolding for_each pure
  for_each_records [] w h created = (tt, subst (λ v. IsCreated v.db) (ap (λ p. p.1) h) created)
  for_each_records (m ∷ ms) w {w'} h created =
      let (_, v, first, later) =
        bind_returns (apply execute service m) (λ _. for_each (apply execute service) ms) w h in
      let outcome = apply_returns execute service m w first in
      let (rest, created') =
        for_each_records ms v later (table_still execute service m w.db v.db outcome created) in
      (
        (
          for_each_keeps ms service m v later (done_after execute service m w.db v.db outcome),
          rest,
        ),
        created',
      )

  create_returns :
      (w : World (Schema S)) {v : World (Schema S)}
      → Yields (wrapping "create schema_migrations table" (create_table execute)) w tt v
      → v.db ≡ with_applied w.db (rows_of w.db.tables.applied)
  unfolding create_table pool_exec
  create_returns w h = sym (ap (λ p. p.1.db) (call_returns _ w (wrapping_returns _ _ w h)))

  pub run_records :
      (ms : List Migration) (w : World (Schema S)) {w' : World (Schema S)}
      → Yields (run execute service ms) w tt w'
      → All (λ m. IsRecorded service m w'.db) ms × IsCreated w'.db
  unfolding run
  run_records ms w h =
      let (_, v, first, later) = bind_returns _ _ w h in
      for_each_records ms v later (subst IsCreated (sym (create_returns w first)) refl)

  pub run_keeps :
      (ms : List Migration) (m : Migration) (w : World (Schema S)) {w' : World (Schema S)}
      → Yields (run execute service ms) w tt w'
      → IsRecorded service m w.db
      → IsRecorded service m w'.db
  unfolding run
  run_keeps ms m w h recorded =
      let (_, v, first, later) = bind_returns _ _ w h in
      for_each_keeps ms service m v later
        (subst (IsRecorded service m) (sym (create_returns w first)) recorded)

  -- A version has one checksum on record.
  pub one_checksum :
      (m n : Migration) (d : Database (Schema S))
      → n.version ≡ m.version
      → IsRecorded service m d
      → IsRecorded service n d
      → n.checksum ≡ m.checksum
  one_checksum m n d same (row, found, sum) (row', found', sum') =
      let rows : row ≡ row' =
        cc (found, found', ap (λ v. find (is_version service v) (rows_of d.tables.applied)) same) in
      sym sum' ∙ ap (λ r. r.checksum) (sym rows) ∙ sum

  -- Migrations that are on record, when no call fails.
  pub for_each_recorded :
      (ms : List Migration) (w : World (Schema S))
      → All (λ m. IsRecorded service m w.db) ms
      → ((for_each (apply execute service) ms (calm w)).0 ≡ ok tt)
        × ((for_each (apply execute service) ms (calm w)).1.db ≡ w.db)
  unfolding for_each pure ◌>>=◌
  for_each_recorded [] w h = (refl, refl)
  for_each_recorded (m ∷ ms) w (h, hs) =
      rw (apply_recorded execute service m w h)
        (for_each_recorded ms (record w { tx = w.db; aborted = false }) hs)
