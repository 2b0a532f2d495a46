-- ===== src/Migrations/Again.antt =====
-- Running migrations a second time, and after a change to one.
use software_engineering_sch.Base.{String, Option, List, [], ◌≡◌, ◌≢◌, sym, subst, All-mem}
use software_engineering_sch.Errors.{Error, Result, ok}
use software_engineering_sch.Db.{World, calm, ◌>>=◌, call, wrapping, pool_exec, for_each}
use mathlib.Core.List.{Memᴰ}
use software_engineering_sch.Db.Success.{Yields}
use software_engineering_sch.Migrations.Load.{Migration}
use software_engineering_sch.Migrations.Outcome.{IsRecorded}
use software_engineering_sch.Migrations.Run.{
  Schema, rows_of, with_applied, apply, create_table, run,
}
use software_engineering_sch.Migrations.Records.{
  for_each_recorded, run_records, run_keeps, one_checksum,
}

-- When the migrations of a service have been run without an error, whatever the schedule of failures
-- was, running them again, when no call fails, is no error and changes nothing.
pub run_twice :
    {S : Type 0} (execute : String → S → Result S) (service : String) (ms : List Migration)
    (w w' : World (Schema S))
    → run execute service ms w ≡ (ok tt, w')
    → ((run execute service ms (calm w')).0 ≡ ok tt)
      × ((run execute service ms (calm w')).1.db ≡ w'.db)
unfolding run create_table pool_exec call wrapping ◌>>=◌
run_twice execute service ms w w' h =
    let (recorded, created) = run_records execute service ms w h in
    let same : with_applied w'.db (rows_of w'.db.tables.applied) ≡ w'.db =
      λ i. record w'.db { tables = record w'.db.tables { applied = sym created i } } in
    let again = for_each_recorded execute service ms w' recorded in
    subst
      (λ d.
        let (r, v) = for_each (apply execute service) ms (record w' { db = d; faults = [] }) in
        (r ≡ ok tt) × (v.db ≡ w'.db))
      (sym same) again

-- When the migrations of a service have been run without an error, and one of them has another
-- checksum now, running a list that has it is an error, whatever the schedule of failures is.
edited_migration_refused :
    {S : Type 0} (execute : String → S → Result S) (service : String) (ms ns : List Migration)
    (m n : Migration) (w w' : World (Schema S)) (faults : List (Option Error))
    → run execute service ms w ≡ (ok tt, w')
    → Memᴰ m ms
    → Memᴰ n ns
    → n.version ≡ m.version
    → n.checksum ≢ m.checksum
    → (run execute service ns (record w' { faults = faults })).0 ≢ ok tt
edited_migration_refused {S = S} execute service ms ns m n w w' faults h was is_now same edited
      done =
    let v : World (Schema S) = record w' { faults = faults } in
    let after = (run execute service ns v).1 in
    let again : Yields (run execute service ns) v tt after = λ i. (done i, after) in
    let (recorded, _) = run_records execute service ms w h in
    let (recorded_now, _) = run_records execute service ns v again in
    edited (
      one_checksum execute service m n after.db same
        (run_keeps execute service ns m v again
          (All-mem (λ x. IsRecorded service x w'.db) ms recorded was))
        (All-mem (λ x. IsRecorded service x after.db) ns recorded_now is_now))
