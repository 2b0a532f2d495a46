-- ===== src/Migrations/Run.antt =====
-- `Run`: each migration in a transaction of its own, once, with its checksum on record.
use software_engineering_sch.Base.{
  ℕ, String, Option, some, none, Bool, ◌&&◌, not, List, [], ◌∷◌, ◌++◌, ◌==◌, eqb, if◌then◌else◌,
  find,
}
use software_engineering_sch.Errors.{is, no_rows, plain, wrap, Result, ok, err}
use software_engineering_sch.Text.Codes.{Text}
use software_engineering_sch.Db.{
  Database, Action, raise, lift, ◌>>=◌, ◌>>◌, begin, commit, wrapping, query_row, exec, pool_exec,
  try, for_each,
}
use software_engineering_sch.Migrations.Load.{Entry, Migration, load}

-- A row of schema_migrations. The migrations of every service and those of the outbox share the table.
pub record Applied : Type 0 where
  pub service : String
  pub version : ℕ
  pub name : Text
  pub checksum : String
  pub applied_at : ℕ

-- The database of a service while it is migrated: the rows of schema_migrations, none of them before
-- the table is created, and everything else.
pub record Schema (S : Type 0) : Type 0 where
  pub applied : Option (List Applied)
  pub rest : S

abbrev pub rows_of : Option (List Applied) → List Applied
rows_of none = []
rows_of (some rows) = rows

-- `WHERE service = $1 AND version = $2`, which is also the primary key
abbrev pub is_version : String → ℕ → Applied → Bool
is_version service version row = row.service == service && eqb row.version version

abbrev pub with_applied : {S : Type 0} → Database (Schema S) → List Applied → Database (Schema S)
with_applied d rows = record d { tables = record d.tables { applied = some rows } }

-- What PostgreSQL makes of the text of a migration.
module _ {S : Type 0} (execute : String → S → Result S) where
  abbrev pub executed : Database (Schema S) → Result S → Result (Unit {0}) × Database (Schema S)
  executed d (ok rest) = (ok tt, record d { tables = record d.tables { rest = rest } })
  executed d (err e) = (err e, d)

  -- A migration that is not on record. Its row cannot violate the primary key then.
  unfoldable pub apply_new : String → Migration → Action (Schema S) (Unit {0})
  apply_new service m = do
    outcome ← wrapping "apply migration" (exec (λ w d. executed d (execute m.sql d.tables.rest)))
    wrapping "apply migration" (lift outcome)
    wrapping "record migration" (
        exec (λ w d. (
          tt,
          with_applied d (
              rows_of d.tables.applied
              ++ record {
                service = service;
                version = m.version;
                name = m.name;
                checksum = m.checksum;
                applied_at = w.now;
              }
                ∷ []),
        )))
    wrapping "commit migration" commit

  -- By the row that the migration has.
  unfoldable pub apply_found : String → Migration → Result Applied → Action (Schema S) (Unit {0})
  unfolding apply_new
  apply_found service m (ok row) =
      if not (row.checksum == m.checksum)
      then raise (plain "migration checksum mismatch")
      else commit
  apply_found service m (err e) =
      if not (is e no_rows) then raise (wrap "check migration" e) else apply_new service m

  -- `apply`; the messages leave out the names and the numbers that they are made with.
  unfoldable pub apply : String → Migration → Action (Schema S) (Unit {0})
  unfolding apply_found
  apply service m = do
    wrapping "begin migration" begin
    found ← try (query_row (λ d. find (is_version service m.version) (rows_of d.tables.applied)))
    apply_found service m found

  -- `CREATE TABLE IF NOT EXISTS`
  unfoldable pub create_table : Action (Schema S) (Unit {0})
  create_table = pool_exec (λ w d. (tt, with_applied d (rows_of d.tables.applied)))

  unfoldable pub run : String → List Migration → Action (Schema S) (Unit {0})
  unfolding apply create_table
  run service list = do
    wrapping "create schema_migrations table" create_table
    for_each (apply service) list

  -- `Run` of the package dbmigrations of a service: its own migrations, and then those of the outbox.
  unfoldable pub migrate :
      (checksum : String → String)
      → String
      → (own outbox : Result (List Entry)) → Action (Schema S) (Unit {0})
  unfolding run load
  migrate checksum service own outbox = do
    list ← lift (load checksum own)
    run service list
    outbox_list ← lift (load checksum outbox)
    run "outbox" outbox_list
