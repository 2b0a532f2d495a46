-- ===== src/Examples/Migrated.antt =====
-- Examples for the migrations.
use software_engineering_sch.Base.{ℕ, String, none, false, List, [], ◌∷◌, ◌≡◌, ◌↔◌, refl}
use mathlib.Core.List.{Memᴰ}
use software_engineering_sch.Errors.{is, Result, ok}
use software_engineering_sch.Text.Codes.{codes}
use software_engineering_sch.Db.{
  World, calm, ◌>>=◌, call, call_tx, wrapping, begin, commit, pool_exec, exec, query_row, try, lift,
  pure, for_each,
}
use software_engineering_sch.Migrations.Names.{find_submatch, trim_suffix, parse_int}
use software_engineering_sch.Migrations.Load.{Entry, Migration, read_entry, load, IsMigrationOf}
use software_engineering_sch.Migrations.Order.{IsAscending, load_iff}
use software_engineering_sch.Migrations.Run.{
  Schema, apply_new, apply_found, apply, create_table, run,
}
use software_engineering_sch.Migrations.Again.{run_twice}
use software_engineering_sch.Examples.Values.{world}

-- A file stands for its own digest.
abbrev same : String → String
same s = s

abbrev file : String → String → Entry
file name sql = record { name = name; is_dir = false; raw = ok sql }

abbrev files : List Entry
files = file "10_b.sql" "B" ∷ file "2_a.sql" "A" ∷ file "README.md" "" ∷ []

abbrev migration : ℕ → String → String → String → Migration
migration version name path sql = record {
  version = version;
  name = codes name;
  path = path;
  sql = sql;
  checksum = sql;
}

abbrev listed : List Migration
listed = migration 2 "a" "2_a.sql" "A" ∷ migration 10 "b" "10_b.sql" "B" ∷ []

load_iff_example :
    IsAscending listed
    × ((m : Migration) → Memᴰ m listed ↔ ((e : Entry) × Memᴰ e files × IsMigrationOf same e m))
unfolding load find_submatch trim_suffix parse_int read_entry
load_iff_example = load_iff same files listed refl

-- The texts that were executed.
abbrev log_text : String → List String → Result (List String)
log_text sql done = ok (sql ∷ done)

abbrev empty_world : World (Schema (List String))
empty_world = world (record { applied = none; rest = [] }) []

abbrev migrated : World (Schema (List String))
migrated = (run log_text "api" listed empty_world).1

run_twice_example :
    ((run log_text "api" listed (calm migrated)).0 ≡ ok tt)
    × ((run log_text "api" listed (calm migrated)).1.db ≡ migrated.db)
unfolding run create_table apply apply_found apply_new pool_exec call call_tx wrapping begin commit
    exec query_row try lift pure for_each ◌>>=◌ is
run_twice_example = run_twice log_text "api" listed empty_world migrated refl
