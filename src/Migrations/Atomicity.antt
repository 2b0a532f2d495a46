-- ===== src/Migrations/Atomicity.antt =====
-- A migration that fails leaves nothing behind.
use software_engineering_sch.Base.{String, ◌≡◌}
use software_engineering_sch.Errors.{Error, Result, ok, err}
use software_engineering_sch.Db.{World}
use software_engineering_sch.Db.Atomic.{IsAtomic, atomic_rules}
use software_engineering_sch.Migrations.Load.{Migration}
use software_engineering_sch.Migrations.Run.{Applied, Schema, apply_new, apply_found, apply}

module _ {S : Type 0} (execute : String → S → Result S) where
  apply_new-IsAtomic : (service : String) (m : Migration) → IsAtomic (apply_new execute service m)
  unfolding apply_new
  apply_new-IsAtomic service m = search atomic_rules depth 14

  apply_found-IsAtomic :
      (service : String) (m : Migration) (found : Result Applied)
      → IsAtomic (apply_found execute service m found)
  unfolding apply_found
  apply_found-IsAtomic service m (ok row) = search atomic_rules depth 8
  apply_found-IsAtomic service m (err e) = search (atomic_rules, apply_new-IsAtomic) depth 8

  apply-IsAtomic : (service : String) (m : Migration) → IsAtomic (apply execute service m)
  unfolding apply
  apply-IsAtomic service m = search (atomic_rules, apply_found-IsAtomic) depth 14

-- A migration is applied and put on record, or neither: if applying it fails, for whatever reason, the
-- committed database is as it was.
pub apply_atomic :
    {S : Type 0} (execute : String → S → Result S) (service : String) (m : Migration)
    (w : World (Schema S)) (e : Error)
    → (apply execute service m w).0 ≡ err e
    → (apply execute service m w).1.db ≡ w.db
apply_atomic execute service m w e failed = (apply-IsAtomic execute service m).atomic w e failed
