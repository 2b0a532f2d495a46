-- ===== src/Uuid.antt =====
-- The package github.com/google/uuid, which is not part of the repository: generating UUIDs and
-- parsing them.
use software_engineering_sch.Base.{ℕ, suc, String, Bool, true, ◌≡◌}
use software_engineering_sch.Errors.{Error, ok}
use software_engineering_sch.Db.{Action}

-- `generate n` is the text of the n-th UUID that the process generates. `parses` is whether `Parse`
-- has no error, and `validates` whether `Validate` has none. A text is canonical if it is the one that
-- the package and PostgreSQL write for its UUID; where a column of UUIDs is compared as text, the texts
-- are to be canonical.
pub record Uuid : Type 0 where
  pub generate : ℕ → String
  pub parses : String → Bool
  pub parse_error : String → Error
  pub validates : String → Bool
  pub is_canonical : String → Bool
  -- Generated UUIDs are distinct, valid and canonical.
  pub generate-injective : (m n : ℕ) → generate m ≡ generate n → m ≡ n
  pub parses-generate : (n : ℕ) → parses (generate n) ≡ true
  pub validates-generate : (n : ℕ) → validates (generate n) ≡ true
  pub is_canonical-generate : (n : ℕ) → is_canonical (generate n) ≡ true

-- `uuid.NewString()`
unfoldable pub new_string : {T : Type 0} → Uuid → Action T String
new_string u w = (ok (u.generate w.ids), record w { ids = suc w.ids })
