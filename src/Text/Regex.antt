-- ===== src/Text/Regex.antt =====
-- Regular expressions as the package regexp matches them, between `^` and `$`: which texts an
-- expression stands for.
use software_engineering_sch.Base.{ℕ, zero, suc, true, [], ◌∷◌, ◌++◌, ◌≡◌}
use software_engineering_sch.Text.Codes.{Text, Spans, contains_code}

pub data Regex : Type 0 where
  never : Regex
  blank : Regex
  class : Spans → Regex  -- `[…]`, or a single character
  both : Regex → Regex → Regex  -- one after the other
  either : Regex → Regex → Regex
  many : Regex → Regex  -- `…*`

-- `…+`, `…{n,}` and `…{1,n}`
abbrev pub some_of : Regex → Regex
some_of r = both r (many r)

abbrev pub at_least : ℕ → Regex → Regex
at_least zero r = many r
at_least (suc n) r = both r (at_least n r)

abbrev pub at_most : ℕ → Regex → Regex
at_most zero r = blank
at_most (suc n) r = either blank (both r (at_most n r))

-- The texts of an expression.
pub data Fits : Regex → Text → Type 0 where
  fits_blank : Fits blank []
  fits_class : {spans : Spans} {c : ℕ} → contains_code spans c ≡ true → Fits (class spans) (c ∷ [])
  fits_both :
      {r s : Regex} {t : Text} (front back : Text)
      → Fits r front
      → Fits s back
      → t ≡ front ++ back
      → Fits (both r s) t
  fits_left : {r s : Regex} {t : Text} → Fits r t → Fits (either r s) t
  fits_right : {r s : Regex} {t : Text} → Fits s t → Fits (either r s) t
  fits_none : {r : Regex} → Fits (many r) []
  fits_more :
      {r : Regex} {t : Text} (c : ℕ) (front back : Text)
      → Fits r (c ∷ front)
      → Fits (many r) back
      → t ≡ (c ∷ front) ++ back
      → Fits (many r) t
