-- ===== src/Text/Codes.antt =====
-- Code points of texts.
use Prim.Native.Char.{code}
use software_engineering_sch.Base.{ℕ, String, List, [], ◌∷◌, Bool, false, ◌&&◌, ◌||◌, leb}

abbrev pub Text : Type 0
Text = List ℕ

abbrev pub codes : String → Text
codes String.[] = []
codes (String.◌∷◌ c s) = code c ∷ codes s

-- A set of code points, as the spans of a bracket expression.
abbrev pub Spans : Type 0
Spans = List (ℕ × ℕ)

abbrev pub contains_code : Spans → ℕ → Bool
contains_code [] c = false
contains_code ((low, high) ∷ spans) c = leb low c && leb c high || contains_code spans c
