-- ===== src/Migrations/Names.antt =====
-- The names of migration files, `^([0-9]+)_([a-zA-Z0-9_-]+)\.sql$`, and the numbers in them.
use Prim.Native.Nat.{◌*◌, ◌^◌}
use software_engineering_sch.Base.{
  ℕ, ◌+◌, ◌-◌, Option, some, none, Bool, true, false, ◌&&◌, [], ◌∷◌, ◌++◌, ◌≡◌, ◌≢◌, refl, sym, ap,
  subst, ◌∙◌, ◌↔◌, arith, All, eqb, ltb, if◌then◌else◌, Bool-cases, inl, inr,
}
use software_engineering_sch.Text.Codes.{Text, Spans, contains_code}

abbrev digits : Spans
digits = (b'0', b'9') ∷ []

abbrev name_codes : Spans
name_codes = (b'a', b'z') ∷ (b'A', b'Z') ∷ (b'0', b'9') ∷ (b'_', b'_') ∷ (b'-', b'-') ∷ []

-- `.sql`
abbrev pub extension : Text
extension = b'.' ∷ b's' ∷ b'q' ∷ b'l' ∷ []

abbrev same_text : Text → Text → Bool
same_text [] [] = true
same_text [] (d ∷ t) = false
same_text (c ∷ s) [] = false
same_text (c ∷ s) (d ∷ t) = eqb c d && same_text s t

-- The longest front of a text that is made of these characters, and the rest.
unfoldable span : Spans → Text → Text × Text
span spans [] = ([], [])
span spans (c ∷ t) =
    if contains_code spans c
    then (let (front, back) = span spans t in (c ∷ front, back))
    else ([], c ∷ t)

abbrev is_filled : Text → Bool
is_filled [] = false
is_filled (c ∷ t) = true

-- The name's group, once the number is read.
unfoldable name_of : Text → Text → Option (Text × Text)
unfolding span
name_of number [] = none
name_of number (c ∷ rest) =
    let (name, back) = span name_codes rest in
    if eqb c b'_' && is_filled number && is_filled name && same_text back extension
    then some (number, name)
    else none

-- `fileNamePattern.FindStringSubmatch(name)`, by its two groups. Neither character after a group
-- belongs to it, so the groups are the longest fronts.
unfoldable pub find_submatch : Text → Option (Text × Text)
unfolding name_of
find_submatch t = let (number, rest) = span digits t in name_of number rest

-- `strings.TrimSuffix`, for a suffix that is not empty
unfoldable pub trim_suffix : Text → Text → Text
trim_suffix [] suffix = []
trim_suffix (c ∷ t) suffix = if same_text (c ∷ t) suffix then [] else c ∷ trim_suffix t suffix

abbrev digits_value : ℕ → Text → ℕ
digits_value acc [] = acc
digits_value acc (c ∷ t) = digits_value (10 * acc + (c - b'0')) t

-- `strconv.ParseInt(digits, 10, 64)` of a text of digits: its value, if it is an int64.
unfoldable pub parse_int : Text → Option ℕ
parse_int t = let value = digits_value 0 t in if ltb value (2 ^ 63) then some value else none

abbrev AllIn : Spans → Text → Type 0
AllIn spans t = All (λ c. contains_code spans c ≡ true) t

-- The name of a migration file with this number and this name.
pub record IsFileName (t number name : Text) : Type 0 where
  pub numbered : (number ≢ []) × AllIn digits number
  pub named : (name ≢ []) × AllIn name_codes name
  pub split : t ≡ number ++ (b'_' ∷ (name ++ extension))

same_text-eq : (s t : Text) → same_text s t ≡ true → s ≡ t
same_text-eq [] [] h = refl
same_text-eq [] (d ∷ t) h = cc
same_text-eq (c ∷ s) [] h = cc
same_text-eq (c ∷ s) (d ∷ t) h = ground (arith, h, same_text-eq s t)

is_filled-eq : (t : Text) → is_filled t ≡ true → t ≢ []
is_filled-eq [] h e = cc
is_filled-eq (c ∷ t) h e = cc

filled_of : (t : Text) → t ≢ [] → is_filled t ≡ true
filled_of [] h = absurd (h refl)
filled_of (c ∷ t) h = refl

-- A span is a front of the text, of its characters only.
span_lem :
    (spans : Spans) (t : Text)
    → (t ≡ (span spans t).0 ++ (span spans t).1) × AllIn spans (span spans t).0
unfolding span
span_lem spans [] = (refl, tt)
span_lem spans (c ∷ t) = elim (Bool-cases (contains_code spans c)) [
  | inl member ↦ rw member (ap (λ l. c ∷ l) (span_lem spans t).0, (member, (span_lem spans t).1))
  | inr other ↦ rw other (refl, tt)
]

-- It ends at the first character that is not one of them.
span-append :
    (spans : Spans) (front : Text) (c : ℕ) (back : Text)
    → AllIn spans front
    → contains_code spans c ≡ false
    → span spans (front ++ c ∷ back) ≡ (front, c ∷ back)
unfolding span
span-append spans [] c back h other = rw other refl
span-append spans (d ∷ front) c back (h, hs) other =
    rw (h, span-append spans front c back hs other) refl

chosen :
    {A : Type 0} (b : Bool) (x : A) {y : A}
    → (if b then some x else none) ≡ some y
    → (b ≡ true) × (x ≡ y)
chosen true x h = (refl, cc h)
chosen false x h = cc

-- The four tests on what follows the number.
name_of_sound :
    (number : Text) (c : ℕ) (rest : Text) {groups : Text × Text}
    → AllIn digits number
    → name_of number (c ∷ rest) ≡ some groups
    → (groups.0 ≡ number) × IsFileName (number ++ c ∷ rest) number groups.1
unfolding name_of
name_of_sound number c rest {groups} digital h =
    let (name, back) = span name_codes rest in
    let (tests, same) =
      chosen (eqb c b'_' && is_filled number && is_filled name && same_text back extension)
        (number, name) h in
    let (front, named) = span_lem name_codes rest in
    let underscore : c ≡ b'_' = ground (arith, tests) in
    let numbered : is_filled number ≡ true = ground (arith, tests) in
    let full : is_filled name ≡ true = ground (arith, tests) in
    let ended : same_text back extension ≡ true = ground (arith, tests) in
    rw⁻¹ same (
      refl,
      record {
        numbered = (is_filled-eq number numbered, digital);
        named = (is_filled-eq name full, named);
        split =
            let rest_split : c ∷ rest ≡ b'_' ∷ (name ++ extension) =
              cc (underscore, front, same_text-eq back extension ended) in
            ap (λ l. number ++ l) rest_split;
      },
    )

name_of-groups :
    (number rest : Text) {groups : Text × Text}
    → AllIn digits number
    → name_of number rest ≡ some groups
    → (groups.0 ≡ number) × IsFileName (number ++ rest) number groups.1
unfolding name_of
name_of-groups number [] digital h = cc
name_of-groups number (c ∷ rest) digital h = name_of_sound number c rest digital h

find_submatch_sound :
    (t number name : Text) → find_submatch t ≡ some (number, name) → IsFileName t number name
unfolding find_submatch
find_submatch_sound t number name h =
    let (front, digital) = span_lem digits t in
    let (same, named) = name_of-groups (span digits t).0 (span digits t).1 digital h in
    subst (λ x. IsFileName x number name) (sym front)
      (subst (λ n. IsFileName ((span digits t).0 ++ (span digits t).1) n name) (sym same) named)

name_of_complete :
    (number name : Text)
    → AllIn name_codes name
    → number ≢ []
    → name ≢ []
    → name_of number (b'_' ∷ (name ++ extension)) ≡ some (number, name)
unfolding name_of
name_of_complete number name named numbered full =
    rw
      (
        span-append name_codes name b'.' (b's' ∷ b'q' ∷ b'l' ∷ []) named refl,
        filled_of number numbered,
        filled_of name full,
      )
      refl

find_submatch_complete :
    (number name : Text)
    → AllIn digits number
    → AllIn name_codes name
    → number ≢ []
    → name ≢ []
    → find_submatch (number ++ (b'_' ∷ (name ++ extension))) ≡ some (number, name)
unfolding find_submatch
find_submatch_complete number name digital named numbered full =
    ap (λ p. name_of p.0 p.1) (span-append digits number b'_' (name ++ extension) digital refl)
    ∙ name_of_complete number name named numbered full

-- A file is taken for a migration exactly if its name is a number, an underscore, a name and the
-- extension; the groups are that number and that name.
pub find_submatch_iff :
    (t number name : Text) → (find_submatch t ≡ some (number, name)) ↔ IsFileName t number name
find_submatch_iff t number name = (
  find_submatch_sound t number name,
  λ h.
      subst (λ x. find_submatch x ≡ some (number, name)) (sym h.split)
        (find_submatch_complete number name h.numbered.1 h.named.1 h.numbered.0 h.named.0),
)

-- A name of these characters does not end like a file, so nothing of it is trimmed.
pub trim_suffix_name : (t : Text) → AllIn name_codes t → trim_suffix t extension ≡ t
unfolding trim_suffix
trim_suffix_name [] h = refl
trim_suffix_name (c ∷ t) (h, hs) =
    let other : eqb c b'.' ≡ false = ground (arith, h) in
    rw other (ap (λ l. c ∷ l) (trim_suffix_name t hs))
