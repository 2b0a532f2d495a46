-- ===== src/Text/Derivative.antt =====
-- Deciding whether a text fits an expression, character by character.
use software_engineering_sch.Base.{
  ℕ, Bool, true, false, ◌&&◌, ◌||◌, [], ◌∷◌, ◌++◌, ◌≡◌, refl, sym, ap, ◌∙◌, ◌↔◌, ◌⊎◌, inl, inr,
  arith, Bool-cases, if◌then◌else◌,
}
use software_engineering_sch.Text.Codes.{Text, Spans, contains_code}
use software_engineering_sch.Text.Regex.{
  Regex, never, blank, class, both, either, many, Fits, fits_blank, fits_class, fits_both,
  fits_left, fits_right, fits_none, fits_more,
}

-- Whether the empty text fits.
unfoldable pub is_nullable : Regex → Bool
is_nullable never = false
is_nullable blank = true
is_nullable (class spans) = false
is_nullable (both r s) = is_nullable r && is_nullable s
is_nullable (either r s) = is_nullable r || is_nullable s
is_nullable (many r) = true

-- The expression for what may follow the character `c`.
unfoldable pub after : ℕ → Regex → Regex
unfolding is_nullable
after c never = never
after c blank = never
after c (class spans) = if contains_code spans c then blank else never
after c (both r s) = either (both (after c r) s) (if is_nullable r then after c s else never)
after c (either r s) = either (after c r) (after c s)
after c (many r) = both (after c r) (many r)

-- `MatchString`
unfoldable pub match_string : Regex → Text → Bool
unfolding after
match_string r [] = is_nullable r
match_string r (c ∷ t) = match_string (after c r) t

nullable-Fits : (r : Regex) → is_nullable r ≡ true → Fits r []
unfolding is_nullable
nullable-Fits never h = cc
nullable-Fits blank h = fits_blank
nullable-Fits (class spans) h = cc
nullable-Fits (both r s) h =
    fits_both [] [] (nullable-Fits r (ground (arith, h))) (nullable-Fits s (ground (arith, h))) refl
nullable-Fits (either r s) h = elim (Bool-cases (is_nullable r)) [
  | inl left ↦ fits_left (nullable-Fits r left)
  | inr other ↦ fits_right (nullable-Fits s (ground (arith, h, other)))
]
nullable-Fits (many r) h = fits_none

-- A text that is empty has empty parts.
parts_empty : (xs ys : Text) → [] ≡ xs ++ ys → ([] ≡ xs) × ([] ≡ ys)
parts_empty [] ys h = (refl, h)
parts_empty (x ∷ xs) ys h = cc

Fits-nullable : (r : Regex) (t : Text) → [] ≡ t → Fits r t → is_nullable r ≡ true
unfolding is_nullable
Fits-nullable never t e f = elim f [ ]
Fits-nullable blank t e f = refl
Fits-nullable (class spans) t e (fits_class h) = cc
Fits-nullable (both r s) t e (fits_both front back f g p) =
    let (p, q) = parts_empty front back (e ∙ p) in
    ground (arith, Fits-nullable r front p f, Fits-nullable s back q g)
Fits-nullable (either r s) t e (fits_left f) = ground (arith, Fits-nullable r t e f)
Fits-nullable (either r s) t e (fits_right f) = ground (arith, Fits-nullable s t e f)
Fits-nullable (many r) t e f = refl

never_matches : (t : Text) → ¬ Fits never t
never_matches t f = elim f [ ]

one_code :
    (c : ℕ) (spans : Spans) (t : Text)
    → contains_code spans c ≡ true
    → Fits blank t
    → Fits (class spans) (c ∷ t)
one_code c spans t h fits_blank = fits_class h

-- Two ways to write one text that begins with a character.
heads : {x c : ℕ} {xs t u : Text} → u ≡ c ∷ t → u ≡ x ∷ xs → (x ≡ c) × (t ≡ xs)
heads e p = (cc, cc)

class_after :
    (c : ℕ) (spans : Spans) (t : Text)
    → (contains_code spans c ≡ true) ⊎ (contains_code spans c ≡ false)
    → Fits (if contains_code spans c then blank else never) t
    → Fits (class spans) (c ∷ t)
class_after c spans t (inl inside) f = one_code c spans t inside (rw inside at f)
class_after c spans t (inr outside) f = elim (never_matches t (rw outside at f)) [ ]

skipped :
    (c : ℕ) (r s : Regex) (t : Text)
    → (is_nullable r ≡ true) ⊎ (is_nullable r ≡ false)
    → (Fits (after c s) t → Fits s (c ∷ t))
    → Fits (if is_nullable r then after c s else never) t
    → Fits (both r s) (c ∷ t)
skipped c r s t (inl null) next f =
    fits_both [] (c ∷ t) (nullable-Fits r null) (next (rw null at f)) refl
skipped c r s t (inr full) next f = elim (never_matches t (rw full at f)) [ ]

after-Fits : (c : ℕ) (r : Regex) (t : Text) → Fits (after c r) t → Fits r (c ∷ t)
unfolding after
after-Fits c never t f = elim f [ ]
after-Fits c blank t f = elim f [ ]
after-Fits c (class spans) t f = class_after c spans t (Bool-cases (contains_code spans c)) f
after-Fits c (both r s) t (fits_left (fits_both front back f g p)) =
    fits_both (c ∷ front) back (after-Fits c r front f) g (ap (λ l. c ∷ l) p)
after-Fits c (both r s) t (fits_right f) =
    skipped c r s t (Bool-cases (is_nullable r)) (after-Fits c s t) f
after-Fits c (either r s) t (fits_left f) = fits_left (after-Fits c r t f)
after-Fits c (either r s) t (fits_right f) = fits_right (after-Fits c s t f)
after-Fits c (many r) t (fits_both front back f g p) =
    fits_more c front back (after-Fits c r front f) g (ap (λ l. c ∷ l) p)

Fits-after : (c : ℕ) (r : Regex) (t u : Text) → u ≡ c ∷ t → Fits r u → Fits (after c r) t
unfolding after
Fits-after c never t u e f = elim f [ ]
Fits-after c blank t u e fits_blank = cc
Fits-after c (class spans) t u e (fits_class h) =
    let (same, rest) = heads e refl in rw (rest, ← same, h) fits_blank
Fits-after c (both r s) t u e (fits_both [] back f g p) =
    fits_right (rw (Fits-nullable r [] refl f) (Fits-after c s t back (sym p ∙ e) g))
Fits-after c (both r s) t u e (fits_both (x ∷ front) back f g p) =
    let (same, rest) = heads e p in
    fits_left
      (fits_both front back (Fits-after c r front (x ∷ front) (ap (λ y. y ∷ front) same) f) g rest)
Fits-after c (either r s) t u e (fits_left f) = fits_left (Fits-after c r t u e f)
Fits-after c (either r s) t u e (fits_right f) = fits_right (Fits-after c s t u e f)
Fits-after c (many r) t u e fits_none = cc
Fits-after c (many r) t u e (fits_more x front back f g p) =
    let (same, rest) = heads e p in
    fits_both front back (Fits-after c r front (x ∷ front) (ap (λ y. y ∷ front) same) f) g rest

match_string-Fits : (r : Regex) (t : Text) → match_string r t ≡ true → Fits r t
unfolding match_string
match_string-Fits r [] h = nullable-Fits r h
match_string-Fits r (c ∷ t) h = after-Fits c r t (match_string-Fits (after c r) t h)

Fits-match_string : (r : Regex) (t : Text) → Fits r t → match_string r t ≡ true
unfolding match_string
Fits-match_string r [] f = Fits-nullable r [] refl f
Fits-match_string r (c ∷ t) f = Fits-match_string (after c r) t (Fits-after c r t (c ∷ t) refl f)

-- The matcher accepts a text exactly when the text fits the expression.
pub match_string_iff : (r : Regex) (t : Text) → (match_string r t ≡ true) ↔ Fits r t
match_string_iff r t = (match_string-Fits r t, Fits-match_string r t)
