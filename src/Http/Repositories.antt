-- ===== src/Http/Repositories.antt =====
-- Which texts the API takes for a repository.
use software_engineering_sch.Base.{
  ◌≤◌, ◌⊎◌, ℕ, String, true, [], ◌∷◌, ◌++◌, ◌≡◌, ◌≢◌, refl, ap, ◌∙◌, ◌↔◌, arith, All,
}
use software_engineering_sch.Text.Codes.{Text, Spans, codes, contains_code}
use software_engineering_sch.Text.Regex.{
  class, many, some_of, Fits, fits_class, fits_both, fits_none, fits_more,
}
use software_engineering_sch.Text.Derivative.{match_string_iff}
use software_engineering_sch.Http.Patterns.{repo_codes, repo_part, repo_pattern, is_repo}

-- Only these characters.
abbrev AllIn : Spans → Text → Type 0
AllIn spans t = All (λ c. contains_code spans c ≡ true) t

AllIn-many : (spans : Spans) (t : Text) → AllIn spans t → Fits (many (class spans)) t
AllIn-many spans [] h = fits_none
AllIn-many spans (c ∷ t) (h, hs) = fits_more c [] t (fits_class h) (AllIn-many spans t hs) refl

many-AllIn : (spans : Spans) (t : Text) → Fits (many (class spans)) t → AllIn spans t
many-AllIn spans t fits_none = tt
many-AllIn spans t (fits_more c front back (fits_class h) g p) = rw p (h, many-AllIn spans back g)

AllIn-some_of :
    (spans : Spans) (c : ℕ) (t : Text) → AllIn spans (c ∷ t) → Fits (some_of (class spans)) (c ∷ t)
AllIn-some_of spans c t (h, hs) = fits_both (c ∷ []) t (fits_class h) (AllIn-many spans t hs) refl

-- A letter, a digit, a dot, an underscore or a dash.
abbrev pub IsNameCode : ℕ → Type 0
IsNameCode c =
    ((b'a' ≤ c) × (c ≤ b'z'))
    ⊎ (((b'A' ≤ c) × (c ≤ b'Z'))
        ⊎ (((b'0' ≤ c) × (c ≤ b'9')) ⊎ ((c ≡ b'.') ⊎ ((c ≡ b'_') ⊎ (c ≡ b'-')))))

repo_codes_iff : (c : ℕ) → (contains_code repo_codes c ≡ true) ↔ IsNameCode c
repo_codes_iff c = (λ h. ground (arith, h), λ h. ground (arith, h))

AllIn-IsNameCode : (t : Text) → AllIn repo_codes t → All IsNameCode t
AllIn-IsNameCode [] h = tt
AllIn-IsNameCode (c ∷ t) (h, hs) = ((repo_codes_iff c).0 h, AllIn-IsNameCode t hs)

IsNameCode-AllIn : (t : Text) → All IsNameCode t → AllIn repo_codes t
IsNameCode-AllIn [] h = tt
IsNameCode-AllIn (c ∷ t) (h, hs) = ((repo_codes_iff c).1 h, IsNameCode-AllIn t hs)

-- A name: at least one character, all of the allowed ones.
pub record IsName (t : Text) : Type 0 where
  pub filled : t ≢ []
  pub allowed : All IsNameCode t

-- An owner and a name, with a slash between them.
pub record IsOwnedName (t : Text) : Type 0 where
  pub owner : Text
  pub name : Text
  pub owner_lem : IsName owner
  pub name_lem : IsName name
  pub split : t ≡ owner ++ b'/' ∷ name

some_of-IsName : (t : Text) → Fits repo_part t → IsName t
some_of-IsName t (fits_both front back (fits_class h) g p) = record {
  filled = λ e. cc;
  allowed = AllIn-IsNameCode t (rw p (h, many-AllIn repo_codes back g));
}

IsName-some_of : (t : Text) → IsName t → Fits repo_part t
IsName-some_of [] h = absurd (h.filled refl)
IsName-some_of (c ∷ t) h = AllIn-some_of repo_codes c t (IsNameCode-AllIn (c ∷ t) h.allowed)

only_slash : (t : Text) → Fits (class ((b'/', b'/') ∷ [])) t → t ≡ b'/' ∷ []
only_slash t (fits_class h) = ground (arith, h)

pattern-IsOwnedName : (t : Text) → Fits repo_pattern t → IsOwnedName t
pattern-IsOwnedName t (fits_both front back f (fits_both slash rest g h q) p) = record {
  owner = front;
  name = rest;
  owner_lem = some_of-IsName front f;
  name_lem = some_of-IsName rest h;
  split = p ∙ ap (λ l. front ++ l) (q ∙ ap (λ l. l ++ rest) (only_slash slash g));
}

IsOwnedName-pattern : (t : Text) → IsOwnedName t → Fits repo_pattern t
IsOwnedName-pattern t h =
    fits_both h.owner (b'/' ∷ h.name) (IsName-some_of h.owner h.owner_lem)
      (fits_both (b'/' ∷ []) h.name (fits_class refl) (IsName-some_of h.name h.name_lem) refl)
      h.split

-- The API takes a text for a repository exactly when it is an owner and a name with a slash between
-- them, each of at least one character and of letters, digits, dots, underscores and dashes only.
pub is_repo_iff : (s : String) → (is_repo s ≡ true) ↔ IsOwnedName (codes s)
unfolding is_repo
is_repo_iff s = (
  λ h. pattern-IsOwnedName (codes s) ((match_string_iff repo_pattern (codes s)).0 h),
  λ h. (match_string_iff repo_pattern (codes s)).1 (IsOwnedName-pattern (codes s) h),
)
