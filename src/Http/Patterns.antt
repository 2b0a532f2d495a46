-- ===== src/Http/Patterns.antt =====
-- The patterns that addresses, repositories and request ids are checked with.
use software_engineering_sch.Base.{ℕ, String, [], ◌∷◌, Bool}
use software_engineering_sch.Text.Codes.{Spans, codes}
use software_engineering_sch.Text.Regex.{Regex, class, both, some_of, at_least, at_most}
use software_engineering_sch.Text.Derivative.{match_string}

abbrev letters : Spans
letters = (b'a', b'z') ∷ (b'A', b'Z') ∷ []

abbrev alphanumeric : Spans
alphanumeric = (b'a', b'z') ∷ (b'A', b'Z') ∷ (b'0', b'9') ∷ []

abbrev one_of : ℕ → Regex
one_of c = class ((c, c) ∷ [])

-- `[a-zA-Z0-9._-]`
abbrev pub repo_codes : Spans
repo_codes =
    (b'a', b'z') ∷ (b'A', b'Z') ∷ (b'0', b'9') ∷ (b'.', b'.') ∷ (b'_', b'_') ∷ (b'-', b'-') ∷ []

abbrev pub repo_part : Regex
repo_part = some_of (class repo_codes)

-- `^[a-zA-Z0-9._-]+/[a-zA-Z0-9._-]+$`
abbrev pub repo_pattern : Regex
repo_pattern = both repo_part (both (one_of b'/') repo_part)

-- `^[a-zA-Z0-9._%+\-]+@[a-zA-Z0-9.\-]+\.[a-zA-Z]{2,}$`
abbrev pub email_pattern : Regex
email_pattern =
    both
      (some_of (
        class (
          (b'a', b'z')
          ∷ (b'A', b'Z')
          ∷ (b'0', b'9')
          ∷ (b'.', b'.')
          ∷ (b'_', b'_')
          ∷ (b'%', b'%')
          ∷ (b'+', b'+')
          ∷ (b'-', b'-')
          ∷ [])))
      (both (one_of b'@') (
        both
          (some_of
            (class ((b'a', b'z') ∷ (b'A', b'Z') ∷ (b'0', b'9') ∷ (b'.', b'.') ∷ (b'-', b'-') ∷ [])))
          (both (one_of b'.') (at_least 2 (class letters)))))

-- `^[A-Za-z0-9._:-]{1,128}$`
abbrev pub request_id_pattern : Regex
request_id_pattern =
    let c : Regex = class (
      (b'A', b'Z')
      ∷ (b'a', b'z')
      ∷ (b'0', b'9')
      ∷ (b'.', b'.')
      ∷ (b'_', b'_')
      ∷ (b':', b':')
      ∷ (b'-', b'-')
      ∷ []) in
    both c (at_most 127 c)

unfoldable pub is_email : String → Bool
is_email s = match_string email_pattern (codes s)

unfoldable pub is_repo : String → Bool
is_repo s = match_string repo_pattern (codes s)

unfoldable pub is_request_id : String → Bool
is_request_id s = match_string request_id_pattern (codes s)
