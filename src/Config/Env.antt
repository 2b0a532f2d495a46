-- ===== src/Config/Env.antt =====
-- The values of environment variables (pkg/env/env.go). Go's parsers of texts are parameters.
use software_engineering_sch.Base.{
  String, List, [], ◌∷◌, Bool, Option, none, some, ◌==◌, if◌then◌else◌, ℤ,
}

-- `os.LookupEnv`
abbrev pub Variables : Type 0
Variables = String → Option String

-- `strconv.ParseBool`, `strconv.Atoi`, `time.ParseDuration`, `strings.Split` at commas and
-- `strings.TrimSpace`; what is none is an error of the parser.
pub record Parsers : Type 0 where
  pub parse_bool : String → Option Bool
  pub atoi : String → Option ℤ
  pub parse_duration : String → Option ℤ
  pub split_commas : String → List String
  pub trim_space : String → String

abbrev value_or : {A : Type 0} → A → Option A → A
value_or fallback none = fallback
value_or fallback (some value) = value

abbrev parsed_or : {A : Type 0} → (String → Option A) → A → Option String → A
parsed_or parse fallback none = fallback
parsed_or parse fallback (some raw) = value_or fallback (parse raw)

unfoldable pub string : Variables → String → String → String
string env key fallback = value_or fallback (env key)

module _ (p : Parsers) (env : Variables) where
  unfoldable pub bool : String → Bool → Bool
  bool key fallback = parsed_or p.parse_bool fallback (env key)

  unfoldable pub int : String → ℤ → ℤ
  int key fallback = parsed_or p.atoi fallback (env key)

  abbrev trimmed_values : List String → List String
  trimmed_values [] = []
  trimmed_values (part ∷ parts) =
      let value = p.trim_space part in
      let values = trimmed_values parts in if value == "" then values else value ∷ values

  unfoldable pub csv : String → String → List String
  csv key fallback = trimmed_values (p.split_commas (string env key fallback))

  unfoldable pub duration : String → ℤ → ℤ
  duration key fallback = parsed_or p.parse_duration fallback (env key)

  abbrev with_parsed : Option ℤ → List ℤ → List ℤ
  with_parsed none values = values
  with_parsed (some value) values = value ∷ values

  abbrev parsed_durations : List String → List ℤ
  parsed_durations [] = []
  parsed_durations (part ∷ parts) =
      with_parsed (p.parse_duration (p.trim_space part)) (parsed_durations parts)

  abbrev unless_empty : List ℤ → List ℤ → List ℤ
  unless_empty fallback [] = fallback
  unless_empty fallback (value ∷ values) = value ∷ values

  abbrev durations_or : List ℤ → Option String → List ℤ
  durations_or fallback none = fallback
  durations_or fallback (some raw) = unless_empty fallback (parsed_durations (p.split_commas raw))

  unfoldable pub duration_list : String → List ℤ → List ℤ
  duration_list key fallback = durations_or fallback (env key)
