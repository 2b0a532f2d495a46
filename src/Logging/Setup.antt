-- ===== src/Logging/Setup.antt =====
-- `Configure` (pkg/logger/setup.go). The levels of logrus and the opening of a file are parameters.
use software_engineering_sch.Base.{String, Bool, Option, none, some, ◌==◌, if◌then◌else◌}
use software_engineering_sch.Errors.{wrap, ◌+++◌, Result, ok, err}
use software_engineering_sch.Logging.Hook.{Hook, new_hook}

abbrev default_vector_url : String
default_vector_url = "http://vector:8686"

-- The buffer's size is `defaultVectorBufferSize`.
pub record VectorHook : Type 0 where
  pub url : String
  pub hook : Hook

-- What is set up: the level, the file beside the standard output, and the hook.
pub record Setup (Level File : Type 0) : Type 0 where
  pub level : Level
  pub file : Option File
  pub vector : Option VectorHook

module _ {Level File : Type 0} (parse_level : String → Result Level)
    (open_file : String → Result File) where
  unfoldable open_log : String → Result (Option File)
  open_log name =
      if name == ""
      then ok none
      else elim (open_file name) [ ok file ↦ ok (some file) | err e ↦ err (wrap "open log file" e) ]

  unfoldable vector_hook : Bool → String → Option VectorHook
  vector_hook enabled url =
      if enabled
      then some
          (record { url = if url == "" then default_vector_url else url; hook = new_hook 1000 })
      else none

  unfoldable configure :
      (level : String) → Bool → (vector_url log_file : String) → Result (Setup Level File)
  configure level vector_enabled vector_url log_file = elim (parse_level level) [
    | err e ↦ err (wrap ("invalid log level \"" +++ level +++ "\"") e)
    | ok parsed ↦ elim (open_log log_file) [
      | err e ↦ err e
      | ok file ↦
          ok
            (record { level = parsed; file = file; vector = vector_hook vector_enabled vector_url })
    ]
  ]
