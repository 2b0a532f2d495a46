-- ===== src/Errors.antt =====
-- Go's error values: errors.New, fmt.Errorf with %w, errors.Is, and the consumer's classification
-- (pkg/kafka/errors.go). An error tree keeps the sentinels that `errors.Is` looks for and the
-- message that `Error()` prints.
use Prim.Native.String.{◌++◌ as append}
use software_engineering_sch.Base.{String, Bool, true, false, ◌||◌, Option, none, some}

-- The error variables that some code compares with `errors.Is`.
pub data Sentinel : Type 0 where
  no_rows : Sentinel  -- pgx.ErrNoRows
  already_subscribed repo_not_found github_rate_limit github_unavailable token_not_found
        confirmation_unavailable :
      Sentinel
  github_not_found github_api_limit : Sentinel
  non_retryable retryable : Sentinel

pub Sentinel-discrete : Discrete Sentinel
Sentinel-discrete = hlevel

abbrev pub same : Sentinel → Sentinel → Bool
same no_rows no_rows = true
same already_subscribed already_subscribed = true
same repo_not_found repo_not_found = true
same github_rate_limit github_rate_limit = true
same github_unavailable github_unavailable = true
same token_not_found token_not_found = true
same confirmation_unavailable confirmation_unavailable = true
same github_not_found github_not_found = true
same github_api_limit github_api_limit = true
same non_retryable non_retryable = true
same retryable retryable = true
same _ _ = false

-- The texts of the error variables.
abbrev pub sentinel_text : Sentinel → String
sentinel_text no_rows = "no rows in result set"
sentinel_text already_subscribed = "already subscribed"
sentinel_text repo_not_found = "repository not found"
sentinel_text github_rate_limit = "github rate limit exceeded"
sentinel_text github_unavailable = "github unavailable"
sentinel_text token_not_found = "token not found"
sentinel_text confirmation_unavailable = "confirmation notification unavailable"
sentinel_text github_not_found = "repository not found"
sentinel_text github_api_limit = "github rate limit exceeded"
sentinel_text non_retryable = "non-retryable consumer error"
sentinel_text retryable = "retryable consumer error"

pub data Error : Type 0 where
  sentinel : Sentinel → Error
  plain : String → Error  -- errors.New or fmt.Errorf with no %w
  wrap : String → Error → Error  -- fmt.Errorf("label: %w", err)
  join : Error → String → Error → Error  -- fmt.Errorf("%w<separator>%w", a, b)
  classified : Sentinel → Error → Error  -- classifiedError{kind, err}

infixl 65 ◌+++◌
abbrev pub ◌+++◌ : String → String → String
s +++ t = append s t

-- `err.Error()`
unfoldable pub message : Error → String
message (sentinel s) = sentinel_text s
message (plain s) = s
message (wrap label e) = label +++ ": " +++ message e
message (join a separator b) = message a +++ separator +++ message b
message (classified kind e) = message e

-- `errors.Is(err, target)`: the walk over the wrapped errors; a classified error answers to its
-- kind by its own `Is`, and else is unwrapped.
unfoldable pub is : Error → Sentinel → Bool
is (sentinel s) target = same s target
is (plain s) target = false
is (wrap label e) target = is e target
is (join a separator b) target = is a target || is b target
is (classified kind e) target = same kind target || is e target

-- `classify`: no error stays no error.
unfoldable pub classify : Option Error → Sentinel → Option Error
classify none kind = none
classify (some e) kind = some (classified kind e)

unfoldable pub mark_non_retryable : Option Error → Option Error
unfolding classify
mark_non_retryable e = classify e non_retryable

unfoldable pub mark_retryable : Option Error → Option Error
unfolding classify
mark_retryable e = classify e retryable

-- `errors.Is(err, target)` where `err` may be nil.
abbrev pub is_error : Option Error → Sentinel → Bool
is_error none target = false
is_error (some e) target = is e target

-- The outcome of a fallible call.
pub data Result {ℓ} (A : Type ℓ) : Type ℓ where
  ok : A → Result A
  err : Error → Result A

abbrev pub to_error {ℓ} : {A : Type ℓ} → Result A → Option Error
to_error (ok a) = none
to_error (err e) = some e
