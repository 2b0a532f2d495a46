-- ===== src/Subscription/Rows.antt =====
-- The statements on the table subscriptions, as functions of its rows.
use software_engineering_sch.Base.{
  String, Bool, ◌&&◌, not, List, [], ◌∷◌, ◌++◌, ◌==◌, if◌then◌else◌, exists, update, select, map,
}
use software_engineering_sch.Errors.{plain, Result, ok, err}
use software_engineering_sch.ApiTables.{Subscription}

-- `WHERE email = $1 AND repo = $2`
abbrev pub is_of : String → String → Subscription → Bool
is_of email repo s = s.email == email && s.repo == repo

-- `WHERE token = $1`
abbrev pub has_token : String → Subscription → Bool
has_token token s = s.token == token

-- `WHERE repo = $1 AND confirmed = true`
abbrev pub is_confirmed_for : String → Subscription → Bool
is_confirmed_for repo s = s.repo == repo && s.confirmed

-- `WHERE email = $1 AND repo = $2 AND token = $3 AND confirmed = false`
abbrev pub is_unconfirmed : String → String → String → Subscription → Bool
is_unconfirmed email repo token s = is_of email repo s && s.token == token && not s.confirmed

-- `INSERT … ON CONFLICT (email, repo) DO UPDATE SET last_seen_tag = EXCLUDED.last_seen_tag`. Any
-- other row with the token is a violation of the unique index on it.
unfoldable pub save_row : Subscription → List Subscription → Result (Unit {0}) × List Subscription
save_row s rows =
    if exists (is_of s.email s.repo) rows
    then (
      ok tt,
      update (is_of s.email s.repo) (λ r. record r { last_seen_tag = s.last_seen_tag }) rows,
    )
    else if exists (has_token s.token) rows
    then (
      err (plain "duplicate key value violates unique constraint \"idx_subscriptions_token\""),
      rows,
    )
    else (ok tt, rows ++ s ∷ [])

abbrev pub contains : String → List String → Bool
contains s = exists (λ t. t == s)

-- `DISTINCT`
abbrev pub distinct : List String → List String
distinct [] = []
distinct (s ∷ ss) = let rest = distinct ss in if contains s rest then rest else s ∷ rest

-- `SELECT DISTINCT email … WHERE repo = $1 AND confirmed = true`, in no order that counts
unfoldable pub subscribers : String → List Subscription → List String
subscribers repo rows = distinct (map (λ s. s.email) (select (is_confirmed_for repo) rows))

-- `SELECT email, repo, confirmed, last_seen_tag … WHERE email = $1 AND confirmed = true`: the token
-- is not read.
unfoldable pub subscriptions_of : String → List Subscription → List Subscription
subscriptions_of email rows =
    map {A = Subscription} (λ s. record s { token = "" })
      (select (λ s. s.email == email && s.confirmed) rows)
