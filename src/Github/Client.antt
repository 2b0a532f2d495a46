-- ===== src/Github/Client.antt =====
-- The client of the subscription-api. What GitHub answers to a call is a parameter.
use software_engineering_sch.Base.{ℕ, String, Option, none, some, ◌==◌, eqb, if◌then◌else◌}
use software_engineering_sch.Errors.{
  Error, plain, sentinel, github_not_found, github_api_limit, ◌+++◌, Result, ok, err,
}
use software_engineering_sch.Json.{Bytes, encoded, malformed, Fields, lookup, read_string, and_then}
use software_engineering_sch.Contracts.Codec.{read_object}
use software_engineering_sch.Subscription.Service.{GitHub}

-- A request, with the header Authorization if it is set.
pub record Call : Type 0 where
  pub method : String
  pub url : String
  pub authorization : Option String

pub record Answer : Type 0 where
  pub status : ℕ
  pub body : Bytes

-- The network: an address that is no URL and a failed exchange are errors.
abbrev pub Server : Type 0
Server = Call → Result Answer

pub record HttpClient : Type 0 where
  pub base_url : String
  pub token : String

abbrev pub default_base_url : String
default_base_url = "https://api.github.com"

-- `NewHTTPGitHubClient`
unfoldable pub new_client : (base_url token : String) → HttpClient
new_client base_url token = record {
  base_url = if base_url == "" then default_base_url else base_url;
  token = token;
}

-- `newRequest`
unfoldable pub new_request : HttpClient → (method url : String) → Call
new_request c method url = record {
  method = method;
  url = url;
  authorization = if c.token == "" then none else some ("Bearer " +++ c.token);
}

abbrev read_release : Fields → Option String
read_release fs = read_string (lookup "tag_name" fs)

abbrev or_syntax_error : Option String → Result String
or_syntax_error none = err (plain "json: cannot decode the release")
or_syntax_error (some tag) = ok tag

-- The release of the body, by its field tag_name
unfoldable pub release_tag : Bytes → Result String
release_tag (malformed s) = or_syntax_error none
release_tag (encoded j) = or_syntax_error (and_then (read_object j) read_release)

abbrev pub latest_url : HttpClient → String → String
latest_url c repo = c.base_url +++ "/repos/" +++ repo +++ "/releases/latest"

-- The `switch` on the status: without a release there is no tag. The number of any other status is left
-- out of the message.
unfoldable pub tag_of : (limit : Error) → Answer → Result String
unfolding release_tag
tag_of limit a =
    if eqb a.status 404
    then ok ""
    else if eqb a.status 429
    then err limit
    else if eqb a.status 200
    then release_tag a.body
    else err (plain "github error")

-- The `switch` of `CheckIfRepoExists`
unfoldable pub repo_answer : Answer → Result (Unit {0})
repo_answer a =
    if eqb a.status 200
    then ok tt
    else if eqb a.status 404
    then err (sentinel github_not_found)
    else if eqb a.status 429
    then err (sentinel github_api_limit)
    else err (plain "github error")

abbrev pub answered {ℓ} : {A : Type ℓ} → Result Answer → (Answer → Result A) → Result A
answered (ok a) f = f a
answered (err e) f = err e

unfoldable pub get_latest_tag : Server → HttpClient → String → Result String
unfolding tag_of new_request
get_latest_tag server c repo =
    answered (server (new_request c "GET" (latest_url c repo))) (tag_of (sentinel github_api_limit))

unfoldable pub check_if_repo_exists : Server → HttpClient → String → Result (Unit {0})
unfolding repo_answer new_request
check_if_repo_exists server c repo =
    answered (server (new_request c "HEAD" (c.base_url +++ "/repos/" +++ repo))) repo_answer

-- The client as the service uses it.
unfoldable pub http_github : Server → HttpClient → GitHub
unfolding get_latest_tag check_if_repo_exists
http_github server c = record {
  check_if_repo_exists = check_if_repo_exists server c;
  get_latest_tag = get_latest_tag server c;
}
