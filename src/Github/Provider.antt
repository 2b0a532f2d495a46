-- ===== src/Github/Provider.antt =====
-- The scanner's provider of tags, and the cache in front of it. Redis is a parameter.
use software_engineering_sch.Base.{
  ℕ, String, Option, none, some, ◌==◌, if◌then◌else◌, ℤ, positive_or,
}
use software_engineering_sch.Errors.{plain, ◌+++◌, Result, ok, err}
use software_engineering_sch.Scanner.Service.{ReleaseProvider}
use software_engineering_sch.Github.Client.{
  Server, HttpClient, new_request, latest_url, tag_of, answered,
}

-- `HTTPReleaseProvider.GetLatestTag`
unfoldable pub http_provider : Server → HttpClient → ReleaseProvider
http_provider server c repo =
    answered (server (new_request c "GET" (latest_url c repo)))
      (tag_of (plain "github rate limit exceeded"))

-- The interface `Cache`, over what it keeps.
pub record Cache (S : Type 0) : Type 0 where
  pub get : String → S → Result String
  pub set : (key value : String) → (ttl : ℕ) → S → Result (Unit {0}) × S

abbrev pub cache_key : String → String
cache_key repo = "github:latest_tag:" +++ repo

-- `NewCachedReleaseProvider`: an unset time to live is replaced.
unfoldable pub new_ttl : ℤ → ℕ
new_ttl ttl = positive_or ttl 45_000_000_000

module _ {S : Type 0} (cache : Cache S) (next : ReleaseProvider) (ttl : ℕ) where
  -- An error of `Set` is logged.
  unfoldable pub store_tag : String → Result String → S → Result String × S
  store_tag repo (err e) s = (err e, s)
  store_tag repo (ok tag) s =
      if tag == "" then (ok tag, s) else (ok tag, (cache.set (cache_key repo) tag ttl s).1)

  -- By what the cache has; an error of `Get` is logged.
  unfoldable pub with_cached : String → Result String → S → Result String × S
  unfolding store_tag
  with_cached repo (err e) s = store_tag repo (next repo) s
  with_cached repo (ok cached) s =
      if cached == "" then store_tag repo (next repo) s else (ok cached, s)

-- `CachedReleaseProvider.GetLatestTag`
unfoldable pub cached_provider :
    {S : Type 0} → Option (Cache S) → ReleaseProvider → ℕ → String → S → Result String × S
unfolding with_cached
cached_provider none next ttl repo s = (next repo, s)
cached_provider (some cache) next ttl repo s =
    with_cached cache next ttl repo (cache.get (cache_key repo) s) s
