-- ===== src/Examples/Followed.antt =====
-- Examples for who is subscribed, and for whom a release reaches.
use mathlib.Core.List.{Memᴰ}
use software_engineering_sch.Base.{
  ℕ, String, none, true, [], ◌∷◌, map, ◌==◌, if◌then◌else◌, Bool-cases, eq_iff, ◌≡◌, ◌⊎◌, ◌↔◌, inl,
  inr, refl, sym, HasDistinctKeys, minute,
}
use software_engineering_sch.Errors.{plain, Result, ok, err}
use software_engineering_sch.Json.{malformed}
use software_engineering_sch.Contracts.{Envelope, ReleaseDetectedPayload}
use software_engineering_sch.Contracts.Codec.{marshal}
use software_engineering_sch.Uuid.{new_string}
use software_engineering_sch.Outbox.Store.{insert_tx}
use software_engineering_sch.ApiTables.{ApiTables, Subscription}
use software_engineering_sch.Db.{
  World, begin, commit, call, call_tx, query, query_row, exec, try, pure, lift, wrapping, gets,
  ◌>>=◌,
}
use software_engineering_sch.Scanner.Service.{ReleaseProvider}
use software_engineering_sch.Subscription.Rows.{subscribers}
use software_engineering_sch.Subscription.Publisher.{expand}
use software_engineering_sch.Subscription.Expansion.{IsExpanded}
use software_engineering_sch.Subscription.Subscribers.{Subscribes, release_reaches_subscribers}
use software_engineering_sch.Text.Derivative.{match_string}
use software_engineering_sch.Subscription.Repository.{
  confirm_subscription_by_token, request_repo_watch_saga, insert_repo_watch_saga_request,
}
use software_engineering_sch.Subscription.Service.{confirm}
use software_engineering_sch.Http.Patterns.{is_request_id}
use software_engineering_sch.Http.Router.{
  confirm_token, Request, handle_confirm, normalize, dispatch, serve,
}
use software_engineering_sch.Http.Consent.{WasConfirmed, serve_all, confirmed_by_link_only}
use software_engineering_sch.Github.Provider.{Cache, cache_key}
use software_engineering_sch.Github.Caching.{IsStore, ask_all, caching_transparent}
use software_engineering_sch.Examples.Values.{uuid, world, go_repo, ann, ann_tables}
use software_engineering_sch.Examples.Writes.{github, heard}
use software_engineering_sch.Examples.Confirmations.{hashing}

abbrev confirmed_ann : Subscription
confirmed_ann = record ann { confirmed = true }

-- Two confirmed rows of the same address and repository, beside one that is not confirmed.
abbrev pub followers : World ApiTables
followers =
    world
      (record {
        subscriptions =
            confirmed_ann ∷ record ann { email = "bob@example.com" } ∷ confirmed_ann ∷ [];
        sagas = [];
      })
      []

abbrev pub release : Envelope ReleaseDetectedPayload
release = record {
  event_id = "release-1";
  event_type = "ReleaseDetected";
  occurred_at = 7;
  source = "scanner-service";
  correlation_id = "release-1";
  not_before = none;
  payload = record { repo = go_repo; tag = "v2" };
}

release_reaches_subscribers_example :
    let emails = subscribers go_repo followers.db.tables.subscriptions in
    IsExpanded hashing uuid go_repo "v2" "release-1" emails followers
      (expand hashing uuid release followers)
    × HasDistinctKeys (λ email. email) emails
    × ((email : String)
        → Memᴰ email emails ↔ Subscribes go_repo followers.db.tables.subscriptions email)
release_reaches_subscribers_example =
    release_reaches_subscribers hashing uuid release followers (λ n later. refl)

abbrev link : Request
link = record {
  endpoint = confirm_token "token-1";
  api_key = "";
  request_id = "r-1";
  email = "";
  body = malformed "";
}

abbrev unconfirmed : World ApiTables
unconfirmed = world ann_tables []

confirmed_ann-mem :
    Memᴰ confirmed_ann
      (serve_all uuid heard github "key" ((minute, link) ∷ []) unconfirmed).db.tables.subscriptions
unfolding serve_all serve normalize dispatch handle_confirm is_request_id match_string confirm
    confirm_subscription_by_token request_repo_watch_saga insert_repo_watch_saga_request new_string
    insert_tx marshal begin commit call call_tx query query_row exec try pure lift wrapping gets
    ◌>>=◌
confirmed_ann-mem = Memᴰ.head refl

confirmed_by_link_only_example :
    WasConfirmed unconfirmed.db.tables.subscriptions "ann@example.com" go_repo "token-1"
    ⊎ Memᴰ (confirm_token "token-1") (map (λ (r : ℕ × Request). r.1.endpoint) ((minute, link) ∷ []))
confirmed_by_link_only_example =
    confirmed_by_link_only uuid heard github "key" ((minute, link) ∷ []) unconfirmed confirmed_ann
      refl confirmed_ann-mem refl

-- A store of one key at most, in which nothing expires.
abbrev Slot : Type 0
Slot = String × String

abbrev get : String → Slot → Result String
get key s = if s.0 == key then ok s.1 else err (plain "redis: nil")

abbrev slot : Cache Slot
slot = record { get = get; set = λ key value ttl s. (ok tt, (key, value)) }

slot-IsStore : IsStore slot (λ s. s)
slot-IsStore = record {
  sets = λ key other value v ttl s h. elim (Bool-cases (key == other)) [
    | inl same ↦ rw same (inr (sym ((eq_iff key other).0 same), inr refl))
    | inr different ↦ rw different (inl tt)
  ];
  waits = λ key v s h. h;
}

abbrev releases : ReleaseProvider
releases repo = if repo == go_repo then ok "v2" else err (plain "not found")

caching_transparent_example :
    (ask_all slot (λ s. s) releases 45 (go_repo ∷ go_repo ∷ "a/b" ∷ []) ("", "")).0
    ≡ map releases (go_repo ∷ go_repo ∷ "a/b" ∷ [])
caching_transparent_example =
    caching_transparent slot (λ s. s) releases 45 (go_repo ∷ go_repo ∷ "a/b" ∷ []) ("", "")
      slot-IsStore
      λ repo tag at. elim (Bool-cases ("" == cache_key repo)) [
        | inl same ↦ inl (cc (simp same at at))
        | inr other ↦ cc (simp other at at)
      ]
