-- ===== src/Http/Consent.antt =====
-- Requests one after another: who is subscribed has followed the link that was mailed.
use mathlib.Core.List.{Memᴰ}
use software_engineering_sch.Base.{
  ℕ, String, Option, none, some, true, List, [], ◌∷◌, ◌≡◌, ◌⊎◌, inl, inr, refl, sym, All, All-mem,
  map,
}
use software_engineering_sch.Json.{Bytes}
use software_engineering_sch.Uuid.{Uuid}
use software_engineering_sch.Outbox.Insert.{new_string-Keeps}
use software_engineering_sch.ApiTables.{ApiTables, Subscription}
use software_engineering_sch.Db.{World}
use software_engineering_sch.Db.Keeps.{Holds, Keeps, keeps_rules}
use software_engineering_sch.Subscription.Repository.{get_subscriptions}
use software_engineering_sch.Subscription.Service.{NotificationPublisher, GitHub}
use software_engineering_sch.Subscription.Consent.{
  IsConsented, AreConsented, subscribe-AreConsented, confirm-AreConsented, unsubscribe-AreConsented,
}
use software_engineering_sch.Http.Router.{
  Endpoint, confirm_token, unsubscribe_token, post_subscribe, get_list, Request, Input, bind_input,
  subscribe_input, handle_subscribe, handle_list, handle_confirm, handle_unsubscribe, normalize,
  dispatch, serve,
}

-- The router over requests that come at their times.
unfoldable pub serve_all :
    Uuid
    → NotificationPublisher
    → GitHub
    → (api_key : String) → List (ℕ × Request)
    → World ApiTables
    → World ApiTables
serve_all u publisher github api_key [] w = w
serve_all u publisher github api_key ((t, request) ∷ requests) w =
    serve_all u publisher github api_key requests
      (serve u publisher github api_key request (record w { now = t })).1

module _ (Asked : (email repo token : String) → Type 0) (u : Uuid)
    (publisher : NotificationPublisher) (github : GitHub) where
  list-AreConsented :
      (email : String) → Keeps (AreConsented Asked) (handle_list u publisher github email)
  unfolding handle_list get_subscriptions
  list-AreConsented email = search keeps_rules depth 12

  input-AreConsented :
      (input : Input) → Keeps (AreConsented Asked) (subscribe_input u publisher github input)
  unfolding subscribe_input
  input-AreConsented input = search (keeps_rules, subscribe-AreConsented) depth 12

  body-AreConsented :
      (o : Option Input) (body : Bytes)
      → bind_input body ≡ o
      → Keeps (AreConsented Asked) (handle_subscribe u publisher github body)
  unfolding handle_subscribe
  body-AreConsented none body e = rw (e, handle_subscribe) (search keeps_rules)
  body-AreConsented (some input) body e = rw (e, handle_subscribe) (input-AreConsented input)

  dispatch-AreConsented :
      (api_key : String) (ctx : Option String) (request : Request) (e : Endpoint)
      → ((email repo token : String) → e ≡ confirm_token token → Asked email repo token)
      → Keeps (AreConsented Asked) (dispatch u publisher github api_key ctx request e)
  unfolding dispatch handle_confirm handle_unsubscribe
  dispatch-AreConsented api_key ctx request (confirm_token token) asked =
      search
        (keeps_rules, confirm-AreConsented, λ (email repo : String). asked email repo token refl)
        depth 12
  dispatch-AreConsented api_key ctx request (unsubscribe_token token) asked =
      search (keeps_rules, unsubscribe-AreConsented) depth 12
  dispatch-AreConsented api_key ctx request post_subscribe asked =
      search (keeps_rules, body-AreConsented (bind_input request.body) request.body refl) depth 12
  dispatch-AreConsented api_key ctx request get_list asked =
      search (keeps_rules, list-AreConsented) depth 12

  serve-AreConsented :
      (api_key : String) (request : Request)
      → ((email repo token : String)
          → request.endpoint ≡ confirm_token token
          → Asked email repo token)
      → Keeps (AreConsented Asked) (serve u publisher github api_key request)
  unfolding serve normalize
  serve-AreConsented api_key request asked =
      search (keeps_rules, new_string-Keeps, dispatch-AreConsented, asked) depth 14

  serve_all-AreConsented :
      (api_key : String) (requests : List (ℕ × Request)) (w : World ApiTables)
      → ((email repo token : String)
          → Memᴰ (confirm_token token) (map (λ r. r.1.endpoint) requests)
          → Asked email repo token)
      → Holds (AreConsented Asked) w
      → Holds (AreConsented Asked) (serve_all u publisher github api_key requests w)
  unfolding serve_all
  serve_all-AreConsented api_key [] w asked h = h
  serve_all-AreConsented api_key ((t, request) ∷ requests) w asked h =
      serve_all-AreConsented api_key requests _
        (λ email repo token m. asked email repo token (Memᴰ.tail m))
        ((serve-AreConsented api_key request
            (λ email repo token e. asked email repo token (Memᴰ.head (sym e)))).kept
          (record w { now = t }) h)

-- At first a confirmed row of the address, the repository and the token.
abbrev pub WasConfirmed : List Subscription → (email repo token : String) → Type 0
WasConfirmed rows email repo token =
    (s : Subscription) × Memᴰ s rows
    × (s.confirmed ≡ true)
    × (s.email ≡ email)
    × (s.repo ≡ repo)
    × (s.token ≡ token)

at_first :
    (rows : List Subscription) (Asked : (email repo token : String) → Type 0)
    → ((email repo token : String) → WasConfirmed rows email repo token → Asked email repo token)
    → All (IsConsented Asked) rows
at_first [] Asked h = tt
at_first (s ∷ rows) Asked h = (
  λ c. h s.email s.repo s.token (s, Memᴰ.head refl, c, refl, refl, refl),
  at_first rows Asked λ email repo token was.
      let (x, at, c, e, r, t) = was in h email repo token (x, Memᴰ.tail at, c, e, r, t),
)

-- Whatever requests are served, in any order and at any times, and whichever calls fail: a
-- subscription that is confirmed then was confirmed before, with the same address, repository and
-- token, or one of the requests was for the confirmation link with its token.
pub confirmed_by_link_only :
    (u : Uuid) (publisher : NotificationPublisher) (github : GitHub) (api_key : String)
    (requests : List (ℕ × Request)) (w : World ApiTables) (s : Subscription)
    → w.tx ≡ w.db
    → Memᴰ s (serve_all u publisher github api_key requests w).db.tables.subscriptions
    → s.confirmed ≡ true
    → WasConfirmed w.db.tables.subscriptions s.email s.repo s.token
      ⊎ Memᴰ (confirm_token s.token) (map (λ r. r.1.endpoint) requests)
confirmed_by_link_only u publisher github api_key requests w s idle m c =
    let Asked : (email repo token : String) → Type 0 = λ email repo token.
      WasConfirmed w.db.tables.subscriptions email repo token
      ⊎ Memᴰ (confirm_token token) (map (λ r. r.1.endpoint) requests) in
    let initial : AreConsented Asked w.db = record {
      rows = at_first w.db.tables.subscriptions Asked (λ email repo token was. inl was);
    } in
    let (after, _) =
      serve_all-AreConsented Asked u publisher github api_key requests w
        (λ email repo token asked. inr asked) (initial, rw idle initial) in
    All-mem (IsConsented Asked) _ after.rows m c
