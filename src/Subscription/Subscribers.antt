-- ===== src/Subscription/Subscribers.antt =====
-- `GetSubscribers` and the expansion of a release: whom the notifications go to.
use mathlib.Core.List.{Memᴰ}
use mathlib.Core.List.Permᴰ
use software_engineering_sch.Base.{
  Bool, false, ◌&&◌, String, true, List, [], ◌∷◌, ◌≡◌, ◌↔◌, inl, inr, refl, sym, ap, ◌∙◌, arith,
  map, select, HasDistinctKeys, mem-perm, perm-HasDistinctKeys, Bool-cases, Option-cases, eq_iff,
  ◌==◌,
}
use software_engineering_sch.Contracts.{Envelope, ReleaseDetectedPayload}
use software_engineering_sch.Uuid.{Uuid}
use software_engineering_sch.ApiTables.{ApiTables, Subscription}
use software_engineering_sch.Db.{World, fault_of, rest_of, call, pool_query, wrapping, ◌>>=◌}
use software_engineering_sch.Subscription.Rows.{distinct, contains, subscribers, is_confirmed_for}
use software_engineering_sch.Subscription.Repository.{get_subscribers}
use software_engineering_sch.Subscription.Publisher.{Hashing, expand}
use software_engineering_sch.Subscription.Expansion.{
  IsFresh, IsExpanded, expands, nothing_added, Notifies-nil,
}

mem_of_contains : (s : String) (ss : List String) → contains s ss ≡ true → Memᴰ s ss
mem_of_contains s [] h = cc
mem_of_contains s (t ∷ ts) h = elim (Bool-cases (t == s)) [
  | inl same ↦ Memᴰ.head (sym ((eq_iff t s).0 same))
  | inr other ↦ Memᴰ.tail (mem_of_contains s ts (ground (arith, other)))
]

distinct-HasDistinctKeys : (ss : List String) → HasDistinctKeys (λ s. s) (distinct ss)
distinct-HasDistinctKeys [] = tt
distinct-HasDistinctKeys (s ∷ ss) = elim (Bool-cases (contains s (distinct ss))) [
  | inl known ↦ rw known (distinct-HasDistinctKeys ss)
  | inr new ↦ rw new (new, distinct-HasDistinctKeys ss)
]

-- `DISTINCT` keeps each of the texts, and brings none in.
mem-distinct : (s : String) (ss : List String) → Memᴰ s (distinct ss) ↔ Memᴰ s ss
mem-distinct s [] = (λ m. m, λ m. m)
mem-distinct s (t ∷ ts) = elim (Bool-cases (contains t (distinct ts))) [
  | inl known ↦ rw known (
    λ m. Memᴰ.tail ((mem-distinct s ts).0 m),
    λ m. elim m [
      | Memᴰ.head e ↦ rw e (mem_of_contains t (distinct ts) known)
      | Memᴰ.tail later ↦ (mem-distinct s ts).1 later
    ],
  )
  | inr new ↦ rw new (
    λ m. elim m [
      | Memᴰ.head e ↦ Memᴰ.head e
      | Memᴰ.tail later ↦ Memᴰ.tail ((mem-distinct s ts).0 later)
    ],
    λ m. elim m [
      | Memᴰ.head e ↦ Memᴰ.head e
      | Memᴰ.tail later ↦ Memᴰ.tail ((mem-distinct s ts).1 later)
    ],
  )
]

-- The addresses with a confirmed subscription of the repository.
abbrev pub Subscribes : String → List Subscription → String → Type 0
Subscribes repo rows email =
    (s : Subscription) × Memᴰ s rows × (s.email ≡ email) × (s.repo ≡ repo) × (s.confirmed ≡ true)

-- The same by the condition of the statement.
abbrev IsFound : String → List Subscription → String → Type 0
IsFound repo rows email =
    (s : Subscription) × Memᴰ s rows × (s.email ≡ email) × (is_confirmed_for repo s ≡ true)

both : (a b : Bool) → (a && b) ≡ true → (a ≡ true) × (b ≡ true)
both true b h = (refl, h)
both false b h = cc h

IsFound-Subscribes :
    (repo email : String) (rows : List Subscription)
    → IsFound repo rows email ↔ Subscribes repo rows email
IsFound-Subscribes repo email rows = (
  λ h.
      let (s, at, same, chosen) = h in
      let (of_repo, confirmed) = both (s.repo == repo) s.confirmed chosen in
      (s, at, same, (eq_iff s.repo repo).0 of_repo, confirmed),
  λ h.
      let (s, at, same, of_repo, confirmed) = h in
      (s, at, same, rw ((eq_iff s.repo repo).1 of_repo) confirmed),
)

mem-emails :
    (repo email : String) (rows : List Subscription)
    → Memᴰ email (map (λ s. s.email) (select (is_confirmed_for repo) rows))
      ↔ IsFound repo rows email
mem-emails repo email [] = (λ m. elim m [ ], λ x. elim x.1 [ ])
mem-emails repo email (r ∷ rows) =
    let (there, back) = mem-emails repo email rows in
    elim (Bool-cases (is_confirmed_for repo r)) [
      | inl chosen ↦ rw chosen (
        λ m. elim m [
          | Memᴰ.head e ↦ (r, Memᴰ.head refl, sym e, chosen)
          | Memᴰ.tail later ↦ (let (s, at, same, c) = there later in (s, Memᴰ.tail at, same, c))
        ],
        λ h. elim h.1 [
          | Memᴰ.head e ↦ Memᴰ.head (sym h.2 ∙ ap (λ x. x.email) e)
          | Memᴰ.tail later ↦ Memᴰ.tail (back (h.0, later, h.2, h.3))
        ],
      )
      | inr passed ↦ rw passed (
        λ m. let (s, at, same, c) = there m in (s, Memᴰ.tail at, same, c),
        λ h. elim h.1 [
          | Memᴰ.head e ↦ cc (passed, h.3, ap (is_confirmed_for repo) e)
          | Memᴰ.tail later ↦ back (h.0, later, h.2, h.3)
        ],
      )
    ]

subscribers_iff :
    (repo email : String) (rows : List Subscription)
    → Memᴰ email (subscribers repo rows) ↔ Subscribes repo rows email
unfolding subscribers
subscribers_iff repo email rows =
    let (to, from) =
      mem-distinct email (map (λ s. s.email) (select (is_confirmed_for repo) rows)) in
    let (there, back) = mem-emails repo email rows in
    let (spell, read) = IsFound-Subscribes repo email rows in
    (λ m. spell (there (to m)), λ h. from (back (read h)))

subscribers-HasDistinctKeys :
    (repo : String) (rows : List Subscription)
    → HasDistinctKeys (λ email. email) (subscribers repo rows)
unfolding subscribers
subscribers-HasDistinctKeys repo rows =
    distinct-HasDistinctKeys (map (λ s. s.email) (select (is_confirmed_for repo) rows))

listed_iff :
    (w : World ApiTables) (email repo : String)
    → Memᴰ email (w.orders.listing.order w.now (subscribers repo w.db.tables.subscriptions))
      ↔ Subscribes repo w.db.tables.subscriptions email
listed_iff w email repo =
    let all = w.orders.listing.permutes w.now (subscribers repo w.db.tables.subscriptions) in
    let (read, found) = subscribers_iff repo email w.db.tables.subscriptions in
    (λ m. read (mem-perm (Permᴰ.symm all) m), λ h. mem-perm all (found h))

-- A release, when no UUID that is still to be generated is in use, whichever calls fail: the outbox
-- gains one notification of it for each of the first subscribers, in the order in which the database
-- lists them and under the key of the address, and for all of them unless there is an error, and
-- nothing else is changed; the subscribers are the addresses with a confirmed subscription of the
-- repository, each once.
pub release_reaches_subscribers :
    (hashing : Hashing) (u : Uuid) (event : Envelope ReleaseDetectedPayload) (w : World ApiTables)
    → IsFresh u w.ids w.db.outbox
    → let payload = event.payload in
      let rows = w.db.tables.subscriptions in
      let emails = w.orders.listing.order w.now (subscribers payload.repo rows) in
      IsExpanded hashing u payload.repo payload.tag event.correlation_id emails w
        (expand hashing u event w)
      × HasDistinctKeys (λ email. email) emails
      × ((email : String) → Memᴰ email emails ↔ Subscribes payload.repo rows email)
unfolding expand get_subscribers pool_query call wrapping ◌>>=◌
release_reaches_subscribers hashing u event w fresh = (
  elim (Option-cases (fault_of w.faults)) [
    | inl reached ↦ rw reached (
        expands hashing u event.payload.repo event.payload.tag event.correlation_id
          (w.orders.listing.order w.now (subscribers event.payload.repo w.db.tables.subscriptions))
          (record w { faults = rest_of w.faults }) fresh)
    | inr (e, failed) ↦ rw failed (
      [],
      nothing_added w.db,
      Notifies-nil hashing u event.payload.repo event.payload.tag event.correlation_id _,
      λ h. cc h,
    )
  ],
  perm-HasDistinctKeys (λ email. email)
      (w.orders.listing.permutes w.now (subscribers event.payload.repo w.db.tables.subscriptions))
      (subscribers-HasDistinctKeys event.payload.repo w.db.tables.subscriptions),
  λ email. listed_iff w email event.payload.repo,
)
