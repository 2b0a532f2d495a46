-- ===== src/Scanner/Releases.antt =====
-- Recording a release: each release of a repository is announced once.
use software_engineering_sch.Base.{
  ℕ, String, none, some, true, false, [], ◌∷◌, ◌++◌, ◌≡◌, refl, arith, exists, update,
}
use software_engineering_sch.Errors.{ok}
use software_engineering_sch.Contracts.{
  Envelope, ReleaseDetectedPayload, event_release_detected, topic_release_events,
}
use software_engineering_sch.Contracts.Codec.{release_codec, marshal, unmarshal}
use software_engineering_sch.Contracts.Codec.RoundTrip.{unmarshal-marshal}
use software_engineering_sch.Uuid.{Uuid, new_string}
use software_engineering_sch.Outbox.Event.{OutboxEvent}
use software_engineering_sch.Outbox.Store.{new_event, has_id, insert_tx, add_event}
use software_engineering_sch.Db.{
  World, Database, eq-calm, calm, pure, gets, begin, commit, call, call_tx, exec, wrapping, ◌>>=◌,
}
use software_engineering_sch.Scanner.Repository.{
  ScannerTables, watches, is_release, add_release, announce, build_release_detected_event,
  mark_release_detected,
}

-- The event tells the subscription-api of the release.
pub record IsReleaseEvent (repo tag correlation_id : String) (e : OutboxEvent) : Type 0 where
  pub topic : e.topic ≡ topic_release_events
  pub key : e.kafka_key ≡ repo
  pub correlated : e.correlation_id ≡ correlation_id
  pub unsent : e.published_at ≡ none
  pub told : Envelope ReleaseDetectedPayload
  pub decoded : unmarshal ⦃c = release_codec⦄ e.payload ≡ some told
  pub typed : told.event_type ≡ event_release_detected
  pub repo_told : told.payload.repo ≡ repo
  pub tag_told : told.payload.tag ≡ tag

-- The database with the release and its event added, and the tag noted in the watchlist.
abbrev pub Announced :
    (repo tag : String) → ℕ → OutboxEvent → Database ScannerTables → Database ScannerTables
Announced repo tag now e d = record {
  outbox = d.outbox ++ e ∷ [];
  tables = record {
    watchlist = update (watches repo) (λ r. record r { last_seen_tag = tag }) d.tables.watchlist;
    releases = d.tables.releases ++ record { repo = repo; tag = tag; detected_at = now } ∷ [];
  };
}

module _ (u : Uuid) (repo tag correlation_id : String) (w : World ScannerTables) where
  unfoldable release_row : OutboxEvent
  release_row =
      let id = u.generate w.ids in
      let event = build_release_detected_event repo tag id correlation_id w.now in
      new_event id event.event_type event.occurred_at event.source correlation_id
        topic_release_events repo (marshal event)

  release_row-IsReleaseEvent : IsReleaseEvent repo tag correlation_id release_row
  unfolding release_row build_release_detected_event
  release_row-IsReleaseEvent = record {
    topic = refl;
    key = refl;
    correlated = refl;
    unsent = refl;
    told = _;
    decoded = unmarshal-marshal _;
    typed = refl;
    repo_told = refl;
    tag_told = refl;
  }

  announced :
      exists (has_id (u.generate w.ids)) w.db.outbox ≡ false
      → exists (is_release repo tag) w.db.tables.releases ≡ false
      → ((mark_release_detected u repo tag correlation_id (calm w)).0 ≡ ok true)
        × ((mark_release_detected u repo tag correlation_id (calm w)).1.db
            ≡ Announced repo tag w.now release_row w.db)
  unfolding mark_release_detected announce add_release new_string gets insert_tx begin commit call
      call_tx exec wrapping pure ◌>>=◌ add_event release_row build_release_detected_event marshal
  announced fresh new = rw new (ground (arith, fresh))

-- A release that is not recorded, when no call fails: the answer is that it is new, and exactly the
-- release, its tag in the watchlist and one event are written, which tells of the release under the
-- repository's key. The hypothesis on the outbox is that the next generated UUID is not in use.
pub new_release_announced :
    (u : Uuid) (repo tag correlation_id : String) (w : World ScannerTables)
    → w.faults ≡ []
    → exists (has_id (u.generate w.ids)) w.db.outbox ≡ false
    → exists (is_release repo tag) w.db.tables.releases ≡ false
    → ((mark_release_detected u repo tag correlation_id w).0 ≡ ok true)
      × ((e : OutboxEvent) × IsReleaseEvent repo tag correlation_id e
          × ((mark_release_detected u repo tag correlation_id w).1.db
              ≡ Announced repo tag w.now e w.db))
new_release_announced u repo tag correlation_id w reachable fresh new =
    let (done, after) = announced u repo tag correlation_id w fresh new in
    rw (eq-calm w reachable)
      (done, (_, release_row-IsReleaseEvent u repo tag correlation_id w, after))

-- A release that is recorded, when no call fails: the answer is that it is not new, and nothing is
-- written, so that no release is announced twice.
known_release_silent :
    (u : Uuid) (repo tag correlation_id : String) (w : World ScannerTables)
    → w.faults ≡ []
    → exists (is_release repo tag) w.db.tables.releases ≡ true
    → ((mark_release_detected u repo tag correlation_id w).0 ≡ ok false)
      × ((mark_release_detected u repo tag correlation_id w).1.db ≡ w.db)
unfolding mark_release_detected add_release begin commit call call_tx exec wrapping pure ◌>>=◌
known_release_silent u repo tag correlation_id w reachable known =
    rw (eq-calm w reachable, known) (refl, refl)
