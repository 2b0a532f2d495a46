-- ===== src/Workers/Requests.antt =====
-- The request that a confirmation writes, in the orchestrator.
use software_engineering_sch.Base.{
  String, some, true, false, [], ◌≡◌, ◌≢◌, refl, sym, ap, ◌∙◌, exists,
}
use software_engineering_sch.Errors.{ok}
use software_engineering_sch.Contracts.{Envelope, RepoWatchSagaPayload}
use software_engineering_sch.Contracts.Codec.{saga_codec, unmarshal}
use software_engineering_sch.Json.{Bytes}
use software_engineering_sch.Outbox.Event.{OutboxEvent}
use software_engineering_sch.Outbox.Store.{has_id}
use software_engineering_sch.Uuid.{Uuid}
use software_engineering_sch.ApiTables.{ApiTables}
use software_engineering_sch.Db.{World, lift, ◌>>=◌}
use software_engineering_sch.Subscription.Confirm.{IsWatchRequest}
use software_engineering_sch.Watchsaga.Rules.{command_event_type, has_saga_id}
use software_engineering_sch.Watchsaga.Orchestrator.{Orchestrator, handle_request}
use software_engineering_sch.Watchsaga.Requests.{
  IsAccepted, first_attempt, IsCommandOf, DbAfter, request_starts_saga,
}
use software_engineering_sch.Workers.Handlers.{handle_saga_request}

-- The value of a message that asks for a saga, when it is decoded.
handled :
    (u : Uuid) (o : Orchestrator) (value : Bytes) (event : Envelope RepoWatchSagaPayload)
    (w : World ApiTables)
    → unmarshal value ≡ some event
    → handle_saga_request u o value w ≡ handle_request u o event w
unfolding handle_saga_request lift ◌>>=◌
handled u o value event w read = rw (read, handle_saga_request) refl

-- An event that asks for a saga with an action on a repository, as a confirmation or an unsubscription
-- writes it: when the orchestrator is given its payload, the action has a command, the event's id is
-- a canonical UUID of no saga yet, the repository is not empty, no call fails and the next generated
-- UUID is not in use, then exactly that saga is added, under the event's id, and exactly one event, which
-- carries the command with the same action and repository to the scanner.
pub watch_request_taken_up :
    (u : Uuid) (o : Orchestrator) (action repo command_type : String) (e : OutboxEvent)
    (w : World ApiTables)
    → (h : IsWatchRequest action repo e) → command_event_type action ≡ ok command_type
    → u.parses e.event_id ≡ true
    → u.is_canonical e.event_id ≡ true
    → repo ≢ ""
    → w.faults ≡ []
    → exists (has_id (u.generate w.ids)) w.db.outbox ≡ false
    → exists (has_saga_id e.event_id) w.db.tables.sagas ≡ false
    → ((handle_saga_request u o e.payload w).0 ≡ ok tt)
      × ((c : OutboxEvent) × IsCommandOf h.asked command_type c
          × ((handle_saga_request u o e.payload w).1.db
              ≡ DbAfter w.db
                  (first_attempt o.deadline w.now e.event_id repo action h.asked.correlation_id)
                  c))
watch_request_taken_up u o action repo command_type e w h known parsed canonical named reachable
      unused fresh =
    let accepted : IsAccepted u h.asked command_type = record {
      typed = h.typed;
      known = ap command_event_type h.action_asked ∙ known;
      parsed = ap u.parses h.saga_id ∙ parsed;
      canonical = ap u.is_canonical h.saga_id ∙ canonical;
      named = λ same. named (sym h.repo_asked ∙ same);
    } in
    let unknown = ap (λ id. exists (has_saga_id id) w.db.tables.sagas) h.saga_id ∙ fresh in
    let (done, (c, command, after)) =
      request_starts_saga u o h.asked command_type w accepted reachable unused unknown in
    let saga : DbAfter w.db
          (first_attempt o.deadline w.now h.asked.payload.saga_id h.asked.payload.repo
            h.asked.payload.action h.asked.correlation_id)
          c
        ≡ DbAfter w.db
            (first_attempt o.deadline w.now e.event_id repo action h.asked.correlation_id) c =
      λ i.
        DbAfter w.db
          (first_attempt o.deadline w.now (h.saga_id i) (h.repo_asked i) (h.action_asked i)
            h.asked.correlation_id)
          c in
    rw (handled u o e.payload h.asked w h.decoded) (done, (c, command, after ∙ saga))
