-- ===== src/Scanner/Agreement.antt =====
-- The scanner and the orchestrator agree on what a command of the watch saga is and on how it is
-- acknowledged.
use software_engineering_sch.Base.{
  String, ◌⊎◌, inl, inr, ℕ, none, false, ◌≡◌, ◌≢◌, refl, arith, eq_iff, ◌==◌,
}
use software_engineering_sch.Errors.{ok}
use software_engineering_sch.Contracts.{
  event_start_watching_repo, event_stop_watching_repo, Envelope, RepoWatchCommandPayload,
  repo_watch_action_start, repo_watch_action_stop,
}
use software_engineering_sch.Watchsaga.Rules.{command_event_type, repo_watch_ack_event_type}
use software_engineering_sch.Scanner.Repository.{ack_outcome, build_repo_watch_ack_event}
use software_engineering_sch.Scanner.Service.{check_command}

-- The two actions, with the types of their commands.
known_actions :
    (action t : String)
    → command_event_type action ≡ ok t
    → ((action ≡ repo_watch_action_start) × (t ≡ event_start_watching_repo))
      ⊎ ((action ≡ repo_watch_action_stop) × (t ≡ event_stop_watching_repo))
unfolding command_event_type
known_actions action t h =
    ground (arith, h, eq_iff action repo_watch_action_start, eq_iff action repo_watch_action_stop)

filled : (s : String) → s ≢ "" → (s == "") ≡ false
filled s h = ground (arith, h, eq_iff s "")

module _ (event : Envelope RepoWatchCommandPayload) (event_id correlation_id : String)
    (now : ℕ) where
  abbrev Understood : Type 0
  Understood =
      let ack = build_repo_watch_ack_event event.payload event_id correlation_id now none in
      (check_command event ≡ ok tt)
      × (repo_watch_ack_event_type event.payload.action ≡ ok ack.event_type)
      × (ack.payload.saga_id ≡ event.payload.saga_id)
      × (ack.payload.repo ≡ event.payload.repo)
      × (ack.payload.action ≡ event.payload.action)

  understood :
      event.payload.saga_id ≢ ""
      → event.payload.repo ≢ ""
      → ((event.payload.action ≡ repo_watch_action_start)
          × (event.event_type ≡ event_start_watching_repo))
        ⊎ ((event.payload.action ≡ repo_watch_action_stop)
            × (event.event_type ≡ event_stop_watching_repo))
      → Understood
  unfolding repo_watch_ack_event_type ack_outcome build_repo_watch_ack_event check_command
  understood has_saga has_repo (inl (action, typed)) =
      rw (action, typed, filled _ has_saga, filled _ has_repo) (refl, refl, refl, refl, refl)
  understood has_saga has_repo (inr (action, typed)) =
      rw (action, typed, filled _ has_saga, filled _ has_repo) (refl, refl, refl, refl, refl)

-- A command with the type that the orchestrator gives to its action, and with a saga and a
-- repository, passes the scanner's checks; and the acknowledgement that the scanner builds for it
-- once it is applied has the type that the orchestrator expects of the saga, and names the command's
-- saga, repository and action.
pub command_understood :
    (event : Envelope RepoWatchCommandPayload) (event_id correlation_id : String) (now : ℕ)
    → command_event_type event.payload.action ≡ ok event.event_type
    → event.payload.saga_id ≢ ""
    → event.payload.repo ≢ ""
    → let ack = build_repo_watch_ack_event event.payload event_id correlation_id now none in
      (check_command event ≡ ok tt)
      × (repo_watch_ack_event_type event.payload.action ≡ ok ack.event_type)
      × (ack.payload.saga_id ≡ event.payload.saga_id)
      × (ack.payload.repo ≡ event.payload.repo)
      × (ack.payload.action ≡ event.payload.action)
command_understood event event_id correlation_id now typed has_saga has_repo =
    understood event event_id correlation_id now has_saga has_repo (known_actions _ _ typed)
