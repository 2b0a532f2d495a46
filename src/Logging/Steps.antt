-- ===== src/Logging/Steps.antt =====
-- The hook under any interleaving of the code that logs, the goroutine and the calls of `Close`.
use software_engineering_sch.Base.{ℕ, String, List, [], ◌∷◌, ◌++◌, Bool, Option, some, ◌≡◌, map}
use software_engineering_sch.Errors.{Error, Result}
use software_engineering_sch.Logging.Hook.{
  Worker, receiving, publishing, ended, Hook, new_hook, Entry, Client, Attempt, Fired, returned,
  ignored, queued, dropped, fire, advance, close_entries, await_worker,
}

-- The entry that was put into the buffer, as a list.
abbrev pub accepted_by : Fired → List String
accepted_by (queued body) = body ∷ []
accepted_by (returned r) = []
accepted_by ignored = []
accepted_by dropped = []

-- A step, with the bodies that it puts into the buffer and the calls of `publish` by the goroutine.
pub data Step : Hook → List String → List Attempt → Hook → Type 0 where
  logs :
      (h : Hook) (entry : Entry) (request : Result (Unit {0})) (client : Client)
      → Step h (accepted_by (fire entry request client h).0) [] (fire entry request client h).1
  works :
      (h h' : Hook) (attempts : List Attempt) (request : Result (Unit {0})) (client : Client)
      → advance request client h ≡ some (attempts, h')
      → Step h [] attempts h'
  closes : (h : Hook) → Step h [] [] (close_entries h).1
  waits :
      (h h' : Hook) (over : Option Error) (done_first : Bool) (answer : Result (Unit {0}))
      → await_worker h.worker over done_first h ≡ some (answer, h')
      → Step h [] [] h'

-- The states that a new hook reaches, with the bodies accepted and the calls made so far, in order.
pub data Reach (size : ℕ) : List String → List Attempt → Hook → Type 0 where
  here : Reach size [] [] (new_hook size)
  next :
      (accepted : List String) (attempts : List Attempt) (more : List String) (done : List Attempt)
      (h h' : Hook)
      → Reach size accepted attempts h
      → Step h more done h'
      → Reach size (accepted ++ more) (attempts ++ done) h'

abbrev pub bodies : List Attempt → List String
bodies attempts = map (λ t. t.body) attempts

-- The body that the goroutine is publishing.
abbrev pub in_hand : Worker → List String
in_hand receiving = []
in_hand (publishing body) = body ∷ []
in_hand ended = []
