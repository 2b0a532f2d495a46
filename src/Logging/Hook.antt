-- ===== src/Logging/Hook.antt =====
-- `vectorHook`: a bounded queue between the code that logs and one goroutine that publishes
-- (pkg/logger/setup.go).
use software_engineering_sch.Base.{
  ℕ, String, List, [], ◌∷◌, ◌++◌, Bool, true, false, Option, none, some, length, ltb, leb,
  if◌then◌else◌,
}
use software_engineering_sch.Errors.{Error, plain, Result, ok, err}

-- Where the goroutine of `publishLoop` stands: at the receive, in `publish`, or at its end.
pub data Worker : Type 0 where
  receiving : Worker
  publishing : String → Worker
  ended : Worker

pub record Hook : Type 0 where
  pub buffer_size : ℕ
  pub entries : List String  -- the buffer of the channel, the oldest first
  pub closed : Bool
  pub cancelled : Bool  -- whether `closeCancel` was called
  pub worker : Worker

unfoldable pub new_hook : ℕ → Hook
new_hook buffer_size = record {
  buffer_size = buffer_size;
  entries = [];
  closed = false;
  cancelled = false;
  worker = receiving;
}

-- An entry by what `entry.Bytes()` gives and by its level.
pub record Entry : Type 0 where
  pub body : Result String
  pub is_fatal : Bool

-- `client.Do` with the POST of a body: a status, by whether the request's context is cancelled.
abbrev pub Client : Type 0
Client = (body : String) → (cancelled : Bool) → Result ℕ

-- What `publish` returns, by the request that is built and by the client's answer, a status.
unfoldable pub publish : Result (Unit {0}) → Result ℕ → Result (Unit {0})
publish (err e) answer = err e
publish (ok _) (err e) = err e
publish (ok _) (ok status) = if leb 400 status then err (plain "publish returned status") else ok tt

-- A call of `publish` by the goroutine, with what it has met and returned.
pub record Attempt : Type 0 where
  pub body : String
  pub request : Result (Unit {0})
  pub answer : Result ℕ
  pub result : Result (Unit {0})

-- What became of an entry.
pub data Fired : Type 0 where
  returned : Result (Unit {0}) → Fired  -- with the entry's own error, or published at once
  ignored : Fired  -- the hook is closed
  queued : String → Fired
  dropped : Fired  -- the buffer is full

-- The `select` with a default, under the read lock that keeps `close(h.entries)` away.
unfoldable pub offer : String → Hook → Fired × Hook
offer body h =
    if h.closed
    then (ignored, h)
    else if ltb (length h.entries) h.buffer_size
    then (queued body, record h { entries = h.entries ++ body ∷ [] })
    else (dropped, h)

-- `Fire`; a fatal entry is published at once, in a context that is never cancelled.
unfoldable pub fire : Entry → Result (Unit {0}) → Client → Hook → Fired × Hook
unfolding publish
fire entry request client h = elim entry.body [
  | err e ↦ (returned (err e), h)
  | ok body ↦
      if entry.is_fatal then (returned (publish request (client body false)), h) else offer body h
]

-- The receive of `publishLoop`; none where it waits for an entry.
unfoldable pub receive : List String → Hook → Option Hook
receive (body ∷ rest) h = some (record h { entries = rest; worker = publishing body })
receive [] h = if h.closed then some (record h { worker = ended }) else none

-- One call of `publish` in the context of `publishContext`, which `Close` may have cancelled.
unfoldable pub attempt_publish : Result (Unit {0}) → Client → (cancelled : Bool) → String → Attempt
unfolding publish
attempt_publish request client cancelled body = record {
  body = body;
  request = request;
  answer = client body cancelled;
  result = publish request (client body cancelled);
}

-- The next move of `publishLoop`, none where it waits or has ended: the error of `publish` is dropped.
unfoldable pub advance_from :
    Result (Unit {0}) → Client → Worker → Hook → Option (List Attempt × Hook)
unfolding attempt_publish
advance_from request client receiving h = elim (receive h.entries h) [
  | none ↦ none
  | some h' ↦ some ([], h')
]
advance_from request client (publishing body) h =
    some (attempt_publish request client h.cancelled body ∷ [], record h { worker = receiving })
advance_from request client ended h = none

unfoldable pub advance : Result (Unit {0}) → Client → Hook → Option (List Attempt × Hook)
unfolding advance_from receive
advance request client h = advance_from request client h.worker h

-- `CloseWithContext` up to its wait: whether this call is the one that closes.
unfoldable pub close_entries : Hook → Bool × Hook
close_entries h = if h.closed then (false, h) else (true, record h { closed = true })

abbrev expire : Error → Hook → Result (Unit {0}) × Hook
expire e h = (err e, record h { cancelled = true })

-- Its `select`, by the error of a context that is over: `done` is ready once the goroutine has ended,
-- and `done_first` is the choice of the runtime where both are ready. It waits where none is.
unfoldable pub await_worker :
    Worker → Option Error → (done_first : Bool) → Hook → Option (Result (Unit {0}) × Hook)
await_worker ended none done_first h = some (ok tt, h)
await_worker ended (some e) done_first h = some (if done_first then (ok tt, h) else expire e h)
await_worker _ none done_first h = none
await_worker _ (some e) done_first h = some (expire e h)
