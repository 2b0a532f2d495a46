-- ===== src/Logging/Drain.antt =====
-- The end of the hook's goroutine.
use Prim.Native.Nat.{◌*◌}
use software_engineering_sch.Base.{
  ℕ, zero, suc, ◌+◌, ◌≤◌, String, List, [], ◌∷◌, ◌++◌, Bool, true, none, some, length, ◌≡◌, refl,
  sym, ap, ◌∙◌, arith, map, All, Bool-cases, inl, inr,
}
use software_engineering_sch.Errors.{Result, ok}
use software_engineering_sch.Logging.Hook.{
  Worker, receiving, publishing, ended, Hook, Client, Attempt, attempt_publish, advance,
  close_entries, await_worker,
}
use software_engineering_sch.Logging.Steps.{in_hand, Reach, bodies}
use software_engineering_sch.Logging.Told.{IsTold, attempt_publish-IsTold}
use software_engineering_sch.Logging.Order.{entries_published_in_order, ended_empty}

-- The goroutine alone, for at most so many moves: its calls of `publish`, and the state then.
unfoldable pub run_worker : Result (Unit {0}) → Client → ℕ → Hook → List Attempt × Hook
run_worker request client zero h = ([], h)
run_worker request client (suc n) h = elim (advance request client h) [
  | none ↦ ([], h)
  | some (made, h') ↦ (let (rest, last) = run_worker request client n h' in (made ++ rest, last))
]

-- The moves that are left once the hook is closed.
abbrev moves_of : Worker → List String → ℕ
moves_of receiving entries = 2 * length entries + 1
moves_of (publishing body) entries = 2 * length entries + 2
moves_of ended entries = 0

-- A closed hook with this buffer, whose goroutine stands there.
abbrev shut : Hook → List String → Worker → Hook
shut h entries w = record h { entries = entries; closed = true; worker = w }

module _ (request : Result (Unit {0})) (client : Client) where
  stays : (n : ℕ) (h : Hook) → run_worker request client n (shut h [] ended) ≡ ([], shut h [] ended)
  unfolding run_worker advance
  stays zero h = refl
  stays (suc n) h = refl

  tries : Hook → List String → List Attempt
  tries h texts = map (attempt_publish request client h.cancelled) texts

  drains :
      (n : ℕ) (entries : List String) (w : Worker) (h : Hook)
      → (w ≡ ended → entries ≡ [])
      → moves_of w entries ≤ n
      → run_worker request client n (shut h entries w)
        ≡ (tries h (in_hand w ++ entries), shut h [] ended)
  unfolding run_worker advance tries
  drains zero entries receiving h done enough = absurd (omega arith)
  drains zero entries (publishing body) h done enough = absurd (omega arith)
  drains n entries ended h done enough = rw (done refl) (stays n h)
  drains (suc n) [] receiving h done enough = rw (stays n h) refl
  drains (suc n) (body ∷ rest) receiving h done enough =
      rw (drains n rest (publishing body) h (λ e. cc e) (omega arith)) refl
  drains (suc n) entries (publishing body) h done enough =
      rw (drains n entries receiving h (λ e. cc e) (omega arith)) refl

  -- A call that the goroutine has made for this client.
  abbrev pub IsTry : Hook → Attempt → Type 0
  IsTry h t = (t.request ≡ request) × (t.answer ≡ client t.body h.cancelled) × IsTold t

  tries-IsTry : (h : Hook) (texts : List String) → All (IsTry h) (tries h texts)
  unfolding tries attempt_publish
  tries-IsTry h [] = tt
  tries-IsTry h (text ∷ rest) =
      ((refl, refl, attempt_publish-IsTold request client h.cancelled text), tries-IsTry h rest)

  bodies-tries : (h : Hook) (texts : List String) → bodies (tries h texts) ≡ texts
  unfolding tries attempt_publish
  bodies-tries h [] = refl
  bodies-tries h (text ∷ rest) = ap (λ l. text ∷ l) (bodies-tries h rest)

closing : (h : Hook) → (close_entries h).1 ≡ shut h h.entries h.worker
unfolding close_entries
closing h = elim (Bool-cases h.closed) [
  | inl old ↦ simp old (ap (λ c. record h { closed = c }) old)
  | inr running ↦ simp running refl
]

enough_for :
    (w : Worker) (entries : List String) (n : ℕ)
    → 2 * length entries + 2 ≤ n
    → moves_of w entries ≤ n
enough_for receiving entries n h = omega arith
enough_for (publishing body) entries n h = omega arith
enough_for ended entries n h = omega arith

-- Whatever reached the hook: once `Close` has closed it and nothing but the goroutine moves, the
-- goroutine ends within two moves for each body in the buffer and two more, having tried the body in
-- hand and the buffer, each once, in order and nothing else; each of these tries was answered as the
-- client answers it in the context that the goroutine has, cancelled or not, and returned no error
-- just where a request was built and answered with a status below 400; and the wait of `Close` then
-- succeeds, if its context is not over.
pub closed_hook_drains :
    (size : ℕ) (accepted : List String) (attempts : List Attempt) (h : Hook) (n : ℕ)
    (done_first : Bool) (request : Result (Unit {0})) (client : Client)
    → Reach size accepted attempts h
    → 2 * length h.entries + 2 ≤ n
    → let last = run_worker request client n (close_entries h).1 in
      (last.1.worker ≡ ended)
      × (bodies attempts ++ bodies last.0 ≡ accepted)
      × All (IsTry request client h) last.0
      × (await_worker last.1.worker none done_first last.1 ≡ some (ok tt, last.1))
unfolding await_worker
closed_hook_drains size accepted attempts h n done_first request client r enough =
    let (split, bounded, finished, told) = entries_published_in_order size accepted attempts h r in
    let texts = in_hand h.worker ++ h.entries in
    rw
      (
        closing h,
        drains request client n h.entries h.worker h (ended_empty size r)
            (enough_for h.worker h.entries n enough),
      )
      (
        refl,
        ap (λ l. bodies attempts ++ l) (bodies-tries request client h texts) ∙ sym split,
        tries-IsTry request client h texts,
        refl,
      )
