-- ===== src/Logging/Accounts.antt =====
-- Where each entry is that the hook has accepted.
use mathlib.Core.List.{append_assoc, append-nil}
use software_engineering_sch.Base.{
  ℕ, ◌≤◌, String, List, [], ◌∷◌, ◌++◌, Bool, true, false, Option, none, some, length, ◌≡◌, refl, ap,
  sym, subst, ◌∙◌, arith, Bool-cases, inl, inr, length-append, ltb, ltb→lt,
}
use software_engineering_sch.Errors.{Error, Result, ok, err}
use software_engineering_sch.Logging.Hook.{
  Worker, receiving, publishing, ended, Hook, new_hook, Entry, fire, offer, receive, advance_from,
  attempt_publish, Client, Attempt, advance, close_entries, await_worker,
}
use software_engineering_sch.Logging.Steps.{
  accepted_by, Step, logs, works, closes, waits, Reach, here, next, in_hand, bodies,
}

abbrev pub IsFinished : Worker → Bool → List String → Type 0
IsFinished receiving closed entries = Unit {0}
IsFinished (publishing body) closed entries = Unit {0}
IsFinished ended closed entries = (closed ≡ true) × (entries ≡ [])

pub record IsAccounted (size : ℕ) (accepted published : List String) (h : Hook) : Type 0 where
  pub sized : h.buffer_size ≡ size
  pub bounded : length h.entries ≤ size
  pub split : accepted ≡ published ++ (in_hand h.worker ++ h.entries)
  pub finished : IsFinished h.worker h.closed h.entries

unchanged :
    {size : ℕ} {accepted published : List String} {h : Hook}
    → IsAccounted size accepted published h
    → IsAccounted size (accepted ++ []) (published ++ []) h
unchanged a = simp append-nil a

-- Room in an open hook: the body goes to the end of the buffer.
unfinished :
    (w : Worker) (entries others : List String)
    → IsFinished w false entries
    → IsFinished w false others
unfinished receiving entries others f = f
unfinished (publishing body) entries others f = f
unfinished ended entries others f = cc f.0

shutting :
    (w : Worker) (entries : List String) → IsFinished w false entries → IsFinished w true entries
shutting receiving entries f = tt
shutting (publishing body) entries f = tt
shutting ended entries f = cc f.0

regroup : (p q r s : List String) → (p ++ (q ++ r)) ++ s ≡ p ++ (q ++ (r ++ s))
regroup p q r s = simp append_assoc

offer-IsAccounted :
    (size : ℕ) (accepted published : List String) (body : String) (h : Hook)
    → IsAccounted size accepted published h
    → IsAccounted size (accepted ++ accepted_by (offer body h).0) (published ++ []) (offer body h).1
unfolding offer
offer-IsAccounted size accepted published body h a = elim (Bool-cases h.closed) [
  | inl shut ↦ simp shut (unchanged a)
  | inr running ↦ elim (Bool-cases (ltb (length h.entries) h.buffer_size)) [
    | inl room ↦
        simp (running, room, append-nil)
          (record {
            sized = a.sized;
            bounded = omega (arith, length-append h.entries (body ∷ []), ltb→lt _ _ room, a.sized);
            split =
                ap (λ l. l ++ body ∷ []) a.split
                ∙ regroup published (in_hand h.worker) h.entries (body ∷ []);
            finished =
                unfinished h.worker h.entries (h.entries ++ body ∷ [])
                  (subst (λ c. IsFinished h.worker c h.entries) running a.finished);
          })
    | inr full ↦ simp (running, full) (unchanged a)
  ]
]

-- A move that is known gives the state that it leads to.
moved :
    (size : ℕ) (accepted published : List String) {b made : List Attempt} {g h' : Hook}
    → ◌≡◌ {A = Option (List Attempt × Hook)} (some (b, g)) (some (made, h'))
    → IsAccounted size accepted (published ++ bodies b) g
    → IsAccounted size (accepted ++ []) (published ++ bodies made) h'
moved size accepted published {b} {made} {g} {h'} e a =
    let same : ◌≡◌ {A = List Attempt × Hook} (b, g) (made, h') = cc e in
    simp append-nil (subst (λ m. IsAccounted size accepted (published ++ bodies m.0) m.1) same a)

-- The goroutine at the channel: it takes the oldest body, or ends once the channel is closed.
taken :
    (size : ℕ) (accepted published entries : List String) (made : List Attempt) (h h' : Hook)
    → h.worker ≡ receiving
    → h.entries ≡ entries
    → elim (receive entries h) as (λ o. Option (List Attempt × Hook)) [
      | none ↦ none
      | some g ↦ some ([], g)
    ]
      ≡ some (made, h')
    → IsAccounted size accepted published h
    → IsAccounted size (accepted ++ []) (published ++ bodies made) h'
unfolding receive
taken size accepted published [] made h h' at same e a = elim (Bool-cases h.closed) [
  | inl shut ↦ moved size accepted published (simp shut at e) (record {
    sized = a.sized;
    bounded = a.bounded;
    split = simp append-nil (a.split ∙ ap (λ l. published ++ l) (rw (at, same) refl));
    finished = (refl, same);
  })
  | inr running ↦ cc (simp running at e)
]
taken size accepted published (body ∷ rest) made h h' at same e a =
    moved size accepted published e (record {
      sized = a.sized;
      bounded = omega (arith, a.bounded, ap (length {0}) same);
      split = simp append-nil (a.split ∙ ap (λ l. published ++ l) (rw (at, same) refl));
      finished = tt;
    })

fired :
    (size : ℕ) (accepted published : List String) (body : Result String) (is_fatal : Bool)
    (request : Result (Unit {0})) (client : Client) (h : Hook)
    → IsAccounted size accepted published h
    → let out = fire (record { body = body; is_fatal = is_fatal }) request client h in
      IsAccounted size (accepted ++ accepted_by out.0) (published ++ []) out.1
unfolding fire
fired size accepted published (err e) is_fatal request client h a = unchanged a
fired size accepted published (ok body) true request client h a = unchanged a
fired size accepted published (ok body) false request client h a =
    offer-IsAccounted size accepted published body h a

advance_from-IsAccounted :
    (size : ℕ) (accepted published : List String) (made : List Attempt)
    (request : Result (Unit {0})) (client : Client) (w : Worker) (h h' : Hook)
    → h.worker ≡ w
    → advance_from request client w h ≡ some (made, h')
    → IsAccounted size accepted published h
    → IsAccounted size (accepted ++ []) (published ++ bodies made) h'
unfolding advance_from attempt_publish
advance_from-IsAccounted size accepted published made request client receiving h h' at e a =
    taken size accepted published h.entries made h h' at refl e a
advance_from-IsAccounted size accepted published made request client (publishing body) h h' at e a =
    moved size accepted published e (record {
      sized = a.sized;
      bounded = a.bounded;
      split = a.split ∙ simp (at, append_assoc);
      finished = tt;
    })
advance_from-IsAccounted size accepted published made request client ended h h' at e a = cc

close_entries-IsAccounted :
    (size : ℕ) (accepted published : List String) (h : Hook)
    → IsAccounted size accepted published h
    → IsAccounted size accepted published (close_entries h).1
unfolding close_entries
close_entries-IsAccounted size accepted published h a = elim (Bool-cases h.closed) [
  | inl shut ↦ simp shut a
  | inr running ↦ simp running (record {
    sized = a.sized;
    bounded = a.bounded;
    split = a.split;
    finished =
        shutting h.worker h.entries
          (subst (λ c. IsFinished h.worker c h.entries) running a.finished);
  })
]

fire-IsAccounted :
    (size : ℕ) (accepted published : List String) (entry : Entry) (request : Result (Unit {0}))
    (client : Client) (h : Hook)
    → IsAccounted size accepted published h
    → IsAccounted size
        (accepted ++ accepted_by (fire entry request client h).0)
        (published ++ [])
        (fire entry request client h).1
unfolding fire
fire-IsAccounted size accepted published entry request client h a =
    fired size accepted published entry.body entry.is_fatal request client h a

expire-IsAccounted :
    (size : ℕ) (accepted published : List String) (h : Hook)
    → IsAccounted size accepted published h
    → IsAccounted size accepted published (record h { cancelled = true })
expire-IsAccounted size accepted published h a = record {
  sized = a.sized;
  bounded = a.bounded;
  split = a.split;
  finished = a.finished;
}

-- What a wait leaves is what it returned with.
left :
    {size : ℕ} {accepted published : List String} {answer other : Result (Unit {0})} {h h' : Hook}
    → ◌≡◌ {A = Option (Result (Unit {0}) × Hook)} (some (answer, h)) (some (other, h'))
    → IsAccounted size accepted published h
    → IsAccounted size accepted published h'
left {size} {accepted} {published} {answer} {other} {h} {h'} e a =
    let same : ◌≡◌ {A = Result (Unit {0}) × Hook} (answer, h) (other, h') = cc e in
    subst (IsAccounted size accepted published) (ap (λ x. x.1) same) a

await_worker-IsAccounted :
    (size : ℕ) (accepted published : List String) (w : Worker) (over : Option Error)
    (done_first : Bool) (h h' : Hook) (answer : Result (Unit {0}))
    → await_worker w over done_first h ≡ some (answer, h')
    → IsAccounted size accepted published h
    → IsAccounted size accepted published h'
unfolding await_worker
await_worker-IsAccounted size accepted published ended none first h h' r e a = left e a
await_worker-IsAccounted size accepted published ended (some x) true h h' r e a = left e a
await_worker-IsAccounted size accepted published ended (some x) false h h' r e a =
    left e (expire-IsAccounted size accepted published h a)
await_worker-IsAccounted size accepted published receiving none first h h' r e a = cc e
await_worker-IsAccounted size accepted published receiving (some x) first h h' r e a =
    left e (expire-IsAccounted size accepted published h a)
await_worker-IsAccounted size accepted published (publishing body) none first h h' r e a = cc e
await_worker-IsAccounted size accepted published (publishing body) (some x) first h h' r e a =
    left e (expire-IsAccounted size accepted published h a)

Step-IsAccounted :
    (size : ℕ) (accepted published : List String) {h h' : Hook} {more : List String}
    {done : List Attempt}
    → Step h more done h'
    → IsAccounted size accepted published h
    → IsAccounted size (accepted ++ more) (published ++ bodies done) h'
unfolding advance
Step-IsAccounted size accepted published (logs h entry request client) a =
    fire-IsAccounted size accepted published entry request client h a
Step-IsAccounted size accepted published (works h h' made request client e) a =
    advance_from-IsAccounted size accepted published made request client h.worker h h' refl e a
Step-IsAccounted size accepted published (closes h) a =
    unchanged (close_entries-IsAccounted size accepted published h a)
Step-IsAccounted size accepted published (waits h h' over done_first answer e) a =
    unchanged
      (await_worker-IsAccounted size accepted published h.worker over done_first h h' answer e a)

pub bodies-append : (ts us : List Attempt) → bodies (ts ++ us) ≡ bodies ts ++ bodies us
bodies-append [] us = refl
bodies-append (t ∷ ts) us = ap (λ l. t.body ∷ l) (bodies-append ts us)

pub Reach-IsAccounted :
    (size : ℕ) {accepted : List String} {attempts : List Attempt} {h : Hook}
    → Reach size accepted attempts h
    → IsAccounted size accepted (bodies attempts) h
unfolding new_hook
Reach-IsAccounted size here = record {
  sized = refl;
  bounded = omega arith;
  split = refl;
  finished = tt;
}
Reach-IsAccounted size (next before sent more done g h r st) =
    subst (λ l. IsAccounted size (before ++ more) l h) (sym (bodies-append sent done))
      (Step-IsAccounted size before (bodies sent) st (Reach-IsAccounted size r))
