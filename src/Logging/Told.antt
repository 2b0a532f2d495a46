-- ===== src/Logging/Told.antt =====
-- What `publish` has to meet to return no error.
use software_engineering_sch.Base.{
  ℕ, suc, ◌≤◌, String, Bool, List, [], ◌∷◌, ◌++◌, Option, some, none, ◌≡◌, ◌↔◌, refl, subst, arith,
  All, leb, Bool-cases, inl, inr,
}
use software_engineering_sch.Errors.{Result, ok, err}
use software_engineering_sch.Logging.Hook.{
  Worker, receiving, publishing, ended, Hook, Client, Attempt, publish, attempt_publish, receive,
  advance_from, advance,
}
use software_engineering_sch.Logging.Steps.{Step, logs, works, closes, waits, Reach, here, next}

-- A request was built, and was answered with a status below 400.
abbrev pub WasTaken : Attempt → Type 0
WasTaken t = (status : ℕ) × (t.request ≡ ok tt) × (t.answer ≡ ok status) × (suc status ≤ 400)

abbrev pub IsTold : Attempt → Type 0
IsTold t = (t.result ≡ ok tt) ↔ WasTaken t

publish_iff :
    (request : Result (Unit {0})) (answer : Result ℕ)
    → (publish request answer ≡ ok tt)
      ↔ ((status : ℕ) × (request ≡ ok tt) × (answer ≡ ok status) × (suc status ≤ 400))
unfolding publish
publish_iff (err e) answer = (λ h. cc h, λ (status, built, answered, low). cc built)
publish_iff (ok tt) (err e) = (λ h. cc h, λ (status, built, answered, low). cc answered)
publish_iff (ok tt) (ok status) = elim (Bool-cases (leb 400 status)) [
  | inl high ↦ rw high (
    λ h. cc h,
    λ (other, built, answered, low).
        let same : status ≡ other = cc answered in absurd (ground (arith, high, same, low)),
  )
  | inr low ↦ rw low (λ h. (status, refl, refl, ground (arith, low)), λ h. refl)
]

pub attempt_publish-IsTold :
    (request : Result (Unit {0})) (client : Client) (cancelled : Bool) (body : String)
    → IsTold (attempt_publish request client cancelled body)
unfolding attempt_publish
attempt_publish-IsTold request client cancelled body = publish_iff request (client body cancelled)

append-IsTold : (ts us : List Attempt) → All IsTold ts → All IsTold us → All IsTold (ts ++ us)
append-IsTold [] us h k = k
append-IsTold (t ∷ ts) us (told, h) k = (told, append-IsTold ts us h k)

same-IsTold :
    {made done : List Attempt} {g h : Hook}
    → ◌≡◌ {A = Option (List Attempt × Hook)} (some (made, g)) (some (done, h))
    → All IsTold made
    → All IsTold done
same-IsTold {made} {done} {g} {h} e told =
    let same : ◌≡◌ {A = List Attempt × Hook} (made, g) (done, h) = cc e in
    subst (λ m. All IsTold m.0) same told

received :
    (o : Option Hook) {done : List Attempt} {h : Hook}
    → elim o as (λ o. Option (List Attempt × Hook)) [ none ↦ none | some g ↦ some ([], g) ]
      ≡ some (done, h)
    → All IsTold done
received none e = cc e
received (some g) e = same-IsTold e tt

advance_from-IsTold :
    (request : Result (Unit {0})) (client : Client) (w : Worker) (h h' : Hook) (done : List Attempt)
    → advance_from request client w h ≡ some (done, h')
    → All IsTold done
unfolding advance_from
advance_from-IsTold request client receiving h h' done e = received (receive h.entries h) e
advance_from-IsTold request client (publishing body) h h' done e =
    same-IsTold e (attempt_publish-IsTold request client h.cancelled body, tt)
advance_from-IsTold request client ended h h' done e = cc e

Step-IsTold :
    {h h' : Hook} {more : List String} {done : List Attempt} → Step h more done h' → All IsTold done
unfolding advance
Step-IsTold (logs h entry request client) = tt
Step-IsTold (works h h' made request client e) =
    advance_from-IsTold request client h.worker h h' made e
Step-IsTold (closes h) = tt
Step-IsTold (waits h h' over done_first answer e) = tt

pub Reach-IsTold :
    {size : ℕ} {accepted : List String} {attempts : List Attempt} {h : Hook}
    → Reach size accepted attempts h
    → All IsTold attempts
Reach-IsTold here = tt
Reach-IsTold (next before sent more done g h r st) =
    append-IsTold sent done (Reach-IsTold r) (Step-IsTold st)
