-- ===== src/Logging/Order.antt =====
-- The order in which the hook publishes.
use mathlib.Core.List.{append-nil}
use software_engineering_sch.Base.{
  ℕ, ◌≤◌, String, List, [], ◌++◌, length, ◌≡◌, sym, subst, ◌∙◌, All,
}
use software_engineering_sch.Logging.Hook.{ended, Hook, Attempt}
use software_engineering_sch.Logging.Steps.{Reach, in_hand, bodies}
use software_engineering_sch.Logging.Accounts.{IsFinished, Reach-IsAccounted}
use software_engineering_sch.Logging.Told.{IsTold, Reach-IsTold}

emptied : (h : Hook) → h.worker ≡ ended → IsFinished h.worker h.closed h.entries → h.entries ≡ []
emptied h e f = (subst (λ w. IsFinished w h.closed h.entries) e f).1

pub ended_empty :
    (size : ℕ) {accepted : List String} {attempts : List Attempt} {h : Hook}
    → Reach size accepted attempts h
    → h.worker ≡ ended
    → h.entries ≡ []
ended_empty size {h = h} r e = emptied h e (Reach-IsAccounted size r).finished

everything :
    {accepted : List String} (published : List String) (h : Hook)
    → h.worker ≡ ended
    → IsFinished h.worker h.closed h.entries
    → accepted ≡ published ++ (in_hand h.worker ++ h.entries)
    → published ≡ accepted
everything published h e f split = sym (split ∙ rw (e, emptied h e f) (append-nil published))

-- Whatever logs, publishes, closes and waits, in any order and with any answers: the bodies that were
-- put into the buffer are, in this order, those that were tried, the one in hand and those in the
-- buffer, which has no more of them than it may; once the goroutine has ended, each was tried once, in
-- order; and a try returned no error just where a request was built and answered with a status below
-- 400.
pub entries_published_in_order :
    (size : ℕ) (accepted : List String) (attempts : List Attempt) (h : Hook)
    → Reach size accepted attempts h
    → (accepted ≡ bodies attempts ++ (in_hand h.worker ++ h.entries))
      × (length h.entries ≤ size)
      × (h.worker ≡ ended → bodies attempts ≡ accepted)
      × All IsTold attempts
entries_published_in_order size accepted attempts h r =
    let a = Reach-IsAccounted size r in
    (a.split, a.bounded, λ e. everything (bodies attempts) h e a.finished a.split, Reach-IsTold r)
