-- ===== src/Examples/Logs.antt =====
-- Examples for the hook of the logs.
use software_engineering_sch.Base.{
  none, some, true, String, List, [], ◌∷◌, ◌++◌, ◌≤◌, ◌≡◌, refl, length, false, arith, All,
}
use software_engineering_sch.Errors.{ok}
use software_engineering_sch.Logging.Hook.{
  publishing, ended, Hook, Client, new_hook, Entry, fire, offer, advance, advance_from, receive,
  close_entries, await_worker,
}
use software_engineering_sch.Logging.Steps.{logs, works, Reach, here, next, in_hand, bodies}
use software_engineering_sch.Logging.Order.{entries_published_in_order}
use software_engineering_sch.Logging.Drain.{run_worker, IsTry, closed_hook_drains}
use software_engineering_sch.Logging.Told.{IsTold}

abbrev entry : String → Entry
entry body = record { body = ok body; is_fatal = false }

-- A hook with room for one entry, in which the goroutine has taken the first of two.
abbrev taken : Hook
taken = record {
  buffer_size = 1;
  entries = [];
  closed = false;
  cancelled = false;
  worker = publishing "first";
}

abbrev waiting : Hook
waiting = record taken { entries = "second" ∷ [] }

-- A client that is always answered with this status.
abbrev busy : Client
busy body cancelled = ok 503

waiting-Reach : Reach 1 ("first" ∷ "second" ∷ []) [] waiting
unfolding new_hook fire offer advance receive advance_from
waiting-Reach =
    next ("first" ∷ []) [] ("second" ∷ []) [] taken waiting
      (next ("first" ∷ []) [] [] [] _ taken
        (next [] [] ("first" ∷ []) [] _ _ here (logs (new_hook 1) (entry "first") (ok tt) busy))
        (works _ taken [] (ok tt) busy refl))
      (logs taken (entry "second") (ok tt) busy)

entries_published_in_order_example :
    ◌≡◌ {A = List String} ("first" ∷ "second" ∷ []) (in_hand waiting.worker ++ waiting.entries)
    × (length waiting.entries ≤ 1)
    × (waiting.worker ≡ ended → ◌≡◌ {A = List String} [] ("first" ∷ "second" ∷ []))
    × All IsTold []
entries_published_in_order_example =
    entries_published_in_order 1 ("first" ∷ "second" ∷ []) [] waiting waiting-Reach

closed_hook_drains_example :
    let last = run_worker (ok tt) busy 4 (close_entries waiting).1 in
    (last.1.worker ≡ ended)
    × (bodies last.0 ≡ "first" ∷ "second" ∷ [])
    × All (IsTry (ok tt) busy waiting) last.0
    × (await_worker last.1.worker none true last.1 ≡ some (ok tt, last.1))
closed_hook_drains_example =
    closed_hook_drains 1 ("first" ∷ "second" ∷ []) [] waiting 4 true (ok tt) busy waiting-Reach
      (omega arith)
