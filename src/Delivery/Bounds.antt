-- ===== src/Delivery/Bounds.antt =====
-- The attempts of the deliveries, over notifications and ticks of the retries, one after another.
use software_engineering_sch.Base.{ℕ, ◌≤◌, Bool, List, [], ◌∷◌, refl, arith, ℤ, positive_or}
use software_engineering_sch.Contracts.{NotificationSendRequestedPayload}
use software_engineering_sch.Uuid.{Uuid}
use software_engineering_sch.Db.{World}
use software_engineering_sch.Delivery.Repository.{DeliveryTables, enqueue_due_retries}
use software_engineering_sch.Delivery.Service.{Settings, new_settings, process}
use software_engineering_sch.Delivery.Rows.{AreValid}
use software_engineering_sch.Delivery.Marks.{process-AreValid}
use software_engineering_sch.Delivery.Retried.{enqueue-AreValid}

-- What comes to the service: a notification, or a tick of the retries.
pub data Work : Type 0 where
  notified : NotificationSendRequestedPayload → Work
  ticked : (size : ℤ) → Work

-- Work that comes at its times, one after another; the errors are dropped.
unfoldable pub work_all :
    Uuid → Settings → List (ℕ × Work) → World DeliveryTables → World DeliveryTables
work_all u s [] w = w
work_all u s ((t, notified payload) ∷ rest) w =
    work_all u s rest (process u s payload (record w { now = t })).1
work_all u s ((t, ticked size) ∷ rest) w =
    work_all u s rest (enqueue_due_retries u size (record w { now = t })).1

kept_by_work :
    (u : Uuid) (s : Settings) (works : List (ℕ × Work)) (w : World DeliveryTables)
    → 1 ≤ s.max_attempts
    → AreValid s.max_attempts w.db.tables
    → AreValid s.max_attempts (work_all u s works w).db.tables
unfolding work_all
kept_by_work u s [] w positive h = h
kept_by_work u s ((t, notified payload) ∷ rest) w positive h =
    kept_by_work u s rest _ positive
      (process-AreValid u s payload positive (record w { now = t }) h)
kept_by_work u s ((t, ticked size) ∷ rest) w positive h =
    kept_by_work u s rest _ positive
      (enqueue-AreValid s.max_attempts w.db.tables u size (record w { now = t }) refl h)

positive_or-positive : (n : ℤ) (fallback : ℕ) → 1 ≤ fallback → 1 ≤ positive_or n fallback
positive_or-positive n fallback h = ground arith

-- Whatever notifications are processed and however often the retries are enqueued, one after another
-- at any times, and whichever calls fail, under the settings that `NewService` makes of any values: if
-- this was so at first, no key stands twice, no delivery has more failed attempts than the limit, a
-- dead one has exactly so many and one that is neither sent nor dead has fewer, and exactly the failed
-- ones have a time for their next attempt.
pub attempts_bounded :
    (u : Uuid) (max_attempts : ℤ) (delays : List ℤ) (retries : Bool) (works : List (ℕ × Work))
    (w : World DeliveryTables)
    → AreValid (new_settings max_attempts delays retries).max_attempts w.db.tables
    → let s = new_settings max_attempts delays retries in
      AreValid s.max_attempts (work_all u s works w).db.tables
unfolding new_settings
attempts_bounded u max_attempts delays retries works w h =
    kept_by_work u (new_settings max_attempts delays retries) works w
      (positive_or-positive max_attempts 3 (omega arith)) h
