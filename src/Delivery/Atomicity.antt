-- ===== src/Delivery/Atomicity.antt =====
-- Enqueueing the due retries is all or nothing.
use software_engineering_sch.Base.{ℕ, ℤ, ◌≡◌}
use software_engineering_sch.Errors.{Error, err}
use software_engineering_sch.Uuid.{Uuid}
use software_engineering_sch.Db.{World, commit, pure, wrapping, ◌>>◌}
use software_engineering_sch.Outbox.Insert.{outbox_quiet}
use software_engineering_sch.Db.Atomic.{
  IsQuiet, IsAtomic, IsAtomic-bind_pure, IsAtomic-wrapping, IsAtomic-commit, atomic_rules,
}
use software_engineering_sch.Delivery.Repository.{
  Delivery, DeliveryTables, enqueue_retry, enqueue_due_retries,
}

-- The end of the transaction.
finish-IsAtomic :
    (n : ℕ)
    → IsAtomic {T = DeliveryTables}
        (wrapping "commit enqueue notification retries" commit >> pure n)
finish-IsAtomic n = IsAtomic-bind_pure _ n (IsAtomic-wrapping _ _ IsAtomic-commit)

module _ (u : Uuid) where
  enqueue_retry-IsQuiet : (now : ℕ) (d : Delivery) → IsQuiet (enqueue_retry u now d)
  unfolding enqueue_retry
  enqueue_retry-IsQuiet now d = search outbox_quiet depth 10

  enqueue_due_retries-IsAtomic : (limit : ℤ) → IsAtomic (enqueue_due_retries u limit)
  unfolding enqueue_due_retries
  enqueue_due_retries-IsAtomic limit =
      search (atomic_rules, enqueue_retry-IsQuiet, finish-IsAtomic) depth 14

-- Enqueueing the due retries either returns no error or leaves the committed deliveries and the outbox
-- as they were, whichever calls fail: no delivery is set to pending without its message.
enqueue_due_retries_atomic :
    (u : Uuid) (limit : ℤ) (w : World DeliveryTables) (e : Error)
    → (enqueue_due_retries u limit w).0 ≡ err e
    → (enqueue_due_retries u limit w).1.db ≡ w.db
enqueue_due_retries_atomic u limit w e failed =
    (enqueue_due_retries-IsAtomic u limit).atomic w e failed
