-- ===== src/Delivery/Retried.antt =====
-- What enqueueing the due retries leaves in the deliveries' table, whichever calls fail.
use software_engineering_sch.Base.{
  ℕ, String, Bool, true, false, List, ◌≡◌, sym, ap, ◌∙◌, arith, ℤ, All, All-take, All-order_by,
  All-select_mem,
}
use software_engineering_sch.Uuid.{Uuid}
use software_engineering_sch.Outbox.Event.{OutboxEvent}
use software_engineering_sch.Outbox.Store.{insert_tx}
use software_engineering_sch.Outbox.Insert.{new_string-Keeps, insert_tx-Keeps}
use software_engineering_sch.Db.{Database, World, exec}
use software_engineering_sch.Db.Keeps.{
  Keeps, Keeps-bind, Keeps-gets, Keeps-wrapping, Keeps-exec, Keeps-bind_query, Keeps-for_each-All,
  keeps_rules,
}
use software_engineering_sch.Db.Carries.{Carries, Carries-begin}
use software_engineering_sch.Delivery.Repository.{
  Delivery, DeliveryTables, update_rows, set_pending, is_due, due_retries, enqueue_retry,
  enqueue_due_retries,
}
use software_engineering_sch.Delivery.Final.{is_settled}
use software_engineering_sch.Delivery.Rows.{
  AreValid, is_closed, unclosed, is_closed-update_rows, set_pending-AreValid,
}

due-unsettled :
    (now : ℕ) (locked : String → Bool) (d : Delivery)
    → is_due now locked d ≡ true
    → is_settled d.status ≡ false
unfolding is_due
due-unsettled now locked d due = ground arith

-- The open transaction against what was committed before it: no key was settled or opened.
record IsRetrying (limit : ℕ) (before : List Delivery) (d : Database DeliveryTables) : Type 0 where
  valid : AreValid limit d.tables
  same : (key : String) → is_closed key d.tables ≡ is_closed key before

module _ (limit : ℕ) (before : List Delivery) where
  inserting : (e : OutboxEvent) → Keeps (IsRetrying limit before) (insert_tx e)
  inserting e = insert_tx-Keeps e (λ now d h. record { valid = h.valid; same = h.same })

  set_pending-Keeps :
      (key : String)
      → is_closed key before ≡ false
      → Keeps (IsRetrying limit before) (
          exec (λ (w : World DeliveryTables) (x : Database DeliveryTables).
            (tt, record x { tables = update_rows key (set_pending w.now) x.tables })))
  set_pending-Keeps key still = Keeps-exec _ λ w d h.
      let closed_none : is_closed key d.tables ≡ false = h.same key ∙ still in
      record {
        valid = set_pending-AreValid limit w.now key d.tables closed_none h.valid;
        same = λ other. is_closed-update_rows w.now key other d.tables closed_none ∙ h.same other;
      }

  -- The rows that are due can be set to pending.
  IsOpen : Delivery → Type 0
  IsOpen d = is_closed d.idempotency_key before ≡ false

  due-AreOpen :
      (n now : ℕ) (locked : String → Bool) (d : Database DeliveryTables)
      → IsRetrying limit before d
      → All IsOpen (due_retries n now locked d.tables)
  unfolding due_retries is_due IsOpen
  due-AreOpen n now locked d h = All-take _ n _ (
      All-order_by _ _ _ (
        All-select_mem _ (is_due now locked) d.tables λ x m due.
          sym (h.same x.idempotency_key)
          ∙ unclosed d.tables x h.valid.distinct m (due-unsettled now locked x due)))

  module _ (u : Uuid) where
    enqueue_retry-Keeps :
        (now : ℕ) (d : Delivery)
        → IsOpen d
        → Keeps (IsRetrying limit before) (enqueue_retry u now d)
    unfolding enqueue_retry IsOpen
    enqueue_retry-Keeps now d still = Keeps-bind _ _ (new_string-Keeps u) λ inner_id.
        Keeps-bind _ _ (new_string-Keeps u) λ event_id.
          Keeps-bind _ _ (inserting _)
            λ _. Keeps-wrapping _ _ (set_pending-Keeps d.idempotency_key still)

    enqueue-Carries : (size : ℤ) → Carries (IsRetrying limit before) (enqueue_due_retries u size)
    unfolding enqueue_due_retries
    enqueue-Carries size = Carries-begin _ _ λ _.
        Keeps-bind_query (All IsOpen) _ _ _ (λ w d h. due-AreOpen _ w.now w.locked d h)
          λ deliveries are_open. Keeps-bind _ _ (Keeps-gets _) λ now.
            Keeps-bind _ _
              (Keeps-for_each-All IsOpen (enqueue_retry u now) deliveries are_open
                (enqueue_retry-Keeps now))
              λ _. search keeps_rules

    pub enqueue-AreValid :
        (size : ℤ) (w : World DeliveryTables)
        → before ≡ w.db.tables
        → AreValid limit w.db.tables
        → AreValid limit (enqueue_due_retries u size w).1.db.tables
    enqueue-AreValid size w e h =
        ((enqueue-Carries size).carried w
          (record { valid = h; same = λ key. ap (is_closed key) (sym e) })).valid
