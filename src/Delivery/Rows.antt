-- ===== src/Delivery/Rows.antt =====
-- The invariant of the deliveries' table, and what each of its updates makes of it.
use mathlib.Core.List.{Memᴰ}
use software_engineering_sch.Base.{
  ℕ, ◌+◌, ◌≤◌, String, Option, none, some, Bool, true, false, ◌&&◌, List, [], ◌∷◌, ◌==◌, eq_iff,
  exists, exists_of_mem, mem_last, exists-find-none, find, subst, All-update_mem,
  update-HasDistinctKeys, ◌≡◌, ◌≢◌, refl, sym, ap, ◌∙◌, arith, All, All-concat, Bool-cases, inl,
  inr, HasDistinctKeys, has_key, eq_of_key, find-mem, find-holds, concat-HasDistinctKeys,
}
use software_engineering_sch.Errors.{Result, ok, err}
use software_engineering_sch.Contracts.{NotificationSendRequestedPayload}
use software_engineering_sch.Delivery.Repository.{
  failed, dead, Delivery, has_idempotency_key, new_delivery, upsert_row, update_rows, set_sent,
  set_failed, set_dead, set_pending, insert_or_fail,
}
use software_engineering_sch.Delivery.Final.{is_settled}

-- At most `limit` attempts failed, and fewer while more are to come; a dead delivery used all of them.
-- A failed one has the time of its next attempt, and no other one has.
pub record IsValidDelivery (limit : ℕ) (d : Delivery) : Type 0 where
  pub unsettled : is_settled d.status ≡ false → d.attempt_count + 1 ≤ limit
  pub bounded : d.attempt_count ≤ limit
  pub exhausted : d.status ≡ dead → d.attempt_count ≡ limit
  pub scheduled : d.status ≡ failed → d.next_attempt_at ≢ none
  pub unscheduled : d.status ≢ failed → d.next_attempt_at ≡ none

abbrev pub delivery_key : Delivery → String
delivery_key d = d.idempotency_key

module _ (limit : ℕ) where
  new_delivery-IsValidDelivery :
      (now : ℕ) (p : NotificationSendRequestedPayload)
      → 1 ≤ limit
      → IsValidDelivery limit (new_delivery now p)
  new_delivery-IsValidDelivery now p positive = record {
    unsettled = λ e. positive;
    bounded = omega arith;
    exhausted = λ e. cc e;
    scheduled = λ e. cc e;
    unscheduled = λ e. refl;
  }

  pub set_sent-IsValidDelivery :
      (now : ℕ) (d : Delivery) → IsValidDelivery limit d → IsValidDelivery limit (set_sent now d)
  unfolding set_sent
  set_sent-IsValidDelivery now d v = record {
    unsettled = λ e. cc e;
    bounded = v.bounded;
    exhausted = λ e. cc e;
    scheduled = λ e. cc e;
    unscheduled = λ e. refl;
  }

  pub set_failed-IsValidDelivery :
      (now : ℕ) (error : String) (next : ℕ) (d : Delivery)
      → d.attempt_count + 2 ≤ limit
      → IsValidDelivery limit (set_failed now error next d)
  unfolding set_failed
  set_failed-IsValidDelivery now error next d left = record {
    unsettled = λ e. omega (arith, left);
    bounded = omega (arith, left);
    exhausted = λ e. cc e;
    scheduled = λ s e. cc e;
    unscheduled = λ e. absurd (e refl);
  }

  pub set_dead-IsValidDelivery :
      (now : ℕ) (error : String) (d : Delivery)
      → d.attempt_count + 1 ≡ limit
      → IsValidDelivery limit (set_dead now error d)
  unfolding set_dead
  set_dead-IsValidDelivery now error d last = record {
    unsettled = λ e. cc e;
    bounded = omega (arith, last);
    exhausted = λ e. last;
    scheduled = λ e. cc e;
    unscheduled = λ e. refl;
  }

  set_pending-IsValidDelivery :
      (now : ℕ) (d : Delivery)
      → is_settled d.status ≡ false
      → IsValidDelivery limit d
      → IsValidDelivery limit (set_pending now d)
  unfolding set_pending
  set_pending-IsValidDelivery now d still v = record {
    unsettled = λ e. v.unsettled still;
    bounded = v.bounded;
    exhausted = λ e. cc e;
    scheduled = λ e. cc e;
    unscheduled = λ e. refl;
  }

  pub record AreValid (rows : List Delivery) : Type 0 where
    pub distinct : HasDistinctKeys delivery_key rows
    pub valid : All (IsValidDelivery limit) rows

  -- The rows of the key of a row are that row.
  pub update-AreValid :
      (key : String) (f : Delivery → Delivery) (rows : List Delivery) (d : Delivery)
      → ((x : Delivery) → (f x).idempotency_key ≡ x.idempotency_key)
      → Memᴰ d rows
      → d.idempotency_key ≡ key
      → IsValidDelivery limit (f d)
      → AreValid rows
      → AreValid (update_rows key f rows)
  unfolding update_rows
  update-AreValid key f rows d same m at v h = record {
    distinct = update-HasDistinctKeys delivery_key (has_idempotency_key key) f rows same h.distinct;
    valid =
        All-update_mem (IsValidDelivery limit) (has_idempotency_key key) f rows
          (λ x n chosen.
            subst (λ y. IsValidDelivery limit (f y))
              (eq_of_key delivery_key rows h.distinct m n
                (at ∙ sym ((eq_iff x.idempotency_key key).0 chosen)))
              v)
          h.valid;
  }

  -- The row that an upsert returns.
  abbrev pub IsReturned : String → List Delivery → Result Delivery → Type 0
  IsReturned key rows (ok d) = Memᴰ d rows × (d.idempotency_key ≡ key)
  IsReturned key rows (err e) = Unit {0}

  inserted :
      (now : ℕ) (p : NotificationSendRequestedPayload) (rows : List Delivery) (taken : Bool)
      → 1 ≤ limit
      → exists (has_idempotency_key p.idempotency_key) rows ≡ false
      → AreValid rows
      → let (r, rows') = insert_or_fail now p rows taken in
        AreValid rows' × IsReturned p.idempotency_key rows' r
  unfolding insert_or_fail
  inserted now p rows true positive new h = (h, tt)
  inserted now p rows false positive new h = (
    record {
      distinct = concat-HasDistinctKeys delivery_key rows (new_delivery now p) new h.distinct;
      valid =
          All-concat (IsValidDelivery limit) rows (new_delivery now p) h.valid
            (new_delivery-IsValidDelivery now p positive);
    },
    (mem_last rows (new_delivery now p), refl),
  )

  upserted_by :
      (now : ℕ) (p : NotificationSendRequestedPayload) (rows : List Delivery)
      (found : Option Delivery)
      → find (has_idempotency_key p.idempotency_key) rows ≡ found
      → 1 ≤ limit
      → AreValid rows
      → let (r, rows') = upsert_row now p rows in
        AreValid rows' × IsReturned p.idempotency_key rows' r
  unfolding upsert_row
  upserted_by now p rows (some d) e positive h =
      rw (e, upsert_row)
        (
          h,
          (
            find-mem (has_idempotency_key p.idempotency_key) rows e,
            (eq_iff d.idempotency_key p.idempotency_key).0
                (find-holds (has_idempotency_key p.idempotency_key) rows e),
          ),
        )
  upserted_by now p rows none e positive h =
      rw (e, upsert_row)
        (inserted now p rows _ positive
          (exists-find-none (has_idempotency_key p.idempotency_key) rows e) h)

  pub upsert_row-AreValid :
      (now : ℕ) (p : NotificationSendRequestedPayload) (rows : List Delivery)
      → 1 ≤ limit
      → AreValid rows
      → let (r, rows') = upsert_row now p rows in
        AreValid rows' × IsReturned p.idempotency_key rows' r
  upsert_row-AreValid now p rows = upserted_by now p rows _ refl

-- Whether a row of the key is sent or dead.
abbrev pub is_closed : String → List Delivery → Bool
is_closed key rows = exists (λ r. has_idempotency_key key r && is_settled r.status) rows

closed_key :
    (key : String) (rows : List Delivery)
    → exists (has_key delivery_key key) rows ≡ false
    → is_closed key rows ≡ false
closed_key key [] h = refl
closed_key key (r ∷ rows) h = ground (arith, closed_key key rows)

pub unclosed :
    (rows : List Delivery) (d : Delivery)
    → HasDistinctKeys delivery_key rows
    → Memᴰ d rows
    → is_settled d.status ≡ false
    → is_closed d.idempotency_key rows ≡ false
unclosed [] d h m unsettled = elim m [ ]
unclosed (r ∷ rows) d h (Memᴰ.head e) unsettled =
    subst (λ x. is_closed x.idempotency_key (r ∷ rows) ≡ false) (sym e)
      (ground (
        arith,
        sym (ap (λ x. is_settled x.status) e) ∙ unsettled,
        closed_key r.idempotency_key rows h.0,
      ))
unclosed (r ∷ rows) d h (Memᴰ.tail m) unsettled =
    elim (Bool-cases (r.idempotency_key == d.idempotency_key)) [
      | inl same ↦ cc (
        h.0,
        exists_of_mem delivery_key r.idempotency_key rows m
            (sym ((eq_iff r.idempotency_key d.idempotency_key).0 same)),
      )
      | inr other ↦ ground (arith, other, unclosed rows d h.1 m unsettled)
    ]

-- Setting the rows of a key to pending, of which none is sent or dead, opens and closes nothing.
pub is_closed-update_rows :
    (now : ℕ) (key other : String) (rows : List Delivery)
    → is_closed key rows ≡ false
    → is_closed other (update_rows key (set_pending now) rows) ≡ is_closed other rows
unfolding update_rows set_pending
is_closed-update_rows now key other [] h = refl
is_closed-update_rows now key other (r ∷ rows) h =
    ground (arith, is_closed-update_rows now key other rows)

still_pending :
    (limit now : ℕ) (key : String) (rows : List Delivery)
    → is_closed key rows ≡ false
    → All (IsValidDelivery limit) rows
    → All (IsValidDelivery limit) (update_rows key (set_pending now) rows)
unfolding update_rows
still_pending limit now key [] h v = tt
still_pending limit now key (r ∷ rows) h v = elim (Bool-cases (r.idempotency_key == key)) [
  | inl same ↦ rw same (
    set_pending-IsValidDelivery limit now r (ground (arith, same, h)) v.0,
    still_pending limit now key rows (ground (arith, h)) v.1,
  )
  | inr other ↦ rw other (v.0, still_pending limit now key rows (ground (arith, other)) v.1)
]

pub set_pending-AreValid :
    (limit now : ℕ) (key : String) (rows : List Delivery)
    → is_closed key rows ≡ false
    → AreValid limit rows
    → AreValid limit (update_rows key (set_pending now) rows)
unfolding update_rows set_pending
set_pending-AreValid limit now key rows h v = record {
  distinct =
      update-HasDistinctKeys delivery_key (has_idempotency_key key) (set_pending now) rows
        (λ x. refl) v.distinct;
  valid = still_pending limit now key rows h v.valid;
}
