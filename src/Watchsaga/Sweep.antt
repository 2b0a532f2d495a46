-- ===== src/Watchsaga/Sweep.antt =====
-- The sweep of the due sagas, `RetryDue`: each is failed past its deadline, and else gets its command
-- again.
use software_engineering_sch.Base.{
  none, some, zero, minute, hour, ◌++◌, ℕ, suc, ◌+◌, ◌≤◌, Bool, true, false, List, [], ◌≡◌, refl,
  sym, subst, ℤ, ◌⊎◌, inl, inr, arith, leb, select, order_by, count, positive_or, All, All-take,
  All-order_by, All-select_mem, All-mem, length-order_by, length-select, take_all, mem-select,
  HasDistinctKeys, eq_of_key, mem-order_by, eq_iff, String-cases,
}
use Prim.Native.Nat.{◌*◌}
use mathlib.Core.List.{Memᴰ}
use software_engineering_sch.Errors.{ok}
use software_engineering_sch.Contracts.Codec.{command_codec}
use software_engineering_sch.Uuid.{Uuid}
use software_engineering_sch.Outbox.Event.{OutboxEvent}
use software_engineering_sch.Db.{
  World, eq-calm, calm, gets, query, ◌>>=◌, begin, commit, call, call_tx, wrapping,
}
use software_engineering_sch.ApiTables.{ApiTables, Instance, failed, retrying}
use software_engineering_sch.Watchsaga.Rules.{
  default_retry_limit, validate_action, retry_delay, has_saga_id, set_expired, set_retried, due,
  is_due, is_due_before,
}
use software_engineering_sch.Watchsaga.Orchestrator.{retry_due}
use software_engineering_sch.Watchsaga.Validity.{saga_key}
use software_engineering_sch.Subscription.Expansion.{IsFresh}
use software_engineering_sch.Watchsaga.Swept.{settled_by, after_all, swept, gets_settled}
use software_engineering_sch.Watchsaga.Resent.{IsCommandAgain, resent}

-- Every row is apart from the instances of the same table, whose ids are distinct.
apart_of :
    (i : Instance) (sagas : List Instance) (p : Instance → Bool)
    → HasDistinctKeys saga_key sagas
    → Memᴰ i sagas
    → (j : Instance) → Memᴰ j sagas
    → p j ≡ true
    → (has_saga_id j.saga_id i ≡ false) ⊎ (j ≡ i)
apart_of i sagas p distinct listed j m _ = elim (String-cases i.saga_id j.saga_id) [
  | inl same ↦ inr (eq_of_key saga_key sagas distinct m listed (sym same))
  | inr other ↦ inl (ground (arith, other, eq_iff i.saga_id j.saga_id))
]

module _ (u : Uuid) (limit : ℤ) (w : World ApiTables) where
  abbrev due_now : List Instance
  due_now = due (positive_or limit default_retry_limit) w.now w.locked w.db.tables.sagas

  due-All :
      (P : Instance → Type 0)
      → ((j : Instance) → Memᴰ j w.db.tables.sagas → is_due w.now w.locked j ≡ true → P j)
      → All P due_now
  unfolding due
  due-All P h = All-take P _ _ (All-order_by P _ _ (All-select_mem P _ w.db.tables.sagas h))

  -- A due saga is in the batch, if the batch has room for all.
  due_mem :
      (i : Instance)
      → Memᴰ i w.db.tables.sagas
      → is_due w.now w.locked i ≡ true
      → count (is_due w.now w.locked) w.db.tables.sagas ≤ positive_or limit default_retry_limit
      → Memᴰ i due_now
  unfolding due
  due_mem i m chosen room =
      let p = is_due w.now w.locked in
      let sorted = length-order_by is_due_before (select p w.db.tables.sagas) in
      let size = length-select p w.db.tables.sagas in
      subst (λ l. Memᴰ i l)
        (sym (
          take_all (positive_or limit default_retry_limit)
            (order_by is_due_before (select p w.db.tables.sagas))
            (omega (arith, sorted, size, room))))
        (mem-order_by is_due_before _ (mem-select p w.db.tables.sagas m chosen))

  swept_calm :
      All (λ j. validate_action j.action ≡ ok tt) due_now
      → retry_due u limit (calm w) ≡ (
        ok tt,
        (let v = after_all u due_now (record w { tx = w.db }) in
            record v { db = v.tx; faults = []; aborted = false }),
      )
  unfolding retry_due begin commit call call_tx query wrapping gets ◌>>=◌
  swept_calm known = rw (swept u due_now (record w { tx = w.db }) known) refl

-- How long a saga waits for its next command, by the number of its attempts.
abbrev pub wait_after : ℕ → ℕ
wait_after zero = minute
wait_after (suc zero) = minute
wait_after (suc (suc zero)) = 5 * minute
wait_after (suc (suc (suc zero))) = 15 * minute
wait_after (suc (suc (suc (suc n)))) = hour

-- The row of a due saga after the sweep: it is failed if its deadline has come, and is being retried,
-- with one more attempt and the time of the next, if not.
abbrev pub swept_row : (late : Bool) → ℕ → Instance → Instance
swept_row true now i = record i {
  status = failed;
  next_retry_at = none;
  last_error = some "timeout waiting for scanner ack";
  updated_at = now;
}
swept_row false now i = record i {
  status = retrying;
  attempts = i.attempts + 1;
  next_retry_at = some (now + wait_after (i.attempts + 1));
  updated_at = now;
}

delay-wait_after : (n : ℕ) → retry_delay n ≡ wait_after n
unfolding retry_delay
delay-wait_after zero = refl
delay-wait_after (suc zero) = refl
delay-wait_after (suc (suc zero)) = refl
delay-wait_after (suc (suc (suc zero))) = refl
delay-wait_after (suc (suc (suc (suc n)))) = ground arith

settled-swept_row :
    (late : Bool) (now : ℕ) (i : Instance) → settled_by late now i i ≡ swept_row late now i
unfolding set_expired set_retried
settled-swept_row true now i = refl
settled-swept_row false now i = rw (delay-wait_after (i.attempts + 1)) refl

-- When a tick of the retries comes at which no call fails, every saga of the table, whose ids are
-- distinct, has a known action, and no UUID that is still to be generated is in use: the sweep is no
-- error, and each saga that is due, if no more are due than the limit allows, is failed in its row
-- with the error of a timeout if its deadline has come, and else is being retried, with one more
-- attempt and the time of the next one, and among the events that the outbox gains is one that
-- carries its command to the scanner again.
pub retry_due_settles :
    (u : Uuid) (limit : ℤ) (i : Instance) (w : World ApiTables)
    → w.faults ≡ []
    → HasDistinctKeys saga_key w.db.tables.sagas
    → All (λ j. validate_action j.action ≡ ok tt) w.db.tables.sagas
    → count (is_due w.now w.locked) w.db.tables.sagas ≤ positive_or limit default_retry_limit
    → IsFresh u w.ids w.db.outbox
    → Memᴰ i w.db.tables.sagas
    → is_due w.now w.locked i ≡ true
    → ((retry_due u limit w).0 ≡ ok tt)
      × Memᴰ (swept_row (leb i.deadline_at w.now) w.now i) (retry_due u limit w).1.db.tables.sagas
      × ((es : List OutboxEvent) × ((retry_due u limit w).1.db.outbox ≡ w.db.outbox ++ es)
          × (leb i.deadline_at w.now ≡ false → (e : OutboxEvent) × Memᴰ e es × IsCommandAgain i e))
retry_due_settles u limit i w reachable distinct known room fresh listed chosen =
    let known_now =
      due-All u limit w _ (λ j m _. All-mem (λ x. validate_action x.action ≡ ok tt) _ known m) in
    let apart =
      due-All u limit w _ (apart_of i w.db.tables.sagas (is_due w.now w.locked) distinct listed) in
    let listed_now = due_mem u limit w i listed chosen room in
    let (es, gained, again) =
      resent u (due_now u limit w) (record w { tx = w.db }) known_now fresh in
    rw (eq-calm w reachable, swept_calm u limit w known_now)
      (
        refl,
        subst
            (λ r. Memᴰ r (after_all u (due_now u limit w) (record w { tx = w.db })).tx.tables.sagas)
            (settled-swept_row (leb i.deadline_at w.now) w.now i)
            (gets_settled u i (due_now u limit w) (record w { tx = w.db }) apart listed_now listed),
        (es, gained, again i listed_now),
      )
