-- ===== src/Outbox/Insert.antt =====
-- Inserting an event: what an action that does it keeps and leaves alone.
use software_engineering_sch.Base.{ℕ, ◌≡◌, refl, arith}
use software_engineering_sch.Uuid.{Uuid, new_string}
use software_engineering_sch.Outbox.Event.{OutboxEvent}
use software_engineering_sch.Outbox.Store.{add_event, stamped, insert_tx}
use software_engineering_sch.Db.{Database}
use software_engineering_sch.Db.Atomic.{IsQuiet, IsQuiet-lift, quiet_rules}
use software_engineering_sch.Db.Keeps.{Keeps, keeps_rules, Keeps-exec}

pub new_string-IsQuiet : {T : Type 0} (u : Uuid) → IsQuiet {T = T} (new_string u)
unfolding new_string
new_string-IsQuiet u = record { quiet = λ w. refl }

pub insert_tx-IsQuiet : {T : Type 0} (e : OutboxEvent) → IsQuiet {T = T} (insert_tx e)
unfolding insert_tx
insert_tx-IsQuiet e = search quiet_rules

pub new_string-Keeps : {T : Type 0} {P : Database T → Type 0} (u : Uuid) → Keeps P (new_string u)
unfolding new_string
new_string-Keeps u = record { kept = λ w h. h }

-- An insertion keeps what the insertion of the event, at whatever time, keeps.
pub insert_tx-Keeps :
    {T : Type 0} {P : Database T → Type 0} (e : OutboxEvent)
    → ((now : ℕ) (d : Database T)
        → P d
        → P (record d { outbox = add_event (stamped now e) d.outbox }))
    → Keeps P (insert_tx e)
unfolding insert_tx
insert_tx-Keeps e keep = search (keeps_rules, Keeps-exec, keep)

-- An event built at the clock's time keeps it.
pub stamped_now : (now : ℕ) (e : OutboxEvent) → e.occurred_at ≡ now → stamped now e ≡ e
stamped_now now e h = ground arith

pub ruleset outbox_quiet = (quiet_rules, new_string-IsQuiet, insert_tx-IsQuiet)
