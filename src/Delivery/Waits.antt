-- ===== src/Delivery/Waits.antt =====
-- The delays of the retries, by the number of the failures before.
use software_engineering_sch.Base.{
  ℤ, pos, minute, zero, suc, length, get_or, ◌-◌, arith, eqb, ℕ, ◌+◌, false, List, [], ◌∷◌, ◌≡◌,
  refl, leb, if◌then◌else◌,
}
use software_engineering_sch.Contracts.Codec.{notification_codec}
use software_engineering_sch.Delivery.Service.{Settings, retry_delay}

-- The delay after a failure, when so many failures came before it: the delays in their order, then the
-- last of them again and again, and a minute if there is none.
abbrev pub wait : List ℤ → ℕ → ℤ
wait [] n = pos minute
wait (d ∷ ds) zero = d
wait (d ∷ []) (suc n) = d
wait (d ∷ e ∷ ds) (suc n) = wait (e ∷ ds) n

-- The element at the place, or the last.
abbrev at_most : ℤ → List ℤ → ℕ → ℤ
at_most d ds n =
    if leb (suc (length ds)) n
    then get_or (d ∷ ds) (length ds) (pos minute)
    else get_or (d ∷ ds) n (pos minute)

leb-suc : (m n : ℕ) → leb (suc m) (suc n) ≡ leb m n
leb-suc m n = ground arith

at_most-wait : (d : ℤ) (ds : List ℤ) (n : ℕ) → at_most d ds n ≡ wait (d ∷ ds) n
at_most-wait d [] zero = ground arith
at_most-wait d (e ∷ ds) zero = ground arith
at_most-wait d [] (suc n) = ground arith
at_most-wait d (e ∷ ds) (suc n) = rw (leb-suc (suc (length ds)) n) (at_most-wait e ds n)

less_one : (n : ℕ) → n + 1 - 1 ≡ n
less_one n = omega arith

suc_less_one : (n : ℕ) → suc n - 1 ≡ n
suc_less_one n = omega arith

not_none : (n : ℕ) → eqb (n + 1) 0 ≡ false
not_none n = ground arith

not_none_suc : (n : ℕ) → eqb (suc n) 0 ≡ false
not_none_suc n = ground arith

pub retry_delay-wait :
    (s : Settings) (ds : List ℤ) (n : ℕ) → s.retry_delays ≡ ds → retry_delay s (n + 1) ≡ wait ds n
unfolding retry_delay
retry_delay-wait s [] n e = rw (e, not_none n) refl
retry_delay-wait s (d ∷ ds) n e =
    rw (e, not_none n, not_none_suc (length ds), less_one n, suc_less_one (length ds))
      (at_most-wait d ds n)
