-- ===== src/Base/Sorting.antt =====
-- Sorting a list of rows neither adds nor drops a row, and neither does a limit that is not reached.
use mathlib.Core.Bool.{Bool, true, false}
use mathlib.Core.Logic.{inl, inr}
use mathlib.Core.List.{List, [], ◌∷◌, Memᴰ}
use software_engineering_sch.Base.Tests.{if◌then◌else◌, Bool-cases}
use Prim.Native.Nat.{ℕ, zero, suc, ◌≤◌}
use mathlib.Core.Path.{◌≡◌, refl, ap, ◌∙◌}
use native.Mathlib.Omega.{arith}
use software_engineering_sch.Base.Lists.{insert_sorted, order_by, length, take, select, count}

module _ {ℓ} {A : Type ℓ} where
  -- Under a head that stays in front.
  kept :
      {xs ys : List A} {z : A} (y : A) → (Memᴰ z xs → Memᴰ z ys) → Memᴰ z (y ∷ xs) → Memᴰ z (y ∷ ys)
  kept y f (Memᴰ.head e) = Memᴰ.head e
  kept y f (Memᴰ.tail m) = Memᴰ.tail (f m)

  swapped : {zs : List A} {z : A} (x y : A) → Memᴰ z (x ∷ y ∷ zs) → Memᴰ z (y ∷ x ∷ zs)
  swapped x y (Memᴰ.head e) = Memᴰ.tail (Memᴰ.head e)
  swapped x y (Memᴰ.tail (Memᴰ.head e)) = Memᴰ.head e
  swapped x y (Memᴰ.tail (Memᴰ.tail m)) = Memᴰ.tail (Memᴰ.tail m)

module _ {ℓ} {A : Type ℓ} (before : A → A → Bool) where
  mem-inserted :
      (x : A) (ys : List A) {z : A} → Memᴰ z (x ∷ ys) → Memᴰ z (insert_sorted before x ys)
  mem-inserted x [] m = m
  mem-inserted x (y ∷ ys) m = elim (Bool-cases (before x y)) [
    | inl first ↦ rw first m
    | inr later ↦ rw later (kept y (mem-inserted x ys) (swapped x y m))
  ]

  inserted-mem :
      (x : A) (ys : List A) {z : A} → Memᴰ z (insert_sorted before x ys) → Memᴰ z (x ∷ ys)
  inserted-mem x [] = λ m. m
  inserted-mem x (y ∷ ys) {z} =
      elim (before x y)
        as (λ b.
          Memᴰ z (if b then x ∷ y ∷ ys else y ∷ insert_sorted before x ys) → Memᴰ z (x ∷ y ∷ ys)) [
            | true ↦ λ m. m
            | false ↦ λ m. swapped y x (kept y (inserted-mem x ys) m)
          ]

  pub mem-order_by : (xs : List A) {z : A} → Memᴰ z xs → Memᴰ z (order_by before xs)
  mem-order_by [] m = m
  mem-order_by (x ∷ xs) m = mem-inserted x (order_by before xs) (kept x (mem-order_by xs) m)

  pub order_by-mem : (xs : List A) {z : A} → Memᴰ z (order_by before xs) → Memᴰ z xs
  order_by-mem [] m = m
  order_by-mem (x ∷ xs) m = kept x (order_by-mem xs) (inserted-mem x (order_by before xs) m)

  length-insert_sorted :
      (x : A) (ys : List A) → length (insert_sorted before x ys) ≡ suc (length ys)
  length-insert_sorted x [] = refl
  length-insert_sorted x (y ∷ ys) = ground (arith, length-insert_sorted x ys)

  pub length-order_by : (xs : List A) → length (order_by before xs) ≡ length xs
  length-order_by [] = refl
  length-order_by (x ∷ xs) =
      length-insert_sorted x (order_by before xs) ∙ ap suc (length-order_by xs)

module _ {ℓ} {A : Type ℓ} where
  pub take_all : (n : ℕ) (xs : List A) → length xs ≤ n → take n xs ≡ xs
  take_all zero [] h = refl
  take_all zero (x ∷ xs) h = absurd (omega (arith, h))
  take_all (suc n) [] h = refl
  take_all (suc n) (x ∷ xs) h = ap (λ l. x ∷ l) (take_all n xs (omega (arith, h)))

  pub length-select : (p : A → Bool) (xs : List A) → length (select p xs) ≡ count p xs
  length-select p [] = refl
  length-select p (x ∷ xs) = ground (arith, length-select p xs)

  pub mem-select :
      (p : A → Bool) (xs : List A) {x : A} → Memᴰ x xs → p x ≡ true → Memᴰ x (select p xs)
  mem-select p [] m h = elim m [ ]
  mem-select p (y ∷ ys) {x} (Memᴰ.head e) h = rw (← e, h) (Memᴰ.head refl)
  mem-select p (y ∷ ys) {x} (Memᴰ.tail m) h = elim (Bool-cases (p y)) [
    | inl chosen ↦ rw chosen (Memᴰ.tail (mem-select p ys m h))
    | inr passed ↦ rw passed (mem-select p ys m h)
  ]
