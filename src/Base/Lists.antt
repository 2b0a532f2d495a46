-- ===== src/Base/Lists.antt =====
-- Lists with native lengths, predicates on every element, and the shapes of the SQL statements:
-- `WHERE`, `UPDATE … WHERE`, `DELETE … WHERE`, `ORDER BY` and `LIMIT` over a list of rows.
use Prim.Native.Nat.{ℕ, zero, suc, ◌+◌, ◌≤◌}
use mathlib.Core.Path.{◌≡◌, refl, ap}
use mathlib.Core.Bool.{Bool, true, false}
use mathlib.Core.Logic.{inl, inr}
use mathlib.Core.Option.{Option, none, some}
use mathlib.Core.List.{List, [], ◌∷◌, ◌++◌, Memᴰ}
use native.Mathlib.Omega.{arith}
use software_engineering_sch.Base.Tests.{if◌then◌else◌, Bool-cases}

module _ {ℓ} {A : Type ℓ} where
  abbrev pub length : List A → ℕ
  length [] = 0
  length (x ∷ xs) = suc (length xs)

  -- `LIMIT n`
  abbrev pub take : ℕ → List A → List A
  take zero xs = []
  take (suc n) [] = []
  take (suc n) (x ∷ xs) = x ∷ take n xs

  abbrev pub get_or : List A → ℕ → A → A
  get_or [] i d = d
  get_or (x ∷ xs) zero d = x
  get_or (x ∷ xs) (suc i) d = get_or xs i d

  -- `SELECT … WHERE p`
  abbrev pub select : (A → Bool) → List A → List A
  select p [] = []
  select p (x ∷ xs) = if p x then x ∷ select p xs else select p xs

  -- `DELETE … WHERE p`
  abbrev pub delete : (A → Bool) → List A → List A
  delete p [] = []
  delete p (x ∷ xs) = if p x then delete p xs else x ∷ delete p xs

  -- `UPDATE … SET f WHERE p`
  abbrev pub update : (A → Bool) → (A → A) → List A → List A
  update p f [] = []
  update p f (x ∷ xs) = (if p x then f x else x) ∷ update p f xs

  -- `SELECT COUNT(*) … WHERE p`, and the command tag's count of affected rows
  abbrev pub count : (A → Bool) → List A → ℕ
  count p [] = 0
  count p (x ∷ xs) = if p x then suc (count p xs) else count p xs

  -- The first row of `SELECT … WHERE p`, which is what `QueryRow` scans.
  abbrev pub find : (A → Bool) → List A → Option A
  find p [] = none
  find p (x ∷ xs) = if p x then some x else find p xs

  -- `EXISTS (SELECT … WHERE p)`
  abbrev pub exists : (A → Bool) → List A → Bool
  exists p [] = false
  exists p (x ∷ xs) = if p x then true else exists p xs

  abbrev pub insert_sorted : (A → A → Bool) → A → List A → List A
  insert_sorted before x [] = x ∷ []
  insert_sorted before x (y ∷ ys) = if before x y then x ∷ y ∷ ys else y ∷ insert_sorted before x ys

  -- `ORDER BY`, by a test that says whether the first row may stand before the second
  abbrev pub order_by : (A → A → Bool) → List A → List A
  order_by before [] = []
  order_by before (x ∷ xs) = insert_sorted before x (order_by before xs)

-- A predicate of every element; it computes to a tuple.
abbrev pub All {ℓ κ} : {A : Type ℓ} → (A → Type κ) → List A → Type κ
All P [] = Unit
All P (x ∷ xs) = P x × All P xs

module _ {ℓ κ} {A : Type ℓ} (P : A → Type κ) where
  pub All-imp {μ} : (Q : A → Type μ) (xs : List A) → ((x : A) → P x → Q x) → All P xs → All Q xs
  All-imp Q [] f h = tt
  All-imp Q (x ∷ xs) f h = (f x h.0, All-imp Q xs f h.1)

  pub All-mem : (xs : List A) {x : A} → All P xs → Memᴰ x xs → P x
  All-mem [] h m = elim m [ ]
  All-mem (y ∷ ys) h (Memᴰ.head e) = rw e h.0
  All-mem (y ∷ ys) h (Memᴰ.tail m) = All-mem ys h.1 m

  pub All-intro : (xs : List A) → ((x : A) → Memᴰ x xs → P x) → All P xs
  All-intro [] h = tt
  All-intro (x ∷ xs) h = (h x (Memᴰ.head refl), All-intro xs (λ y m. h y (Memᴰ.tail m)))

  pub All-concat : (xs : List A) (x : A) → All P xs → P x → All P (xs ++ x ∷ [])
  All-concat [] x h p = (p, tt)
  All-concat (y ∷ ys) x h p = (h.0, All-concat ys x h.1 p)

  pub All-take : (n : ℕ) (xs : List A) → All P xs → All P (take n xs)
  All-take zero xs h = tt
  All-take (suc n) [] h = tt
  All-take (suc n) (x ∷ xs) h = (h.0, All-take n xs h.1)

  pub All-select : (p : A → Bool) (xs : List A) → All P xs → All P (select p xs)
  All-select p [] h = tt
  All-select p (x ∷ xs) h = ground (arith, All-select p xs h.1)

  pub All-delete : (p : A → Bool) (xs : List A) → All P xs → All P (delete p xs)
  All-delete p [] h = tt
  All-delete p (x ∷ xs) h = ground (arith, All-delete p xs h.1)

  -- An update keeps a predicate that it keeps on the rows that its `WHERE` selects.
  pub All-update :
      (p : A → Bool) (f : A → A) (xs : List A)
      → ((x : A) → p x ≡ true → P x → P (f x))
      → All P xs
      → All P (update p f xs)
  All-update p f [] keep h = tt
  All-update p f (x ∷ xs) keep h = (ground (arith, keep x), All-update p f xs keep h.1)

  -- The same for an update that keeps it on the selected rows of this table.
  pub All-update_mem :
      (p : A → Bool) (f : A → A) (xs : List A)
      → ((x : A) → Memᴰ x xs → p x ≡ true → P (f x))
      → All P xs
      → All P (update p f xs)
  All-update_mem p f [] keep h = tt
  All-update_mem p f (x ∷ xs) keep h = (
    ground (arith, keep x (Memᴰ.head refl)),
    All-update_mem p f xs (λ y m. keep y (Memᴰ.tail m)) h.1,
  )

  pub All-insert_sorted :
      (before : A → A → Bool) (x : A) (xs : List A)
      → P x
      → All P xs
      → All P (insert_sorted before x xs)
  All-insert_sorted before x [] p h = (p, tt)
  All-insert_sorted before x (y ∷ ys) p h = ground (arith, All-insert_sorted before x ys p h.1)

  pub All-order_by : (before : A → A → Bool) (xs : List A) → All P xs → All P (order_by before xs)
  All-order_by before [] h = tt
  All-order_by before (x ∷ xs) h =
      All-insert_sorted before x (order_by before xs) h.0 (All-order_by before xs h.1)

  pub All-find : (p : A → Bool) (xs : List A) {x : A} → All P xs → find p xs ≡ some x → P x
  All-find p [] h e = cc
  All-find p (y ∷ ys) {x} h e = ground (arith, All-find p ys {x = x} h.1)

module _ {ℓ} {A : Type ℓ} where
  pub length-take_le : (n : ℕ) (xs : List A) → length (take n xs) ≤ n
  length-take_le zero xs = omega arith
  length-take_le (suc n) [] = omega arith
  length-take_le (suc n) (x ∷ xs) = omega (arith, length-take_le n xs)

  pub length-append : (xs ys : List A) → length (xs ++ ys) ≡ length xs + length ys
  length-append [] ys = omega arith
  length-append (x ∷ xs) ys = omega (arith, length-append xs ys)

  -- Every row that a query returns satisfies its `WHERE`.
  pub All-select_self : (p : A → Bool) (xs : List A) → All (λ x. p x ≡ true) (select p xs)
  All-select_self p [] = tt
  All-select_self p (x ∷ xs) = elim (Bool-cases (p x)) [
    | inl yes_case ↦ rw yes_case (yes_case, All-select_self p xs)
    | inr no_case ↦ rw no_case (All-select_self p xs)
  ]

  pub find-holds : (p : A → Bool) (xs : List A) {x : A} → find p xs ≡ some x → p x ≡ true
  find-holds p [] e = cc
  find-holds p (y ∷ ys) {x} e = ground (arith, find-holds p ys {x = x})

  pub exists-find-none : (p : A → Bool) (xs : List A) → find p xs ≡ none → exists p xs ≡ false
  exists-find-none p [] e = refl
  exists-find-none p (y ∷ ys) e = ground (arith, exists-find-none p ys)

  pub find-mem : (p : A → Bool) (xs : List A) {x : A} → find p xs ≡ some x → Memᴰ x xs
  find-mem p [] e = cc
  find-mem p (y ∷ ys) {x} e = elim (Bool-cases (p y)) [
    | inl found ↦ Memᴰ.head (ground (arith, found))
    | inr later ↦ Memᴰ.tail (find-mem p ys (ground (arith, later)))
  ]

module _ {ℓ} {A : Type ℓ} where
  pub mem-concat : (xs : List A) (y : A) {x : A} → Memᴰ x xs → Memᴰ x (xs ++ y ∷ [])
  mem-concat [] y m = elim m [ ]
  mem-concat (z ∷ zs) y (Memᴰ.head e) = Memᴰ.head e
  mem-concat (z ∷ zs) y (Memᴰ.tail m) = Memᴰ.tail (mem-concat zs y m)

  pub mem_last : (xs : List A) (x : A) → Memᴰ x (xs ++ x ∷ [])
  mem_last [] x = Memᴰ.head refl
  mem_last (y ∷ ys) x = Memᴰ.tail (mem_last ys x)

  -- What an update makes of a row, in its place.
  pub mem-update :
      (p : A → Bool) (f : A → A) (xs : List A) {x : A}
      → Memᴰ x xs
      → Memᴰ (if p x then f x else x) (update p f xs)
  mem-update p f [] m = elim m [ ]
  mem-update p f (y ∷ ys) (Memᴰ.head e) = Memᴰ.head (ap (λ z. if p z then f z else z) e)
  mem-update p f (y ∷ ys) (Memᴰ.tail m) = Memᴰ.tail (mem-update p f ys m)

  -- A row that the `WHERE` does not select stays as it is, and stays.
  pub mem-update_ne :
      (p : A → Bool) (f : A → A) (xs : List A) {x : A}
      → Memᴰ x xs
      → p x ≡ false
      → Memᴰ x (update p f xs)
  mem-update_ne p f [] m n = elim m [ ]
  mem-update_ne p f (y ∷ ys) (Memᴰ.head e) n = Memᴰ.head (ground arith)
  mem-update_ne p f (y ∷ ys) (Memᴰ.tail m) n = Memᴰ.tail (mem-update_ne p f ys m n)

  pub mem-delete_ne :
      (p : A → Bool) (xs : List A) {x : A} → Memᴰ x xs → p x ≡ false → Memᴰ x (delete p xs)
  mem-delete_ne p [] m n = elim m [ ]
  mem-delete_ne p (y ∷ ys) {x} (Memᴰ.head e) n = rw (← e, n) (Memᴰ.head refl)
  mem-delete_ne p (y ∷ ys) {x} (Memᴰ.tail m) n = elim (Bool-cases (p y)) [
    | inl gone ↦ rw gone (mem-delete_ne p ys m n)
    | inr kept ↦ rw kept (Memᴰ.tail (mem-delete_ne p ys m n))
  ]

  -- What the selected rows of a table satisfy.
  pub All-select_mem {κ} :
      (Q : A → Type κ) (p : A → Bool) (xs : List A)
      → ((x : A) → Memᴰ x xs → p x ≡ true → Q x)
      → All Q (select p xs)
  All-select_mem Q p [] h = tt
  All-select_mem Q p (x ∷ xs) h = elim (Bool-cases (p x)) [
    | inl chosen ↦
        rw chosen (h x (Memᴰ.head refl) chosen, All-select_mem Q p xs (λ y m. h y (Memᴰ.tail m)))
    | inr passed ↦ rw passed (All-select_mem Q p xs (λ y m. h y (Memᴰ.tail m)))
  ]
