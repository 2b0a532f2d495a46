-- ===== src/Base/Keys.antt =====
-- Tables with a unique text column: no two rows have the same key, and what an insertion, an update
-- and a deletion make of that.
use Prim.Native.String.{String}
use mathlib.Core.Path.{◌≡◌, refl, sym, ap, ◌∙◌}
use mathlib.Core.Bool.{Bool, true, false}
use mathlib.Core.Option.{some}
use mathlib.Core.List.{List, [], ◌∷◌, ◌++◌, Memᴰ}
use native.Mathlib.Omega.{arith}
use text.Mathlib.TextEquality.{eq_iff}
use software_engineering_sch.Base.Tests.{◌==◌}
use Prim.Native.Nat.{◌<◌}
use software_engineering_sch.Base.Lists.{exists, find, count, update, delete}

module _ {A : Type 0} (key : A → String) where
  abbrev pub has_key : String → A → Bool
  has_key k a = key a == k

  -- A unique index on the key.
  abbrev pub HasDistinctKeys : List A → Type 0
  HasDistinctKeys [] = Unit
  HasDistinctKeys (x ∷ xs) = (exists (has_key (key x)) xs ≡ false) × HasDistinctKeys xs

  pub exists-concat :
      (k : String) (xs : List A) (x : A)
      → exists (has_key k) xs ≡ false
      → has_key k x ≡ false
      → exists (has_key k) (xs ++ x ∷ []) ≡ false
  exists-concat k [] x h n = ground arith
  exists-concat k (y ∷ ys) x h n = ground (arith, exists-concat k ys x)

  pub concat-HasDistinctKeys :
      (xs : List A) (x : A)
      → exists (has_key (key x)) xs ≡ false
      → HasDistinctKeys xs
      → HasDistinctKeys (xs ++ x ∷ [])
  concat-HasDistinctKeys [] x h d = (refl, tt)
  concat-HasDistinctKeys (y ∷ ys) x h d = (
    exists-concat (key y) ys x d.0 (ground (arith, eq_iff (key y) (key x), eq_iff (key x) (key y))),
    concat-HasDistinctKeys ys x (ground arith) d.1,
  )

  pub exists-update :
      (k : String) (p : A → Bool) (f : A → A) (xs : List A)
      → ((x : A) → key (f x) ≡ key x)
      → exists (has_key k) (update p f xs) ≡ exists (has_key k) xs
  exists-update k p f [] same = refl
  exists-update k p f (x ∷ xs) same = ground (arith, same x, exists-update k p f xs same)

  pub update-HasDistinctKeys :
      (p : A → Bool) (f : A → A) (xs : List A)
      → ((x : A) → key (f x) ≡ key x)
      → HasDistinctKeys xs
      → HasDistinctKeys (update p f xs)
  update-HasDistinctKeys p f [] same d = tt
  update-HasDistinctKeys p f (x ∷ xs) same d = (
    ground (arith, same x, exists-update (key x) p f xs same),
    update-HasDistinctKeys p f xs same d.1,
  )

  exists-delete :
      (k : String) (p : A → Bool) (xs : List A)
      → exists (has_key k) xs ≡ false
      → exists (has_key k) (delete p xs) ≡ false
  exists-delete k p [] h = refl
  exists-delete k p (x ∷ xs) h = ground (arith, exists-delete k p xs)

  pub delete-HasDistinctKeys :
      (p : A → Bool) (xs : List A) → HasDistinctKeys xs → HasDistinctKeys (delete p xs)
  delete-HasDistinctKeys p [] d = tt
  delete-HasDistinctKeys p (x ∷ xs) d =
      ground (arith, exists-delete (key x) p xs, delete-HasDistinctKeys p xs d.1)

  pub exists_of_mem :
      (k : String) (xs : List A) {x : A} → Memᴰ x xs → key x ≡ k → exists (has_key k) xs ≡ true
  exists_of_mem k [] m e = elim m [ ]
  exists_of_mem k (y ∷ ys) (Memᴰ.head h) e = ground (arith, ap key h, eq_iff (key y) k)
  exists_of_mem k (y ∷ ys) (Memᴰ.tail m) e = ground (arith, exists_of_mem k ys m e)

  -- Two rows with the same key are the same row.
  pub eq_of_key :
      (xs : List A) {x y : A} → HasDistinctKeys xs → Memᴰ x xs → Memᴰ y xs → key x ≡ key y → x ≡ y
  eq_of_key [] d m n e = elim m [ ]
  eq_of_key (z ∷ zs) d (Memᴰ.head h) (Memᴰ.head k) e = h ∙ sym k
  eq_of_key (z ∷ zs) {x} {y} d (Memᴰ.head h) (Memᴰ.tail n) e =
      cc (d.0, exists_of_mem (key z) zs n (sym e ∙ ap key h))
  eq_of_key (z ∷ zs) d (Memᴰ.tail m) (Memᴰ.head k) e =
      cc (d.0, exists_of_mem (key z) zs m (e ∙ ap key k))
  eq_of_key (z ∷ zs) d (Memᴰ.tail m) (Memᴰ.tail n) e = eq_of_key zs d.1 m n e

  -- The row that a key finds, after an update whose `WHERE` selects it.
  pub find-update :
      (k : String) (p : A → Bool) (f : A → A) (xs : List A) (x : A)
      → ((y : A) → key (f y) ≡ key y)
      → p x ≡ true
      → find (has_key k) xs ≡ some x
      → find (has_key k) (update p f xs) ≡ some (f x)
  find-update k p f [] x same chosen e = cc
  find-update k p f (y ∷ ys) x same chosen e =
      ground (arith, same y, find-update k p f ys x same chosen)

  -- The row that another key finds is the same after an update that does not select it.
  pub find-update_ne :
      (k : String) (p : A → Bool) (f : A → A) (xs : List A)
      → ((y : A) → key (f y) ≡ key y)
      → ((y : A) → key y ≡ k → p y ≡ false)
      → find (has_key k) (update p f xs) ≡ find (has_key k) xs
  find-update_ne k p f [] same spared = refl
  find-update_ne k p f (y ∷ ys) same spared =
      ground (arith, same y, spared y, eq_iff (key y) k, find-update_ne k p f ys same spared)

  pub count_of_find :
      (k : String) (p : A → Bool) (xs : List A) (x : A)
      → p x ≡ true
      → find (has_key k) xs ≡ some x
      → 0 < count p xs
  count_of_find k p [] x chosen e = cc
  count_of_find k p (y ∷ ys) x chosen e = ground (arith, count_of_find k p ys x chosen)
