-- ===== src/Base/Perms.antt =====
-- Lists that are a permutation of each other.
use Prim.Native.Nat.{suc}
use mathlib.Core.Path.{◌≡◌, refl, sym, ◌∙◌, ap, subst}
use mathlib.Core.Logic.{inl, inr}
use mathlib.Core.Bool.{Bool, true}
use mathlib.Core.List.{List, [], ◌∷◌, Memᴰ, Permᴰ}
use mathlib.Core.List.Permᴰ
use native.Mathlib.Omega.{arith}
use Prim.Native.String.{String}
use text.Mathlib.TextEquality.{eq_iff}
use software_engineering_sch.Base.Keys.{HasDistinctKeys, has_key}
use software_engineering_sch.Base.Tests.{if◌then◌else◌, Bool-cases}
use software_engineering_sch.Base.Lists.{length, All, exists, insert_sorted, order_by}

module _ {ℓ} {A : Type ℓ} where
  pub All-perm {κ} : (P : A → Type κ) {xs ys : List A} → Permᴰ xs ys → All P xs → All P ys
  All-perm P Permᴰ.nil h = tt
  All-perm P (Permᴰ.cons e p) h = (subst P e h.0, All-perm P p h.1)
  All-perm P (Permᴰ.swap e f) h = (subst P f h.1.0, (subst P e h.0, h.1.1))
  All-perm P (Permᴰ.trans p q) h = All-perm P q (All-perm P p h)

  pub length-perm : {xs ys : List A} → Permᴰ xs ys → length xs ≡ length ys
  length-perm Permᴰ.nil = refl
  length-perm (Permᴰ.cons e p) = ap suc (length-perm p)
  length-perm (Permᴰ.swap e f) = refl
  length-perm (Permᴰ.trans p q) = length-perm p ∙ length-perm q

  exists_swap : (p : A → Bool) (x y : A) (l : List A) → exists p (x ∷ y ∷ l) ≡ exists p (y ∷ x ∷ l)
  exists_swap p x y l = ground arith

  pub exists-perm : (p : A → Bool) {xs ys : List A} → Permᴰ xs ys → exists p xs ≡ exists p ys
  exists-perm p Permᴰ.nil = refl
  exists-perm p (Permᴰ.cons {a = a} {b = b} {l₁ = l₁} {l₂ = l₂} e d) =
      let same : exists p (a ∷ l₁) ≡ exists p (b ∷ l₁) = ap (λ x. exists p (x ∷ l₁)) e in
      let rest : exists p (b ∷ l₁) ≡ exists p (b ∷ l₂) =
        ap (λ t. if p b then true else t) (exists-perm p d) in
      same ∙ rest
  exists-perm p (Permᴰ.swap {a = a} {b = b} {a' = a'} {b' = b'} {l = l} e f) =
      let first : exists p (a ∷ b ∷ l) ≡ exists p (b' ∷ a' ∷ l) = λ i. exists p (e i ∷ f i ∷ l) in
      first ∙ exists_swap p b' a' l
  exists-perm p (Permᴰ.trans d e) = exists-perm p d ∙ exists-perm p e

  insert_sorted-perm :
      (before : A → A → Bool) (x : A) (xs : List A) → Permᴰ (x ∷ xs) (insert_sorted before x xs)
  insert_sorted-perm before x [] = Permᴰ.refl (x ∷ [])
  insert_sorted-perm before x (y ∷ ys) = elim (Bool-cases (before x y)) [
    | inl first ↦ rw first (Permᴰ.refl (x ∷ y ∷ ys))
    | inr later ↦
        rw later
          (Permᴰ.trans (Permᴰ.swap refl refl) (Permᴰ.cons refl (insert_sorted-perm before x ys)))
  ]

  pub order_by-perm : (before : A → A → Bool) (xs : List A) → Permᴰ xs (order_by before xs)
  order_by-perm before [] = Permᴰ.nil
  order_by-perm before (x ∷ xs) =
      Permᴰ.trans (Permᴰ.cons refl (order_by-perm before xs))
        (insert_sorted-perm before x (order_by before xs))

  pub mem-perm : {x : A} {xs ys : List A} → Permᴰ xs ys → Memᴰ x xs → Memᴰ x ys
  mem-perm Permᴰ.nil m = m
  mem-perm (Permᴰ.cons e p) (Memᴰ.head h) = Memᴰ.head (h ∙ e)
  mem-perm (Permᴰ.cons e p) (Memᴰ.tail m) = Memᴰ.tail (mem-perm p m)
  mem-perm (Permᴰ.swap e f) (Memᴰ.head h) = Memᴰ.tail (Memᴰ.head (h ∙ e))
  mem-perm (Permᴰ.swap e f) (Memᴰ.tail (Memᴰ.head h)) = Memᴰ.head (h ∙ f)
  mem-perm (Permᴰ.swap e f) (Memᴰ.tail (Memᴰ.tail m)) = Memᴰ.tail (Memᴰ.tail m)
  mem-perm (Permᴰ.trans p q) m = mem-perm q (mem-perm p m)

module _ {A : Type 0} (key : A → String) where
  keys_apart :
      (x y : A) (l : List A) → HasDistinctKeys key (x ∷ y ∷ l) → HasDistinctKeys key (y ∷ x ∷ l)
  keys_apart x y l (first, (second, rest)) = (
    ground (arith, first, second, eq_iff (key x) (key y), eq_iff (key y) (key x)),
    (ground (arith, first), rest),
  )

  pub perm-HasDistinctKeys :
      {xs ys : List A} → Permᴰ xs ys → HasDistinctKeys key xs → HasDistinctKeys key ys
  perm-HasDistinctKeys Permᴰ.nil h = tt
  perm-HasDistinctKeys (Permᴰ.cons {a = a} {b = b} {l₁ = l₁} {l₂ = l₂} e p) h = (
    sym (ap (λ x. exists (has_key key (key x)) l₁) e ∙ exists-perm (has_key key (key b)) p) ∙ h.0,
    perm-HasDistinctKeys p h.1,
  )
  perm-HasDistinctKeys (Permᴰ.swap {a = a} {b = b} {a' = a'} {b' = b'} {l = l} e f) h =
      keys_apart b' a' l (subst (HasDistinctKeys key) (λ i. e i ∷ f i ∷ l) h)
  perm-HasDistinctKeys (Permᴰ.trans p q) h = perm-HasDistinctKeys q (perm-HasDistinctKeys p h)
