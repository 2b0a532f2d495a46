-- ===== src/Migrations/Order.antt =====
-- The list that `Load` returns: in the order of the versions, and exactly the directory's migrations.
use software_engineering_sch.Base.{
  ℕ, ◌<◌, String, Option, some, none, List, [], ◌∷◌, ◌≡◌, ◌≢◌, refl, sym, subst, ◌↔◌, arith, All,
  All-insert_sorted, All-imp, All-order_by, mem-order_by, order_by-mem, insert_sorted, order_by,
  eqb, Bool-cases, inl, inr,
}
use mathlib.Core.List.{Memᴰ}
use software_engineering_sch.Errors.{Result, ok, err}
use software_engineering_sch.Migrations.Load.{
  Entry, Migration, Seen, previous, and_then, read_entry, load_entries, before, load, IsMigrationOf,
  IsMigrationOf-unique, IsFound, read_entry_lem,
}

-- In strictly ascending order of the versions.
abbrev pub IsAscending : List Migration → Type 0
IsAscending [] = Unit
IsAscending (m ∷ ms) = All (λ n. m.version < n.version) ms × IsAscending ms

-- No two migrations have the same version.
abbrev IsDistinct : List Migration → Type 0
IsDistinct [] = Unit
IsDistinct (m ∷ ms) = All (λ n. m.version ≢ n.version) ms × IsDistinct ms

-- No migration has a version that was seen.
abbrev IsNew : Seen → List Migration → Type 0
IsNew seen ms = All (λ m. previous seen m.version ≡ none) ms

-- What the loop returns for the entries that are left.
pub record IsLoaded (checksum : String → String) (es : List Entry) (seen : Seen)
    (ms : List Migration) : Type 0 where
  pub distinct : IsDistinct ms
  pub new : IsNew seen ms
  pub sound : (m : Migration) → Memᴰ m ms → (e : Entry) × Memᴰ e es × IsMigrationOf checksum e m
  pub complete : (e : Entry) (m : Migration) → Memᴰ e es → IsMigrationOf checksum e m → Memᴰ m ms

-- The loop goes on, with the version seen.
IsNew-tail :
    (seen : Seen) (v : ℕ) (file : String) (ms : List Migration)
    → IsNew ((v, file) ∷ seen) ms
    → IsNew seen ms × All (λ n. v ≢ n.version) ms
IsNew-tail seen v file [] h = (tt, tt)
IsNew-tail seen v file (m ∷ ms) (h, hs) =
    let (rest, others) = IsNew-tail seen v file ms hs in
    elim (Bool-cases (eqb v m.version)) [
      | inl same ↦ absurd (ground (arith, same, h))
      | inr other ↦ ((ground (arith, other, h), rest), (ground (arith, other), others))
    ]

ok_of_and_then :
    {A B : Type 0} (r : Result A) (f : A → B) {b : B}
    → and_then r (λ a. ok (f a)) ≡ ok b
    → (a : A) × (r ≡ ok a) × (f a ≡ b)
ok_of_and_then (ok a) f h = (a, refl, cc h)
ok_of_and_then (err e) f h = cc

module _ (checksum : String → String) where
  skipped :
      (e : Entry) (es : List Entry) (seen : Seen) (ms : List Migration)
      → IsFound checksum seen e none
      → IsLoaded checksum es seen ms
      → IsLoaded checksum (e ∷ es) seen ms
  skipped e es seen ms other rest = record {
    distinct = rest.distinct;
    new = rest.new;
    sound = λ m mem. let (x, at, source) = rest.sound m mem in (x, Memᴰ.tail at, source);
    complete = λ x m mem source. elim mem [
      | Memᴰ.head same ↦ absurd (other m (subst (λ y. IsMigrationOf checksum y m) same source))
      | Memᴰ.tail later ↦ rest.complete x m later source
    ];
  }

  taken :
      (e : Entry) (es : List Entry) (seen : Seen) (m : Migration) (ms : List Migration)
      → IsFound checksum seen e (some m)
      → IsLoaded checksum es ((m.version, e.name) ∷ seen) ms
      → IsLoaded checksum (e ∷ es) seen (m ∷ ms)
  taken e es seen m ms (new, source) rest =
      let (later, others) = IsNew-tail seen m.version e.name ms rest.new in
      record {
        distinct = (others, rest.distinct);
        new = (new, later);
        sound = λ n mem. elim mem [
          | Memᴰ.head same ↦
              (e, Memᴰ.head refl, subst (λ y. IsMigrationOf checksum e y) (sym same) source)
          | Memᴰ.tail at ↦ (let (x, place, from) = rest.sound n at in (x, Memᴰ.tail place, from))
        ];
        complete = λ x n mem from. elim mem [
          | Memᴰ.head same ↦ Memᴰ.head (
              IsMigrationOf-unique checksum e n m
                (subst (λ y. IsMigrationOf checksum y n) same from) source)
          | Memᴰ.tail at ↦ Memᴰ.tail (rest.complete x n at from)
        ];
      }

  -- One round of the loop, by what it finds and by what the later rounds return.
  round :
      (e : Entry) (es : List Entry) (seen : Seen) (found : Result (Option Migration))
      (ms : List Migration)
      → read_entry checksum seen e ≡ found
      → ((seen' : Seen) (rest : List Migration)
          → load_entries checksum es seen' ≡ ok rest
          → IsLoaded checksum es seen' rest)
      → and_then found (λ o. elim o [
        | none ↦ load_entries checksum es seen
        | some m ↦
            and_then (load_entries checksum es ((m.version, e.name) ∷ seen)) λ rest. ok (m ∷ rest)
      ])
        ≡ ok ms
      → IsLoaded checksum (e ∷ es) seen ms
  round e es seen (err x) ms read ih h = cc
  round e es seen (ok none) ms read ih h =
      skipped e es seen ms (read_entry_lem checksum seen e none read) (ih seen ms h)
  round e es seen (ok (some m)) ms read ih h =
      let (rest, loaded, same) =
        ok_of_and_then (load_entries checksum es ((m.version, e.name) ∷ seen)) (λ rest. m ∷ rest)
          h in
      subst (IsLoaded checksum (e ∷ es) seen) same
        (taken e es seen m rest (read_entry_lem checksum seen e (some m) read) (ih _ rest loaded))

  load_entries-IsLoaded :
      (es : List Entry) (seen : Seen) (ms : List Migration)
      → load_entries checksum es seen ≡ ok ms
      → IsLoaded checksum es seen ms
  unfolding load_entries
  load_entries-IsLoaded [] seen ms h =
      let same : [] ≡ ms = cc h in
      subst (IsLoaded checksum [] seen) same (record {
        distinct = tt;
        new = tt;
        sound = λ m mem. elim mem [ ];
        complete = λ e m mem source. elim mem [ ];
      })
  load_entries-IsLoaded (e ∷ es) seen ms h =
      round e es seen (read_entry checksum seen e) ms refl (load_entries-IsLoaded es) h

-- Sorting by the version, where no two versions are the same.
insert-IsAscending :
    (m : Migration) (ms : List Migration)
    → All (λ n. m.version ≢ n.version) ms
    → IsAscending ms
    → IsAscending (insert_sorted before m ms)
insert-IsAscending m [] h a = (tt, tt)
insert-IsAscending m (n ∷ ms) (h, hs) (first, rest) = elim (Bool-cases (before m n)) [
  | inl less ↦ rw less (
    (
      ground (arith, less),
      All-imp (λ x. n.version < x.version) (λ x. m.version < x.version) ms
          (λ x below. ground (arith, less, below)) first,
    ),
    (first, rest),
  )
  | inr more ↦ rw more (
    All-insert_sorted (λ x. n.version < x.version) before m ms (ground (arith, more, h)) first,
    insert-IsAscending m ms hs rest,
  )
]

order_by-IsAscending : (ms : List Migration) → IsDistinct ms → IsAscending (order_by before ms)
order_by-IsAscending [] h = tt
order_by-IsAscending (m ∷ ms) (h, hs) =
    insert-IsAscending m (order_by before ms)
      (All-order_by (λ n. m.version ≢ n.version) before ms h) (order_by-IsAscending ms hs)

-- In strictly ascending order, no version stands twice.
load-IsAscending :
    (checksum : String → String) (entries : Result (List Entry)) (ms : List Migration)
    → load checksum entries ≡ ok ms
    → IsAscending ms
unfolding load
load-IsAscending checksum (err e) ms h = cc
load-IsAscending checksum (ok es) ms h =
    let (found, loaded, same) = ok_of_and_then (load_entries checksum es []) (order_by before) h in
    subst IsAscending same
      (order_by-IsAscending found (load_entries-IsLoaded checksum es [] found loaded).distinct)

-- The list that `Load` returns is in strictly ascending order of the versions, and has the migrations
-- that the files of the directory are, and no others.
pub load_iff :
    (checksum : String → String) (es : List Entry) (ms : List Migration)
    → load checksum (ok es) ≡ ok ms
    → IsAscending ms
      × ((m : Migration) → Memᴰ m ms ↔ ((e : Entry) × Memᴰ e es × IsMigrationOf checksum e m))
unfolding load
load_iff checksum es ms h =
    let (found, loaded, same) = ok_of_and_then (load_entries checksum es []) (order_by before) h in
    let l = load_entries-IsLoaded checksum es [] found loaded in
    (
      load-IsAscending checksum (ok es) ms h,
      λ m. (
        λ mem. l.sound m (order_by-mem before found (subst (λ l. Memᴰ m l) (sym same) mem)),
        λ (e, at, source).
            subst (λ l. Memᴰ m l) same (mem-order_by before found (l.complete e m at source)),
      ),
    )
