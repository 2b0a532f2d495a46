-- ===== src/Migrations/Load.antt =====
-- `Load`: the migrations among the files of a directory, and how each comes from its file.
use software_engineering_sch.Base.{
  ℕ, String, Option, some, none, Bool, true, false, List, [], ◌∷◌, ◌≡◌, refl, sym, ap, subst, ◌∙◌,
  eqb, ltb, if◌then◌else◌, order_by,
}
use software_engineering_sch.Errors.{plain, wrap, Result, ok, err}
use software_engineering_sch.Text.Codes.{Text, codes}
use software_engineering_sch.Migrations.Names.{
  find_submatch, find_submatch_iff, trim_suffix, trim_suffix_name, extension, parse_int, IsFileName,
}

-- A directory entry, and what reading the file would give.
pub record Entry : Type 0 where
  pub name : String
  pub is_dir : Bool
  pub raw : Result String

-- The name is given by its code points.
pub record Migration : Type 0 where
  pub version : ℕ
  pub name : Text
  pub path : String
  pub sql : String
  pub checksum : String

-- The map of the versions that were seen, with the files that have them.
abbrev pub Seen : Type 0
Seen = List (ℕ × String)

abbrev pub previous : Seen → ℕ → Option String
previous [] version = none
previous ((v, file) ∷ seen) version = if eqb v version then some file else previous seen version

abbrev pub and_then : {A B : Type 0} → Result A → (A → Result B) → Result B
and_then (ok a) f = f a
and_then (err e) f = err e

abbrev pub before : Migration → Migration → Bool
before a b = ltb a.version b.version

-- The digest of a file is SHA-256 in hexadecimal, of the packages sha256 and hex.
module _ (checksum : String → String) where
  -- A file with a number and a name, by the file seen with its version and by its content. Every
  -- caller loads the directory `.`, where a file's path is its name; the messages leave out the names
  -- and the numbers that they are made with.
  abbrev read : Entry → ℕ → Text → Option String → Result String → Result (Option Migration)
  read e version name (some file) raw = err (plain "duplicate migration version")
  read e version name none (err x) = err (wrap "read migration" x)
  read e version name none (ok sql) = ok (
      some (record {
        version = version;
        name = trim_suffix name extension;
        path = e.name;
        sql = sql;
        checksum = checksum sql;
      }))

  abbrev numbered : Seen → Entry → Option ℕ → Text → Result (Option Migration)
  numbered seen e none name = err (wrap "parse migration version" (plain "value out of range"))
  numbered seen e (some version) name = read e version name (previous seen version) e.raw

  abbrev matched : Seen → Entry → Option (Text × Text) → Result (Option Migration)
  matched seen e none = ok none
  matched seen e (some (number, name)) = numbered seen e (parse_int number) name

  -- The body of the loop: no migration if the entry is skipped.
  unfoldable pub read_entry : Seen → Entry → Result (Option Migration)
  read_entry seen e = if e.is_dir then ok none else matched seen e (find_submatch (codes e.name))

  unfoldable pub load_entries : List Entry → Seen → Result (List Migration)
  load_entries [] seen = ok []
  load_entries (e ∷ es) seen = and_then (read_entry seen e) λ found. elim found [
    | none ↦ load_entries es seen
    | some m ↦ and_then (load_entries es ((m.version, e.name) ∷ seen)) λ rest. ok (m ∷ rest)
  ]

  -- `Load`, by what `fs.ReadDir` returns
  unfoldable pub load : Result (List Entry) → Result (List Migration)
  unfolding load_entries
  load (err e) = err (wrap "read migrations dir" e)
  load (ok entries) = and_then (load_entries entries []) λ found. ok (order_by before found)

  -- The migration that a file is, by the file's name and content.
  pub record IsMigrationOf (e : Entry) (m : Migration) : Type 0 where
    pub regular : e.is_dir ≡ false
    pub number : Text
    pub named : IsFileName (codes e.name) number m.name
    pub versioned : parse_int number ≡ some m.version
    pub found_at : m.path ≡ e.name
    pub content : e.raw ≡ ok m.sql
    pub summed : m.checksum ≡ checksum m.sql

  -- A file is one migration at most.
  pub IsMigrationOf-unique :
      (e : Entry) (m n : Migration) → IsMigrationOf e m → IsMigrationOf e n → m ≡ n
  IsMigrationOf-unique e m n h k =
      let groups : some (h.number, m.name) ≡ some (k.number, n.name) =
        sym ((find_submatch_iff (codes e.name) h.number m.name).1 h.named)
        ∙ (find_submatch_iff (codes e.name) k.number n.name).1 k.named in
      let number : h.number ≡ k.number = cc groups in
      let version : m.version ≡ n.version = cc (h.versioned, k.versioned, number) in
      let name : m.name ≡ n.name = cc groups in
      let path : m.path ≡ n.path = h.found_at ∙ sym k.found_at in
      let sql : m.sql ≡ n.sql = cc (h.content, k.content) in
      let digest : m.checksum ≡ n.checksum = h.summed ∙ ap checksum sql ∙ sym k.summed in
      λ i. record {
        version = version i;
        name = name i;
        path = path i;
        sql = sql i;
        checksum = digest i;
      }

  read_lem :
      (e : Entry) (number name : Text) (version : ℕ) (seen : Option String) (raw : Result String)
      {m : Option Migration}
      → e.is_dir ≡ false
      → IsFileName (codes e.name) number name
      → parse_int number ≡ some version
      → e.raw ≡ raw
      → read e version name seen raw ≡ ok m
      → (x : Migration) × (m ≡ some x) × (x.version ≡ version) × (seen ≡ none) × IsMigrationOf e x
  read_lem e number name version (some file) raw regular named versioned content h = cc
  read_lem e number name version none (err x) regular named versioned content h = cc
  read_lem e number name version none (ok sql) {m} regular named versioned content h =
      let found : Migration = record {
        version = version;
        name = trim_suffix name extension;
        path = e.name;
        sql = sql;
        checksum = checksum sql;
      } in
      let same : m ≡ some found = cc h in
      (
        found,
        same,
        refl,
        refl,
        record {
          regular = regular;
          number = number;
          named =
              subst (λ n. IsFileName (codes e.name) number n)
                (sym (trim_suffix_name name named.named.1)) named;
          versioned = versioned;
          found_at = refl;
          content = content;
          summed = refl;
        },
      )

  -- What the loop finds for an entry.
  abbrev pub IsFound : Seen → Entry → Option Migration → Type 0
  IsFound seen e none = (m : Migration) → IsMigrationOf e m → ⊥
  IsFound seen e (some m) = (previous seen m.version ≡ none) × IsMigrationOf e m

  numbered_lem :
      (seen : Seen) (e : Entry) (number name : Text) (version : Option ℕ) (m : Option Migration)
      → e.is_dir ≡ false
      → IsFileName (codes e.name) number name
      → parse_int number ≡ version
      → numbered seen e version name ≡ ok m
      → IsFound seen e m
  numbered_lem seen e number name none m regular named versioned h = cc
  numbered_lem seen e number name (some version) m regular named versioned h =
      let (x, same, v, new, source) =
        read_lem e number name version (previous seen version) e.raw regular named versioned refl
          h in
      rw same (rw v new, source)

  matched_lem :
      (seen : Seen) (e : Entry) (groups : Option (Text × Text)) (m : Option Migration)
      → e.is_dir ≡ false
      → find_submatch (codes e.name) ≡ groups
      → matched seen e groups ≡ ok m
      → IsFound seen e m
  matched_lem seen e none m regular found h =
      let same : none ≡ m = cc h in
      subst (IsFound seen e) same (λ x source.
        cc (found, (find_submatch_iff (codes e.name) source.number x.name).1 source.named))
  matched_lem seen e (some (number, name)) m regular found h =
      numbered_lem seen e number name (parse_int number) m regular
        ((find_submatch_iff (codes e.name) number name).0 found) refl h

  entry_lem :
      (seen : Seen) (e : Entry) (is_dir : Bool) (m : Option Migration)
      → e.is_dir ≡ is_dir
      → (if is_dir then ok none else matched seen e (find_submatch (codes e.name))) ≡ ok m
      → IsFound seen e m
  entry_lem seen e true m directory h =
      let same : none ≡ m = cc h in
      subst (IsFound seen e) same (λ x source. cc (directory, source.regular))
  entry_lem seen e false m regular h =
      matched_lem seen e (find_submatch (codes e.name)) m regular refl h

  pub read_entry_lem :
      (seen : Seen) (e : Entry) (m : Option Migration) → read_entry seen e ≡ ok m → IsFound seen e m
  unfolding read_entry
  read_entry_lem seen e m h = entry_lem seen e e.is_dir m refl h
