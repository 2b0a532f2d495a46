-- ===== src/Json.antt =====
-- JSON values as encoding/json writes and reads them for the contracts' structs
-- (pkg/contracts/events.go). A message body is the text of a value or text that is no JSON.
use software_engineering_sch.Base.{Bool, false, ℕ, String, Option, none, some, ◌==◌, if◌then◌else◌}

mutual
  pub data Json : Type 0 where
    null : Json
    num : ℕ → Json
    bool : Bool → Json
    str : String → Json
    instant : ℕ → Json  -- a time.Time, which is written as an RFC 3339 text
    base64 : Bytes → Json  -- a []byte, which is written as a base64 text
    obj : Fields → Json

  pub data Fields : Type 0 where
    end : Fields
    field : String → Json → Fields → Fields

  pub data Bytes : Type 0 where
    encoded : Json → Bytes
    malformed : String → Bytes

-- The value of a key; of a key that is repeated, the last.
unfoldable pub lookup : String → Fields → Option Json
lookup key end = none
lookup key (field k v rest) = elim (lookup key rest) [
  | some later ↦ some later
  | none ↦ if k == key then some v else none
]

-- What a field of a struct becomes: an absent or null value leaves the zero value, and a value of
-- another type is an error.
abbrev pub read_string : Option Json → Option String
read_string none = some ""
read_string (some null) = some ""
read_string (some (str s)) = some s
read_string (some _) = none

abbrev pub read_bool : Option Json → Option Bool
read_bool none = some false
read_bool (some null) = some false
read_bool (some (bool b)) = some b
read_bool (some _) = none

abbrev pub read_instant : Option Json → Option ℕ
read_instant none = some 0
read_instant (some null) = some 0
read_instant (some (instant t)) = some t
read_instant (some _) = none

abbrev pub read_optional_instant : Option Json → Option (Option ℕ)
read_optional_instant none = some none
read_optional_instant (some null) = some none
read_optional_instant (some (instant t)) = some (some t)
read_optional_instant (some _) = none

-- Whether the text is JSON, `json.Valid`.
abbrev pub is_json : Bytes → Option Json
is_json (encoded j) = some j
is_json (malformed s) = none

-- A string field with the option `omitempty`.
unfoldable pub field_omitempty : String → String → Fields → Fields
field_omitempty key value rest = if value == "" then rest else field key (str value) rest

-- The next field, if this one was read.
abbrev pub and_then {ℓ κ} : {A : Type ℓ} {B : Type κ} → Option A → (A → Option B) → Option B
and_then none f = none
and_then (some a) f = f a
