-- ===== src/Http/Access.antt =====
-- The middleware that logs and counts the requests of the API (httpapi/access.go). The clock is
-- given by its two readings, in nanoseconds; gin's route is empty if none fits.
use Prim.Native.Nat.{◌/◌}
use software_engineering_sch.Base.{
  ℕ, ◌-◌, String, Option, none, some, Bool, not, ◌||◌, List, [], ◌∷◌, ◌++◌, ◌==◌, if◌then◌else◌,
}

-- What the middleware reads of a request after it was handled.
pub record Handled : Type 0 where
  pub path : String
  pub method : String
  pub full_path : String
  pub status : ℕ
  pub started : ℕ
  pub finished : ℕ
  pub request_id : Option String

-- `AccessMetrics`, by which of its two metrics are there.
pub record AccessMetrics : Type 0 where
  pub requests : Bool
  pub duration : Bool

pub data Measure : Type 0 where
  counted : (method route : String) → (status : ℕ) → Measure
  observed : (method route : String) → (elapsed : ℕ) → Measure

-- The entry "request completed".
pub record AccessEntry : Type 0 where
  pub method : String
  pub route : String
  pub status : ℕ
  pub duration_ms : ℕ
  pub request_id : Option String

abbrev when_there : Bool → Measure → List Measure
when_there there m = if there then m ∷ [] else []

unfoldable measures : Option AccessMetrics → Measure → Measure → List Measure
measures none count duration = []
measures (some m) count duration = when_there m.requests count ++ when_there m.duration duration

unfoldable route_of : String → String
route_of full_path = if full_path == "" then "unmatched" else full_path

-- `strings.HasPrefix` is a parameter. A path outside the API leaves no trace.
unfoldable pub access :
    (has_prefix : String → String → Bool)
    → Option AccessMetrics
    → Handled
    → List Measure × Option AccessEntry
unfolding measures route_of
access has_prefix metrics h =
    if not (h.path == "/api" || has_prefix h.path "/api/")
    then ([], none)
    else let route = route_of h.full_path in
      let elapsed = h.finished - h.started in
      (
        measures metrics (counted h.method route h.status) (observed h.method route elapsed),
        some (record {
          method = h.method;
          route = route;
          status = h.status;
          duration_ms = elapsed / 1_000_000;
          request_id = h.request_id;
        }),
      )
