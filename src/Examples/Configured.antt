-- ===== src/Examples/Configured.antt =====
-- The configuration on a concrete environment.
use software_engineering_sch.Base.{[], ◌∷◌, none, some, ◌==◌, if◌then◌else◌, pos, ◌≡◌, refl}
use software_engineering_sch.Config.Env.{Variables, Parsers, string, csv, duration_list}

abbrev parsers : Parsers
parsers = record {
  parse_bool = λ raw. none;
  atoi = λ raw. none;
  parse_duration = λ raw. if raw == "1ns" then some (pos 1) else none;
  split_commas = λ raw.
      if raw == "kafka:9092, ,other:9092"
      then "kafka:9092" ∷ " " ∷ "other:9092" ∷ []
      else if raw == "1ns,soon"
      then "1ns" ∷ "soon" ∷ []
      else raw ∷ [];
  trim_space = λ text. if text == " " then "" else text;
}

abbrev variables : Variables
variables key =
    if key == "KAFKA_BROKERS"
    then some "kafka:9092, ,other:9092"
    else if key == "DELAYS"
    then some "1ns,soon"
    else if key == "UNREADABLE"
    then some "soon"
    else none

blank_parts_dropped : csv parsers variables "KAFKA_BROKERS" "" ≡ "kafka:9092" ∷ "other:9092" ∷ []
unfolding csv string
blank_parts_dropped = refl

unread_parts_dropped : duration_list parsers variables "DELAYS" [] ≡ pos 1 ∷ []
unfolding duration_list
unread_parts_dropped = refl

unread_list_replaced : duration_list parsers variables "UNREADABLE" (pos 7 ∷ []) ≡ pos 7 ∷ []
unfolding duration_list
unread_list_replaced = refl
