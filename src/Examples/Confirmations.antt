-- ===== src/Examples/Confirmations.antt =====
-- Examples for the confirmations that come from one service to the other.
use software_engineering_sch.Base.{String, []}
use software_engineering_sch.Db.{World}
use software_engineering_sch.Subscription.Publisher.{Hashing}
use software_engineering_sch.Delivery.Repository.{DeliveryTables}
use software_engineering_sch.Examples.Values.{world}

-- Every text has one digest.
abbrev pub hashing : Hashing
hashing = record { trim_space = λ s. s; to_lower = λ s. s; sha256_hex_12 = λ s. "0123456789ab" }

abbrev base_url : String
base_url = "https://subber.example"

abbrev no_deliveries : World DeliveryTables
no_deliveries = world [] []
