-- ===== src/Contracts/Codec/RoundTrip.antt =====
-- What one service marshals, another unmarshals to the same event.
use software_engineering_sch.Base.{some, ◌≡◌, arith}
use software_engineering_sch.Contracts.{Envelope}
use software_engineering_sch.Contracts.Codec.{Codec, marshal, unmarshal}

-- Decoding an encoded event gives the event back, whatever its payload type, with or without a
-- `not_before`.
pub unmarshal-marshal : {P : Type 0} ⦃c : Codec P⦄ (e : Envelope P) → unmarshal (marshal e) ≡ some e
unfolding unmarshal marshal
unmarshal-marshal ⦃c⦄ e = ground (arith, c.read-write e.payload)
