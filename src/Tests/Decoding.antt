-- ===== src/Tests/Decoding.antt =====
-- Payloads that decode: indexer/services/xdr-decoder.service.ts.
use stellar_insured_backend.Prelude.{[], arith, false, refl, some, true, ℕ, ◌+◌, ◌↔◌, ◌∷◌, ◌≡◌}
use stellar_insured_backend.Prelude.Int.{negsuc, pos}
use stellar_insured_backend.XdrDecoder.{
  Text, Value, big_str, bigint, codes, int_text, member, no_fields, num, object, string,
}
use stellar_insured_backend.XdrDecoder.EventTypes.{ContractEventType, symbol_of}
use stellar_insured_backend.XdrDecoder.Decode.{
  ParsedContractEvent, SorobanEvent, Thrown, gave, parse_event, threw,
}
use stellar_insured_backend.XdrDecoder.Printed.{decoder_throws}
use stellar_insured_backend.XdrDecoder.JsonSafe.{AllJson}
use stellar_insured_backend.XdrDecoder.Numbers.{num_collides, num_exact}
use stellar_insured_backend.XdrDecoder.Parsing.{Readable, parse_event_lem}

-- A conversion that refuses the empty text, and one that gives a map of one member.
abbrev from_xdr : Text → Thrown ℕ
from_xdr [] = threw (codes "empty")
from_xdr (c ∷ s) = gave c

abbrev to_native : ℕ → Thrown Value
to_native n = gave (object (member (codes "Project_Id") (bigint (pos n)) no_fields))

abbrev event : SorobanEvent
event = record {
  id = 4;
  ledger = 9;
  ledger_closed_at = 20;
  contract_id = 2;
  topic = symbol_of ContractEventType.project_completed ∷ [];
  value = codes "7";
  tx_hash = 77;
}

parse_event_lem_example :
    (p : ParsedContractEvent) × (parse_event from_xdr to_native event ≡ some p)
    × (p.event_type ≡ ContractEventType.project_completed)
    × (p.event_id ≡ 4)
    × AllJson p.fields
    × ((p.quarantined ≡ false)
        ↔ Readable from_xdr to_native ContractEventType.project_completed (codes "7"))
parse_event_lem_example =
    parse_event_lem from_xdr to_native event ContractEventType.project_completed [] refl

-- A status that is a map with a member toString is quarantined.
abbrev to_unprintable : ℕ → Thrown Value
to_unprintable n = gave (
    object (
      member (codes "status") (object (member (codes "toString") (bigint (pos n)) no_fields))
        no_fields))

shape_mismatch_run :
    (p : ParsedContractEvent) × (parse_event from_xdr to_unprintable event ≡ some p)
    × (p.quarantined ≡ true)
unfolding parse_event decoder_throws
shape_mismatch_run = (_, refl, refl)

num_exact_example :
    (num (bigint (negsuc 41)) ≡ negsuc 41)
    × (num (string (int_text (negsuc 41))) ≡ negsuc 41)
    × (big_str (bigint (negsuc 41)) ≡ int_text (negsuc 41))
num_exact_example = num_exact (negsuc 41) (omega arith)

-- 2 ^ 53 and the next number.
num_collides_example :
    num (bigint (pos (9007199254740992 + 1))) ≡ num (bigint (pos 9007199254740992))
num_collides_example = num_collides 9007199254740992 (omega arith) (omega arith) refl
