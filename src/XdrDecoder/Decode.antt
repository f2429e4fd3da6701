-- ===== src/XdrDecoder/Decode.antt =====
-- Decoding and parsing an event: decode of indexer/services/xdr-decoder.service.ts and parseEvent of
-- indexer.service.ts. The two conversions of stellar-sdk are arguments, which give a value or throw a
-- message. Each type of event has a decoder, so that the payload is never stored as it is.
use stellar_insured_backend.Prelude.{
  Bool, List, Option, [], false, if◌then◌else◌, none, not, some, true, ℕ, ◌++◌, ◌∷◌,
}
use stellar_insured_backend.XdrDecoder.{
  Text, Value, as_object, bigint, bool, codes, is_empty, is_zero, null, number, string, text_eq,
  undefined,
}
use stellar_insured_backend.XdrDecoder.Members.{Decoder, Record}
use stellar_insured_backend.XdrDecoder.Printed.{decoder_throws}
use stellar_insured_backend.XdrDecoder.EventTypes.{
  ContractEventType, asset_unwrapped, asset_wrapped, badge_earned, bridge_deposit,
  bridge_initialized, bridge_paused, bridge_tx_confirmed, bridge_tx_failed, bridge_unpaused,
  bridge_withdraw, contract_paused, contract_resumed, contribution_made, dividend_claimed,
  escrow_initialized, funds_locked, funds_released, milestone_approved, milestone_completed,
  milestone_created, milestone_rejected, milestone_submitted, parse_event_type, payment_failed,
  payment_received, payment_setup, payment_withdrawn, profit_distributed, project_completed,
  project_created, project_failed, project_funded, proposal_created, proposal_executed,
  refund_issued, relayer_added, relayer_removed, reputation_updated, subscription_cancelled,
  subscription_created, subscription_modified, subscription_paused, subscription_payment,
  subscription_resumed, supported_chain_added, supported_chain_removed, upgrade_cancelled,
  upgrade_executed, upgrade_scheduled, user_registered, validators_updated, vote_cast,
}
use stellar_insured_backend.XdrDecoder.ProjectEvents.{
  decode_contribution_made, decode_escrow_initialized, decode_funds_locked, decode_funds_released,
  decode_milestone_approved, decode_milestone_completed, decode_milestone_created,
  decode_milestone_rejected, decode_milestone_submitted, decode_project_created,
  decode_project_funded, decode_project_status, decode_refund_issued, decode_validators_updated,
}
use stellar_insured_backend.XdrDecoder.MemberEvents.{
  decode_badge_earned, decode_dividend_claimed, decode_payment_failed, decode_payment_received,
  decode_payment_setup, decode_payment_withdrawn, decode_profit_distributed,
  decode_proposal_created, decode_proposal_executed, decode_reputation_updated,
  decode_subscription_created, decode_subscription_modified, decode_subscription_payment,
  decode_subscription_status, decode_user_registered, decode_vote_cast,
}
use stellar_insured_backend.XdrDecoder.BridgeEvents.{
  decode_asset_unwrapped, decode_asset_wrapped, decode_bridge_deposit, decode_bridge_initialized,
  decode_bridge_lifecycle, decode_bridge_tx, decode_bridge_withdraw, decode_chain_added,
  decode_chain_removed, decode_contract_lifecycle, decode_relayer, decode_upgrade,
}

pub data Thrown (A : Type 0) : Type 0 where
  threw : Text → Thrown A
  gave : A → Thrown A

pub record DecodedEvent : Type 0 where
  pub fields : Record
  pub raw_xdr : Text

unfoldable pub decoders : ContractEventType → Decoder
decoders project_created = decode_project_created
decoders project_funded = decode_project_funded
decoders project_completed = decode_project_status
decoders project_failed = decode_project_status
decoders contribution_made = decode_contribution_made
decoders refund_issued = decode_refund_issued
decoders escrow_initialized = decode_escrow_initialized
decoders funds_locked = decode_funds_locked
decoders funds_released = decode_funds_released
decoders milestone_created = decode_milestone_created
decoders milestone_submitted = decode_milestone_submitted
decoders milestone_approved = decode_milestone_approved
decoders milestone_rejected = decode_milestone_rejected
decoders milestone_completed = decode_milestone_completed
decoders validators_updated = decode_validators_updated
decoders profit_distributed = decode_profit_distributed
decoders dividend_claimed = decode_dividend_claimed
decoders proposal_created = decode_proposal_created
decoders vote_cast = decode_vote_cast
decoders proposal_executed = decode_proposal_executed
decoders user_registered = decode_user_registered
decoders reputation_updated = decode_reputation_updated
decoders badge_earned = decode_badge_earned
decoders payment_setup = decode_payment_setup
decoders payment_received = decode_payment_received
decoders payment_withdrawn = decode_payment_withdrawn
decoders subscription_created = decode_subscription_created
decoders subscription_cancelled = decode_subscription_status
decoders subscription_modified = decode_subscription_modified
decoders subscription_paused = decode_subscription_status
decoders subscription_resumed = decode_subscription_status
decoders payment_failed = decode_payment_failed
decoders subscription_payment = decode_subscription_payment
decoders bridge_initialized = decode_bridge_initialized
decoders supported_chain_added = decode_chain_added
decoders supported_chain_removed = decode_chain_removed
decoders asset_wrapped = decode_asset_wrapped
decoders asset_unwrapped = decode_asset_unwrapped
decoders bridge_deposit = decode_bridge_deposit
decoders bridge_withdraw = decode_bridge_withdraw
decoders bridge_paused = decode_bridge_lifecycle
decoders bridge_unpaused = decode_bridge_lifecycle
decoders relayer_added = decode_relayer
decoders relayer_removed = decode_relayer
decoders bridge_tx_confirmed = decode_bridge_tx
decoders bridge_tx_failed = decode_bridge_tx
decoders contract_paused = decode_contract_lifecycle
decoders contract_resumed = decode_contract_lifecycle
decoders upgrade_scheduled = decode_upgrade
decoders upgrade_executed = decode_upgrade
decoders upgrade_cancelled = decode_upgrade

abbrev pub read : Record → Text → Value
read [] k = undefined
read ((j, v) ∷ r) k = if text_eq j k then v else read r k

-- `!!value`.
abbrev pub truthy : Value → Bool
truthy undefined = false
truthy null = false
truthy (bool b) = b
truthy (number z) = not (is_zero z)
truthy (bigint z) = not (is_zero z)
truthy (string s) = not (is_empty s)
truthy _ = true

unfoldable pub quarantine : Text → Text → DecodedEvent
quarantine raw reason = record {
  fields =
      (codes "_quarantined", bool true)
      ∷ (codes "_quarantineReason", string reason)
      ∷ (codes "rawXdr", string raw)
      ∷ [];
  raw_xdr = raw;
}

pub record SorobanEvent : Type 0 where
  pub id : ℕ
  pub ledger : ℕ
  pub ledger_closed_at : ℕ
  pub contract_id : ℕ
  pub topic : List Text
  pub value : Text
  pub tx_hash : ℕ

pub record ParsedContractEvent : Type 0 where
  pub event_id : ℕ
  pub ledger_seq : ℕ
  pub ledger_closed_at : ℕ
  pub contract_id : ℕ
  pub event_type : ContractEventType
  pub transaction_hash : ℕ
  pub fields : Record
  pub quarantined : Bool

module _ {ScVal : Type 0} (from_xdr : Text → Thrown ScVal)
    (sc_val_to_native : ScVal → Thrown Value) where
  unfoldable pub decode : Text → ContractEventType → DecodedEvent
  unfolding quarantine decoders decoder_throws
  decode raw type = elim (from_xdr raw) [
    | threw message ↦ quarantine raw (codes "invalid_xdr: " ++ message)
    | gave sc_val ↦ elim (sc_val_to_native sc_val) [
      | threw message ↦ quarantine raw (codes "undecodable_scval: " ++ message)
      | gave native ↦
          if decoder_throws type (as_object native)
          then quarantine raw
              (codes "shape_mismatch: " ++ codes "Cannot convert object to primitive value")
          else record { fields = decoders type (as_object native); raw_xdr = raw }
    ]
  ]

  abbrev pub parsed_as : SorobanEvent → ContractEventType → ParsedContractEvent
  parsed_as event type =
      let decoded = decode event.value type in
      record {
        event_id = event.id;
        ledger_seq = event.ledger;
        ledger_closed_at = event.ledger_closed_at;
        contract_id = event.contract_id;
        event_type = type;
        transaction_hash = event.tx_hash;
        fields = decoded.fields;
        quarantined = truthy (read decoded.fields (codes "_quarantined"));
      }

  abbrev pub parse_as : SorobanEvent → Option ContractEventType → Option ParsedContractEvent
  parse_as event none = none
  parse_as event (some type) = some (parsed_as event type)

  abbrev pub parse_topic : SorobanEvent → List Text → Option ParsedContractEvent
  parse_topic event [] = none
  parse_topic event (symbol ∷ topics) =
      if is_empty symbol then none else parse_as event (parse_event_type symbol)

  unfoldable pub parse_event : SorobanEvent → Option ParsedContractEvent
  unfolding decode parse_event_type
  parse_event event = parse_topic event event.topic
