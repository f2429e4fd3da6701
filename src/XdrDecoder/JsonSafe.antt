-- ===== src/XdrDecoder/JsonSafe.antt =====
-- What the decoders make of any value: indexer/services/xdr-decoder.service.ts.
use stellar_insured_backend.XdrDecoder.{
  Fields, Value, bool, codes, is_empty, number, string, undefined,
}
use stellar_insured_backend.XdrDecoder.Members.{Record}
use stellar_insured_backend.XdrDecoder.EventTypes.{
  ContractEventType, asset_unwrapped, asset_wrapped, badge_earned, bridge_deposit,
  bridge_initialized, bridge_paused, bridge_tx_confirmed, bridge_tx_failed, bridge_unpaused,
  bridge_withdraw, contract_paused, contract_resumed, contribution_made, dividend_claimed,
  escrow_initialized, funds_locked, funds_released, milestone_approved, milestone_completed,
  milestone_created, milestone_rejected, milestone_submitted, payment_failed, payment_received,
  payment_setup, payment_withdrawn, profit_distributed, project_completed, project_created,
  project_failed, project_funded, proposal_created, proposal_executed, refund_issued, relayer_added,
  relayer_removed, reputation_updated, subscription_cancelled, subscription_created,
  subscription_modified, subscription_paused, subscription_payment, subscription_resumed,
  supported_chain_added, supported_chain_removed, symbol_of, upgrade_cancelled, upgrade_executed,
  upgrade_scheduled, user_registered, validators_updated, vote_cast,
}
use stellar_insured_backend.XdrDecoder.ProjectEvents.{
  decode_contribution_made, decode_escrow_initialized, decode_funds_locked, decode_funds_released,
  decode_milestone_approved, decode_milestone_completed, decode_milestone_created,
  decode_milestone_rejected, decode_milestone_submitted, decode_project_created,
  decode_project_funded, decode_project_status, decode_refund_issued, decode_validators_updated,
}
use stellar_insured_backend.XdrDecoder.MemberEvents.{
  decode_badge_earned, decode_dividend_claimed, decode_payment_failed, decode_payment_received,
  decode_payment_setup, decode_payment_withdrawn, decode_profit_distributed,
  decode_proposal_created, decode_proposal_executed, decode_reputation_updated,
  decode_subscription_created, decode_subscription_modified, decode_subscription_payment,
  decode_subscription_status, decode_user_registered, decode_vote_cast,
}
use stellar_insured_backend.XdrDecoder.BridgeEvents.{
  decode_asset_unwrapped, decode_asset_wrapped, decode_bridge_deposit, decode_bridge_initialized,
  decode_bridge_lifecycle, decode_bridge_tx, decode_bridge_withdraw, decode_chain_added,
  decode_chain_removed, decode_contract_lifecycle, decode_relayer, decode_upgrade,
}
use stellar_insured_backend.XdrDecoder.Decode.{decoders, read}
use stellar_insured_backend.Prelude.{[], false, refl, ◌∷◌, ◌≡◌}

-- A value that JSON keeps: no bigint, no address and no buffer.
abbrev pub IsJson : Value → Type 0
IsJson (bool b) = Unit
IsJson (number z) = Unit
IsJson (string s) = Unit
IsJson _ = ⊥

abbrev pub AllJson : Record → Type 0
AllJson [] = Unit
AllJson ((k, v) ∷ r) = IsJson v × AllJson r

-- A decoder never writes the marker of a quarantined payload.
pub decoders-AllJson :
    (t : ContractEventType) (o : Fields)
    → AllJson (decoders t o) × (read (decoders t o) (codes "_quarantined") ≡ undefined)
unfolding decoders decode_asset_unwrapped decode_asset_wrapped decode_badge_earned
    decode_bridge_deposit decode_bridge_initialized decode_bridge_lifecycle decode_bridge_tx
    decode_bridge_withdraw decode_chain_added decode_chain_removed decode_contract_lifecycle
    decode_contribution_made decode_dividend_claimed decode_escrow_initialized decode_funds_locked
    decode_funds_released decode_milestone_approved decode_milestone_completed
    decode_milestone_created decode_milestone_rejected decode_milestone_submitted
    decode_payment_failed decode_payment_received decode_payment_setup decode_payment_withdrawn
    decode_profit_distributed decode_project_created decode_project_funded decode_project_status
    decode_proposal_created decode_proposal_executed decode_refund_issued decode_relayer
    decode_reputation_updated decode_subscription_created decode_subscription_modified
    decode_subscription_payment decode_subscription_status decode_upgrade decode_user_registered
    decode_validators_updated decode_vote_cast
decoders-AllJson project_created o = ((tt, (tt, (tt, (tt, (tt, tt))))), refl)
decoders-AllJson project_funded o = ((tt, (tt, (tt, tt))), refl)
decoders-AllJson project_completed o = ((tt, (tt, tt)), refl)
decoders-AllJson project_failed o = ((tt, (tt, tt)), refl)
decoders-AllJson contribution_made o = ((tt, (tt, (tt, (tt, tt)))), refl)
decoders-AllJson refund_issued o = ((tt, (tt, (tt, tt))), refl)
decoders-AllJson escrow_initialized o = ((tt, (tt, (tt, tt))), refl)
decoders-AllJson funds_locked o = ((tt, (tt, (tt, tt))), refl)
decoders-AllJson funds_released o = ((tt, (tt, (tt, tt))), refl)
decoders-AllJson milestone_created o = ((tt, (tt, (tt, tt))), refl)
decoders-AllJson milestone_submitted o = ((tt, (tt, (tt, tt))), refl)
decoders-AllJson milestone_approved o = ((tt, (tt, (tt, tt))), refl)
decoders-AllJson milestone_rejected o = ((tt, (tt, (tt, tt))), refl)
decoders-AllJson milestone_completed o = ((tt, (tt, tt)), refl)
decoders-AllJson validators_updated o = ((tt, (tt, tt)), refl)
decoders-AllJson profit_distributed o = ((tt, (tt, (tt, tt))), refl)
decoders-AllJson dividend_claimed o = ((tt, (tt, (tt, tt))), refl)
decoders-AllJson proposal_created o = ((tt, (tt, (tt, tt))), refl)
decoders-AllJson vote_cast o = ((tt, (tt, (tt, tt))), refl)
decoders-AllJson proposal_executed o = ((tt, (tt, tt)), refl)
decoders-AllJson user_registered o = ((tt, tt), refl)
decoders-AllJson reputation_updated o = ((tt, (tt, (tt, tt))), refl)
decoders-AllJson badge_earned o = ((tt, (tt, tt)), refl)
decoders-AllJson payment_setup o = ((tt, (tt, (tt, tt))), refl)
decoders-AllJson payment_received o = ((tt, (tt, tt)), refl)
decoders-AllJson payment_withdrawn o = ((tt, (tt, (tt, tt))), refl)
decoders-AllJson subscription_created o = ((tt, (tt, (tt, (tt, tt)))), refl)
decoders-AllJson subscription_cancelled o = ((tt, (tt, tt)), refl)
decoders-AllJson subscription_modified o = ((tt, (tt, (tt, tt))), refl)
decoders-AllJson subscription_paused o = ((tt, (tt, tt)), refl)
decoders-AllJson subscription_resumed o = ((tt, (tt, tt)), refl)
decoders-AllJson payment_failed o = ((tt, (tt, tt)), refl)
decoders-AllJson subscription_payment o = ((tt, (tt, tt)), refl)
decoders-AllJson bridge_initialized o = ((tt, (tt, tt)), refl)
decoders-AllJson supported_chain_added o = ((tt, (tt, tt)), refl)
decoders-AllJson supported_chain_removed o = ((tt, tt), refl)
decoders-AllJson asset_wrapped o = ((tt, (tt, (tt, tt))), refl)
decoders-AllJson asset_unwrapped o = ((tt, (tt, tt)), refl)
decoders-AllJson bridge_deposit o = ((tt, (tt, (tt, tt))), refl)
decoders-AllJson bridge_withdraw o = ((tt, (tt, (tt, tt))), refl)
decoders-AllJson bridge_paused o = ((tt, tt), refl)
decoders-AllJson bridge_unpaused o = ((tt, tt), refl)
decoders-AllJson relayer_added o = ((tt, tt), refl)
decoders-AllJson relayer_removed o = ((tt, tt), refl)
decoders-AllJson bridge_tx_confirmed o = ((tt, (tt, tt)), refl)
decoders-AllJson bridge_tx_failed o = ((tt, (tt, tt)), refl)
decoders-AllJson contract_paused o = ((tt, tt), refl)
decoders-AllJson contract_resumed o = ((tt, tt), refl)
decoders-AllJson upgrade_scheduled o = ((tt, (tt, tt)), refl)
decoders-AllJson upgrade_executed o = ((tt, (tt, tt)), refl)
decoders-AllJson upgrade_cancelled o = ((tt, (tt, tt)), refl)

pub symbol_of-nonempty : (t : ContractEventType) → is_empty (symbol_of t) ≡ false
unfolding symbol_of
symbol_of-nonempty project_created = refl
symbol_of-nonempty project_funded = refl
symbol_of-nonempty project_completed = refl
symbol_of-nonempty project_failed = refl
symbol_of-nonempty contribution_made = refl
symbol_of-nonempty refund_issued = refl
symbol_of-nonempty escrow_initialized = refl
symbol_of-nonempty funds_locked = refl
symbol_of-nonempty funds_released = refl
symbol_of-nonempty milestone_created = refl
symbol_of-nonempty milestone_submitted = refl
symbol_of-nonempty milestone_approved = refl
symbol_of-nonempty milestone_rejected = refl
symbol_of-nonempty milestone_completed = refl
symbol_of-nonempty validators_updated = refl
symbol_of-nonempty profit_distributed = refl
symbol_of-nonempty dividend_claimed = refl
symbol_of-nonempty proposal_created = refl
symbol_of-nonempty vote_cast = refl
symbol_of-nonempty proposal_executed = refl
symbol_of-nonempty user_registered = refl
symbol_of-nonempty reputation_updated = refl
symbol_of-nonempty badge_earned = refl
symbol_of-nonempty payment_setup = refl
symbol_of-nonempty payment_received = refl
symbol_of-nonempty payment_withdrawn = refl
symbol_of-nonempty subscription_created = refl
symbol_of-nonempty subscription_cancelled = refl
symbol_of-nonempty subscription_modified = refl
symbol_of-nonempty subscription_paused = refl
symbol_of-nonempty subscription_resumed = refl
symbol_of-nonempty payment_failed = refl
symbol_of-nonempty subscription_payment = refl
symbol_of-nonempty bridge_initialized = refl
symbol_of-nonempty supported_chain_added = refl
symbol_of-nonempty supported_chain_removed = refl
symbol_of-nonempty asset_wrapped = refl
symbol_of-nonempty asset_unwrapped = refl
symbol_of-nonempty bridge_deposit = refl
symbol_of-nonempty bridge_withdraw = refl
symbol_of-nonempty bridge_paused = refl
symbol_of-nonempty bridge_unpaused = refl
symbol_of-nonempty relayer_added = refl
symbol_of-nonempty relayer_removed = refl
symbol_of-nonempty bridge_tx_confirmed = refl
symbol_of-nonempty bridge_tx_failed = refl
symbol_of-nonempty contract_paused = refl
symbol_of-nonempty contract_resumed = refl
symbol_of-nonempty upgrade_scheduled = refl
symbol_of-nonempty upgrade_executed = refl
symbol_of-nonempty upgrade_cancelled = refl
