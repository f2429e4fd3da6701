-- ===== src/XdrDecoder/EventTypes.antt =====
-- The types of contract events: indexer/types/event-types.ts and parseEventType of
-- indexer/services/indexer.service.ts.
use stellar_insured_backend.Prelude.{List, Option, [], if◌then◌else◌, none, refl, some, ◌∷◌, ◌≡◌}
use stellar_insured_backend.XdrDecoder.{Text, codes, text_eq}

pub data ContractEventType : Type 0 where
  project_created project_funded project_completed project_failed : ContractEventType
  contribution_made refund_issued escrow_initialized funds_locked : ContractEventType
  funds_released milestone_created milestone_submitted milestone_approved : ContractEventType
  milestone_rejected milestone_completed validators_updated profit_distributed : ContractEventType
  dividend_claimed proposal_created vote_cast proposal_executed : ContractEventType
  user_registered reputation_updated badge_earned payment_setup : ContractEventType
  payment_received payment_withdrawn subscription_created subscription_cancelled : ContractEventType
  subscription_modified subscription_paused subscription_resumed payment_failed : ContractEventType
  subscription_payment bridge_initialized supported_chain_added supported_chain_removed :
      ContractEventType
  asset_wrapped asset_unwrapped bridge_deposit bridge_withdraw : ContractEventType
  bridge_paused bridge_unpaused relayer_added relayer_removed : ContractEventType
  bridge_tx_confirmed bridge_tx_failed contract_paused contract_resumed : ContractEventType
  upgrade_scheduled upgrade_executed upgrade_cancelled : ContractEventType

-- The values of the enum.
unfoldable pub symbol_of : ContractEventType → Text
symbol_of project_created = codes "proj_new"
symbol_of project_funded = codes "proj_fund"
symbol_of project_completed = codes "proj_done"
symbol_of project_failed = codes "proj_fail"
symbol_of contribution_made = codes "contrib"
symbol_of refund_issued = codes "refund"
symbol_of escrow_initialized = codes "esc_init"
symbol_of funds_locked = codes "lock"
symbol_of funds_released = codes "release"
symbol_of milestone_created = codes "m_create"
symbol_of milestone_submitted = codes "m_submit"
symbol_of milestone_approved = codes "m_apprv"
symbol_of milestone_rejected = codes "m_reject"
symbol_of milestone_completed = codes "milestone"
symbol_of validators_updated = codes "v_update"
symbol_of profit_distributed = codes "profit"
symbol_of dividend_claimed = codes "claim"
symbol_of proposal_created = codes "proposal"
symbol_of vote_cast = codes "vote"
symbol_of proposal_executed = codes "execute"
symbol_of user_registered = codes "user_reg"
symbol_of reputation_updated = codes "rep_up"
symbol_of badge_earned = codes "badge"
symbol_of payment_setup = codes "pay_setup"
symbol_of payment_received = codes "pay_recv"
symbol_of payment_withdrawn = codes "pay_withd"
symbol_of subscription_created = codes "subscr"
symbol_of subscription_cancelled = codes "sub_cancl"
symbol_of subscription_modified = codes "sub_mod"
symbol_of subscription_paused = codes "sub_pause"
symbol_of subscription_resumed = codes "sub_resum"
symbol_of payment_failed = codes "pay_fail"
symbol_of subscription_payment = codes "deposit"
symbol_of bridge_initialized = codes "br_init"
symbol_of supported_chain_added = codes "chain_add"
symbol_of supported_chain_removed = codes "chain_rem"
symbol_of asset_wrapped = codes "wrap"
symbol_of asset_unwrapped = codes "unwrap"
symbol_of bridge_deposit = codes "br_dep"
symbol_of bridge_withdraw = codes "br_wdraw"
symbol_of bridge_paused = codes "br_pause"
symbol_of bridge_unpaused = codes "br_res"
symbol_of relayer_added = codes "rel_add"
symbol_of relayer_removed = codes "rel_rem"
symbol_of bridge_tx_confirmed = codes "tx_conf"
symbol_of bridge_tx_failed = codes "tx_fail"
symbol_of contract_paused = codes "esc_pause"
symbol_of contract_resumed = codes "esc_resum"
symbol_of upgrade_scheduled = codes "upg_sched"
symbol_of upgrade_executed = codes "upg_exec"
symbol_of upgrade_cancelled = codes "upg_canc"

abbrev pub all_types : List ContractEventType
all_types =
    project_created ∷ project_funded ∷ project_completed ∷ project_failed ∷ contribution_made
    ∷ refund_issued ∷ escrow_initialized ∷ funds_locked ∷ funds_released ∷ milestone_created
    ∷ milestone_submitted ∷ milestone_approved ∷ milestone_rejected ∷ milestone_completed
    ∷ validators_updated ∷ profit_distributed ∷ dividend_claimed ∷ proposal_created ∷ vote_cast
    ∷ proposal_executed ∷ user_registered ∷ reputation_updated ∷ badge_earned ∷ payment_setup
    ∷ payment_received ∷ payment_withdrawn ∷ subscription_created ∷ subscription_cancelled
    ∷ subscription_modified ∷ subscription_paused ∷ subscription_resumed ∷ payment_failed
    ∷ subscription_payment ∷ bridge_initialized ∷ supported_chain_added ∷ supported_chain_removed
    ∷ asset_wrapped ∷ asset_unwrapped ∷ bridge_deposit ∷ bridge_withdraw ∷ bridge_paused
    ∷ bridge_unpaused ∷ relayer_added ∷ relayer_removed ∷ bridge_tx_confirmed ∷ bridge_tx_failed
    ∷ contract_paused ∷ contract_resumed ∷ upgrade_scheduled ∷ upgrade_executed ∷ upgrade_cancelled
    ∷ []

abbrev pub with_symbol : Text → List ContractEventType → Option ContractEventType
with_symbol s [] = none
with_symbol s (t ∷ ts) = if text_eq (symbol_of t) s then some t else with_symbol s ts

unfoldable pub parse_event_type : Text → Option ContractEventType
unfolding symbol_of
parse_event_type s = with_symbol s all_types

pub parse_event_type-symbol_of : (t : ContractEventType) → parse_event_type (symbol_of t) ≡ some t
unfolding parse_event_type symbol_of
parse_event_type-symbol_of project_created = refl
parse_event_type-symbol_of project_funded = refl
parse_event_type-symbol_of project_completed = refl
parse_event_type-symbol_of project_failed = refl
parse_event_type-symbol_of contribution_made = refl
parse_event_type-symbol_of refund_issued = refl
parse_event_type-symbol_of escrow_initialized = refl
parse_event_type-symbol_of funds_locked = refl
parse_event_type-symbol_of funds_released = refl
parse_event_type-symbol_of milestone_created = refl
parse_event_type-symbol_of milestone_submitted = refl
parse_event_type-symbol_of milestone_approved = refl
parse_event_type-symbol_of milestone_rejected = refl
parse_event_type-symbol_of milestone_completed = refl
parse_event_type-symbol_of validators_updated = refl
parse_event_type-symbol_of profit_distributed = refl
parse_event_type-symbol_of dividend_claimed = refl
parse_event_type-symbol_of proposal_created = refl
parse_event_type-symbol_of vote_cast = refl
parse_event_type-symbol_of proposal_executed = refl
parse_event_type-symbol_of user_registered = refl
parse_event_type-symbol_of reputation_updated = refl
parse_event_type-symbol_of badge_earned = refl
parse_event_type-symbol_of payment_setup = refl
parse_event_type-symbol_of payment_received = refl
parse_event_type-symbol_of payment_withdrawn = refl
parse_event_type-symbol_of subscription_created = refl
parse_event_type-symbol_of subscription_cancelled = refl
parse_event_type-symbol_of subscription_modified = refl
parse_event_type-symbol_of subscription_paused = refl
parse_event_type-symbol_of subscription_resumed = refl
parse_event_type-symbol_of payment_failed = refl
parse_event_type-symbol_of subscription_payment = refl
parse_event_type-symbol_of bridge_initialized = refl
parse_event_type-symbol_of supported_chain_added = refl
parse_event_type-symbol_of supported_chain_removed = refl
parse_event_type-symbol_of asset_wrapped = refl
parse_event_type-symbol_of asset_unwrapped = refl
parse_event_type-symbol_of bridge_deposit = refl
parse_event_type-symbol_of bridge_withdraw = refl
parse_event_type-symbol_of bridge_paused = refl
parse_event_type-symbol_of bridge_unpaused = refl
parse_event_type-symbol_of relayer_added = refl
parse_event_type-symbol_of relayer_removed = refl
parse_event_type-symbol_of bridge_tx_confirmed = refl
parse_event_type-symbol_of bridge_tx_failed = refl
parse_event_type-symbol_of contract_paused = refl
parse_event_type-symbol_of contract_resumed = refl
parse_event_type-symbol_of upgrade_scheduled = refl
parse_event_type-symbol_of upgrade_executed = refl
parse_event_type-symbol_of upgrade_cancelled = refl
