-- ===== src/XdrDecoder/Printed.antt =====
-- The values that the decoders turn into texts: str of indexer/services/xdr-decoder.service.ts. `String`
-- throws on an object with a member toString of its own, since a member of a contract's map is no
-- function, and on an array that holds one.
use stellar_insured_backend.Prelude.{Bool, List, [], false, ◌||◌, ◌∷◌}
use stellar_insured_backend.XdrDecoder.{
  Fields, Items, Text, Value, array, codes, field, item, member, no_fields, no_items, object,
  or_else, text_eq,
}
use stellar_insured_backend.XdrDecoder.Members.{get}
use stellar_insured_backend.XdrDecoder.EventTypes.{
  ContractEventType, project_created, project_completed, project_failed, contribution_made,
  refund_issued, escrow_initialized, milestone_submitted, profit_distributed, dividend_claimed,
  proposal_created, vote_cast, proposal_executed, user_registered, reputation_updated, badge_earned,
  payment_setup, payment_received, payment_withdrawn, subscription_created, subscription_cancelled,
  subscription_modified, subscription_paused, subscription_resumed, payment_failed,
  subscription_payment, bridge_initialized, supported_chain_added, asset_wrapped, asset_unwrapped,
  bridge_deposit, bridge_withdraw, bridge_paused, bridge_unpaused, relayer_added, relayer_removed,
  bridge_tx_confirmed, bridge_tx_failed, contract_paused, contract_resumed, upgrade_scheduled,
  upgrade_executed, upgrade_cancelled,
}

abbrev has_key : Fields → Text → Bool
has_key no_fields k = false
has_key (member j v o) k = text_eq j k || has_key o k

unfoldable mutual
  pub is_unprintable : Value → Bool
  is_unprintable (array xs) = has_unprintable xs
  is_unprintable (object o) = has_key o (codes "toString")
  is_unprintable _ = false

  pub has_unprintable : Items → Bool
  has_unprintable no_items = false
  has_unprintable (item v xs) = is_unprintable v || has_unprintable xs

-- What the decoder of each type gives to `str`.
unfoldable pub printed : ContractEventType → Fields → List Value
unfolding field
printed project_created o = or_else (get o "creator") (get o "owner") ∷ get o "token" ∷ []
printed project_completed o = get o "status" ∷ []
printed project_failed o = get o "status" ∷ []
printed contribution_made o = or_else (get o "contributor") (get o "investor") ∷ []
printed refund_issued o = get o "contributor" ∷ []
printed escrow_initialized o = get o "escrow_id" ∷ []
printed milestone_submitted o = get o "submitter" ∷ []
printed profit_distributed o = get o "pool_id" ∷ []
printed dividend_claimed o = get o "pool_id" ∷ get o "claimer" ∷ []
printed proposal_created o = get o "proposer" ∷ get o "title" ∷ []
printed vote_cast o = get o "voter" ∷ get o "support" ∷ []
printed proposal_executed o = get o "success" ∷ []
printed user_registered o = or_else (get o "user") (get o "address") ∷ []
printed reputation_updated o = or_else (get o "user") (get o "address") ∷ []
printed badge_earned o = or_else (get o "user") (get o "address") ∷ get o "badge" ∷ []
printed payment_setup o = get o "payment_id" ∷ get o "payer" ∷ get o "payee" ∷ []
printed payment_received o = get o "payment_id" ∷ []
printed payment_withdrawn o = get o "payment_id" ∷ get o "recipient" ∷ []
printed subscription_created o = get o "subscription_id" ∷ get o "subscriber" ∷ get o "plan" ∷ []
printed subscription_cancelled o = get o "subscription_id" ∷ get o "status" ∷ []
printed subscription_modified o = get o "subscription_id" ∷ get o "plan" ∷ []
printed subscription_paused o = get o "subscription_id" ∷ get o "status" ∷ []
printed subscription_resumed o = get o "subscription_id" ∷ get o "status" ∷ []
printed payment_failed o = get o "subscription_id" ∷ get o "reason" ∷ []
printed subscription_payment o = get o "subscription_id" ∷ []
printed bridge_initialized o = get o "bridge_id" ∷ get o "admin" ∷ []
printed supported_chain_added o = get o "chain_name" ∷ []
printed asset_wrapped o = get o "asset" ∷ get o "wrapped_asset" ∷ []
printed asset_unwrapped o = get o "asset" ∷ []
printed bridge_deposit o = get o "depositor" ∷ []
printed bridge_withdraw o = get o "recipient" ∷ []
printed bridge_paused o = get o "bridge_id" ∷ []
printed bridge_unpaused o = get o "bridge_id" ∷ []
printed relayer_added o = get o "relayer" ∷ []
printed relayer_removed o = get o "relayer" ∷ []
printed bridge_tx_confirmed o = or_else (get o "tx_hash") (get o "hash") ∷ get o "status" ∷ []
printed bridge_tx_failed o = or_else (get o "tx_hash") (get o "hash") ∷ get o "status" ∷ []
printed contract_paused o = or_else (get o "contract_id") (get o "contract") ∷ []
printed contract_resumed o = or_else (get o "contract_id") (get o "contract") ∷ []
printed upgrade_scheduled o =
    or_else (get o "contract_id") (get o "contract")
    ∷ or_else (get o "new_wasm_hash") (get o "wasm_hash")
    ∷ []
printed upgrade_executed o =
    or_else (get o "contract_id") (get o "contract")
    ∷ or_else (get o "new_wasm_hash") (get o "wasm_hash")
    ∷ []
printed upgrade_cancelled o =
    or_else (get o "contract_id") (get o "contract")
    ∷ or_else (get o "new_wasm_hash") (get o "wasm_hash")
    ∷ []
printed _ o = []

abbrev any_unprintable : List Value → Bool
any_unprintable [] = false
any_unprintable (v ∷ vs) = is_unprintable v || any_unprintable vs

-- The decoder throws.
unfoldable pub decoder_throws : ContractEventType → Fields → Bool
unfolding printed is_unprintable has_unprintable
decoder_throws type o = any_unprintable (printed type o)
