-- ===== src/XdrDecoder/BridgeEvents.antt =====
-- The decoders of bridge and contract events: indexer/services/xdr-decoder.service.ts.
use stellar_insured_backend.Prelude.{[], ◌∷◌}
use stellar_insured_backend.XdrDecoder.{field, or_else}
use stellar_insured_backend.XdrDecoder.Members.{
  Decoder, amount_member, get, number_member, string_member,
}

unfoldable pub decode_bridge_initialized : Decoder
unfolding field string_member
decode_bridge_initialized o =
    string_member "bridgeId" (get o "bridge_id") ∷ string_member "admin" (get o "admin") ∷ []

unfoldable pub decode_chain_added : Decoder
unfolding field number_member string_member
decode_chain_added o =
    number_member "chainId" (get o "chain_id") ∷ string_member "chainName" (get o "chain_name") ∷ []

unfoldable pub decode_chain_removed : Decoder
unfolding field number_member
decode_chain_removed o = number_member "chainId" (get o "chain_id") ∷ []

unfoldable pub decode_asset_wrapped : Decoder
unfolding field string_member amount_member
decode_asset_wrapped o =
    string_member "asset" (get o "asset")
    ∷ string_member "wrappedAsset" (get o "wrapped_asset")
    ∷ amount_member "amount" (get o "amount")
    ∷ []

unfoldable pub decode_asset_unwrapped : Decoder
unfolding field string_member amount_member
decode_asset_unwrapped o =
    string_member "asset" (get o "asset") ∷ amount_member "amount" (get o "amount") ∷ []

unfoldable pub decode_bridge_deposit : Decoder
unfolding field number_member string_member amount_member
decode_bridge_deposit o =
    number_member "chainId" (get o "chain_id")
    ∷ string_member "depositor" (get o "depositor")
    ∷ amount_member "amount" (get o "amount")
    ∷ []

unfoldable pub decode_bridge_withdraw : Decoder
unfolding field number_member string_member amount_member
decode_bridge_withdraw o =
    number_member "chainId" (get o "chain_id")
    ∷ string_member "recipient" (get o "recipient")
    ∷ amount_member "amount" (get o "amount")
    ∷ []

unfoldable pub decode_bridge_lifecycle : Decoder
unfolding field string_member
decode_bridge_lifecycle o = string_member "bridgeId" (get o "bridge_id") ∷ []

unfoldable pub decode_relayer : Decoder
unfolding field string_member
decode_relayer o = string_member "relayer" (get o "relayer") ∷ []

unfoldable pub decode_bridge_tx : Decoder
unfolding field string_member
decode_bridge_tx o =
    string_member "txHash" (or_else (get o "tx_hash") (get o "hash"))
    ∷ string_member "status" (get o "status")
    ∷ []

unfoldable pub decode_contract_lifecycle : Decoder
unfolding field string_member
decode_contract_lifecycle o =
    string_member "contractId" (or_else (get o "contract_id") (get o "contract")) ∷ []

unfoldable pub decode_upgrade : Decoder
unfolding field string_member
decode_upgrade o =
    string_member "contractId" (or_else (get o "contract_id") (get o "contract"))
    ∷ string_member "newWasmHash" (or_else (get o "new_wasm_hash") (get o "wasm_hash"))
    ∷ []
