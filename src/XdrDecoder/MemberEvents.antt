-- ===== src/XdrDecoder/MemberEvents.antt =====
-- The decoders of distribution, governance, reputation, payment and subscription events: indexer/services/xdr-decoder.service.ts.
use stellar_insured_backend.Prelude.{Bool, [], false, true, ◌||◌, ◌∷◌}
use stellar_insured_backend.XdrDecoder.{Value, bool, codes, field, num, or_else, str, text_eq}
use stellar_insured_backend.XdrDecoder.Members.{
  Decoder, amount_member, get, number_member, string_member,
}

unfoldable pub decode_profit_distributed : Decoder
unfolding field string_member amount_member
decode_profit_distributed o =
    string_member "poolId" (get o "pool_id")
    ∷ amount_member "totalProfit" (get o "total_profit")
    ∷ amount_member "perShare" (get o "per_share")
    ∷ []

unfoldable pub decode_dividend_claimed : Decoder
unfolding field string_member amount_member
decode_dividend_claimed o =
    string_member "poolId" (get o "pool_id")
    ∷ string_member "claimer" (get o "claimer")
    ∷ amount_member "amount" (get o "amount")
    ∷ []

unfoldable pub decode_proposal_created : Decoder
unfolding field number_member string_member
decode_proposal_created o =
    number_member "proposalId" (get o "proposal_id")
    ∷ string_member "proposer" (get o "proposer")
    ∷ string_member "title" (get o "title")
    ∷ []

unfoldable pub decode_vote_cast : Decoder
unfolding field number_member string_member
decode_vote_cast o =
    number_member "proposalId" (get o "proposal_id")
    ∷ string_member "voter" (get o "voter")
    ∷ string_member "support" (get o "support")
    ∷ []

abbrev is_true : Value → Bool
is_true (bool true) = true
is_true _ = false

unfoldable pub decode_proposal_executed : Decoder
unfolding str num field number_member
decode_proposal_executed o =
    number_member "proposalId" (get o "proposal_id")
    ∷ (
      codes "success",
      bool (text_eq (str (get o "success")) (codes "true") || is_true (get o "success")),
    )
    ∷ []

unfoldable pub decode_user_registered : Decoder
unfolding field string_member
decode_user_registered o = string_member "user" (or_else (get o "user") (get o "address")) ∷ []

unfoldable pub decode_reputation_updated : Decoder
unfolding field number_member string_member
decode_reputation_updated o =
    string_member "user" (or_else (get o "user") (get o "address"))
    ∷ number_member "score" (get o "score")
    ∷ number_member "delta" (get o "delta")
    ∷ []

unfoldable pub decode_badge_earned : Decoder
unfolding field string_member
decode_badge_earned o =
    string_member "user" (or_else (get o "user") (get o "address"))
    ∷ string_member "badge" (get o "badge")
    ∷ []

unfoldable pub decode_payment_setup : Decoder
unfolding field string_member
decode_payment_setup o =
    string_member "paymentId" (get o "payment_id")
    ∷ string_member "payer" (get o "payer")
    ∷ string_member "payee" (get o "payee")
    ∷ []

unfoldable pub decode_payment_received : Decoder
unfolding field string_member amount_member
decode_payment_received o =
    string_member "paymentId" (get o "payment_id") ∷ amount_member "amount" (get o "amount") ∷ []

unfoldable pub decode_payment_withdrawn : Decoder
unfolding field string_member amount_member
decode_payment_withdrawn o =
    string_member "paymentId" (get o "payment_id")
    ∷ string_member "recipient" (get o "recipient")
    ∷ amount_member "amount" (get o "amount")
    ∷ []

unfoldable pub decode_subscription_created : Decoder
unfolding field string_member amount_member
decode_subscription_created o =
    string_member "subscriptionId" (get o "subscription_id")
    ∷ string_member "subscriber" (get o "subscriber")
    ∷ string_member "plan" (get o "plan")
    ∷ amount_member "amount" (get o "amount")
    ∷ []

unfoldable pub decode_subscription_status : Decoder
unfolding field string_member
decode_subscription_status o =
    string_member "subscriptionId" (get o "subscription_id")
    ∷ string_member "status" (get o "status")
    ∷ []

unfoldable pub decode_subscription_modified : Decoder
unfolding field string_member amount_member
decode_subscription_modified o =
    string_member "subscriptionId" (get o "subscription_id")
    ∷ string_member "plan" (get o "plan")
    ∷ amount_member "amount" (get o "amount")
    ∷ []

unfoldable pub decode_payment_failed : Decoder
unfolding field string_member
decode_payment_failed o =
    string_member "subscriptionId" (get o "subscription_id")
    ∷ string_member "reason" (get o "reason")
    ∷ []

unfoldable pub decode_subscription_payment : Decoder
unfolding field string_member amount_member
decode_subscription_payment o =
    string_member "subscriptionId" (get o "subscription_id")
    ∷ amount_member "amount" (get o "amount")
    ∷ []
