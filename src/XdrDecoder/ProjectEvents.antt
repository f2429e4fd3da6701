-- ===== src/XdrDecoder/ProjectEvents.antt =====
-- The decoders of project, escrow and milestone events: indexer/services/xdr-decoder.service.ts.
use stellar_insured_backend.Prelude.{[], if◌then◌else◌, suc, ℕ, ◌∷◌}
use stellar_insured_backend.Prelude.Int.{pos, ℤ}
use stellar_insured_backend.XdrDecoder.{
  Items, Value, array, codes, field, is_empty, item, no_items, num, number, or_else, str, string,
}
use stellar_insured_backend.XdrDecoder.Members.{
  Decoder, amount_member, get, number_member, project_id, string_member,
}

unfoldable pub decode_project_created : Decoder
unfolding field number_member string_member amount_member
decode_project_created o =
    project_id o
    ∷ string_member "creator" (or_else (get o "creator") (get o "owner"))
    ∷ amount_member "fundingGoal" (or_else (get o "funding_goal") (get o "goal"))
    ∷ number_member "deadline" (get o "deadline")
    ∷ string_member "token" (get o "token")
    ∷ []

unfoldable pub decode_project_funded : Decoder
unfolding field number_member amount_member
decode_project_funded o =
    project_id o
    ∷ amount_member "amount" (get o "amount")
    ∷ amount_member "totalRaised" (get o "total_raised")
    ∷ []

unfoldable pub decode_project_status : Decoder
unfolding str field number_member string_member
decode_project_status o =
    let status = str (get o "status") in
    project_id o
    ∷ (codes "status", string (if is_empty status then codes "unknown" else status))
    ∷ []

unfoldable pub decode_contribution_made : Decoder
unfolding field number_member string_member amount_member
decode_contribution_made o =
    project_id o
    ∷ string_member "contributor" (or_else (get o "contributor") (get o "investor"))
    ∷ amount_member "amount" (get o "amount")
    ∷ amount_member "totalRaised" (get o "total_raised")
    ∷ []

unfoldable pub decode_refund_issued : Decoder
unfolding field number_member string_member amount_member
decode_refund_issued o =
    project_id o
    ∷ string_member "contributor" (get o "contributor")
    ∷ amount_member "amount" (get o "amount")
    ∷ []

unfoldable pub decode_escrow_initialized : Decoder
unfolding field number_member string_member amount_member
decode_escrow_initialized o =
    project_id o
    ∷ string_member "escrowId" (get o "escrow_id")
    ∷ amount_member "totalAmount" (get o "total_amount")
    ∷ []

unfoldable pub decode_funds_locked : Decoder
unfolding field number_member amount_member
decode_funds_locked o =
    project_id o
    ∷ number_member "milestoneId" (get o "milestone_id")
    ∷ amount_member "amount" (get o "amount")
    ∷ []

unfoldable pub decode_funds_released : Decoder
unfolding field number_member amount_member
decode_funds_released o =
    project_id o
    ∷ number_member "milestoneId" (get o "milestone_id")
    ∷ amount_member "amount" (get o "amount")
    ∷ []

unfoldable pub decode_milestone_created : Decoder
unfolding field number_member amount_member
decode_milestone_created o =
    project_id o
    ∷ number_member "milestoneId" (get o "milestone_id")
    ∷ amount_member "fundingAmount" (get o "funding_amount")
    ∷ []

unfoldable pub decode_milestone_submitted : Decoder
unfolding field number_member string_member
decode_milestone_submitted o =
    project_id o
    ∷ number_member "milestoneId" (get o "milestone_id")
    ∷ string_member "submitter" (get o "submitter")
    ∷ []

unfoldable pub decode_milestone_approved : Decoder
unfolding field number_member
decode_milestone_approved o =
    project_id o
    ∷ number_member "milestoneId" (get o "milestone_id")
    ∷ number_member "approvalCount" (get o "approval_count")
    ∷ []

unfoldable pub decode_milestone_rejected : Decoder
unfolding field number_member
decode_milestone_rejected o =
    project_id o
    ∷ number_member "milestoneId" (get o "milestone_id")
    ∷ number_member "rejectionCount" (get o "rejection_count")
    ∷ []

unfoldable pub decode_milestone_completed : Decoder
unfolding field number_member
decode_milestone_completed o =
    project_id o ∷ number_member "milestoneId" (get o "milestone_id") ∷ []

abbrev items_count : Items → ℕ
items_count no_items = 0
items_count (item v xs) = suc (items_count xs)

abbrev validator_count : Value → ℤ
validator_count (array xs) = pos (items_count xs)
validator_count v = num v

unfoldable pub decode_validators_updated : Decoder
unfolding num field number_member
decode_validators_updated o =
    project_id o ∷ (codes "validatorCount", number (validator_count (get o "validators"))) ∷ []
