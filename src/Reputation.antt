-- ===== src/Reputation.antt =====
-- reputation/: score adjustment, recomputation from the history, and the trust score
-- (reputation.service.ts, reputation.constants.ts, calculators/, reputation.repository.ts).
pub mod Bounds
pub mod History
use stellar_insured_backend.Prelude.{
  List, Option, [], if◌then◌else◌, ltb, none, some, ℕ, ◌*◌, ◌+◌, ◌/◌, ◌∷◌,
}
use stellar_insured_backend.Prelude.Int.{max_ℤ, min_ℤ, neg, pos, sub_ℕ, ℤ, ◌+ℤ◌}
use stellar_insured_backend.Database.{Tx, gets, modify, pure, update_row, ◌>>=◌, ◌>>◌}
use stellar_insured_backend.Model.{Client, Db, ReputationHistory, User, on_users}

-- REPUTATION_DELTAS
pub data Delta : Type 0 where
  claim_approved claim_rejected fraud_detected contribution_success : Delta
  milestone_approved milestone_rejected initial_reputation : Delta

abbrev pub points : Delta → ℤ
points claim_approved = pos 10
points claim_rejected = neg 5
points fraud_detected = neg 20
points contribution_success = pos 5
points milestone_approved = pos 15
points milestone_rejected = neg 10
points initial_reputation = pos 50

-- `Math.max(0, Math.min(1000, x))`
unfoldable pub clamp : ℤ → ℤ
clamp x = max_ℤ (pos 0) (min_ℤ (pos 1000) x)

-- `history.reduce((acc, entry) => acc + entry.scoreChange, acc)`
unfoldable pub total_from : ℤ → List ℤ → ℤ
total_from acc [] = acc
total_from acc (d ∷ ds) = total_from (acc +ℤ d) ds

unfoldable pub compute_reputation_from_history : List ℤ → ℤ
unfolding total_from clamp
compute_reputation_from_history history = clamp (total_from (pos 50) history)

-- `Math.round` of a quotient of two numbers that are at least 0, to the nearest, halves up.
abbrev pub round_div : ℕ → ℕ → ℕ
round_div a b = (2 * a + b) / (2 * b)

-- The scoring of calculateTrustScore, from the counts and sums that its queries give.
unfoldable pub trust_score : ℕ → ℕ → ℕ → ℕ → ℕ → ℤ
unfolding clamp
trust_score successful on_time refused raised distributed = clamp (
    sub_ℕ
      (500
        + successful * 100
        + on_time * 50
        + (if ltb 0 raised then round_div (distributed * 200) raised else 0))
      (refused * 75))

module _ (c : Client) where
  unfoldable pub find_user_score : ℕ → Tx (Db c) (Option ℤ)
  find_user_score user_id =
      gets (λ s. elim (c.users.find s.users user_id) [
        | none ↦ none
        | some u ↦ some u.reputation_score
      ])

  unfoldable pub update_user_score : ℕ → ℤ → Tx (Db c) User
  update_user_score user_id score =
      on_users (update_row c.users user_id (λ u. record u { reputation_score = score }))

  unfoldable pub update_user_trust_score : ℕ → ℤ → Tx (Db c) User
  update_user_trust_score user_id score =
      on_users (update_row c.users user_id (λ u. record u { trust_score = score }))

  unfoldable pub create_history : ReputationHistory → Tx (Db c) (Unit {0})
  create_history row = modify (λ s. record s { history = row ∷ s.history })

  -- `user?.reputationScore ?? 0`
  abbrev pub score_or_zero : Option ℤ → ℤ
  score_or_zero none = pos 0
  score_or_zero (some x) = x

  unfoldable pub adjust_reputation : ℕ → ℤ → Tx (Db c) ℤ
  unfolding find_user_score update_user_score create_history
  adjust_reputation user_id delta = do
    found ← find_user_score user_id
    let clamped = clamp (score_or_zero found +ℤ delta)
    update_user_score user_id clamped
    create_history (record { user_id = user_id; score_change = delta })
    pure clamped
