-- ===== src/Insurance/Claims/Frame.antt =====
-- What each step of an assessment or a payment leaves alone.
use stellar_insured_backend.Prelude.{Bool, Option, arith, false, refl, true, ℕ, ◌∙◌, ◌≡◌}
use stellar_insured_backend.Prelude.Int.{ℤ}
use stellar_insured_backend.Database.{Ensures, Returns, Returns-map}
use stellar_insured_backend.Model.{Claim, Client, Db, NotificationType, Policy}
use stellar_insured_backend.Reputation.{adjust_reputation}
use stellar_insured_backend.Notification.{prepare_notification}
use stellar_insured_backend.Notification.Rows.{
  Prepares, Prepares-SameBusiness, prepare_notification_lem,
}
use stellar_insured_backend.Insurance.Pools.{unlock_capital}
use stellar_insured_backend.Insurance.Claims.Assess.{record_fraud}

module _ (c : Client) where
  abbrev pub claim_at : Db c → ℕ → Option Claim
  claim_at s id = c.claims.find s.claims id

  -- The claims and the policies are those of `s`.
  abbrev pub SameClaims : Db c → Db c → Type 0
  SameClaims s s' = (s'.claims ≡ s.claims) × (s'.policies ≡ s.policies)

  pub SameClaims-trans : (s t u : Db c) → SameClaims s t → SameClaims t u → SameClaims s u
  SameClaims-trans s t u (a, b) (d, e) = (d ∙ a, e ∙ b)

  pub unlock_capital-SameClaims :
      (id : ℕ) (amount : ℤ) (s : Db c)
      → Ensures (λ _ s'. SameClaims s s') (unlock_capital c id amount s)
  unfolding unlock_capital
  unlock_capital-SameClaims id amount s = ground arith

  pub adjust_reputation-SameClaims :
      (id : ℕ) (delta : ℤ) (s : Db c)
      → Ensures (λ _ s'. SameClaims s s') (adjust_reputation c id delta s)
  unfolding adjust_reputation
  adjust_reputation-SameClaims id delta s = ground arith

  pub prepare_notification-SameClaims :
      (id : ℕ) (type : NotificationType) (entity_id : ℕ) (s : Db c)
      → Returns (λ _ s'. SameClaims s s') (prepare_notification c id type entity_id s)
  prepare_notification-SameClaims id type entity_id s =
      Returns-map (Prepares c id type entity_id s) (λ _ s'. SameClaims s s')
        (λ r t h.
          let b = Prepares-SameBusiness c id type entity_id r s t h in (b.claims, b.policies))
        (prepare_notification c id type entity_id s)
        (prepare_notification_lem c id type entity_id s)

  pub record_fraud-SameClaims :
      (id : ℕ) (suspected : Bool) (p : Policy) (s : Db c)
      → Ensures (λ _ s'. SameClaims s s') (record_fraud c id suspected p s)
  unfolding record_fraud adjust_reputation
  record_fraud-SameClaims id false p s = (refl, refl)
  record_fraud-SameClaims id true p s = ground arith
