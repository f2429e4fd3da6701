-- ===== src/EventHandlers/Dispatch.antt =====
-- The handlers and the dispatch on the type of an event: indexer/services/event-handler.service.ts,
-- with the trust score of reputation/calculators/trust-score.calculator.ts on the tables.
use Prim.Native.String.{String}
use stellar_insured_backend.Model.{NotificationType}
use stellar_insured_backend.Service.{Io, gets, pure, ◌>>=◌, ◌>>◌}
use stellar_insured_backend.Reputation.{
  Delta, milestone_approved, milestone_rejected, trust_score, update_user_trust_score,
}
use stellar_insured_backend.XdrDecoder.{text_of}
use stellar_insured_backend.XdrDecoder.Members.{Record}
use stellar_insured_backend.XdrDecoder.EventTypes.{
  ContractEventType, contribution_made, dividend_claimed, funds_released, milestone_approved,
  milestone_rejected, project_completed, project_created, project_failed,
}
use stellar_insured_backend.XdrDecoder.Decode.{ParsedContractEvent, truthy}
use stellar_insured_backend.EventHandlers.Store.{
  HandlerClient, Milestone, MilestoneStatus, Project, ProjectStatus, World,
}
use stellar_insured_backend.EventHandlers.{
  adjust, at, attempt, big_int, find_by_contract_id, find_distinct_investors, is_defined,
  milliseconds, notify, on_db, or_error, update_many_by_contract_id, update_many_by_project,
  update_project, upsert_by_contract_id, upsert_by_tx_hash, upsert_by_wallet,
}
use stellar_insured_backend.Prelude.{
  Bool, List, Option, [], false, if◌then◌else◌, leb, length, none, some, true, ℕ, ◌&&◌, ◌+◌, ◌==◌,
  ◌∷◌,
}
use stellar_insured_backend.Prelude.Int.{pos, pos_part, ℤ, ◌+ℤ◌}

pub data Handler : Type 0 where
  project_created_handler contribution_made_handler : Handler
  milestone_approved_handler milestone_rejected_handler funds_released_handler : Handler
  project_completed_handler project_failed_handler dividend_claimed_handler : Handler

unfoldable pub get_handler : ContractEventType → Option Handler
get_handler project_created = some project_created_handler
get_handler contribution_made = some contribution_made_handler
get_handler milestone_approved = some milestone_approved_handler
get_handler milestone_rejected = some milestone_rejected_handler
get_handler funds_released = some funds_released_handler
get_handler project_completed = some project_completed_handler
get_handler project_failed = some project_failed_handler
get_handler dividend_claimed = some dividend_claimed_handler
get_handler _ = none

abbrev pub validate_project_created : Record → Bool
validate_project_created r =
    is_defined (at r "projectId")
    && truthy (at r "creator")
    && truthy (at r "fundingGoal")
    && truthy (at r "deadline")
    && truthy (at r "token")

abbrev pub validate_contribution_made : Record → Bool
validate_contribution_made r =
    is_defined (at r "projectId") && truthy (at r "contributor") && truthy (at r "amount")

abbrev pub validate_milestone_approved : Record → Bool
validate_milestone_approved r = is_defined (at r "projectId") && is_defined (at r "milestoneId")

abbrev pub validate_milestone_rejected : Record → Bool
validate_milestone_rejected r = is_defined (at r "projectId") && is_defined (at r "milestoneId")

abbrev pub validate_funds_released : Record → Bool
validate_funds_released r = is_defined (at r "projectId") && truthy (at r "amount")

abbrev pub validate_project_completed : Record → Bool
validate_project_completed r = is_defined (at r "projectId")

abbrev pub validate_project_failed : Record → Bool
validate_project_failed r = is_defined (at r "projectId")

abbrev pub validate_dividend_claimed : Record → Bool
validate_dividend_claimed r =
    truthy (at r "poolId") && truthy (at r "claimer") && truthy (at r "amount")

unfoldable pub validate : Handler → Record → Bool
validate project_created_handler = validate_project_created
validate contribution_made_handler = validate_contribution_made
validate milestone_approved_handler = validate_milestone_approved
validate milestone_rejected_handler = validate_milestone_rejected
validate funds_released_handler = validate_funds_released
validate project_completed_handler = validate_project_completed
validate project_failed_handler = validate_project_failed
validate dividend_claimed_handler = validate_dividend_claimed

module _ (h : HandlerClient) where
  -- `data.projectId.toString()`.
  abbrev pub contract_of : Record → ℕ
  contract_of r = h.name_of (text_of (at r "projectId"))

  abbrev pub name_at : Record → String → ℕ
  name_at r k = h.name_of (text_of (at r k))

  -- calculateTrustScore: its queries, and the score of what they give.
  abbrev pub is_creator : World h → ℕ → Milestone → Bool
  is_creator w user m = elim (h.projects.table.include w.projects m.project_id) [
    | none ↦ false
    | some p ↦ p.creator_id == user
  ]

  abbrev pub milestones_such : World h → (Milestone → Bool) → List ℕ → ℕ
  milestones_such w p [] = 0
  milestones_such w p (k ∷ ks) = elim (h.milestones.table.find w.milestones k) [
    | none ↦ milestones_such w p ks
    | some m ↦ (if p m then 1 else 0) + milestones_such w p ks
  ]

  abbrev pub on_time : Milestone → Bool
  on_time m = elim m.status [
    | MilestoneStatus.approved ↦ elim m.completion_date [
      | none ↦ false
      | some d ↦ leb d m.created_at
    ]
    | _ ↦ false
  ]

  abbrev pub is_rejected : Milestone → Bool
  is_rejected m = elim m.status [ MilestoneStatus.rejected ↦ true | _ ↦ false ]

  abbrev pub is_completed : Project → Bool
  is_completed p = elim p.status [ ProjectStatus.completed ↦ true | _ ↦ false ]

  abbrev pub sum_of : World h → (Project → ℤ) → List ℕ → ℤ
  sum_of w f [] = pos 0
  sum_of w f (k ∷ ks) = elim (h.projects.table.find w.projects k) [
    | none ↦ sum_of w f ks
    | some p ↦ f p +ℤ sum_of w f ks
  ]

  unfoldable pub calculate_trust_score : ℕ → World h → ℤ
  unfolding trust_score
  calculate_trust_score user w =
      let successful =
        length (h.projects.find_many w.projects (λ p. p.creator_id == user && is_completed p)) in
      let milestones = h.milestones.find_many w.milestones (is_creator w user) in
      let projects = h.projects.find_many w.projects (λ p. p.creator_id == user) in
      trust_score successful (milestones_such w on_time milestones)
        (milestones_such w is_rejected milestones) (pos_part (sum_of w (λ p. p.goal) projects))
        (pos_part (sum_of w (λ p. p.current_funds) projects))

  unfoldable pub update_trust_score : ℕ → Io (World h) (Unit {0})
  unfolding calculate_trust_score update_user_trust_score
  update_trust_score user w =
      (on_db h (update_user_trust_score h.c user (calculate_trust_score user w)) >> pure tt) w

  unfoldable pub handle_project_created : ParsedContractEvent → Io (World h) (Unit {0})
  unfolding upsert_by_wallet upsert_by_contract_id
  handle_project_created event = do
    let r = event.fields
    user ← upsert_by_wallet h (name_at r "creator")
    goal ← or_error (big_int (at r "fundingGoal"))
    upsert_by_contract_id h (contract_of r)
        (record {
          contract_id = contract_of r;
          creator_id = user;
          title = text_of (at r "projectId");
          category = none;
          goal = goal;
          current_funds = pos 0;
          deadline = milliseconds (at r "deadline");
          status = ProjectStatus.active;
        })
        (λ p. record p {
          title = text_of (at r "projectId");
          category = none;
          goal = goal;
          deadline = milliseconds (at r "deadline");
          status = ProjectStatus.active;
        })
    pure tt

  -- The rest of the handler once the user and the project are there.
  unfoldable pub record_contribution : ParsedContractEvent → ℕ → ℕ → Io (World h) (Unit {0})
  unfolding upsert_by_tx_hash
  record_contribution event user project = do
    let r = event.fields
    amount ← or_error (big_int (at r "amount"))
    upsert_by_tx_hash h (record {
      transaction_hash = event.transaction_hash;
      investor_id = user;
      project_id = project;
      amount = amount;
      timestamp = event.ledger_closed_at;
    })
    total ← or_error (big_int (at r "totalRaised"))
    update_project h project total
    attempt (notify h user NotificationType.contribution project)
    attempt (adjust h user Delta.contribution_success)

  unfoldable pub handle_contribution_made : ParsedContractEvent → Io (World h) (Unit {0})
  unfolding upsert_by_wallet find_by_contract_id
  handle_contribution_made event = do
    user ← upsert_by_wallet h (name_at event.fields "contributor")
    project ← find_by_contract_id h (contract_of event.fields)
    elim project [ none ↦ pure tt | some (id, p) ↦ record_contribution event user id ]

  unfoldable pub notify_all : List ℕ → ℕ → Io (World h) (Unit {0})
  notify_all [] project = pure tt
  notify_all (user ∷ users) project =
      attempt (notify h user NotificationType.milestone project) >> notify_all users project

  -- `if (project.creatorId)`: 0 is the empty id.
  unfoldable pub score_creator : ℕ → Delta → Io (World h) (Unit {0})
  score_creator creator delta =
      if creator == 0
      then pure tt
      else update_trust_score creator >> attempt (adjust h creator delta)

  -- The two milestone handlers, which differ in the status and the points.
  unfoldable pub settle_milestones :
      MilestoneStatus → Delta → ParsedContractEvent → Io (World h) (Unit {0})
  unfolding find_by_contract_id update_many_by_project
  settle_milestones status delta event = do
    project ← find_by_contract_id h (contract_of event.fields)
    elim project [
      | none ↦ pure tt
      | some (id, p) ↦ do
        update_many_by_project h id (λ m. record m { status = status })
        users ← gets (find_distinct_investors h id)
        notify_all users id
        score_creator p.creator_id delta
    ]

  unfoldable pub handle_funds_released : ParsedContractEvent → Io (World h) (Unit {0})
  unfolding find_by_contract_id update_many_by_project
  handle_funds_released event = do
    project ← find_by_contract_id h (contract_of event.fields)
    elim project [
      | none ↦ pure tt
      | some (id, p) ↦ update_many_by_project h id (λ m. record m {
        status = MilestoneStatus.funded;
        completion_date = some event.ledger_closed_at;
      })
    ]

  unfoldable pub handle_project_status :
      ProjectStatus → ParsedContractEvent → Io (World h) (Unit {0})
  unfolding update_many_by_contract_id
  handle_project_status status event =
      update_many_by_contract_id h (contract_of event.fields) (λ p. record p { status = status })

  unfoldable pub handle_dividend_claimed : ParsedContractEvent → Io (World h) (Unit {0})
  unfolding upsert_by_wallet
  handle_dividend_claimed event = do
    user ← upsert_by_wallet h (name_at event.fields "claimer")
    update_trust_score user

  abbrev pub handle_milestone_approved : ParsedContractEvent → Io (World h) (Unit {0})
  handle_milestone_approved = settle_milestones MilestoneStatus.approved Delta.milestone_approved

  abbrev pub handle_milestone_rejected : ParsedContractEvent → Io (World h) (Unit {0})
  handle_milestone_rejected = settle_milestones MilestoneStatus.rejected Delta.milestone_rejected

  abbrev pub handle_project_completed : ParsedContractEvent → Io (World h) (Unit {0})
  handle_project_completed = handle_project_status ProjectStatus.completed

  abbrev pub handle_project_failed : ParsedContractEvent → Io (World h) (Unit {0})
  handle_project_failed = handle_project_status ProjectStatus.cancelled

  unfoldable pub handle : Handler → ParsedContractEvent → Io (World h) (Unit {0})
  handle project_created_handler = handle_project_created
  handle contribution_made_handler = handle_contribution_made
  handle milestone_approved_handler = handle_milestone_approved
  handle milestone_rejected_handler = handle_milestone_rejected
  handle funds_released_handler = handle_funds_released
  handle project_completed_handler = handle_project_completed
  handle project_failed_handler = handle_project_failed
  handle dividend_claimed_handler = handle_dividend_claimed

  unfoldable pub process_event : ParsedContractEvent → Io (World h) Bool
  unfolding get_handler validate
  process_event event = elim (get_handler event.event_type) [
    | none ↦ pure false
    | some handler ↦
        if validate handler event.fields then handle handler event >> pure true else pure false
  ]
