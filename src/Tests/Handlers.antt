-- ===== src/Tests/Handlers.antt =====
-- A contribution and an approval of a milestone: indexer/services/event-handler.service.ts.
use stellar_insured_backend.Prelude.{
  [], false, if◌then◌else◌, none, refl, some, true, ℕ, ◌==◌, ◌∷◌, ◌≡◌,
}
use stellar_insured_backend.Prelude.Int.{pos}
use stellar_insured_backend.Database.{ok}
use stellar_insured_backend.Database.Bulk.{memory_bulk}
use stellar_insured_backend.Database.Memory.{Rows}
use stellar_insured_backend.XdrDecoder.{
  Text, Value, array, bigint, codes, item, no_items, number, string, text_of,
}
use stellar_insured_backend.XdrDecoder.Members.{Record}
use stellar_insured_backend.XdrDecoder.Decode.{
  ParsedContractEvent, SorobanEvent, Thrown, gave, parse_event, parsed_as,
}
use stellar_insured_backend.XdrDecoder.EventTypes.{ContractEventType, symbol_of}
use stellar_insured_backend.Reputation.{Delta}
use stellar_insured_backend.EventHandlers.{adjust, big_int, in_int8, notify, update_project}
use stellar_insured_backend.EventHandlers.Store.{
  Contribution, HandlerClient, Milestone, MilestoneStatus, Project, ProjectStatus, World,
}
use stellar_insured_backend.EventHandlers.Unique.{memory_keyed}
use stellar_insured_backend.EventHandlers.Dispatch.{
  handle_contribution_made, process_event, record_contribution, settle_milestones,
}
use stellar_insured_backend.EventHandlers.Outcomes.{
  contribution_of, contribution_recorded, contribution_replayed, contributor_of,
  settle_milestones-all,
}
use stellar_insured_backend.EventHandlers.Positional.{array_completes_zero}
use stellar_insured_backend.XdrDecoder.Decode.{
  ParsedContractEvent, SorobanEvent, Thrown, gave, parse_event, parsed_as,
}
use stellar_insured_backend.Tests.World.{demo, start}

abbrev first_code : Text → ℕ
first_code [] = 0
first_code (c ∷ s) = c

abbrev client : HandlerClient
client = record {
  c = demo;
  Projects = Rows Project;
  Contributions = Rows Contribution;
  Milestones = Rows Milestone;
  projects = memory_bulk Project;
  contributions = memory_bulk Contribution;
  milestones = memory_bulk Milestone;
  users_by_wallet = memory_keyed (λ u. u.wallet_address);
  projects_by_contract = memory_keyed (λ p. p.contract_id);
  contributions_by_hash = memory_keyed (λ x. x.transaction_hash);
  name_of = first_code;
}

-- Its key is the code of its contract id, "5".
abbrev project : Project
project = record {
  contract_id = 53;
  creator_id = 1;
  title = codes "5";
  category = none;
  goal = pos 100;
  current_funds = pos 10;
  deadline = pos 0;
  status = ProjectStatus.active;
}

abbrev milestone_of : ℕ → Milestone
milestone_of project = record {
  project_id = project;
  status = MilestoneStatus.pending;
  created_at = 3;
  completion_date = none;
}

abbrev world : World client
world = record {
  db = start;
  projects = (53, true, project) ∷ [];
  contributions = [];
  milestones =
      (1, true, milestone_of 53) ∷ (2, true, milestone_of 53) ∷ (3, true, milestone_of 54) ∷ [];
}

abbrev event_with : ContractEventType → Record → ParsedContractEvent
event_with type fields = record {
  event_id = 1;
  ledger_seq = 8;
  ledger_closed_at = 20;
  contract_id = 2;
  event_type = type;
  transaction_hash = 77;
  fields = fields;
  quarantined = false;
}

-- It names milestone 1.
abbrev approval : ParsedContractEvent
approval =
    event_with ContractEventType.milestone_approved
      ((codes "projectId", string (codes "5")) ∷ (codes "milestoneId", number (pos 1)) ∷ [])

abbrev contributed : ParsedContractEvent
contributed = event_with ContractEventType.contribution_made (
    (codes "projectId", string (codes "5"))
    ∷ (codes "contributor", string (codes "GA"))
    ∷ (codes "amount", string (codes "15"))
    ∷ (codes "totalRaised", string (codes "25"))
    ∷ [])

abbrev after_once : World client
after_once = (handle_contribution_made client contributed world).1

settle_milestones-all_example :
    ((k : ℕ)
      → client.milestones.table.find
          (settle_milestones client MilestoneStatus.approved Delta.milestone_approved approval
            world).1.milestones
          k
        ≡ elim (client.milestones.table.find world.milestones k) [
          | none ↦ none
          | some m ↦
              if m.project_id == 53
              then some (record m { status = MilestoneStatus.approved })
              else some m
        ])
    × ((settle_milestones client MilestoneStatus.approved Delta.milestone_approved approval
          world).1.projects
        ≡ world.projects)
    × ((settle_milestones client MilestoneStatus.approved Delta.milestone_approved approval
          world).1.contributions
        ≡ world.contributions)
unfolding text_of
settle_milestones-all_example =
    settle_milestones-all client MilestoneStatus.approved Delta.milestone_approved approval world 53
      project refl

contribution_recorded_example :
    ((handle_contribution_made client contributed world).0 ≡ ok tt)
    × ((i : ℕ) × (client.contributions_by_hash.by_key
            (handle_contribution_made client contributed world).1.contributions
            77
          ≡ some (
            i,
            contribution_of client contributed
                (contributor_of client contributed world)
                53
                (pos 15),
          )))
    × (client.projects_by_contract.by_key
          (handle_contribution_made client contributed world).1.projects
          53
        ≡ some (53, record project { current_funds = pos 25 }))
    × ((handle_contribution_made client contributed world).1.milestones ≡ world.milestones)
unfolding big_int text_of in_int8
contribution_recorded_example =
    contribution_recorded client contributed world 53 project (pos 15) (pos 25) refl refl refl refl
      refl refl

abbrev funded : Project
funded = record project { current_funds = pos 25 }

contribution_replayed_example :
    ((handle_contribution_made client contributed after_once).0 ≡ ok tt)
    × ((k : ℕ)
        → client.contributions_by_hash.by_key
            (handle_contribution_made client contributed after_once).1.contributions
            k
          ≡ client.contributions_by_hash.by_key after_once.contributions k)
    × (client.projects_by_contract.by_key
          (handle_contribution_made client contributed after_once).1.projects
          53
        ≡ some (53, record funded { current_funds = pos 25 }))
unfolding big_int text_of in_int8 handle_contribution_made record_contribution update_project notify
    adjust
contribution_replayed_example =
    contribution_replayed client contributed after_once 53 funded (pos 15) (pos 25) 77
      (contribution_of client contributed 71 53 (pos 15)) refl refl refl refl refl refl

-- The project with contract id "0", whose key is the code of 0.
abbrev zeroth : World client
zeroth = record world { projects = (48, true, record project { contract_id = 48 }) ∷ [] }

abbrev done_event : SorobanEvent
done_event = record {
  id = 4;
  ledger = 9;
  ledger_closed_at = 20;
  contract_id = 2;
  topic = symbol_of ContractEventType.project_completed ∷ [];
  value = codes "7";
  tx_hash = 77;
}

abbrev as_array : Text → Thrown Value
as_array s = gave (array (item (bigint (pos 5)) no_items))

abbrev done_parsed : ParsedContractEvent
done_parsed = parsed_as (λ s. gave s) as_array done_event ContractEventType.project_completed

array_completes_zero_example : process_event client done_parsed zeroth ≡ (
  ok true,
  record zeroth {
    projects =
        client.projects.update_many zeroth.projects
          (λ q. q.contract_id == first_code (codes "0"))
          (λ q. record q { status = ProjectStatus.completed });
  },
)
unfolding parse_event
array_completes_zero_example =
    array_completes_zero client (λ s. gave s) as_array done_event (codes "7")
      (item (bigint (pos 5)) no_items) [] done_parsed zeroth refl refl refl refl
