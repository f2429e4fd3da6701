-- ===== src/EventHandlers/Outcomes.antt =====
-- What the handlers leave in the tables: indexer/services/event-handler.service.ts.
use stellar_insured_backend.Database.{ok}
use stellar_insured_backend.Model.{Db, NotificationType}
use stellar_insured_backend.Prelude.Int.{ℤ}
use stellar_insured_backend.Service.{Io, bind-ok, ◌>>=◌, ◌>>◌}
use stellar_insured_backend.Reputation.{Delta}
use stellar_insured_backend.XdrDecoder.Decode.{ParsedContractEvent}
use stellar_insured_backend.EventHandlers.Store.{
  Contribution, HandlerClient, MilestoneStatus, Project, World,
}
use stellar_insured_backend.EventHandlers.{
  adjust, at, attempt, big_int, or_error, find_by_contract_id, find_distinct_investors, in_int8,
  new_user, notify, update_many_by_project, update_project, upsert_by_tx_hash, upsert_by_wallet,
}
use stellar_insured_backend.EventHandlers.Dispatch.{
  contract_of, handle_contribution_made, name_at, notify_all, record_contribution, score_creator,
  settle_milestones,
}
use stellar_insured_backend.EventHandlers.Frame.{
  Keeps-adjust, Keeps-bind, Keeps-notify, Keeps-notify_all, Keeps-score_creator, SameTables,
}
use stellar_insured_backend.Prelude.{
  ==_iff, Bool-cases, ap, false, if◌then◌else◌, inl, inr, none, refl, some, sym, true, ℕ, ◌==◌, ◌∙◌,
  ◌≡◌,
}

module _ (h : HandlerClient) where
  -- An approval or a rejection sets the status of every live milestone of the project, whatever
  -- milestone the event names, and of no other milestone; projects and contributions stay.
  pub settle_milestones-all :
      (status : MilestoneStatus) (delta : Delta) (event : ParsedContractEvent) (w : World h)
      (id : ℕ) (p : Project)
      → h.projects_by_contract.by_key w.projects (contract_of h event.fields) ≡ some (id, p)
      → ((k : ℕ)
          → h.milestones.table.find (settle_milestones h status delta event w).1.milestones k
            ≡ elim (h.milestones.table.find w.milestones k) [
              | none ↦ none
              | some m ↦ if m.project_id == id then some (record m { status = status }) else some m
            ])
        × ((settle_milestones h status delta event w).1.projects ≡ w.projects)
        × ((settle_milestones h status delta event w).1.contributions ≡ w.contributions)
  unfolding settle_milestones find_by_contract_id update_many_by_project
  settle_milestones-all status delta event w id p e =
      let w₁ : World h = record w {
        milestones =
            h.milestones.update_many w.milestones (λ x. x.project_id == id)
              (λ m. record m { status = status });
      } in
      let (same, same', milestones) =
        Keeps-bind (notify_all h (find_distinct_investors h id w₁) id)
          (λ _. score_creator h p.creator_id delta)
          (Keeps-notify_all h (find_distinct_investors h id w₁) id)
          (λ _. Keeps-score_creator h p.creator_id delta) w₁ in
      rw (e, ◌>>=◌)
        (
          λ k.
              ap (λ t. h.milestones.table.find t k) milestones
              ∙ h.milestones.find-update_many w.milestones (λ x. x.project_id == id)
                  (λ m. record m { status = status }) k,
          same,
          same',
        )

  abbrev pub contributor_of : ParsedContractEvent → World h → ℕ
  contributor_of event w =
      (h.users_by_wallet.upsert w.db.users (name_at h event.fields "contributor")
        (new_user h (name_at h event.fields "contributor")) (λ u. u)).0.0

  abbrev pub contribution_of : ParsedContractEvent → ℕ → ℕ → ℤ → Contribution
  contribution_of event user project amount = record {
    transaction_hash = event.transaction_hash;
    investor_id = user;
    project_id = project;
    amount = amount;
    timestamp = event.ledger_closed_at;
  }

  abbrev credited : ParsedContractEvent → ℕ → ℕ → Project → ℤ → ℤ → World h → World h
  credited event user id p amount total w = record w {
    contributions =
        (h.contributions_by_hash.upsert w.contributions event.transaction_hash
          (contribution_of event user id amount) (λ x. x)).1;
    projects = h.projects.table.save w.projects id (record p { current_funds = total });
  }

  update_project_lem :
      (id : ℕ) (total : ℤ) (w : World h) (p : Project)
      → in_int8 total ≡ true
      → h.projects.table.find w.projects id ≡ some p
      → update_project h id total w ≡ (
        ok tt,
        record w {
          projects = h.projects.table.save w.projects id (record p { current_funds = total });
        },
      )
  unfolding update_project
  update_project_lem id total w p fits e = rw (fits, e) refl

  record_contribution_lem :
      (event : ParsedContractEvent) (user id : ℕ) (p : Project) (amount total : ℤ) (w : World h)
      → big_int (at event.fields "amount") ≡ some amount
      → big_int (at event.fields "totalRaised") ≡ some total
      → in_int8 amount ≡ true
      → in_int8 total ≡ true
      → h.projects.table.find w.projects id ≡ some p
      → record_contribution h event user id w
        ≡ (attempt (notify h user NotificationType.contribution id)
              >> attempt (adjust h user Delta.contribution_success))
            (credited event user id p amount total w)
  unfolding record_contribution upsert_by_tx_hash
  record_contribution_lem event user id p amount total w a t fits fits' f =
      let w₂ : World h = record w {
        contributions =
            (h.contributions_by_hash.upsert w.contributions event.transaction_hash
              (contribution_of event user id amount) (λ x. x)).1;
      } in
      let stored : upsert_by_tx_hash h (contribution_of event user id amount) w ≡ (ok tt, w₂) =
        rw fits refl in
      let rest : Unit {0} → Io (World h) (Unit {0}) = λ _. (do
        total' ← or_error (big_int (at event.fields "totalRaised"))
        update_project h id total'
        attempt (notify h user NotificationType.contribution id)
        attempt (adjust h user Delta.contribution_success)) in
      rw a (
        bind-ok (upsert_by_tx_hash h (contribution_of event user id amount)) rest w w₂ tt stored
        ∙ rw t (
            bind-ok (update_project h id total)
              (λ _.
                attempt (notify h user NotificationType.contribution id)
                >> attempt (adjust h user Delta.contribution_success))
              w₂
              (record w₂ {
                projects = h.projects.table.save w.projects id (record p { current_funds = total });
              })
              tt (update_project_lem id total w₂ p fits' f)))

  -- The state after a contribution to a live project.
  handle_contribution_lem :
      (event : ParsedContractEvent) (w : World h) (id : ℕ) (p : Project) (amount total : ℤ)
      → h.projects_by_contract.by_key w.projects (contract_of h event.fields) ≡ some (id, p)
      → big_int (at event.fields "amount") ≡ some amount
      → big_int (at event.fields "totalRaised") ≡ some total
      → in_int8 amount ≡ true
      → in_int8 total ≡ true
      → ((handle_contribution_made h event w).0 ≡ ok tt)
        × SameTables
            (credited event (contributor_of event w) id p amount total w)
            (handle_contribution_made h event w).1
  unfolding handle_contribution_made upsert_by_wallet find_by_contract_id
  handle_contribution_lem event w id p amount total e a t fits fits' =
      let user = contributor_of event w in
      let users =
        (h.users_by_wallet.upsert w.db.users (name_at h event.fields "contributor")
          (new_user h (name_at h event.fields "contributor")) (λ u. u)).1 in
      let s : Db h.c = record (w.db) { users = users } in
      let w₁ : World h = record w { db = s } in
      rw e (
        rw
          (record_contribution_lem event user id p amount total w₁ a t fits fits'
            (h.projects_by_contract.find-by_key w.projects (contract_of h event.fields) id p e))
          (
            refl,
            Keeps-bind (attempt (notify h user NotificationType.contribution id))
                (λ _. attempt (adjust h user Delta.contribution_success))
                (Keeps-notify h user NotificationType.contribution id)
                (λ _. Keeps-adjust h user Delta.contribution_success)
                (credited event user id p amount total w₁),
          ))

  -- A contribution to a live project whose transaction has no row yet and whose amount and total are
  -- 64-bit integers is handled without an error, however its notification and its reputation points fare: one row records its amount, its project
  -- and its investor under its transaction hash, and the project's funds are the event's total.
  pub contribution_recorded :
      (event : ParsedContractEvent) (w : World h) (id : ℕ) (p : Project) (amount total : ℤ)
      → h.projects_by_contract.by_key w.projects (contract_of h event.fields) ≡ some (id, p)
      → big_int (at event.fields "amount") ≡ some amount
      → big_int (at event.fields "totalRaised") ≡ some total
      → in_int8 amount ≡ true
      → in_int8 total ≡ true
      → h.contributions_by_hash.is_used w.contributions event.transaction_hash ≡ false
      → ((handle_contribution_made h event w).0 ≡ ok tt)
        × ((i : ℕ) × (h.contributions_by_hash.by_key
                (handle_contribution_made h event w).1.contributions
                event.transaction_hash
              ≡ some (i, contribution_of event (contributor_of event w) id amount)))
        × (h.projects_by_contract.by_key
              (handle_contribution_made h event w).1.projects
              (contract_of h event.fields)
            ≡ some (id, record p { current_funds = total }))
        × ((handle_contribution_made h event w).1.milestones ≡ w.milestones)
  contribution_recorded event w id p amount total e a t fits fits' unused =
      let (done, same) = handle_contribution_lem event w id p amount total e a t fits fits' in
      let (projects, contributions, milestones) = same in
      let hash = event.transaction_hash in
      let row = contribution_of event (contributor_of event w) id amount in
      let up = h.contributions_by_hash.upsert w.contributions hash row (λ x. x) in
      (
        done,
        (
          up.0.0,
          ap (λ c. h.contributions_by_hash.by_key c hash) contributions
              ∙ h.contributions_by_hash.by_key-upsert w.contributions hash hash row (λ x. x)
              ∙ rw
                  (
                    (==_iff hash hash).1 refl,
                    h.contributions_by_hash.upsert_unused w.contributions hash row (λ x. x) unused,
                  )
                  refl,
        ),
        ap (λ c. h.projects_by_contract.by_key c (contract_of h event.fields)) projects
            ∙ h.projects_by_contract.by_key-save w.projects (contract_of h event.fields) id p
                (record p { current_funds = total }) e refl,
        milestones,
      )

  -- A contribution to a live project whose transaction has a live row, such as one that is handled a
  -- second time, and whose amount and total are 64-bit integers is handled without an error, leaves the live row of every transaction as it was, and
  -- sets the project's funds to the event's total, whatever they were.
  pub contribution_replayed :
      (event : ParsedContractEvent) (w : World h) (id : ℕ) (p : Project) (amount total : ℤ) (i : ℕ)
      (x : Contribution)
      → h.projects_by_contract.by_key w.projects (contract_of h event.fields) ≡ some (id, p)
      → big_int (at event.fields "amount") ≡ some amount
      → big_int (at event.fields "totalRaised") ≡ some total
      → in_int8 amount ≡ true
      → in_int8 total ≡ true
      → h.contributions_by_hash.by_key w.contributions event.transaction_hash ≡ some (i, x)
      → ((handle_contribution_made h event w).0 ≡ ok tt)
        × ((k : ℕ)
            → h.contributions_by_hash.by_key (handle_contribution_made h event w).1.contributions k
              ≡ h.contributions_by_hash.by_key w.contributions k)
        × (h.projects_by_contract.by_key
              (handle_contribution_made h event w).1.projects
              (contract_of h event.fields)
            ≡ some (id, record p { current_funds = total }))
  contribution_replayed event w id p amount total i x e a t fits fits' live =
      let (done, same) = handle_contribution_lem event w id p amount total e a t fits fits' in
      let (projects, contributions, milestones) = same in
      let hash = event.transaction_hash in
      let row = contribution_of event (contributor_of event w) id amount in
      (
        done,
        λ k.
            ap (λ c. h.contributions_by_hash.by_key c k) contributions
            ∙ h.contributions_by_hash.by_key-upsert w.contributions hash k row (λ x. x)
            ∙ elim (Bool-cases (hash == k)) [
              | inl same' ↦
                  rw
                    (
                      same',
                      h.contributions_by_hash.upsert_live w.contributions hash i x row (λ x. x)
                          live,
                    )
                    (sym live
                      ∙ ap (h.contributions_by_hash.by_key w.contributions)
                          ((==_iff hash k).0 same'))
              | inr other ↦ rw other refl
            ],
        ap (λ c. h.projects_by_contract.by_key c (contract_of h event.fields)) projects
            ∙ h.projects_by_contract.by_key-save w.projects (contract_of h event.fields) id p
                (record p { current_funds = total }) e refl,
      )
