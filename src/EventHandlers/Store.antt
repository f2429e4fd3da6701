-- ===== src/EventHandlers/Store.antt =====
-- The rows that the event handlers write (prisma/schema.prisma) and what they rely on in the client for
-- an upsert on a unique column (common/repositories/project.repository.ts and user.repository.ts).
use stellar_insured_backend.Prelude.{Bool, Option, false, if◌then◌else◌, some, true, ℕ, ◌==◌, ◌≡◌}
use stellar_insured_backend.Prelude.Int.{ℤ}
use stellar_insured_backend.Database.{Table}
use stellar_insured_backend.Database.Bulk.{BulkTable}
use stellar_insured_backend.Model.{Client, Db}
use stellar_insured_backend.XdrDecoder.{Text}

pub data ProjectStatus : Type 0 where
  active completed cancelled suspended : ProjectStatus

pub data MilestoneStatus : Type 0 where
  pending approved rejected completed funded : MilestoneStatus

-- No category stands for 'uncategorized', and the title is 'Project ' with this text.
pub record Project : Type 0 where
  pub contract_id : ℕ
  pub creator_id : ℕ
  pub title : Text
  pub category : Option ℕ
  pub goal : ℤ
  pub current_funds : ℤ
  pub deadline : ℤ
  pub status : ProjectStatus

pub record Contribution : Type 0 where
  pub transaction_hash : ℕ
  pub investor_id : ℕ
  pub project_id : ℕ
  pub amount : ℤ
  pub timestamp : ℕ

pub record Milestone : Type 0 where
  pub project_id : ℕ
  pub status : MilestoneStatus
  pub created_at : ℕ
  pub completion_date : Option ℕ

-- A unique column of a table. `by_key` reads the live row with a key, `is_used` tells whether any row,
-- deleted or not, has it, and `upsert` writes the new row where none has, else the changed one, which
-- the middleware makes live.
pub record Keyed {T R : Type 0} (table : Table T R) (key : R → ℕ) : Type 0 where
  pub by_key : T → ℕ → Option (ℕ × R)
  pub is_used : T → ℕ → Bool
  pub upsert : T → ℕ → R → (R → R) → (ℕ × R) × T
  pub find-by_key : (t : T) (k i : ℕ) (r : R) → by_key t k ≡ some (i, r) → table.find t i ≡ some r
  pub by_key-used : (t : T) (k i : ℕ) (r : R) → by_key t k ≡ some (i, r) → is_used t k ≡ true
  pub by_key-upsert :
      (t : T) (k j : ℕ) (new : R) (f : R → R)
      → by_key (upsert t k new f).1 j ≡ (if k == j then some (upsert t k new f).0 else by_key t j)
  pub upsert_live :
      (t : T) (k i : ℕ) (r new : R) (f : R → R)
      → by_key t k ≡ some (i, r)
      → (upsert t k new f).0 ≡ (i, f r)
  pub upsert_unused :
      (t : T) (k : ℕ) (new : R) (f : R → R) → is_used t k ≡ false → (upsert t k new f).0.1 ≡ new
  pub by_key-save :
      (t : T) (k i : ℕ) (r x : R)
      → by_key t k ≡ some (i, r)
      → key x ≡ key r
      → by_key (table.save t i x) k ≡ some (i, x)

pub record HandlerClient : Type 1 where
  pub c : Client
  pub Projects : Type 0
  pub Contributions : Type 0
  pub Milestones : Type 0
  pub projects : BulkTable Projects Project
  pub contributions : BulkTable Contributions Contribution
  pub milestones : BulkTable Milestones Milestone
  pub users_by_wallet : Keyed c.users (λ u. u.wallet_address)
  pub projects_by_contract : Keyed projects.table (λ p. p.contract_id)
  pub contributions_by_hash : Keyed contributions.table (λ x. x.transaction_hash)
  -- The number that stands for a text.
  pub name_of : Text → ℕ

pub record World (h : HandlerClient) : Type 0 where
  pub db : Db h.c
  pub projects : h.Projects
  pub contributions : h.Contributions
  pub milestones : h.Milestones
