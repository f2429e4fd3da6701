-- ===== src/Tests/Deletions.antt =====
-- Example rows of a soft-deletable model: prisma.soft-delete.middleware.ts and its service.
use stellar_insured_backend.Prelude.{
  List, Option, [], length, none, refl, some, true, ℕ, ◌+◌, ◌↔◌, ◌∷◌, ◌≡◌,
}
use stellar_insured_backend.Database.{ok}
use stellar_insured_backend.SoftDelete.{Args, ModelName, no_args, no_where}
use stellar_insured_backend.SoftDelete.Engine.{Engine, Stored, lookup}
use stellar_insured_backend.SoftDelete.Service.{
  by_id, count_deleted, delete_by_id, find_by_id, find_including_deleted, find_many_deleted,
  restore, through, update_by_id,
}
use stellar_insured_backend.SoftDelete.Archive.{
  Agrees, Op, bring_back, find, find_deleted_too, remove, run_all, step_all, update_with, view,
}
use stellar_insured_backend.SoftDelete.Store.{Entries, list_engine}
use stellar_insured_backend.SoftDelete.Refinement.{run_all-Agrees}
use stellar_insured_backend.SoftDelete.Reads.{IsDeletedMatch, IsLiveMatch, find_many_deleted_live}

-- Row 1 is live, and row 2 was deleted at 5.
abbrev rows : Entries ℕ
rows =
    (1, record { deleted_at = none; row = 10 }) ∷ (2, record { deleted_at = some 5; row = 20 }) ∷ []

abbrev engine : Engine (Entries ℕ) ℕ
engine = list_engine ℕ

abbrev calls : List (ℕ × Op ℕ)
calls =
    (7, remove 1)
    ∷ (8, find 1)
    ∷ (9, bring_back 1)
    ∷ (9, bring_back 2)
    ∷ (10, update_with 2 (λ n. n + 1) none)
    ∷ (11, find_deleted_too 2)
    ∷ []

abbrev answers : List (Option ℕ)
answers = some 10 ∷ none ∷ some 10 ∷ some 20 ∷ some 21 ∷ some 21 ∷ []

calls_answered : (t : Entries ℕ) × (run_all engine ModelName.claim calls rows ≡ ok (answers, t))
unfolding find_by_id find_including_deleted update_by_id delete_by_id restore through
calls_answered = (_, refl)

run_all-Agrees_example :
    Agrees engine ModelName.claim
      (run_all engine ModelName.claim calls rows)
      (step_all calls (λ k. view (lookup rows k)))
run_all-Agrees_example =
    run_all-Agrees engine ModelName.claim refl calls rows (λ k. view (lookup rows k)) (λ k. refl)

find_many_deleted_live_example :
    ((found : List (ℕ × Stored ℕ)) × (find_many_deleted engine ModelName.claim 7 none no_where rows
        ≡ ok (found, rows))
      × (count_deleted engine ModelName.claim 7 no_where rows ≡ ok (length found, rows))
      × ((k : ℕ) (s : Stored ℕ)
          → (lookup found k ≡ some s) ↔ IsLiveMatch no_where k (lookup rows k) s))
    × ((found : List (ℕ × Stored ℕ)) × (find_many_deleted engine ModelName.claim 7
            (some true)
            no_where
            rows
          ≡ ok (found, rows))
        × ((k : ℕ) (s : Stored ℕ)
            → (lookup found k ≡ some s) ↔ IsDeletedMatch no_where k (lookup rows k) s))
find_many_deleted_live_example =
    find_many_deleted_live engine ModelName.claim refl 7 no_where rows (refl, refl)

abbrev upsert_call : Args ℕ
upsert_call = record no_args {
  filter = some (by_id 2);
  update = some (record { body = λ n. n + 1; deleted_at = none });
}
