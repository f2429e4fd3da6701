-- ===== src/Database/Bulk.antt =====
-- updateMany and findMany on a table, as the client documents them, under the middleware.
use stellar_insured_backend.Prelude.{
  All, Bool, Bool-cases, List, Option-cases, [], arith, if◌then◌else◌, inl, inr, none, not, refl,
  some, true, ℕ, ◌&&◌, ◌==◌, ◌∷◌, ◌≡◌,
}
use stellar_insured_backend.Database.Defs.{Table}
use stellar_insured_backend.Database.Memory.{Rows, find, include, memory}

-- `update_many` changes the live rows that pass the filter, `remove_many` marks them deleted,
-- `hard_delete_many` removes every row that passes the filter, deleted or not,
-- `find_many` lists their keys by their creation.
pub record BulkTable (T R : Type 0) : Type 0 where
  pub table : Table T R
  pub update_many : T → (R → Bool) → (R → R) → T
  pub remove_many : T → (R → Bool) → T
  pub hard_delete_many : T → (R → Bool) → T
  pub find_many : T → (R → Bool) → List ℕ
  pub find-update_many :
      (t : T) (p : R → Bool) (change : R → R) (k : ℕ)
      → table.find (update_many t p change) k
        ≡ elim (table.find t k) [ none ↦ none | some r ↦ if p r then some (change r) else some r ]
  pub find-remove_many :
      (t : T) (p : R → Bool) (k : ℕ)
      → table.find (remove_many t p) k
        ≡ elim (table.find t k) [ none ↦ none | some r ↦ if p r then none else some r ]
  pub find-hard_delete_many :
      (t : T) (p : R → Bool) (k : ℕ)
      → table.find (hard_delete_many t p) k
        ≡ elim (table.find t k) [ none ↦ none | some r ↦ if p r then none else some r ]
  pub include-hard_delete_many :
      (t : T) (p : R → Bool) (k : ℕ)
      → table.include (hard_delete_many t p) k
        ≡ elim (table.include t k) [ none ↦ none | some r ↦ if p r then none else some r ]
  pub find_many_sound :
      (t : T) (p : R → Bool)
      → All (λ k. (r : R) × (table.find t k ≡ some r) × (p r ≡ true)) (find_many t p)

module _ {R : Type 0} where
  abbrev pub update_many : Rows R → (R → Bool) → (R → R) → Rows R
  update_many [] p change = []
  update_many ((k, live, r) ∷ rs) p change =
      (k, live, if live && p r then change r else r) ∷ update_many rs p change

  abbrev pub remove_many : Rows R → (R → Bool) → Rows R
  remove_many [] p = []
  remove_many ((k, live, r) ∷ rs) p = (k, live && not (p r), r) ∷ remove_many rs p

  abbrev pub drop : Rows R → ℕ → Rows R
  drop [] k = []
  drop ((j, live, r) ∷ rs) k = let rest = drop rs k in if j == k then rest else (j, live, r) ∷ rest

  abbrev pub hard_delete_many : Rows R → (R → Bool) → Rows R
  hard_delete_many [] p = []
  hard_delete_many ((k, live, r) ∷ rs) p =
      let rest = hard_delete_many rs p in if p r then drop rest k else (k, live, r) ∷ rest

  -- The listed keys whose row in the whole table passes.
  abbrev pub select : Rows R → Rows R → (R → Bool) → List ℕ
  select all [] p = []
  select all ((k, live, r) ∷ rs) p = elim (find all k) [
    | none ↦ select all rs p
    | some x ↦ if p x then k ∷ select all rs p else select all rs p
  ]

  pub find-update_many :
      (rs : Rows R) (p : R → Bool) (change : R → R) (k : ℕ)
      → find (update_many rs p change) k
        ≡ elim (find rs k) [ none ↦ none | some r ↦ if p r then some (change r) else some r ]
  find-update_many [] p change k = refl
  find-update_many ((j, live, r) ∷ rs) p change k = ground (arith, find-update_many rs p change k)

  pub find-remove_many :
      (rs : Rows R) (p : R → Bool) (k : ℕ)
      → find (remove_many rs p) k
        ≡ elim (find rs k) [ none ↦ none | some r ↦ if p r then none else some r ]
  find-remove_many [] p k = refl
  find-remove_many ((j, live, r) ∷ rs) p k = ground (arith, find-remove_many rs p k)

  find-drop : (rs : Rows R) (k j : ℕ) → find (drop rs k) j ≡ (if k == j then none else find rs j)
  find-drop [] k j = ground arith
  find-drop ((i, live, r) ∷ rs) k j = ground (arith, find-drop rs k j)

  include-drop :
      (rs : Rows R) (k j : ℕ) → include (drop rs k) j ≡ (if k == j then none else include rs j)
  include-drop [] k j = ground arith
  include-drop ((i, live, r) ∷ rs) k j = ground (arith, include-drop rs k j)

  pub find-hard_delete_many :
      (rs : Rows R) (p : R → Bool) (k : ℕ)
      → find (hard_delete_many rs p) k
        ≡ elim (find rs k) [ none ↦ none | some r ↦ if p r then none else some r ]
  find-hard_delete_many [] p k = refl
  find-hard_delete_many ((j, live, r) ∷ rs) p k =
      ground (arith, find-hard_delete_many rs p k, find-drop (hard_delete_many rs p) j k)

  pub include-hard_delete_many :
      (rs : Rows R) (p : R → Bool) (k : ℕ)
      → include (hard_delete_many rs p) k
        ≡ elim (include rs k) [ none ↦ none | some r ↦ if p r then none else some r ]
  include-hard_delete_many [] p k = refl
  include-hard_delete_many ((j, live, r) ∷ rs) p k =
      ground (arith, include-hard_delete_many rs p k, include-drop (hard_delete_many rs p) j k)

  pub select_sound :
      (all rs : Rows R) (p : R → Bool)
      → All (λ k. (r : R) × (find all k ≡ some r) × (p r ≡ true)) (select all rs p)
  select_sound all [] p = tt
  select_sound all ((k, live, r) ∷ rs) p =
      let rest = select_sound all rs p in
      elim (Option-cases (find all k)) [
        | inl missing ↦ rw (select, missing) rest
        | inr (x, found) ↦ elim (Bool-cases (p x)) [
          | inl passes ↦ rw (select, found, passes) ((x, found, passes), rest)
          | inr fails ↦ rw (select, found, fails) rest
        ]
      ]

abbrev pub memory_bulk : (R : Type 0) → BulkTable (Rows R) R
memory_bulk R = record {
  table = memory R;
  update_many = update_many;
  remove_many = remove_many;
  hard_delete_many = hard_delete_many;
  find_many = λ rs. select rs rs;
  find-update_many = find-update_many;
  find-remove_many = find-remove_many;
  find-hard_delete_many = find-hard_delete_many;
  include-hard_delete_many = include-hard_delete_many;
  find_many_sound = λ rs. select_sound rs rs;
}
