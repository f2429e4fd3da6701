-- ===== src/Database/Memory.antt =====
-- A table kept in a list, which shows that the assumptions on the client can be met. A row carries
-- its id and whether it is live.
use stellar_insured_backend.Prelude.{
  Bool, List, Option, [], arith, false, if◌then◌else◌, max, none, refl, some, true, ℕ, ◌&&◌, ◌+◌,
  ◌==◌, ◌∷◌, ◌≡◌, ◌≤◌,
}
use stellar_insured_backend.Database.Defs.{Table}

abbrev pub Rows : Type 0 → Type 0
Rows R = List (ℕ × Bool × R)

module _ {R : Type 0} where
  abbrev pub find : Rows R → ℕ → Option R
  find [] k = none
  find ((j, live, r) ∷ rs) k = if j == k then (if live then some r else none) else find rs k

  abbrev pub include : Rows R → ℕ → Option R
  include [] k = none
  include ((j, live, r) ∷ rs) k = if j == k then some r else include rs k

  abbrev pub save : Rows R → ℕ → R → Rows R
  save [] k r = (k, true, r) ∷ []
  save ((j, live, x) ∷ rs) k r = if j == k then (k, true, r) ∷ rs else (j, live, x) ∷ save rs k r

  abbrev pub remove : Rows R → ℕ → Rows R
  remove [] k = []
  remove ((j, live, x) ∷ rs) k = if j == k then (j, false, x) ∷ rs else (j, live, x) ∷ remove rs k

  abbrev pub fresh : Rows R → ℕ
  fresh [] = 1
  fresh ((j, live, x) ∷ rs) = max (j + 1) (fresh rs)

  abbrev pub count : Rows R → (ℕ → R → Bool) → ℕ
  count [] p = 0
  count ((j, live, x) ∷ rs) p = (if live && p j x then 1 else 0) + count rs p

  -- The first of the listed ids whose row in the whole table passes the filter.
  abbrev pub scan : Rows R → Rows R → (R → Bool) → Option (ℕ × R)
  scan all [] p = none
  scan all ((j, live, x) ∷ rs) p = elim (find all j) [
    | none ↦ scan all rs p
    | some r ↦ if p r then some (j, r) else scan all rs p
  ]

  pub find-save :
      (rs : Rows R) (k j : ℕ) (r : R)
      → find (save rs k r) j ≡ (if k == j then some r else find rs j)
  find-save [] k j r = refl
  find-save ((i, live, x) ∷ rs) k j r = ground (arith, find-save rs k j r)

  pub find-remove :
      (rs : Rows R) (k j : ℕ) → find (remove rs k) j ≡ (if k == j then none else find rs j)
  find-remove [] k j = ground arith
  find-remove ((i, live, x) ∷ rs) k j = ground (arith, find-remove rs k j)

  pub find-of_fresh : (rs : Rows R) (k : ℕ) → fresh rs ≤ k → find rs k ≡ none
  find-of_fresh [] k h = refl
  find-of_fresh ((j, live, x) ∷ rs) k h = ground (arith, find-of_fresh rs k)

  pub include-find : (rs : Rows R) (k : ℕ) (r : R) → find rs k ≡ some r → include rs k ≡ some r
  include-find [] k r h = cc
  include-find ((j, live, x) ∷ rs) k r h = ground (arith, include-find rs k r)

  pub scan_sound :
      (all rs : Rows R) (p : R → Bool) (k : ℕ) (r : R)
      → scan all rs p ≡ some (k, r)
      → (find all k ≡ some r) × (p r ≡ true)
  scan_sound all [] p k r h = cc
  scan_sound all ((j, live, x) ∷ rs) p k r h = ground (arith, scan_sound all rs p k r)

  pub scan_complete :
      (all rs : Rows R) (p : R → Bool) (k : ℕ) (r y : R)
      → scan all rs p ≡ none
      → include rs k ≡ some y
      → find all k ≡ some r
      → p r ≡ false
  scan_complete all [] p k r y h i f = cc
  scan_complete all ((j, live, x) ∷ rs) p k r y h i f = ground (arith, scan_complete all rs p k r y)

-- The list as a delegate.
abbrev pub memory : (R : Type 0) → Table (Rows R) R
memory R = record {
  find = find;
  include = include;
  save = save;
  remove = remove;
  fresh = fresh;
  find_first = λ rs p. scan rs rs p;
  count = count;
  find-save = find-save;
  find-remove = find-remove;
  find-fresh = λ rs. find-of_fresh rs (fresh rs) (omega arith);
  include-find = include-find;
  find_first_sound = λ rs. scan_sound rs rs;
  find_first_complete = λ rs p k r h f. scan_complete rs rs p k r r h (include-find rs k r f) f;
}
