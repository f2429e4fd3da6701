-- ===== src/EventHandlers/Unique.antt =====
-- A unique column of a table that is kept in a list, whose values are the ids of the rows: it shows that
-- what the handlers rely on in the client can be met.
use stellar_insured_backend.Prelude.{
  ==_iff, Bool, Bool-cases, Option, Option-cases, ap, false, if◌then◌else◌, inl, inr, none, refl,
  some, sym, true, true-ne-false, ℕ, ◌==◌, ◌∙◌, ◌≡◌,
}
use stellar_insured_backend.Database.Memory.{
  Rows, find, find-save, include, include-find, memory, save,
}
use stellar_insured_backend.EventHandlers.Store.{Keyed}

module _ {R : Type 0} where
  abbrev tagged : ℕ → Option R → Option (ℕ × R)
  tagged k none = none
  tagged k (some r) = some (k, r)

  abbrev given : Option R → Bool
  given none = false
  given (some r) = true

  abbrev changed : R → (R → R) → Option R → R
  changed new f none = new
  changed new f (some r) = f r

  abbrev by_key : Rows R → ℕ → Option (ℕ × R)
  by_key t k = tagged k (find t k)

  abbrev upsert : Rows R → ℕ → R → (R → R) → (ℕ × R) × Rows R
  upsert t k new f = let x = changed new f (include t k) in ((k, x), save t k x)

  tagged-find : (x : Option R) (k i : ℕ) (r : R) → tagged k x ≡ some (i, r) → (k ≡ i) × (x ≡ some r)
  tagged-find none k i r h = cc
  tagged-find (some y) k i r h = (cc, cc)

  pub find-by_key : (t : Rows R) (k i : ℕ) (r : R) → by_key t k ≡ some (i, r) → find t i ≡ some r
  find-by_key t k i r h =
      let (same, found) = tagged-find (find t k) k i r h in ap (find t) (sym same) ∙ found

  pub by_key-used :
      (t : Rows R) (k i : ℕ) (r : R) → by_key t k ≡ some (i, r) → given (include t k) ≡ true
  by_key-used t k i r h =
      let (same, found) = tagged-find (find t k) k i r h in ap given (include-find t k r found)

  pub by_key-save' :
      (t : Rows R) (k j : ℕ) (x : R)
      → by_key (save t k x) j ≡ (if k == j then some (k, x) else by_key t j)
  by_key-save' t k j x = elim (Bool-cases (k == j)) [
    | inl same ↦ ap (tagged j) (find-save t k j x) ∙ rw (same, (==_iff k j).0 same) refl
    | inr other ↦ ap (tagged j) (find-save t k j x) ∙ rw other refl
  ]

  pub upsert_live :
      (t : Rows R) (k i : ℕ) (r new : R) (f : R → R)
      → by_key t k ≡ some (i, r)
      → (upsert t k new f).0 ≡ (i, f r)
  upsert_live t k i r new f h =
      let (same, found) = tagged-find (find t k) k i r h in
      let e = include-find t k r found in rw (e, same) refl

  pub upsert_unused :
      (t : Rows R) (k : ℕ) (new : R) (f : R → R)
      → given (include t k) ≡ false
      → (upsert t k new f).0.1 ≡ new
  upsert_unused t k new f h = elim (Option-cases (include t k)) [
    | inl e ↦ ap (changed new f) e
    | inr (y, e) ↦ absurd (true-ne-false (sym (ap given e) ∙ h))
  ]

  pub by_key-save :
      (t : Rows R) (k i : ℕ) (r x : R)
      → by_key t k ≡ some (i, r)
      → by_key (save t i x) k ≡ some (i, x)
  by_key-save t k i r x h =
      let (same, found) = tagged-find (find t k) k i r h in
      by_key-save' t i k x ∙ rw ((==_iff i k).1 (sym same)) refl

abbrev pub memory_keyed : {R : Type 0} (key : R → ℕ) → Keyed (memory R) key
memory_keyed key = record {
  by_key = by_key;
  is_used = λ t k. given (include t k);
  upsert = upsert;
  find-by_key = find-by_key;
  by_key-used = by_key-used;
  by_key-upsert = λ t k j new f. by_key-save' t k j (changed new f (include t k));
  upsert_live = upsert_live;
  upsert_unused = upsert_unused;
  by_key-save = λ t k i r x h e. by_key-save t k i r x h;
}
