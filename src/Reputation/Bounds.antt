-- ===== src/Reputation/Bounds.antt =====
-- What an adjustment does to a user's score, and the range of every score.
use stellar_insured_backend.Database.{err, ok, ok_unique, record_not_found}
use stellar_insured_backend.Model.{Client, Db, User}
use stellar_insured_backend.Prelude.{
  Bool-cases, Option-cases, ap, arith, inl, inr, none, some, subst, sym, ℕ, ◌==◌, ◌∷◌, ◌≡◌,
}
use stellar_insured_backend.Prelude.Int.{pos, ℤ, ◌+ℤ◌, ◌≤ℤ◌}
use stellar_insured_backend.Reputation.{adjust_reputation, clamp, trust_score}

abbrev pub InRange : ℤ → Type 0
InRange x = (pos 0 ≤ℤ x) × (x ≤ℤ pos 1000)

pub clamp-InRange : (x : ℤ) → InRange (clamp x)
unfolding clamp
clamp-InRange x = ground arith

pub clamp_of_InRange : (x : ℤ) → InRange x → clamp x ≡ x
unfolding clamp
clamp_of_InRange x h = ground arith

-- The trust score lies between 0 and 1000 whatever the projects and milestones are.
trust_score_bounds : (a b n r d : ℕ) → InRange (trust_score a b n r d)
unfolding trust_score
trust_score_bounds a b n r d = ground arith

module _ (c : Client) where
  -- Every live user's score is in range.
  abbrev pub ScoresInRange : Db c → Type 0
  ScoresInRange s =
      (k : ℕ) (u : User) → c.users.find s.users k ≡ some u → InRange u.reputation_score

  abbrev pub adjusted : ℕ → ℤ → User → Db c → Db c
  adjusted id delta u s =
      let after : User = record u { reputation_score = clamp (u.reputation_score +ℤ delta) } in
      record s {
        users = c.users.save s.users id after;
        history = record { user_id = id; score_change = delta } ∷ s.history;
      }

  -- For a live user: the new score is the clamped sum, and only that row and the history change.
  pub adjust_of_live :
      (id : ℕ) (delta : ℤ) (u : User) (s : Db c)
      → c.users.find s.users id ≡ some u
      → adjust_reputation c id delta s
        ≡ ok (clamp (u.reputation_score +ℤ delta), adjusted id delta u s)
  unfolding adjust_reputation
  adjust_of_live id delta u s h = ground arith

  pub adjust_of_missing :
      (id : ℕ) (delta : ℤ) (s : Db c)
      → c.users.find s.users id ≡ none
      → adjust_reputation c id delta s ≡ err record_not_found
  unfolding adjust_reputation
  adjust_of_missing id delta s h = ground arith

  pub adjusted-ScoresInRange :
      (id : ℕ) (delta : ℤ) (u : User) (s : Db c)
      → ScoresInRange s
      → ScoresInRange (adjusted id delta u s)
  adjusted-ScoresInRange id delta u s h k v found = elim (Bool-cases (id == k)) [
    | inl same ↦ ground (
      arith,
      clamp-InRange (u.reputation_score +ℤ delta),
      c.users.find-save s.users id k
          (record u { reputation_score = clamp (u.reputation_score +ℤ delta) }),
    )
    | inr other ↦ ground (
      arith,
      h k v,
      c.users.find-save s.users id k
          (record u { reputation_score = clamp (u.reputation_score +ℤ delta) }),
    )
  ]

  -- An adjustment that succeeds keeps every live user's score between 0 and 1000, returns a score
  -- in that range, and adds exactly one row, of its delta, to the history.
  pub adjust-ScoresInRange :
      (id : ℕ) (delta : ℤ) (s s' : Db c) (x : ℤ)
      → ScoresInRange s
      → adjust_reputation c id delta s ≡ ok (x, s')
      → InRange x
        × ScoresInRange s'
        × (s'.history ≡ record { user_id = id; score_change = delta } ∷ s.history)
  adjust-ScoresInRange id delta s s' x h e = elim (Option-cases (c.users.find s.users id)) [
    | inl missing ↦ ground (arith, adjust_of_missing id delta s missing)
    | inr (u, live) ↦
        let (value, state) = ok_unique (adjust_of_live id delta u s live) e in
        (
          subst InRange value (clamp-InRange _),
          subst ScoresInRange state (adjusted-ScoresInRange id delta u s h),
          ap (λ t. t.history) (sym state),
        )
  ]
