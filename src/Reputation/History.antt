-- ===== src/Reputation/History.antt =====
-- Recomputation from the history against the running, clamped score.
use mathlib.Core.List.{append-nil, append_assoc}
use stellar_insured_backend.Prelude.{
  ==_iff, List, [], ap, arith, if◌then◌else◌, refl, some, subst, sym, ℕ, ◌++◌, ◌==◌, ◌∙◌, ◌∷◌, ◌≡◌,
}
use stellar_insured_backend.Prelude.Int.{pos, ℤ, ◌+ℤ◌}
use stellar_insured_backend.Database.{Result, Returns, Returns-map, Tx, err, ok, pure, ◌>>=◌, ◌>>◌}
use stellar_insured_backend.Model.{Client, Db, ReputationHistory, User}
use stellar_insured_backend.Reputation.{
  adjust_reputation, clamp, compute_reputation_from_history, find_user_score, total_from,
}
use stellar_insured_backend.Reputation.Bounds.{
  InRange, adjust_of_live, adjusted, clamp-InRange, clamp_of_InRange,
}

-- The score after clamping at every step, as a chain of adjustments leaves it.
pub running : ℤ → List ℤ → ℤ
running acc [] = acc
running acc (d ∷ ds) = running (clamp (acc +ℤ d)) ds

-- No partial sum leaves the range, so that no step is clamped.
abbrev pub Unclamped : ℤ → List ℤ → Type 0
Unclamped acc [] = Unit
Unclamped acc (d ∷ ds) = InRange (acc +ℤ d) × Unclamped (acc +ℤ d) ds

total_from-snoc : (acc d : ℤ) (ds : List ℤ) → total_from acc (ds ++ d ∷ []) ≡ total_from acc ds +ℤ d
unfolding total_from
total_from-snoc acc d [] = refl
total_from-snoc acc d (x ∷ ds) = total_from-snoc (acc +ℤ x) d ds

-- The score changes of the rows of one user, oldest first; the newest row is in front.
unfoldable pub changes_of : ℕ → List ReputationHistory → List ℤ
changes_of id [] = []
changes_of id (row ∷ rows) =
    let rest = changes_of id rows in
    if row.user_id == id then rest ++ row.score_change ∷ [] else rest

changes_of-own :
    (id : ℕ) (d : ℤ) (rows : List ReputationHistory)
    → changes_of id (record { user_id = id; score_change = d } ∷ rows)
      ≡ changes_of id rows ++ d ∷ []
unfolding changes_of
changes_of-own id d rows = rw ((==_iff id id).1 refl) refl

module _ (c : Client) where
  -- One adjustment of a user for each delta, in order.
  pub adjust_all : ℕ → List ℤ → Tx (Db c) (Unit {0})
  adjust_all id [] = pure tt
  adjust_all id (d ∷ ds) = do adjust_reputation c id d; adjust_all id ds

  abbrev pub ScoreAfter : ℕ → ℤ → Result (Unit {0} × Db c) → Type 0
  ScoreAfter id x (ok (_, s)) = find_user_score c id s ≡ ok (some x, s)
  ScoreAfter id x (err e) = ⊥

  find-adjusted :
      (id : ℕ) (d : ℤ) (u : User) (s : Db c)
      → c.users.find (adjusted c id d u s).users id
        ≡ some (record u { reputation_score = clamp (u.reputation_score +ℤ d) })
  find-adjusted id d u s = ground (
    arith,
    c.users.find-save s.users id id
        (record u { reputation_score = clamp (u.reputation_score +ℤ d) }),
  )

  -- A chain of adjustments of a live user succeeds and leaves the score that clamping after each one
  -- gives.
  adjust_all-running :
      (id : ℕ) (ds : List ℤ) (u : User) (s : Db c)
      → c.users.find s.users id ≡ some u
      → ScoreAfter id (running u.reputation_score ds) (adjust_all id ds s)
  unfolding adjust_all running find_user_score
  adjust_all-running id [] u s live = ground arith
  adjust_all-running id (d ∷ ds) u s live =
      let next : User = record u { reputation_score = clamp (u.reputation_score +ℤ d) } in
      rw (adjust_of_live c id d u s live, ◌>>=◌)
        (adjust_all-running id ds next (adjusted c id d u s) (find-adjusted id d u s))

  -- The user's score is the one recomputed from the history rows that the state stores, which are those
  -- there were and one of each delta.
  abbrev pub Recomputed : ℕ → List ℤ → Db c → Unit {0} → Db c → Type 0
  Recomputed id ds s _ t =
      (find_user_score c id t
        ≡ ok (some (compute_reputation_from_history (changes_of id t.history)), t))
      × (changes_of id t.history ≡ changes_of id s.history ++ ds)

  -- For a live user whose score is 50 and the changes of their stored history rows, and stays between 0
  -- and 1000 at every step, adjustments by any deltas succeed; afterwards the history stores one more
  -- row of the user for each delta, in order, and the score is the one recomputed from the rows of the
  -- user that the history then stores.
  pub adjust_all-Recomputed :
      (id : ℕ) (ds : List ℤ) (u : User) (s : Db c)
      → c.users.find s.users id ≡ some u
      → u.reputation_score ≡ total_from (pos 50) (changes_of id s.history)
      → InRange u.reputation_score
      → Unclamped u.reputation_score ds
      → Returns (Recomputed id ds s) (adjust_all id ds s)
  unfolding adjust_all compute_reputation_from_history find_user_score
  adjust_all-Recomputed id [] u s live sum r h = (
    rw live (ap (λ x. ok (some x, s)) (sym (clamp_of_InRange u.reputation_score r) ∙ ap clamp sum)),
    sym (append-nil (changes_of id s.history)),
  )
  adjust_all-Recomputed id (d ∷ ds) u s live sum r (in_range, rest) =
      let score = u.reputation_score +ℤ d in
      let next : User = record u { reputation_score = clamp score } in
      let v = adjusted c id d u s in
      let same = clamp_of_InRange score in_range in
      let more : changes_of id v.history ≡ changes_of id s.history ++ d ∷ [] =
        changes_of-own id d s.history in
      let sum' : clamp score ≡ total_from (pos 50) (changes_of id v.history) =
        same
        ∙ ap (λ x. x +ℤ d) sum
        ∙ sym (total_from-snoc (pos 50) d (changes_of id s.history))
        ∙ ap (total_from (pos 50)) (sym more) in
      rw (adjust_of_live c id d u s live, ◌>>=◌)
        (Returns-map (Recomputed id ds v) (Recomputed id (d ∷ ds) s)
          (λ _ t k. (
            k.0,
            k.1 ∙ ap (λ x. x ++ ds) more ∙ append_assoc (changes_of id s.history) (d ∷ []) ds,
          ))
          (adjust_all id ds v)
          (adjust_all-Recomputed id ds next v (find-adjusted id d u s) sum' (clamp-InRange score)
            (subst (λ x. Unclamped x ds) (sym same) rest)))
