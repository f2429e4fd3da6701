-- ===== src/EventHandlers/Frame.antt =====
-- The parts of a handler that write only users, notifications and reputation rows.
use stellar_insured_backend.Database.{Result, Tx, err, ok}
use stellar_insured_backend.Model.{Db, NotificationType}
use stellar_insured_backend.Service.{Io, pure, ◌>>=◌}
use stellar_insured_backend.Reputation.{Delta, adjust_reputation, points, update_user_trust_score}
use stellar_insured_backend.Notification.{prepare_notification}
use stellar_insured_backend.EventHandlers.Store.{HandlerClient, World}
use stellar_insured_backend.EventHandlers.{adjust, attempt, notify, on_db, upsert_by_wallet}
use stellar_insured_backend.EventHandlers.Dispatch.{
  calculate_trust_score, notify_all, score_creator, update_trust_score,
}
use stellar_insured_backend.Prelude.{Bool-cases, List, [], inl, inr, refl, ℕ, ◌==◌, ◌∙◌, ◌∷◌, ◌≡◌}

module _ {h : HandlerClient} where
  abbrev pub SameTables : World h → World h → Type 0
  SameTables w w' =
      (w'.projects ≡ w.projects)
      × (w'.contributions ≡ w.contributions)
      × (w'.milestones ≡ w.milestones)

  -- An operation that leaves the three tables as they are.
  abbrev pub Keeps : {A : Type 0} → Io (World h) A → Type 0
  Keeps m = (w : World h) → SameTables w (m w).1

  SameTables-trans : (u v w : World h) → SameTables u v → SameTables v w → SameTables u w
  SameTables-trans u v w (a, b, c) (d, e, f) = (d ∙ a, e ∙ b, f ∙ c)

  pub Keeps-pure : {A : Type 0} (a : A) → Keeps (pure {S = World h} a)
  Keeps-pure a w = (refl, refl, refl)

  pub Keeps-bind :
      {A B : Type 0} (m : Io (World h) A) (f : A → Io (World h) B)
      → Keeps m
      → ((a : A) → Keeps (f a))
      → Keeps (m >>= f)
  Keeps-bind {A} {B} m f k l w = go (m w) (k w)
    where
      go :
          (r : Result A × World h)
          → SameTables w r.1
          → SameTables w
              (let (x, v) = r in
                elim x as (λ _. Result B × World h) [ ok a ↦ f a v | err e ↦ (err e, v) ]).1
      go (ok a, v) same = SameTables-trans w v (f a v).1 same (l a v)
      go (err e, v) same = same

  pub Keeps-attempt : {A : Type 0} (m : Io (World h) A) → Keeps m → Keeps (attempt m)
  Keeps-attempt m k w = k w

  pub Keeps-on_db : {A : Type 0} (f : Tx (Db h.c) A) → Keeps (on_db h f)
  Keeps-on_db {A} f w = go (f w.db)
    where
      go :
          (r : Result (A × Db h.c))
          → SameTables w
              (elim r as (λ _. Result A × World h) [
                | ok (a, s) ↦ (ok a, record w { db = s })
                | err e ↦ (err e, w)
              ]).1
      go (ok (a, s)) = (refl, refl, refl)
      go (err e) = (refl, refl, refl)

module _ (h : HandlerClient) where
  pub Keeps-notify :
      (user : ℕ) (type : NotificationType) (entity : ℕ) → Keeps (notify h user type entity)
  unfolding notify
  Keeps-notify user type entity =
      Keeps-bind (on_db h (prepare_notification h.c user type entity)) (λ _. pure tt)
        (Keeps-on_db (prepare_notification h.c user type entity)) (λ _ w. (refl, refl, refl))

  pub Keeps-adjust : (user : ℕ) (delta : Delta) → Keeps (adjust h user delta)
  unfolding adjust
  Keeps-adjust user delta = Keeps-on_db (adjust_reputation h.c user (points delta))

  pub Keeps-update_trust_score : (user : ℕ) → Keeps (update_trust_score h user)
  unfolding update_trust_score
  Keeps-update_trust_score user w =
      Keeps-bind (on_db h (update_user_trust_score h.c user (calculate_trust_score h user w)))
        (λ _. pure tt)
        (Keeps-on_db (update_user_trust_score h.c user (calculate_trust_score h user w)))
        (λ _ w'. (refl, refl, refl)) w

  pub Keeps-upsert_by_wallet : (wallet : ℕ) → Keeps (upsert_by_wallet h wallet)
  unfolding upsert_by_wallet
  Keeps-upsert_by_wallet wallet w = (refl, refl, refl)

  pub Keeps-notify_all : (users : List ℕ) (project : ℕ) → Keeps (notify_all h users project)
  unfolding notify_all
  Keeps-notify_all [] project = λ w. (refl, refl, refl)
  Keeps-notify_all (user ∷ users) project =
      Keeps-bind (attempt (notify h user NotificationType.milestone project))
        (λ _. notify_all h users project) (Keeps-notify user NotificationType.milestone project)
        (λ _. Keeps-notify_all users project)

  pub Keeps-score_creator : (creator : ℕ) (delta : Delta) → Keeps (score_creator h creator delta)
  unfolding score_creator
  Keeps-score_creator creator delta w = elim (Bool-cases (creator == 0)) [
    | inl none' ↦ rw none' (refl, refl, refl)
    | inr some' ↦ rw some' (
        Keeps-bind (update_trust_score h creator) (λ _. attempt (adjust h creator delta))
          (Keeps-update_trust_score creator) (λ _. Keeps-adjust creator delta) w)
  ]
