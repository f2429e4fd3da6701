-- ===== src/Notification/Rows.antt =====
-- What preparing a notification writes, and what it leaves alone.
use stellar_insured_backend.Prelude.{
  Bool-cases, Option, Option-cases, arith, if◌then◌else◌, inl, inr, none, some, ℕ, ◌∷◌, ◌≡◌,
}
use stellar_insured_backend.Database.{Returns, Returns-bind, Returns-map, pure}
use stellar_insured_backend.Model.{Client, Db, NotificationType, Settings, User}
use stellar_insured_backend.Notification.{
  Contact, Prepared, opted_out, prepare_for, prepare_notification, prepare_rows, settings_of,
}

module _ (c : Client) where
  -- The tables that a notification has nothing to do with.
  pub record SameBusiness (s s' : Db c) : Type 0 where
    pub pools : s'.pools ≡ s.pools
    pub policies : s'.policies ≡ s.policies
    pub claims : s'.claims ≡ s.claims
    pub contracts : s'.contracts ≡ s.contracts
    pub audit_log : s'.audit_log ≡ s.audit_log
    pub history : s'.history ≡ s.history

  settings_of_lem :
      (id : ℕ) (found : Option Settings) (u : User) (s : Db c)
      → c.users.find s.users id ≡ some u
      → Returns
          (λ st s'. SameBusiness s s' × (s'.notifications ≡ s.notifications))
          (settings_of c id found s)
  unfolding settings_of
  settings_of_lem id none u s h = ground arith
  settings_of_lem id (some st) u s h = ground arith

  -- Rows are written for a user who has not opted out, none otherwise; nothing else changes.
  abbrev pub Prepares : ℕ → NotificationType → ℕ → Db c → Option Prepared → Db c → Type 0
  Prepares id type entity_id s none s' = SameBusiness s s' × (s'.notifications ≡ s.notifications)
  Prepares id type entity_id s (some p) s' =
      SameBusiness s s'
      × (s'.notifications
          ≡ record { user_id = id; type = type; entity_id = entity_id } ∷ s.notifications)

  prepare_rows_lem :
      (id : ℕ) (type : NotificationType) (entity_id : ℕ) (k : Contact) (st : Settings) (s : Db c)
      → Returns (Prepares id type entity_id s) (prepare_rows c id type entity_id k st s)
  unfolding prepare_rows
  prepare_rows_lem id type entity_id k st s = ground arith

  Prepares-trans :
      (id : ℕ) (type : NotificationType) (entity_id : ℕ) (r : Option Prepared) (s s₁ s₂ : Db c)
      → SameBusiness s s₁
      → s₁.notifications ≡ s.notifications
      → Prepares id type entity_id s₁ r s₂
      → Prepares id type entity_id s r s₂
  Prepares-trans id type entity_id none s s₁ s₂ b n p = ground arith
  Prepares-trans id type entity_id (some x) s s₁ s₂ b n p = ground arith

  prepare_for_lem :
      (id : ℕ) (type : NotificationType) (entity_id : ℕ) (k : Contact) (u : User) (s : Db c)
      → c.users.find s.users id ≡ some u
      → Returns (Prepares id type entity_id s) (prepare_for c id type entity_id k s)
  unfolding prepare_for
  prepare_for_lem id type entity_id k u s live =
      Returns-bind (λ st t. SameBusiness s t × (t.notifications ≡ s.notifications))
        (Prepares id type entity_id s) (settings_of c id k.settings)
        (λ st. if opted_out type st then pure none else prepare_rows c id type entity_id k st) s
        (settings_of_lem id k.settings u s live)
        λ st t (b, n). elim (Bool-cases (opted_out type st)) [
          | inl out ↦ rw out (b, n)
          | inr in_use ↦ rw in_use (
              Returns-map (Prepares id type entity_id t) (Prepares id type entity_id s)
                (λ r t'. Prepares-trans id type entity_id r s t t' b n)
                (prepare_rows c id type entity_id k st t)
                (prepare_rows_lem id type entity_id k st t))
        ]

  -- Preparing a notification never fails. It writes one Notification row when it returns a prepared
  -- notification and none when it returns null, and changes no pool, policy, claim, contract, audit
  -- row or reputation row.
  pub prepare_notification_lem :
      (id : ℕ) (type : NotificationType) (entity_id : ℕ) (s : Db c)
      → Returns (Prepares id type entity_id s) (prepare_notification c id type entity_id s)
  unfolding prepare_notification
  prepare_notification_lem id type entity_id s = elim (Option-cases (c.users.find s.users id)) [
    | inl missing ↦ rw (missing, Returns) (ground arith)
    | inr (u, live) ↦ rw (live, Returns) (prepare_for_lem id type entity_id _ u s live)
  ]

  pub Prepares-SameBusiness :
      (id : ℕ) (type : NotificationType) (entity_id : ℕ) (r : Option Prepared) (s s' : Db c)
      → Prepares id type entity_id s r s'
      → SameBusiness s s'
  Prepares-SameBusiness id type entity_id none s s' h = h.0
  Prepares-SameBusiness id type entity_id (some p) s s' h = h.0
