-- ===== src/Notification.antt =====
-- notification/services/notification.service.ts, the transactional half, with the contact data that
-- user/user.service.ts gives it and the rows of common/repositories/notification.repository.ts.
pub mod Rows
use stellar_insured_backend.Prelude.{
  Bool, Option, false, if◌then◌else◌, none, not, some, true, ℕ, ◌∷◌,
}
use stellar_insured_backend.Database.{
  Tx, create_row, err, modify, not_found, ok, pure, update_row, ◌>>=◌, ◌>>◌,
}
use stellar_insured_backend.Model.{
  Client, Db, EmailOutbox, Notification, NotificationType, OutboxStatus, Settings, User, on_outbox,
  on_users,
}

-- getDecryptedContact's result.
pub record Contact : Type 0 where
  pub email : Option ℕ
  pub push_subscription : Option ℕ
  pub settings : Option Settings

-- The defaults of NotificationSetting in the schema.
abbrev pub default_settings : Settings
default_settings = record {
  email_enabled = true;
  push_enabled = false;
  notify_contributions = true;
  notify_milestones = true;
  notify_deadlines = true;
}

abbrev pub or_default : Option Settings → Settings
or_default none = default_settings
or_default (some st) = st

-- What is left to do after the transaction commits: the outbox row to send, and the push target.
pub record Prepared : Type 0 where
  pub email : Option ℕ
  pub push : Option ℕ

-- The three opt-outs.
unfoldable pub opted_out : NotificationType → Settings → Bool
opted_out NotificationType.contribution st = not st.notify_contributions
opted_out NotificationType.milestone st = not st.notify_milestones
opted_out NotificationType.deadline st = not st.notify_deadlines
opted_out _ st = false

module _ (c : Client) where
  -- decryptUser on one field: what cannot be decrypted is kept.
  abbrev pub decrypt_field : Option ℕ → Option ℕ
  decrypt_field none = none
  decrypt_field (some x) = elim (c.decrypt x) [ none ↦ some x | some y ↦ some y ]

  unfoldable pub get_decrypted_contact : ℕ → Tx (Db c) Contact
  get_decrypted_contact id s = elim (c.users.find s.users id) [
    | none ↦ err not_found
    | some u ↦ ok (
      record {
        email = decrypt_field u.email;
        push_subscription = decrypt_field u.push_subscription;
        settings = u.settings;
      },
      s,
    )
  ]

  unfoldable pub upsert_for_user : ℕ → Tx (Db c) User
  upsert_for_user id =
      on_users (update_row c.users id (λ u. record u { settings = some (or_default u.settings) }))

  unfoldable pub create_notification : Notification → Tx (Db c) (Unit {0})
  create_notification row = modify (λ s. record s { notifications = row ∷ s.notifications })

  unfoldable pub create_outbox : EmailOutbox → Tx (Db c) (ℕ × EmailOutbox)
  create_outbox row = on_outbox (create_row c.outbox row)

  abbrev pub get_push_subscription : Option ℕ → Option ℕ
  get_push_subscription none = none
  get_push_subscription (some x) = c.push_target x

  -- The rows of a user who has not opted out.
  unfoldable pub settings_of : ℕ → Option Settings → Tx (Db c) Settings
  unfolding upsert_for_user
  settings_of id (some st) = pure st
  settings_of id none = do u ← upsert_for_user id; pure (or_default u.settings)

  unfoldable pub prepare_email : NotificationType → Settings → Option ℕ → Tx (Db c) (Option ℕ)
  unfolding create_outbox
  prepare_email type st none = pure none
  prepare_email type st (some to) =
      if st.email_enabled
      then (do
        row ←
            create_outbox
              (record { to = to; type = type; status = OutboxStatus.pending; attempts = 0 })
        pure (some row.0))
      else pure none

  unfoldable pub prepare_rows :
      ℕ → NotificationType → ℕ → Contact → Settings → Tx (Db c) (Option Prepared)
  unfolding create_notification prepare_email
  prepare_rows id type entity_id contact st = do
    create_notification (record { user_id = id; type = type; entity_id = entity_id })
    outbox_id ← prepare_email type st contact.email
    pure (
        some (record {
          email = outbox_id;
          push = if st.push_enabled then get_push_subscription contact.push_subscription else none;
        }))

  -- The rest of the body once the contact data is there.
  unfoldable pub prepare_for : ℕ → NotificationType → ℕ → Contact → Tx (Db c) (Option Prepared)
  unfolding settings_of prepare_rows opted_out
  prepare_for id type entity_id contact = do
    st ← settings_of id contact.settings
    if opted_out type st then pure none else prepare_rows id type entity_id contact st

  unfoldable pub prepare_notification : ℕ → NotificationType → ℕ → Tx (Db c) (Option Prepared)
  unfolding get_decrypted_contact prepare_for
  prepare_notification id type entity_id s = elim (get_decrypted_contact id s) [
    | err e ↦ ok (none, s)
    | ok (contact, s₁) ↦ prepare_for id type entity_id contact s₁
  ]
