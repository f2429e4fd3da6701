-- ===== src/Auth/Session.antt =====
-- refreshTokens, logout and the session that walletLogin issues, of auth/auth.service.ts. An audit
-- row is written outside the transactions, so it stays when the method throws.
use stellar_insured_backend.Prelude.{
  Bool, Option, false, if◌then◌else◌, is_some, ltb, none, not, some, ℕ, ◌==◌, ◌∷◌,
}
use stellar_insured_backend.Database.{err, not_found, ok, unauthorized}
use stellar_insured_backend.Model.{AuditAction, User}
use stellar_insured_backend.Service.{Io, pure, throw, transaction, ◌>>=◌, ◌>>◌}
use stellar_insured_backend.Auth.{
  Config, Keys, RefreshToken, State, find_by_token, logout_one, revoke_all_for_user, revoke_family,
  rotate, truthy,
}

-- Whether both fingerprints are given and differ.
abbrev pub mismatch : Option ℕ → Option ℕ → Bool
mismatch stored given = elim (truthy stored) [
  | none ↦ false
  | some a ↦ elim (truthy given) [ none ↦ false | some b ↦ not (a == b) ]
]

module _ (k : Keys) where
  unfoldable pub log : AuditAction → Io (State k) (Unit {0})
  log action s = (ok tt, record s { audit_log = action ∷ s.audit_log })

  -- userService.findById
  unfoldable pub find_by_id : ℕ → Io (State k) User
  find_by_id id s = elim (k.users.find s.users id) [
    | none ↦ (err not_found, s)
    | some u ↦ (ok u, s)
  ]

  -- The checks on a stored token, in their order, and the rotation.
  unfoldable pub refresh_stored : Config → ℕ → ℕ → ℕ → RefreshToken → Option ℕ → Io (State k) ℕ
  unfolding log find_by_id
  refresh_stored config now raw value stored fingerprint =
      if ltb stored.expires_at now
      then log AuditAction.token_reuse_detected >> throw unauthorized
      else if is_some stored.revoked_at
      then (do
        transaction (revoke_family k now stored.family_id)
        log AuditAction.token_reuse_detected
        throw unauthorized)
      else if mismatch stored.fingerprint fingerprint
      then log AuditAction.token_reuse_detected >> throw unauthorized
      else (do
        find_by_id stored.user_id
        token ← transaction (rotate k config now raw value stored fingerprint)
        log AuditAction.token_refresh
        pure token)

  unfoldable pub refresh_tokens : Config → ℕ → ℕ → ℕ → Option ℕ → Io (State k) ℕ
  unfolding log
  refresh_tokens config now raw value fingerprint = do
    stored ← transaction (find_by_token k value)
    elim stored [
      | none ↦ log AuditAction.reject >> throw unauthorized
      | some r ↦ refresh_stored config now raw value r fingerprint
    ]

  unfoldable pub logout : ℕ → ℕ → Option ℕ → Io (State k) ℕ
  unfolding log
  logout now user_id specific_token = do
    count ← transaction (elim (truthy specific_token) [
      | some value ↦ logout_one k now user_id value
      | none ↦ revoke_all_for_user k now user_id
    ])
    log AuditAction.token_revoke
    pure count
