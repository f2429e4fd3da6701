-- ===== src/Auth.antt =====
-- auth/repositories/refresh-token.repository.ts and the transaction bodies of auth/auth.service.ts.
-- A token, a family and a fingerprint are numbers that are only compared; 0 is the empty text. The
-- random bytes and the time are arguments.
pub mod Session
pub mod Revocation
pub mod Rotation
pub mod Refresh
pub mod Issue
use stellar_insured_backend.Prelude.{
  Bool, List, Option, [], false, if◌then◌else◌, is_some, ltb, none, not, some, take, ℕ, ◌&&◌, ◌+◌,
  ◌-◌, ◌==◌, ◌||◌, ◌∷◌,
}
use stellar_insured_backend.Database.{
  BulkTable, Table, Tx, err, gets, ok, pure, unique_violation, update_row, ◌>>=◌, ◌>>◌,
}
use stellar_insured_backend.Model.{AuditAction, User}

pub record RefreshToken : Type 0 where
  pub user_id : ℕ
  pub family_id : ℕ
  pub expires_at : ℕ
  pub revoked_at : Option ℕ
  pub replaced_by_token : Option ℕ
  pub fingerprint : Option ℕ
  pub created_at : ℕ

-- The two tables that the service uses, and SHA-256 in hexadecimal.
pub record Keys : Type 1 where
  pub Tokens : Type 0
  pub Users : Type 0
  pub tokens : BulkTable Tokens RefreshToken
  pub users : Table Users User
  pub sha256 : ℕ → ℕ

-- What the service is configured with.
pub record Config : Type 0 where
  pub refresh_token_ttl_ms : ℕ
  pub max_sessions_per_user : ℕ

pub record State (k : Keys) : Type 0 where
  pub tokens : k.Tokens
  pub users : k.Users
  pub audit_log : List AuditAction

-- A text that is present and not empty.
abbrev pub truthy : Option ℕ → Option ℕ
truthy none = none
truthy (some x) = if x == 0 then none else some x

abbrev pub is_unrevoked : RefreshToken → Bool
is_unrevoked r = not (is_some r.revoked_at)

-- `given ?? stored ?? undefined`
abbrev pub or_else : Option ℕ → Option ℕ → Option ℕ
or_else none stored = stored
or_else (some f) stored = some f

module _ (k : Keys) where
  abbrev pub on_tokens : {A : Type 0} → Tx k.Tokens A → Tx (State k) A
  on_tokens m s = elim (m s.tokens) [ ok (a, t) ↦ ok (a, record s { tokens = t }) | err e ↦ err e ]

  -- `create`: the token is unique among all the rows, the deleted ones too.
  unfoldable pub create_token : ℕ → RefreshToken → Tx (State k) RefreshToken
  create_token token row s = elim (k.tokens.table.include s.tokens token) [
    | some _ ↦ err unique_violation
    | none ↦ ok (row, record s { tokens = k.tokens.table.save s.tokens token row })
  ]

  unfoldable pub find_by_token : ℕ → Tx (State k) (Option RefreshToken)
  find_by_token token s = ok (k.tokens.table.find s.tokens token, s)

  abbrev pub revoked : ℕ → Option ℕ → RefreshToken → RefreshToken
  revoked now replaced_by r = record r { revoked_at = some now; replaced_by_token = replaced_by }

  unfoldable pub revoke_token : ℕ → ℕ → Option ℕ → Tx (State k) RefreshToken
  revoke_token now token replaced_by =
      on_tokens (update_row k.tokens.table token (revoked now replaced_by))

  -- updateMany of the rows that pass, with their revocation; the number of rows is the answer.
  unfoldable pub revoke_where : ℕ → (RefreshToken → Bool) → Tx (State k) ℕ
  revoke_where now p s = ok (
    k.tokens.table.count s.tokens (λ _ r. p r),
    record s { tokens = k.tokens.update_many s.tokens p (λ r. record r { revoked_at = some now }) },
  )

  unfoldable pub revoke_family : ℕ → ℕ → Tx (State k) ℕ
  unfolding revoke_where
  revoke_family now family_id = revoke_where now (λ r. r.family_id == family_id && is_unrevoked r)

  unfoldable pub revoke_all_for_user : ℕ → ℕ → Tx (State k) ℕ
  unfolding revoke_where
  revoke_all_for_user now user_id = revoke_where now (λ r. r.user_id == user_id && is_unrevoked r)

  abbrev pub is_active_of : ℕ → ℕ → RefreshToken → Bool
  is_active_of now user_id r = r.user_id == user_id && is_unrevoked r && ltb now r.expires_at

  unfoldable pub count_active_for_user : ℕ → ℕ → Tx (State k) ℕ
  count_active_for_user now user_id s =
      ok (k.tokens.table.count s.tokens (λ _ r. is_active_of now user_id r), s)

  -- `{ lt: cutoff }` on a date that may be null.
  abbrev pub is_before : ℕ → Option ℕ → Bool
  is_before cutoff none = false
  is_before cutoff (some t) = ltb t cutoff

  unfoldable pub purge_stale_tokens : ℕ → Tx (State k) ℕ
  purge_stale_tokens cutoff s =
      let stale = λ (r : RefreshToken). ltb r.expires_at cutoff || is_before cutoff r.revoked_at in
      ok (
        k.tokens.table.count s.tokens (λ _ r. stale r),
        record s { tokens = k.tokens.remove_many s.tokens stale },
      )

  -- The raw token is the answer; its hash is stored.
  unfoldable pub create_refresh_token : Config → ℕ → ℕ → ℕ → ℕ → Option ℕ → Tx (State k) ℕ
  unfolding create_token
  create_refresh_token config now raw user_id family_id fingerprint = do
    create_token (k.sha256 raw) (record {
      user_id = user_id;
      family_id = family_id;
      expires_at = now + config.refresh_token_ttl_ms;
      revoked_at = none;
      replaced_by_token = none;
      fingerprint = elim (truthy fingerprint) [ none ↦ none | some f ↦ some (k.sha256 f) ];
      created_at = now;
    })
    pure raw

  unfoldable pub revoke_each : ℕ → List ℕ → Tx (State k) (Unit {0})
  revoke_each now [] = pure tt
  revoke_each now (token ∷ tokens) = revoke_token now token none >> revoke_each now tokens

  -- The oldest tokens of the user, the expired ones too, as many as the count exceeds the limit by.
  unfoldable pub enforce_session_limit : Config → ℕ → ℕ → Tx (State k) (Unit {0})
  unfolding count_active_for_user
  enforce_session_limit config now user_id = do
    active_count ← count_active_for_user now user_id
    oldest ← gets (λ s.
        take (active_count - config.max_sessions_per_user)
          (k.tokens.find_many s.tokens (λ r. r.user_id == user_id && is_unrevoked r)))
    if ltb config.max_sessions_per_user active_count then revoke_each now oldest else pure tt

  -- The transaction of walletLogin.
  unfoldable pub issue : Config → ℕ → ℕ → ℕ → ℕ → Option ℕ → Tx (State k) ℕ
  issue config now raw user_id family_id fingerprint = do
    token ← create_refresh_token config now raw user_id family_id fingerprint
    enforce_session_limit config now user_id
    pure token

  -- The transaction of refreshTokens on a valid token.
  unfoldable pub rotate : Config → ℕ → ℕ → ℕ → RefreshToken → Option ℕ → Tx (State k) ℕ
  rotate config now raw value stored fingerprint = do
    token ←
        create_refresh_token config now raw stored.user_id stored.family_id
          (or_else fingerprint stored.fingerprint)
    revoke_token now value (some token)
    enforce_session_limit config now stored.user_id
    pure token

  -- The transaction of a targeted logout.
  unfoldable pub logout_one : ℕ → ℕ → ℕ → Tx (State k) ℕ
  unfolding find_by_token
  logout_one now user_id value = do
    stored ← find_by_token value
    elim stored [
      | none ↦ pure 0
      | some r ↦
          if r.user_id == user_id && is_unrevoked r
          then revoke_token now value none >> pure 1
          else pure 0
    ]
