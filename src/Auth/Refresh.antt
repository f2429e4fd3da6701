-- ===== src/Auth/Refresh.antt =====
-- What a refresh that succeeds has checked and done.
use stellar_insured_backend.Prelude.{
  Option, Option-cases, arith, false, if◌then◌else◌, inl, inr, is_some, ltb, refl, some, true, ℕ,
  ◌≡◌, ◌≤◌,
}
use stellar_insured_backend.Database.{ok, unauthorized}
use stellar_insured_backend.Model.{AuditAction}
use stellar_insured_backend.Auth.Revocation.{token_at}
use stellar_insured_backend.Service.{
  Io, Yields, Yields-any, Yields-bind, Yields-eq_ok, Yields-map, Yields-if, Yields-transaction,
  pure, throw, transaction, ◌>>=◌, ◌>>◌,
}
use stellar_insured_backend.Auth.{
  Config, Keys, RefreshToken, State, find_by_token, is_unrevoked, revoke_family, rotate,
}
use stellar_insured_backend.Auth.Rotation.{IsRevoked, rotate_lem}
use stellar_insured_backend.Auth.Session.{find_by_id, log, mismatch, refresh_stored, refresh_tokens}

module _ (k : Keys) where
  -- What the refresh of `value` found out about it.
  pub record Accepted (now value : ℕ) (fingerprint : Option ℕ) (s : State k) : Type 0 where
    pub row : RefreshToken
    pub stored : token_at k s value ≡ some row
    pub not_expired : now ≤ row.expires_at
    pub unrevoked : is_unrevoked row ≡ true
    pub same_device : mismatch row.fingerprint fingerprint ≡ false

  rotation :
      (config : Config) (now raw value : ℕ) (r : RefreshToken) (fingerprint : Option ℕ)
      (s : State k)
      → Yields
          (λ token t. (token ≡ raw) × IsRevoked k t value)
          ((find_by_id k r.user_id
              >> (transaction (rotate k config now raw value r fingerprint) >>= λ token.
                  log k AuditAction.token_refresh >> pure token))
            s)
  unfolding log
  rotation config now raw value r fingerprint s =
      let Goal = λ (token : ℕ) (t : State k). (token ≡ raw) × IsRevoked k t value in
      let rest = λ (token : ℕ). log k AuditAction.token_refresh >> pure token in
      Yields-bind (λ _ _. Unit {0}) Goal (find_by_id k r.user_id)
        (λ _. transaction (rotate k config now raw value r fingerprint) >>= rest) s
        (Yields-any (find_by_id k r.user_id s))
        λ _ t _.
          Yields-bind Goal Goal (transaction (rotate k config now raw value r fingerprint)) rest t
            (Yields-transaction Goal (rotate k config now raw value r fingerprint) t
              (rotate_lem k config now raw value r fingerprint t))
            λ token u h. h

  stored_lem :
      (config : Config) (now raw value : ℕ) (r : RefreshToken) (fingerprint : Option ℕ)
      (s : State k)
      → token_at k s value ≡ some r
      → Yields
          (λ token t. Accepted now value fingerprint s × (token ≡ raw) × IsRevoked k t value)
          (refresh_stored k config now raw value r fingerprint s)
  unfolding refresh_stored log
  stored_lem config now raw value r fingerprint s found =
      let Goal = λ (token : ℕ) (t : State k).
        Accepted now value fingerprint s × (token ≡ raw) × IsRevoked k t value in
      let refuse : Io (State k) ℕ = log k AuditAction.token_reuse_detected >> throw unauthorized in
      let reuse : Io (State k) ℕ =
        transaction (revoke_family k now r.family_id)
        >> (log k AuditAction.token_reuse_detected >> throw unauthorized) in
      let proceed : Io (State k) ℕ =
        find_by_id k r.user_id
        >> (transaction (rotate k config now raw value r fingerprint) >>= λ token.
            log k AuditAction.token_refresh >> pure token) in
      let third : Io (State k) ℕ = if mismatch r.fingerprint fingerprint then refuse else proceed in
      let second : Io (State k) ℕ = if is_some r.revoked_at then reuse else third in
      Yields-if Goal (ltb r.expires_at now) refuse second s (λ _. tt)
        λ fresh.
          Yields-if Goal (is_some r.revoked_at) reuse third s
            (λ _.
              Yields-bind (λ _ _. Unit {0}) Goal (transaction (revoke_family k now r.family_id))
                (λ _. refuse) s (Yields-any (transaction (revoke_family k now r.family_id) s))
                λ _ _ _. tt)
            λ unused.
              Yields-if Goal (mismatch r.fingerprint fingerprint) refuse proceed s (λ _. tt)
                λ same.
                  let accepted : Accepted now value fingerprint s = record {
                    row = r;
                    stored = found;
                    not_expired = ground arith;
                    unrevoked = rw (unused) refl;
                    same_device = same;
                  } in
                  Yields-map (λ token t. (token ≡ raw) × IsRevoked k t value) Goal
                    (λ token t (e, h). (accepted, e, h)) (proceed s)
                    (rotation config now raw value r fingerprint s)

  refresh_lem :
      (config : Config) (now raw value : ℕ) (fingerprint : Option ℕ) (s : State k)
      → Yields
          (λ token t. Accepted now value fingerprint s × (token ≡ raw) × IsRevoked k t value)
          (refresh_tokens k config now raw value fingerprint s)
  unfolding refresh_tokens find_by_token log
  refresh_lem config now raw value fingerprint s = elim (Option-cases (token_at k s value)) [
    | inl missing ↦ rw (missing, Yields) tt
    | inr (r, found) ↦ rw (found) (stored_lem config now raw value r fingerprint s found)
  ]

  -- A refresh that returns a token was given one that is stored, has not expired, is not revoked and
  -- whose fingerprint does not differ from a given one; the answer is the token that was drawn, and
  -- the given one is revoked afterwards.
  pub refresh_returns :
      (config : Config) (now raw value token : ℕ) (fingerprint : Option ℕ) (s t : State k)
      → refresh_tokens k config now raw value fingerprint s ≡ (ok token, t)
      → Accepted now value fingerprint s × (token ≡ raw) × IsRevoked k t value
  refresh_returns config now raw value token fingerprint s t e =
      Yields-eq_ok
        (λ token t. Accepted now value fingerprint s × (token ≡ raw) × IsRevoked k t value) e
        (refresh_lem config now raw value fingerprint s)
