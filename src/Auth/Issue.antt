-- ===== src/Auth/Issue.antt =====
-- What becomes of the token that a login hands out.
use stellar_insured_backend.Prelude.{
  Option, Option-cases, arith, inl, inr, none, refl, some, ℕ, ◌+◌, ◌≡◌, ◌≢◌,
}
use stellar_insured_backend.Database.{
  Ensures, Ensures-bind, Ensures-eq_ok, err, ok, pure, unauthorized, ◌>>◌,
}
use stellar_insured_backend.Auth.Revocation.{token_at}
use stellar_insured_backend.Auth.{
  Config, Keys, State, create_refresh_token, create_token, enforce_session_limit, find_by_token,
  issue, truthy,
}
use stellar_insured_backend.Auth.Rotation.{limit-missing}
use stellar_insured_backend.Auth.Session.{log, refresh_tokens}

module _ (k : Keys) where
  create_refresh_token-missing :
      (config : Config) (now raw user_id family_id : ℕ) (fingerprint : Option ℕ) (s : State k)
      → token_at k s raw ≡ none
      → k.sha256 raw ≢ raw
      → Ensures
          (λ token t. (token ≡ raw) × (token_at k t raw ≡ none))
          (create_refresh_token k config now raw user_id family_id fingerprint s)
  unfolding create_refresh_token create_token
  create_refresh_token-missing config now raw user_id family_id fingerprint s missing hashed =
      elim (Option-cases (k.tokens.table.include s.tokens (k.sha256 raw))) [
        | inr (x, taken) ↦ rw (taken, Ensures) tt
        | inl unused ↦
            rw (unused, Ensures)
              (
                refl,
                ground (
                  arith,
                  missing,
                  k.tokens.table.find-save s.tokens (k.sha256 raw) raw (record {
                    user_id = user_id;
                    family_id = family_id;
                    expires_at = now + config.refresh_token_ttl_ms;
                    revoked_at = none;
                    replaced_by_token = none;
                    fingerprint = elim (truthy fingerprint) [
                      | none ↦ none
                      | some f ↦ some (k.sha256 f)
                    ];
                    created_at = now;
                  }),
                ),
              )
      ]

  issue_lem :
      (config : Config) (now raw user_id family_id : ℕ) (fingerprint : Option ℕ) (s : State k)
      → token_at k s raw ≡ none
      → k.sha256 raw ≢ raw
      → Ensures
          (λ token t. (token ≡ raw) × (token_at k t raw ≡ none))
          (issue k config now raw user_id family_id fingerprint s)
  unfolding issue
  issue_lem config now raw user_id family_id fingerprint s missing hashed =
      let Goal = λ (token : ℕ) (t : State k). (token ≡ raw) × (token_at k t raw ≡ none) in
      Ensures-bind Goal Goal (create_refresh_token k config now raw user_id family_id fingerprint)
        (λ token. enforce_session_limit k config now user_id >> pure token) s
        (create_refresh_token-missing config now raw user_id family_id fingerprint s missing hashed)
        λ token t (e, h).
          Ensures-bind (λ _ u. token_at k u raw ≡ none) Goal
            (enforce_session_limit k config now user_id) (λ _. pure token) t
            (limit-missing k config now user_id raw t h) λ _ u i. (e, i)

  -- When a raw token is not itself stored and differs from its hash, the token that a login hands
  -- out is refused by every later refresh of the state that the login left: the table holds the
  -- hash, and the refresh looks the raw text up.
  pub issued_token_refused :
      (config : Config) (now raw user_id family_id : ℕ) (fingerprint : Option ℕ) (later next : ℕ)
      (given : Option ℕ) (s t : State k) (token : ℕ)
      → token_at k s raw ≡ none
      → k.sha256 raw ≢ raw
      → issue k config now raw user_id family_id fingerprint s ≡ ok (token, t)
      → (refresh_tokens k config later next token given t).0 ≡ err unauthorized
  unfolding refresh_tokens find_by_token log
  issued_token_refused config now raw user_id family_id fingerprint later next given s t token
        missing hashed e =
      let Goal = λ (a : ℕ) (u : State k). (a ≡ raw) × (token_at k u raw ≡ none) in
      let (same, absent) =
        Ensures-eq_ok Goal e
          (issue_lem config now raw user_id family_id fingerprint s missing hashed) in
      ground arith
