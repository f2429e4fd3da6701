-- ===== src/Auth/Rotation.antt =====
-- What a refresh that succeeds has checked and done, and what it looks up.
use stellar_insured_backend.Prelude.{
  Bool, List, Option, Option-cases, [], arith, false, inl, inr, ltb, none, refl, some, take, true,
  ℕ, ◌&&◌, ◌-◌, ◌==◌, ◌∷◌, ◌≡◌, ◌⊎◌,
}
use stellar_insured_backend.Database.{Ensures, Ensures-bind, Ensures-if, pure, ◌>>◌}
use stellar_insured_backend.Auth.Revocation.{token_at}
use stellar_insured_backend.Auth.{
  Config, Keys, RefreshToken, State, create_refresh_token, create_token, enforce_session_limit,
  is_active_of, is_unrevoked, or_else, revoke_each, revoke_token, revoked, rotate,
}

module _ (k : Keys) where
  -- The token is stored and revoked.
  abbrev pub IsRevoked : State k → ℕ → Type 0
  IsRevoked s j = (x : RefreshToken) × (token_at k s j ≡ some x) × (is_unrevoked x ≡ false)

  revoke_token-IsRevoked :
      (now token j : ℕ) (replaced_by : Option ℕ) (s : State k)
      → IsRevoked s j ⊎ (token ≡ j)
      → Ensures (λ _ t. IsRevoked t j) (revoke_token k now token replaced_by s)
  unfolding revoke_token
  revoke_token-IsRevoked now token j replaced_by s h = elim (Option-cases (token_at k s token)) [
    | inl missing ↦ rw (missing, Ensures) tt
    | inr (r, found) ↦ rw (found, Ensures) (written r (token == j) found refl)
  ]
    where
      written :
          (r : RefreshToken) (b : Bool)
          → token_at k s token ≡ some r
          → (token == j) ≡ b
          → IsRevoked
              (record s {
                tokens = k.tokens.table.save s.tokens token (revoked k now replaced_by r);
              })
              j
      written r true found e = (
        revoked k now replaced_by r,
        rw (k.tokens.table.find-save s.tokens token j (revoked k now replaced_by r), e),
        refl,
      )
      written r false found e = elim h [
        | inl (x, there, dead) ↦ (
          x,
          rw (k.tokens.table.find-save s.tokens token j (revoked k now replaced_by r), e) there,
          dead,
        )
        | inr same ↦ absurd (ground arith)
      ]

  revoke_token-missing :
      (now token j : ℕ) (replaced_by : Option ℕ) (s : State k)
      → token_at k s j ≡ none
      → Ensures (λ _ t. token_at k t j ≡ none) (revoke_token k now token replaced_by s)
  unfolding revoke_token
  revoke_token-missing now token j replaced_by s h = elim (Option-cases (token_at k s token)) [
    | inl missing ↦ rw (missing, Ensures) tt
    | inr (r, found) ↦
        rw (found, Ensures)
          (ground (
            arith,
            h,
            found,
            k.tokens.table.find-save s.tokens token j (revoked k now replaced_by r),
          ))
  ]

  revoke_each-missing :
      (now j : ℕ) (tokens : List ℕ) (s : State k)
      → token_at k s j ≡ none
      → Ensures (λ _ t. token_at k t j ≡ none) (revoke_each k now tokens s)
  unfolding revoke_each
  revoke_each-missing now j [] s h = h
  revoke_each-missing now j (token ∷ tokens) s h =
      Ensures-bind (λ _ t. token_at k t j ≡ none) (λ _ t. token_at k t j ≡ none)
        (revoke_token k now token none) (λ _. revoke_each k now tokens) s
        (revoke_token-missing now token j none s h) (λ _ t i. revoke_each-missing now j tokens t i)

  revoke_each-IsRevoked :
      (now j : ℕ) (tokens : List ℕ) (s : State k)
      → IsRevoked s j
      → Ensures (λ _ t. IsRevoked t j) (revoke_each k now tokens s)
  unfolding revoke_each
  revoke_each-IsRevoked now j [] s h = h
  revoke_each-IsRevoked now j (token ∷ tokens) s h =
      Ensures-bind (λ _ t. IsRevoked t j) (λ _ t. IsRevoked t j) (revoke_token k now token none)
        (λ _. revoke_each k now tokens) s (revoke_token-IsRevoked now token j none s (inl h))
        (λ _ t i. revoke_each-IsRevoked now j tokens t i)

  pub limit-missing :
      (config : Config) (now user_id j : ℕ) (s : State k)
      → token_at k s j ≡ none
      → Ensures (λ _ t. token_at k t j ≡ none) (enforce_session_limit k config now user_id s)
  unfolding enforce_session_limit
  limit-missing config now user_id j s h =
      let oldest =
        take
          (k.tokens.table.count s.tokens (λ _ r. is_active_of k now user_id r)
            - config.max_sessions_per_user)
          (k.tokens.find_many s.tokens (λ r. r.user_id == user_id && is_unrevoked r)) in
      Ensures-if (λ _ t. token_at k t j ≡ none)
        (ltb config.max_sessions_per_user
          (k.tokens.table.count s.tokens (λ _ r. is_active_of k now user_id r)))
        (revoke_each k now oldest) (pure tt) s (revoke_each-missing now j oldest s h) h

  limit-IsRevoked :
      (config : Config) (now user_id j : ℕ) (s : State k)
      → IsRevoked s j
      → Ensures (λ _ t. IsRevoked t j) (enforce_session_limit k config now user_id s)
  unfolding enforce_session_limit
  limit-IsRevoked config now user_id j s h =
      let oldest =
        take
          (k.tokens.table.count s.tokens (λ _ r. is_active_of k now user_id r)
            - config.max_sessions_per_user)
          (k.tokens.find_many s.tokens (λ r. r.user_id == user_id && is_unrevoked r)) in
      Ensures-if (λ _ t. IsRevoked t j)
        (ltb config.max_sessions_per_user
          (k.tokens.table.count s.tokens (λ _ r. is_active_of k now user_id r)))
        (revoke_each k now oldest) (pure tt) s (revoke_each-IsRevoked now j oldest s h) h

  create_refresh_token-answer :
      (config : Config) (now raw user_id family_id : ℕ) (fingerprint : Option ℕ) (s : State k)
      → Ensures
          (λ token _. token ≡ raw)
          (create_refresh_token k config now raw user_id family_id fingerprint s)
  unfolding create_refresh_token create_token
  create_refresh_token-answer config now raw user_id family_id fingerprint s = ground arith

  -- Rotation answers the raw token that was drawn, and revokes the old one.
  pub rotate_lem :
      (config : Config) (now raw value : ℕ) (r : RefreshToken) (fingerprint : Option ℕ)
      (s : State k)
      → Ensures
          (λ token t. (token ≡ raw) × IsRevoked t value)
          (rotate k config now raw value r fingerprint s)
  unfolding rotate
  rotate_lem config now raw value r fingerprint s =
      let Goal = λ (token : ℕ) (t : State k). (token ≡ raw) × IsRevoked t value in
      let rest = λ (token : ℕ).
        revoke_token k now value (some token)
        >> (enforce_session_limit k config now r.user_id >> pure token) in
      Ensures-bind (λ token _. token ≡ raw) Goal
        (create_refresh_token k config now raw r.user_id r.family_id
          (or_else fingerprint r.fingerprint))
        rest s
        (create_refresh_token-answer config now raw r.user_id r.family_id
          (or_else fingerprint r.fingerprint) s)
        λ token t e.
          Ensures-bind (λ _ u. IsRevoked u value) Goal (revoke_token k now value (some token))
            (λ _. enforce_session_limit k config now r.user_id >> pure token) t
            (revoke_token-IsRevoked now value value (some token) t (inr refl))
            λ _ u h.
              Ensures-bind (λ _ v. IsRevoked v value) Goal
                (enforce_session_limit k config now r.user_id) (λ _. pure token) u
                (limit-IsRevoked config now r.user_id value u h) λ _ v i. (e, i)
