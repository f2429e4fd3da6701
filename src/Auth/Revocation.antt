-- ===== src/Auth/Revocation.antt =====
-- What revoking a family, or every token of a user, does to the stored tokens.
use stellar_insured_backend.Model.{AuditAction}
use stellar_insured_backend.Prelude.{
  Bool, Option, Option-cases, arith, false, inl, inr, none, refl, some, true, ℕ, ◌&&◌, ◌==◌, ◌↔◌,
  ◌∷◌, ◌≡◌, ◌≤◌,
}
use stellar_insured_backend.Database.{err, ok, unauthorized}
use stellar_insured_backend.Auth.{
  Config, Keys, RefreshToken, State, find_by_token, is_unrevoked, revoke_all_for_user,
  revoke_family,
}
use stellar_insured_backend.Auth.Session.{log, logout, refresh_stored, refresh_tokens}

module _ (k : Keys) where
  -- The live row that a state holds for a token.
  abbrev pub token_at : State k → ℕ → Option RefreshToken
  token_at s token = k.tokens.table.find s.tokens token

  -- Every live token of those that `p` picks is revoked in `t`, and the others are as in `s`.
  pub record AllRevoked (p : RefreshToken → Bool) (s t : State k) : Type 0 where
    pub picked :
        (j : ℕ) (x : RefreshToken) → token_at t j ≡ some x → p x ≡ true → is_unrevoked x ≡ false
    pub others :
        (j : ℕ) (x : RefreshToken) → p x ≡ false → (token_at t j ≡ some x) ↔ (token_at s j ≡ some x)

  abbrev revoked_at_now : ℕ → RefreshToken → RefreshToken
  revoked_at_now now r = record r { revoked_at = some now }

  -- An update of the rows that are picked and unrevoked, when a revocation does not change what is
  -- picked.
  update_lem :
      (now : ℕ) (p : RefreshToken → Bool) (s t : State k)
      → ((r : RefreshToken) → p (revoked_at_now now r) ≡ p r)
      → t.tokens ≡ k.tokens.update_many s.tokens (λ r. p r && is_unrevoked r) (revoked_at_now now)
      → AllRevoked p s t
  update_lem now p s t keeps e =
      let law =
        k.tokens.find-update_many s.tokens (λ r. p r && is_unrevoked r) (revoked_at_now now) in
      record {
        picked = λ j x found h. ground (arith, e, law j);
        others = λ j x h. (
          λ found. elim (Option-cases (token_at s j)) [
            | inl missing ↦ ground (arith, e, law j)
            | inr (y, there) ↦ ground (arith, e, law j, keeps y)
          ],
          λ found. ground (arith, e, law j),
        );
      }

  -- A revoked token that has not expired and is presented again is refused, and after that every
  -- token of its family is revoked and the tokens of the other families are as they were.
  pub reuse_revokes_family :
      (config : Config) (now raw value : ℕ) (r : RefreshToken) (fingerprint : Option ℕ)
      (s : State k)
      → token_at s value ≡ some r
      → now ≤ r.expires_at
      → is_unrevoked r ≡ false
      → (t : State k) × (refresh_tokens k config now raw value fingerprint s
          ≡ (err unauthorized, t))
        × AllRevoked (λ x. x.family_id == r.family_id) s t
  unfolding refresh_tokens refresh_stored find_by_token revoke_family log
  reuse_revokes_family config now raw value r fingerprint s stored live used =
      let family = λ (x : RefreshToken). x.family_id == r.family_id in
      let t = record s {
        tokens =
            k.tokens.update_many s.tokens (λ x. family x && is_unrevoked x) (revoked_at_now now);
        audit_log = AuditAction.token_reuse_detected ∷ s.audit_log;
      } in
      (t, ground arith, update_lem now family s t (λ x. refl) refl)

  -- A full logout succeeds, and after it every token of the user is revoked and the tokens of the
  -- other users are as they were.
  logout_revokes_all :
      (now user_id : ℕ) (s : State k)
      → (n : ℕ) × (t : State k) × (logout k now user_id none s ≡ (ok n, t))
        × AllRevoked (λ x. x.user_id == user_id) s t
  unfolding logout revoke_all_for_user log
  logout_revokes_all now user_id s =
      let mine = λ (x : RefreshToken). x.user_id == user_id in
      let t = record s {
        tokens = k.tokens.update_many s.tokens (λ x. mine x && is_unrevoked x) (revoked_at_now now);
        audit_log = AuditAction.token_revoke ∷ s.audit_log;
      } in
      (
        k.tokens.table.count s.tokens (λ _ x. mine x && is_unrevoked x),
        t,
        refl,
        update_lem now mine s t (λ x. refl) refl,
      )
