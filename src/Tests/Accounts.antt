-- ===== src/Tests/Accounts.antt =====
-- Runs of the auth, reputation and notification services.
use stellar_insured_backend.Prelude.{
  Option, [], arith, none, refl, some, true, ℕ, ◌+◌, ◌==◌, ◌∷◌, ◌≡◌,
}
use stellar_insured_backend.Prelude.Int.{neg, pos, ◌+ℤ◌}
use stellar_insured_backend.Database.{Returns, err, unauthorized}
use stellar_insured_backend.Model.{User}
use stellar_insured_backend.Reputation.{adjust_reputation, clamp, total_from}
use stellar_insured_backend.Reputation.Bounds.{InRange, ScoresInRange, adjust-ScoresInRange}
use stellar_insured_backend.Reputation.History.{
  Recomputed, Unclamped, adjust_all, adjust_all-Recomputed, changes_of,
}
use stellar_insured_backend.Auth.{
  Config, Keys, RefreshToken, State, create_refresh_token, enforce_session_limit, find_by_token,
  issue, revoke_token, rotate,
}
use stellar_insured_backend.Auth.Session.{refresh_stored, refresh_tokens}
use stellar_insured_backend.Auth.Revocation.{AllRevoked, reuse_revokes_family}
use stellar_insured_backend.Auth.Rotation.{IsRevoked}
use stellar_insured_backend.Auth.Refresh.{Accepted, refresh_returns}
use stellar_insured_backend.Auth.Issue.{issued_token_refused}
use stellar_insured_backend.Database.Bulk.{memory_bulk}
use stellar_insured_backend.Database.Memory.{Rows, memory}
use stellar_insured_backend.Tests.World.{demo, holder, start, state_of}

adjust-ScoresInRange_example :
    InRange (pos 30)
    × ScoresInRange demo (state_of (adjust_reputation demo 1 (neg 20) start) start)
    × ((state_of (adjust_reputation demo 1 (neg 20) start) start).history
        ≡ record { user_id = 1; score_change = neg 20 } ∷ [])
unfolding adjust_reputation clamp ◌+ℤ◌
adjust-ScoresInRange_example =
    adjust-ScoresInRange demo 1 (neg 20) start
      (state_of (adjust_reputation demo 1 (neg 20) start) start) (pos 30) (λ k u h. ground arith)
      refl

adjust_all-Recomputed_example :
    Returns
      (Recomputed demo 1 (pos 10 ∷ neg 20 ∷ []) start)
      (adjust_all demo 1 (pos 10 ∷ neg 20 ∷ []) start)
unfolding ◌+ℤ◌ total_from changes_of
adjust_all-Recomputed_example =
    let rest : Unclamped (pos 60) (neg 20 ∷ []) = ((omega arith, omega arith), tt) in
    adjust_all-Recomputed demo 1 (pos 10 ∷ neg 20 ∷ []) holder start refl refl
      (omega arith, omega arith) ((omega arith, omega arith), rest)

abbrev keys : Keys
keys = record {
  Tokens = Rows RefreshToken;
  Users = Rows User;
  tokens = memory_bulk RefreshToken;
  users = memory User;
  sha256 = λ x. x + 100;
}

abbrev config : Config
config = record { refresh_token_ttl_ms = 1000; max_sessions_per_user = 5 }

abbrev stored : Option ℕ → RefreshToken
stored revoked_at = record {
  user_id = 1;
  family_id = 6;
  expires_at = 500;
  revoked_at = revoked_at;
  replaced_by_token = none;
  fingerprint = none;
  created_at = 0;
}

abbrev sessions : State keys
sessions = record {
  tokens = (41, true, stored none) ∷ (42, true, stored (some 3)) ∷ [];
  users = (1, true, holder) ∷ [];
  audit_log = [];
}

reuse_revokes_family_example :
    (t : State keys) × (refresh_tokens keys config 10 50 42 none sessions ≡ (err unauthorized, t))
    × AllRevoked keys (λ x. x.family_id == 6) sessions t
reuse_revokes_family_example =
    reuse_revokes_family keys config 10 50 42 (stored (some 3)) none sessions refl (omega arith)
      refl

abbrev drawn : ℕ
drawn = 50

abbrev refreshed : State keys
refreshed = let (r, t) = refresh_tokens keys config 10 drawn 41 none sessions in t

refresh_returns_example :
    Accepted keys 10 41 none sessions × (drawn ≡ drawn) × IsRevoked keys refreshed 41
unfolding refresh_tokens find_by_token refresh_stored rotate create_refresh_token revoke_token
    enforce_session_limit
refresh_returns_example = refresh_returns keys config 10 drawn 41 drawn none sessions refreshed refl

issued_token_refused_example :
    (refresh_tokens keys config 11 51 50 none
      (state_of (issue keys config 10 50 1 7 none sessions) sessions)).0
    ≡ err unauthorized
unfolding issue create_refresh_token enforce_session_limit
issued_token_refused_example =
    issued_token_refused keys config 10 50 1 7 none 11 51 none sessions
      (state_of (issue keys config 10 50 1 7 none sessions) sessions) 50 refl
      (λ h. omega (arith, h)) refl
