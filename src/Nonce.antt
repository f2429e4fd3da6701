-- ===== src/Nonce.antt =====
-- nonce/nonce.service.ts: nonces in a cache of texts. The cache of cache-manager, the breaker, the
-- pauses of a retry and the random nonce are arguments; a call sees one time.
pub mod Keys
pub mod Cached
pub mod Once
pub mod Alias
use stellar_insured_backend.Prelude.{
  Bool, List, Option, false, if◌then◌else◌, none, not, some, true, ℕ, ◌*◌, ◌++◌,
}
use stellar_insured_backend.Prelude.Int.{pos}
use stellar_insured_backend.Database.{Result, bad_request, err, failure, ok}
use stellar_insured_backend.Service.{Io, pure, throw, ◌>>=◌, ◌>>◌}
use stellar_insured_backend.Resilience.{Fired, RetryOptions, fulfilled, rejected, with_resilience}
use stellar_insured_backend.XdrDecoder.{Text, codes, int_text, is_empty, text_eq}

-- The calls of the cache: get and set at a time, the last with a lifetime, and del.
pub record Cache (W : Type 0) : Type 0 where
  pub get : ℕ → Text → W → Fired (Option Text) × W
  pub set : ℕ → Text → Text → ℕ → W → Fired (Unit {0}) × W
  pub del : Text → W → Fired (Unit {0}) × W

abbrev pub Guard : Type 0 → Type 1
Guard W = (A : Type 0) → (W → Fired A × W) → W → Fired A × W

abbrev pub nonce_ttl_ms : ℕ
nonce_ttl_ms = 5 * 60 * 1000

unfoldable pub redis_nonce_retry : RetryOptions
redis_nonce_retry = record {
  attempts = 2;
  base_delay_ms = 200;
  max_delay_ms = some 1000;
  jitter = true;
  retry_if = λ error attempt. true;
}

abbrev pub build_key : Text → Text
build_key nonce = codes "nonce:" ++ nonce

abbrev pub build_user_key : Text → Text
build_user_key nonce = codes "nonce:user:" ++ nonce

-- `!!stored`.
abbrev pub is_present : Option Text → Bool
is_present none = false
is_present (some s) = not (is_empty s)

-- `!(boundUserId && boundUserId !== expectedUserId)`.
abbrev pub admits : Text → Option Text → Bool
admits expected none = true
admits expected (some user) = if is_empty user then true else text_eq user expected

-- One call of the cache and then another.
abbrev pub then_call : {W A B : Type 0} → (W → Fired A × W) → (W → Fired B × W) → W → Fired B × W
then_call first second w =
    let (r, v) = first w in elim r [ fulfilled a ↦ second v | rejected e ↦ (rejected e, v) ]

abbrev pub settled : {W A : Type 0} → Fired A × W → Result A × W
settled (fulfilled a, w) = (ok a, w)
settled (rejected e, w) = (err failure, w)

-- The two writes of createNonce; an empty user id is none.
abbrev pub write_nonce : {W : Type 0} → Cache W → ℕ → Text → Text → W → Fired (Unit {0}) × W
write_nonce cache now nonce user =
    let first = cache.set now (build_key nonce) (int_text (pos now)) nonce_ttl_ms in
    if is_empty user
    then first
    else then_call first (cache.set now (build_user_key nonce) user nonce_ttl_ms)

module _ {W : Type 0} (cache : Cache W) (breaker : Guard W) (pause : ℕ → ℕ → ℕ → W → W)
    (random : ℕ → ℕ) where
  unfoldable pub guarded : {A : Type 0} → (W → Fired A × W) → Io W A
  unfolding redis_nonce_retry with_resilience
  guarded {A} task w =
      settled (with_resilience (breaker A task) pause random (some redis_nonce_retry) none w)

  unfoldable pub create_nonce : ℕ → Text → Text → Io W Text
  unfolding guarded
  create_nonce now nonce user = guarded (write_nonce cache now nonce user) >> pure nonce

  abbrev pub check_binding : ℕ → Text → Text → Io W (Unit {0})
  unfolding guarded
  check_binding now nonce expected = if is_empty expected then pure tt else do
    bound ← guarded (cache.get now (build_user_key nonce))
    if admits expected bound then pure tt else throw bad_request

  -- Deleted at once, so that it is not used again.
  abbrev pub forget : Text → Io W Bool
  unfolding guarded
  forget nonce =
      guarded (then_call (cache.del (build_key nonce)) (cache.del (build_user_key nonce)))
      >> pure true

  unfoldable pub consume_nonce : ℕ → Text → Text → Io W Bool
  unfolding guarded
  consume_nonce now nonce expected = if is_empty nonce then throw bad_request else do
    stored ← guarded (cache.get now (build_key nonce))
    if is_present stored
        then check_binding now nonce expected >> forget nonce
        else throw bad_request

  abbrev pub is_given : Option Text → Bool
  is_given none = false
  is_given (some s) = true

  unfoldable pub is_nonce_valid : ℕ → Text → Io W Bool
  unfolding guarded
  is_nonce_valid now nonce =
      if is_empty nonce
      then pure false
      else do stored ← guarded (cache.get now (build_key nonce)); pure (is_given stored)

  abbrev pub generate_nonce : ℕ → Text → Text → Io W Text
  generate_nonce now nonce user = create_nonce now nonce user

  abbrev pub consume_nonce_for_user : ℕ → Text → Text → Io W Bool
  consume_nonce_for_user now nonce expected = consume_nonce now nonce expected
