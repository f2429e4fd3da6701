-- ===== src/Nonce/Cached.antt =====
-- A cache that answers: the calls of nonce/nonce.service.ts as they come out of withResilience.
use stellar_insured_backend.Prelude.{
  not, ◌&&◌, ◌||◌, Bool, Bool-cases, Option, ap, false, if◌then◌else◌, inl, inr, ltb, none, refl,
  some, true, ℕ, ◌+◌, ◌≡◌, ◌∙◌,
}
use stellar_insured_backend.Prelude.Int.{pos}
use stellar_insured_backend.Database.{bad_request, err, ok}
use stellar_insured_backend.Resilience.{rejected, Fired, fulfilled, with_resilience, attempt_from}
use stellar_insured_backend.XdrDecoder.{Text, int_text, is_empty, text_eq}
use stellar_insured_backend.Service.{Io, ◌>>◌, bind-err, bind-ok, pure, throw}
use stellar_insured_backend.Nonce.{
  check_binding, forget, then_call, Cache, Guard, guarded, redis_nonce_retry, build_key,
  build_user_key, nonce_ttl_ms, write_nonce, create_nonce, consume_nonce, is_present, admits,
}

-- The cache gives what was stored under a key until its lifetime is over.
pub record Answers {W : Type 0} (cache : Cache W) : Type 0 where
  pub peek : W → ℕ → Text → Option Text
  pub stored : ℕ → Text → Text → ℕ → W → W
  pub removed : Text → W → W
  pub get_lem : (now : ℕ) (k : Text) (w : W) → cache.get now k w ≡ (fulfilled (peek w now k), w)
  pub set_lem :
      (now : ℕ) (k v : Text) (ttl : ℕ) (w : W)
      → cache.set now k v ttl w ≡ (fulfilled tt, stored now k v ttl w)
  pub del_lem : (k : Text) (w : W) → cache.del k w ≡ (fulfilled tt, removed k w)
  pub peek-stored :
      (now : ℕ) (k v : Text) (ttl : ℕ) (w : W) (at : ℕ) (j : Text)
      → peek (stored now k v ttl w) at j
        ≡ (if text_eq k j then (if ltb at (now + ttl) then some v else none) else peek w at j)
  pub peek-removed :
      (k : Text) (w : W) (at : ℕ) (j : Text)
      → peek (removed k w) at j ≡ (if text_eq k j then none else peek w at j)

-- A breaker that is closed: a task that succeeds is passed on.
abbrev pub IsClosed : {W : Type 0} → Guard W → Type 1
IsClosed {W} breaker =
    (A : Type 0) (task : W → Fired A × W) (w v : W) (a : A)
    → task w ≡ (fulfilled a, v)
    → breaker A task w ≡ (fulfilled a, v)

if-apply :
    {S A : Type 0} (b : Bool) (m n : Io S A) (s : S)
    → (if b then m else n) s ≡ (if b then m s else n s)
if-apply true m n s = refl
if-apply false m n s = refl

then_call_lem :
    {W A B : Type 0} (first : W → Fired A × W) (second : W → Fired B × W) (w v : W) (a : A)
    → first w ≡ (fulfilled a, v)
    → then_call first second w ≡ second v
then_call_lem {W} {A} {B} first second w v a = ap (λ (x : Fired A × W).
    (let (r, u) = x in
      elim r as (λ _. Fired B × W) [ fulfilled b ↦ second u | rejected e ↦ (rejected e, u) ]))

module _ {W : Type 0} (cache : Cache W) (breaker : Guard W) (pause : ℕ → ℕ → ℕ → W → W)
    (random : ℕ → ℕ) (answers : Answers cache) (closed : IsClosed breaker) where
  guarded_lem :
      {A : Type 0} (task : W → Fired A × W) (w v : W) (a : A)
      → task w ≡ (fulfilled a, v)
      → guarded cache breaker pause random task w ≡ (ok a, v)
  unfolding guarded redis_nonce_retry with_resilience attempt_from
  guarded_lem {A} task w v a h = rw (closed A task w v a h) refl

  -- The cache after a nonce is created, and after one is consumed.
  abbrev pub created : ℕ → Text → Text → W → W
  created now nonce user w =
      let v = answers.stored now (build_key nonce) (int_text (pos now)) nonce_ttl_ms w in
      if is_empty user then v else answers.stored now (build_user_key nonce) user nonce_ttl_ms v

  abbrev pub forgotten : Text → W → W
  forgotten nonce w = answers.removed (build_user_key nonce) (answers.removed (build_key nonce) w)

  writes :
      (now : ℕ) (nonce user : Text) (w : W)
      → write_nonce cache now nonce user w ≡ (fulfilled tt, created now nonce user w)
  writes now nonce user w =
      let v = answers.stored now (build_key nonce) (int_text (pos now)) nonce_ttl_ms w in
      elim (Bool-cases (is_empty user)) [
        | inl e ↦
            rw (e, answers.set_lem now (build_key nonce) (int_text (pos now)) nonce_ttl_ms w) refl
        | inr e ↦ rw e (
            then_call_lem (cache.set now (build_key nonce) (int_text (pos now)) nonce_ttl_ms)
              (cache.set now (build_user_key nonce) user nonce_ttl_ms) w v tt
              (answers.set_lem now (build_key nonce) (int_text (pos now)) nonce_ttl_ms w)
            ∙ answers.set_lem now (build_user_key nonce) user nonce_ttl_ms v)
      ]

  pub create_nonce_lem :
      (now : ℕ) (nonce user : Text) (w : W)
      → create_nonce cache breaker pause random now nonce user w
        ≡ (ok nonce, created now nonce user w)
  unfolding create_nonce
  create_nonce_lem now nonce user w =
      bind-ok (guarded cache breaker pause random (write_nonce cache now nonce user))
        (λ _. pure nonce) w (created now nonce user w) tt
        (guarded_lem (write_nonce cache now nonce user) w (created now nonce user w) tt
          (writes now nonce user w))

  -- Which nonces are accepted at a time, with an expected user or without one.
  abbrev pub is_accepted : W → ℕ → Text → Text → Bool
  is_accepted w now nonce expected =
      is_present (answers.peek w now (build_key nonce))
      && (is_empty expected || admits expected (answers.peek w now (build_user_key nonce)))

  check_binding_lem :
      (now : ℕ) (nonce expected : Text) (w : W)
      → check_binding cache breaker pause random now nonce expected w ≡ (
          if is_empty expected || admits expected (answers.peek w now (build_user_key nonce))
          then (ok tt, w)
          else (err bad_request, w))
  unfolding check_binding
  check_binding_lem now nonce expected w = elim (Bool-cases (is_empty expected)) [
    | inl e ↦ rw e refl
    | inr e ↦ rw e (
        bind-ok (guarded cache breaker pause random (cache.get now (build_user_key nonce)))
          (λ bound. if admits expected bound then pure tt else throw bad_request) w w
          (answers.peek w now (build_user_key nonce))
          (guarded_lem (cache.get now (build_user_key nonce)) w w
            (answers.peek w now (build_user_key nonce))
            (answers.get_lem now (build_user_key nonce) w))
        ∙ if-apply (admits expected (answers.peek w now (build_user_key nonce))) (pure tt)
            (throw bad_request) w)
  ]

  forget_lem :
      (nonce : Text) (w : W)
      → forget cache breaker pause random nonce w ≡ (ok true, forgotten nonce w)
  unfolding forget
  forget_lem nonce w =
      bind-ok
        (guarded cache breaker pause random
          (then_call (cache.del (build_key nonce)) (cache.del (build_user_key nonce))))
        (λ _. pure true) w (forgotten nonce w) tt
        (guarded_lem (then_call (cache.del (build_key nonce)) (cache.del (build_user_key nonce))) w
          (forgotten nonce w) tt
          (then_call_lem (cache.del (build_key nonce)) (cache.del (build_user_key nonce)) w
              (answers.removed (build_key nonce) w) tt (answers.del_lem (build_key nonce) w)
            ∙ answers.del_lem (build_user_key nonce) (answers.removed (build_key nonce) w)))

  bound_lem :
      (now : ℕ) (nonce expected : Text) (w : W)
      → (check_binding cache breaker pause random now nonce expected
            >> forget cache breaker pause random nonce)
          w
        ≡ (if is_empty expected || admits expected (answers.peek w now (build_user_key nonce))
            then (ok true, forgotten nonce w)
            else (err bad_request, w))
  bound_lem now nonce expected w =
      let check = check_binding cache breaker pause random now nonce expected in
      let rest = forget cache breaker pause random nonce in
      elim (Bool-cases
        (is_empty expected || admits expected (answers.peek w now (build_user_key nonce)))) [
          | inl e ↦
              bind-ok check (λ _. rest) w w tt (check_binding_lem now nonce expected w ∙ rw e refl)
              ∙ forget_lem nonce w
              ∙ rw e refl
          | inr e ↦
              bind-err check (λ _. rest) w w bad_request
                (check_binding_lem now nonce expected w ∙ rw e refl)
              ∙ rw e refl
        ]

  pub consume_nonce_lem :
      (now : ℕ) (nonce expected : Text) (w : W)
      → consume_nonce cache breaker pause random now nonce expected w ≡ (
          if not (is_empty nonce) && is_accepted w now nonce expected
          then (ok true, forgotten nonce w)
          else (err bad_request, w))
  unfolding consume_nonce
  consume_nonce_lem now nonce expected w = elim (Bool-cases (is_empty nonce)) [
    | inl e ↦ rw e refl
    | inr e ↦ rw e (
        bind-ok (guarded cache breaker pause random (cache.get now (build_key nonce)))
          (λ found.
            if is_present found
            then check_binding cache breaker pause random now nonce expected
              >> forget cache breaker pause random nonce
            else throw bad_request)
          w w (answers.peek w now (build_key nonce))
          (guarded_lem (cache.get now (build_key nonce)) w w (answers.peek w now (build_key nonce))
            (answers.get_lem now (build_key nonce) w))
        ∙ elim (Bool-cases (is_present (answers.peek w now (build_key nonce)))) [
          | inl p ↦ rw p (bound_lem now nonce expected w)
          | inr p ↦ rw p refl
        ])
  ]
