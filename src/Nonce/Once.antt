-- ===== src/Nonce/Once.antt =====
-- A nonce is used once, and by the user it is bound to: nonce/nonce.service.ts.
use stellar_insured_backend.Prelude.{
  Bool, Bool-cases, ap, arith, false, if◌then◌else◌, inl, inr, ltb, none, not, refl, some, sym,
  true, ℕ, ◌&&◌, ◌+◌, ◌||◌, ◌∙◌, ◌≡◌,
}
use stellar_insured_backend.Prelude.Int.{pos}
use stellar_insured_backend.Database.{Error, Result, bad_request, err, ok}
use stellar_insured_backend.XdrDecoder.{Text, int_text, is_empty, text_eq}
use stellar_insured_backend.XdrDecoder.Numbers.{int_text-nonempty}
use stellar_insured_backend.Nonce.{
  Cache, Guard, build_key, build_user_key, consume_nonce, create_nonce, nonce_ttl_ms,
}
use stellar_insured_backend.Nonce.Keys.{other_length, text_eq_refl}
use stellar_insured_backend.Nonce.Cached.{
  Answers, IsClosed, consume_nonce_lem, create_nonce_lem, created, forgotten, is_accepted,
}

err-ne-ok : {A : Type 0} {a : A} {e : Error} → err e ≡ ok a → ⊥
err-ne-ok h = cc

module _ {W : Type 0} (cache : Cache W) (breaker : Guard W) (pause : ℕ → ℕ → ℕ → W → W)
    (random : ℕ → ℕ) (answers : Answers cache) (closed : IsClosed breaker) where
  peek_forgotten :
      (nonce : Text) (w : W) (at : ℕ)
      → answers.peek
          (forgotten cache breaker pause random answers closed nonce w)
          at
          (build_key nonce)
        ≡ none
  peek_forgotten nonce w at =
      answers.peek-removed (build_user_key nonce) (answers.removed (build_key nonce) w) at
        (build_key nonce)
      ∙ rw (other_length (build_user_key nonce) (build_key nonce) (λ e. omega (arith, e))) (
          answers.peek-removed (build_key nonce) w at (build_key nonce)
          ∙ rw (text_eq_refl (build_key nonce)) refl)

  pub refused :
      (now : ℕ) (nonce expected : Text) (w : W)
      → answers.peek w now (build_key nonce) ≡ none
      → consume_nonce cache breaker pause random now nonce expected w ≡ (err bad_request, w)
  refused now nonce expected w h =
      consume_nonce_lem cache breaker pause random answers closed now nonce expected w
      ∙ elim (Bool-cases (is_empty nonce)) [ inl e ↦ rw e refl | inr e ↦ rw (e, h) refl ]

  -- While the cache answers and the breaker is closed, a second consumption of a nonce that was just
  -- accepted, with no call on the cache in between, is refused as a bad request whatever the time is
  -- and whoever is expected, and leaves the cache as it is.
  pub consume_once :
      (now later : ℕ) (nonce expected expected' : Text) (w v : W)
      → consume_nonce cache breaker pause random now nonce expected w ≡ (ok true, v)
      → consume_nonce cache breaker pause random later nonce expected' v ≡ (err bad_request, v)
  consume_once now later nonce expected expected' w v h =
      let known =
        consume_nonce_lem cache breaker pause random answers closed now nonce expected w in
      elim (Bool-cases (
        not (is_empty nonce)
        && is_accepted cache breaker pause random answers closed w now nonce expected)) [
          | inl e ↦
              let accepted : consume_nonce cache breaker pause random now nonce expected w
                  ≡ (ok true, forgotten cache breaker pause random answers closed nonce w) =
                known ∙ rw e refl in
              let same : forgotten cache breaker pause random answers closed nonce w ≡ v =
                ap (λ (x : Result Bool × W). x.1) (sym accepted ∙ h) in
              refused later nonce expected' v (
                ap (λ u. answers.peek u later (build_key nonce)) (sym same)
                ∙ peek_forgotten nonce w later)
          | inr e ↦
              let fails : consume_nonce cache breaker pause random now nonce expected w
                  ≡ (err bad_request, w) =
                known ∙ rw e refl in
              absurd (err-ne-ok (ap (λ (x : Result Bool × W). x.0) (sym fails ∙ h)))
        ]

  pub created_key :
      (now later : ℕ) (nonce user : Text) (w : W)
      → is_empty user ≡ false
      → answers.peek
          (created cache breaker pause random answers closed now nonce user w)
          later
          (build_key nonce)
        ≡ (if ltb later (now + nonce_ttl_ms) then some (int_text (pos now)) else none)
  created_key now later nonce user w h =
      let v = answers.stored now (build_key nonce) (int_text (pos now)) nonce_ttl_ms w in
      rw h (
        answers.peek-stored now (build_user_key nonce) user nonce_ttl_ms v later (build_key nonce)
        ∙ rw (other_length (build_user_key nonce) (build_key nonce) (λ e. omega (arith, e))) (
            answers.peek-stored now (build_key nonce) (int_text (pos now)) nonce_ttl_ms w later
              (build_key nonce)
            ∙ rw (text_eq_refl (build_key nonce)) refl))

  pub created_user_key :
      (now later : ℕ) (nonce user : Text) (w : W)
      → is_empty user ≡ false
      → answers.peek
          (created cache breaker pause random answers closed now nonce user w)
          later
          (build_user_key nonce)
        ≡ (if ltb later (now + nonce_ttl_ms) then some user else none)
  created_user_key now later nonce user w h =
      let v = answers.stored now (build_key nonce) (int_text (pos now)) nonce_ttl_ms w in
      rw h (
        answers.peek-stored now (build_user_key nonce) user nonce_ttl_ms v later
          (build_user_key nonce)
        ∙ rw (text_eq_refl (build_user_key nonce)) refl)

  -- While the cache answers and the breaker is closed, a nonce that was created for a user is accepted
  -- before its five minutes are over, for that user or with no user expected, and is forgotten; for
  -- another user or later it is refused as a bad request, and stays.
  pub create-consume :
      (now later : ℕ) (nonce user expected : Text) (w : W)
      → is_empty nonce ≡ false
      → is_empty user ≡ false
      → let v = (create_nonce cache breaker pause random now nonce user w).1 in
        consume_nonce cache breaker pause random later nonce expected v ≡ (
          if ltb later (now + nonce_ttl_ms) && (is_empty expected || text_eq user expected)
          then (ok true, forgotten cache breaker pause random answers closed nonce v)
          else (err bad_request, v))
  create-consume now later nonce user expected w n u =
      let v = created cache breaker pause random answers closed now nonce user w in
      rw (create_nonce_lem cache breaker pause random answers closed now nonce user w) (
        consume_nonce_lem cache breaker pause random answers closed later nonce expected v
        ∙ elim (Bool-cases (ltb later (now + nonce_ttl_ms))) [
          | inl e ↦
              rw
                (
                  n,
                  created_key now later nonce user w u,
                  created_user_key now later nonce user w u,
                  e,
                  int_text-nonempty now,
                  u,
                )
                refl
          | inr e ↦ rw (n, created_key now later nonce user w u, e) refl
        ])
