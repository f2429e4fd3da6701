-- ===== src/Nonce/Alias.antt =====
-- The two kinds of keys overlap: nonce/nonce.service.ts.
use stellar_insured_backend.Prelude.{
  Bool, arith, Bool-cases, inl, inr, false, ltb, none, refl, some, true, ℕ, ◌+◌, ◌++◌, ◌≡◌, ◌∙◌, ap,
}
use stellar_insured_backend.Prelude.Int.{pos}
use stellar_insured_backend.Database.{Result, ok}
use stellar_insured_backend.XdrDecoder.{Text, codes, int_text, is_empty}
use stellar_insured_backend.XdrDecoder.Numbers.{int_text-nonempty}
use stellar_insured_backend.Nonce.{
  Cache, Guard, build_key, build_user_key, consume_nonce, create_nonce, nonce_ttl_ms,
}
use stellar_insured_backend.Nonce.Keys.{other_length, text_eq_refl}
use stellar_insured_backend.Nonce.Cached.{
  Answers, IsClosed, consume_nonce_lem, create_nonce_lem, created, forgotten,
}
use stellar_insured_backend.Nonce.Once.{created_key, created_user_key}

abbrev pub prefixed : Text → Text
prefixed nonce = codes "user:" ++ nonce

module _ {W : Type 0} (cache : Cache W) (breaker : Guard W) (pause : ℕ → ℕ → ℕ → W → W)
    (random : ℕ → ℕ) (answers : Answers cache) (closed : IsClosed breaker) where
  abbrev unbound : ℕ → Text → Text → W → W
  unbound now nonce user w =
      forgotten cache breaker pause random answers closed (prefixed nonce)
        (created cache breaker pause random answers closed now nonce user w)

  created_elsewhere :
      (now later : ℕ) (nonce user : Text) (w : W)
      → is_empty user ≡ false
      → answers.peek w later (build_user_key (prefixed nonce)) ≡ none
      → answers.peek
          (created cache breaker pause random answers closed now nonce user w)
          later
          (build_user_key (prefixed nonce))
        ≡ none
  created_elsewhere now later nonce user w u free =
      let v = answers.stored now (build_key nonce) (int_text (pos now)) nonce_ttl_ms w in
      rw u (
        answers.peek-stored now (build_user_key nonce) user nonce_ttl_ms v later
          (build_user_key (prefixed nonce))
        ∙ rw
            (other_length (build_user_key nonce) (build_user_key (prefixed nonce))
              (λ e. omega (arith, e)))
            (answers.peek-stored now (build_key nonce) (int_text (pos now)) nonce_ttl_ms w later
                (build_user_key (prefixed nonce))
              ∙ rw
                  (other_length (build_key nonce) (build_user_key (prefixed nonce))
                    (λ e. omega (arith, e)))
                  free))

  unbound_key :
      (now later : ℕ) (nonce user : Text) (w : W)
      → is_empty user ≡ false
      → ltb later (now + nonce_ttl_ms) ≡ true
      → answers.peek (unbound now nonce user w) later (build_key nonce) ≡ some (int_text (pos now))
  unbound_key now later nonce user w u e =
      let v = created cache breaker pause random answers closed now nonce user w in
      answers.peek-removed (build_user_key (prefixed nonce))
        (answers.removed (build_user_key nonce) v) later (build_key nonce)
      ∙ rw
          (other_length (build_user_key (prefixed nonce)) (build_key nonce)
            (λ e'. omega (arith, e')))
          (answers.peek-removed (build_user_key nonce) v later (build_key nonce)
            ∙ rw (other_length (build_user_key nonce) (build_key nonce) (λ e'. omega (arith, e'))) (
                created_key cache breaker pause random answers closed now later nonce user w u
                ∙ rw e refl))

  unbound_user_key :
      (now later : ℕ) (nonce user : Text) (w : W)
      → answers.peek (unbound now nonce user w) later (build_user_key nonce) ≡ none
  unbound_user_key now later nonce user w =
      let v = created cache breaker pause random answers closed now nonce user w in
      answers.peek-removed (build_user_key (prefixed nonce))
        (answers.removed (build_user_key nonce) v) later (build_user_key nonce)
      ∙ rw
          (other_length (build_user_key (prefixed nonce)) (build_user_key nonce)
            (λ e'. omega (arith, e')))
          (answers.peek-removed (build_user_key nonce) v later (build_user_key nonce)
            ∙ rw (text_eq_refl (build_user_key nonce)) refl)

  accepted :
      (at : ℕ) (nonce other s : Text) (w : W)
      → is_empty nonce ≡ false
      → answers.peek w at (build_key nonce) ≡ some s
      → is_empty s ≡ false
      → answers.peek w at (build_user_key nonce) ≡ none
      → consume_nonce cache breaker pause random at nonce other w
        ≡ (ok true, forgotten cache breaker pause random answers closed nonce w)
  accepted at nonce other s w n found full free =
      consume_nonce_lem cache breaker pause random answers closed at nonce other w
      ∙ elim (Bool-cases (is_empty other)) [
        | inl o ↦ rw (n, found, full, o) refl
        | inr o ↦ rw (n, found, full, o, free) refl
      ]

  -- While the cache answers and the breaker is closed, the text "user:" before a nonce that was created
  -- for a user is accepted within the five minutes, whichever user is expected; the nonce itself is then
  -- accepted for any user. The cache has no binding for the prefixed text itself.
  pub prefix_unbinds :
      (now later : ℕ) (nonce user other : Text) (w : W)
      → is_empty nonce ≡ false
      → is_empty user ≡ false
      → ltb later (now + nonce_ttl_ms) ≡ true
      → answers.peek w later (build_user_key (prefixed nonce)) ≡ none
      → let v = (create_nonce cache breaker pause random now nonce user w).1 in
        let first = consume_nonce cache breaker pause random later (prefixed nonce) other v in
        (first.0 ≡ ok true)
        × ((consume_nonce cache breaker pause random later nonce other first.1).0 ≡ ok true)
  prefix_unbinds now later nonce user other w n u e free =
      let v = created cache breaker pause random answers closed now nonce user w in
      let first =
        accepted later (prefixed nonce) other user v refl
          (created_user_key cache breaker pause random answers closed now later nonce user w u
            ∙ rw e refl)
          u (created_elsewhere now later nonce user w u free) in
      let second =
        accepted later nonce other (int_text (pos now)) (unbound now nonce user w) n
          (unbound_key now later nonce user w u e) (int_text-nonempty now)
          (unbound_user_key now later nonce user w) in
      rw (create_nonce_lem cache breaker pause random answers closed now nonce user w, first)
        (refl, ap (λ (x : Result Bool × W). x.0) second)
