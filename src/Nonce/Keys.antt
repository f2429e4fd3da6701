-- ===== src/Nonce/Keys.antt =====
-- The keys of nonces in the cache: buildKey and buildUserKey of nonce/nonce.service.ts.
use stellar_insured_backend.Prelude.{
  Bool-cases, [], ap, arith, false, inl, inr, length, refl, true, ◌∷◌, ◌≡◌,
}
use stellar_insured_backend.XdrDecoder.{Text, text_eq}

pub text_eq_refl : (s : Text) → text_eq s s ≡ true
text_eq_refl [] = refl
text_eq_refl (c ∷ s) = ground (arith, text_eq_refl s)

pub text_eq-eq : (s t : Text) → text_eq s t ≡ true → s ≡ t
text_eq-eq [] [] h = refl
text_eq-eq [] (d ∷ t) h = cc
text_eq-eq (c ∷ s) [] h = cc
text_eq-eq (c ∷ s) (d ∷ t) h = ground (arith, text_eq-eq s t)

text_ne : (s t : Text) → (s ≡ t → ⊥) → text_eq s t ≡ false
text_ne s t h = elim (Bool-cases (text_eq s t)) [
  | inl same ↦ absurd (h (text_eq-eq s t same))
  | inr other ↦ other
]

pub other_length : (s t : Text) → (length s ≡ length t → ⊥) → text_eq s t ≡ false
other_length s t h = text_ne s t (λ e. h (ap (λ (x : Text). length x) e))
