-- ===== src/Sanitization/Tags.antt =====
-- Tags in a text: sanitizeString of common/utils/sanitization.util.ts.
use stellar_insured_backend.Prelude.{
  Bool, Bool-cases, [], ap, arith, false, if◌then◌else◌, inl, inr, leb, length, ltb, refl, suc,
  take, true, zero, ℕ, ◌&&◌, ◌==◌, ◌||◌, ◌∷◌, ◌≡◌, ◌≤◌, ◌∙◌,
}
use stellar_insured_backend.XdrDecoder.{Text}
use stellar_insured_backend.Sanitization.{
  all_such, has_close, is_blank, is_valid_wallet_address, is_wallet_unit, max_string_length,
  sanitize_string, strip_both, strip_tags, trim_end, trim_start,
}

-- An opening and a later closing bracket.
abbrev pub has_tag : Text → Bool
has_tag [] = false
has_tag (c ∷ s) = c == b'<' && has_close s || has_tag s

strip_unclosed : (s : Text) → has_close s ≡ false → strip_tags s ≡ s
strip_unclosed [] h = refl
strip_unclosed (c ∷ s) h = ground (arith, strip_unclosed s)

-- A kept unit, before a rest that is free of tags and, where it closes no tag, was left as it was.
kept-tag_free :
    (c : ℕ) (s outside : Text)
    → (c == b'<' && has_close s) ≡ false
    → has_tag outside ≡ false
    → (has_close s ≡ false → outside ≡ s)
    → has_tag (c ∷ outside) ≡ false
kept-tag_free c s outside open_ free same = elim (Bool-cases (has_close s)) [
  | inl closes ↦ ground (arith, closes)
  | inr none_ ↦
      let e : has_close outside ≡ false = ap has_close (same none_) ∙ none_ in ground (arith, e)
]

strip-tag_free :
    (s : Text) → (has_tag (strip_both s).0 ≡ false) × (has_tag (strip_both s).1 ≡ false)
strip-tag_free [] = (refl, refl)
strip-tag_free (c ∷ s) =
    let (outside, inside) = strip-tag_free s in
    (
      elim (Bool-cases (c == b'<' && has_close s)) [
        | inl e ↦ rw e inside
        | inr e ↦ rw e (kept-tag_free c s (strip_both s).0 e outside (strip_unclosed s))
      ],
      elim (Bool-cases (c == b'>')) [ inl e ↦ rw e outside | inr e ↦ rw e inside ],
    )

strip_unchanged : (s : Text) → has_tag s ≡ false → strip_tags s ≡ s
strip_unchanged [] h = refl
strip_unchanged (c ∷ s) h = ground (arith, strip_unchanged s)

close-take : (n : ℕ) (s : Text) → has_close s ≡ false → has_close (take n s) ≡ false
close-take zero s h = refl
close-take (suc n) [] h = refl
close-take (suc n) (c ∷ s) h = ground (arith, close-take n s)

tag-take : (n : ℕ) (s : Text) → has_tag s ≡ false → has_tag (take n s) ≡ false
tag-take zero s h = refl
tag-take (suc n) [] h = refl
tag-take (suc n) (c ∷ s) h = ground (arith, tag-take n s, close-take n s)

length-take : (n : ℕ) (s : Text) → length (take n s) ≤ n
length-take zero s = omega arith
length-take (suc n) [] = omega arith
length-take (suc n) (c ∷ s) = omega (arith, length-take n s)

-- A sanitized text has no tag left, which one pass is enough for, and is not longer than the limit.
pub sanitize_string_clean :
    (s : Text)
    → (has_tag (sanitize_string s) ≡ false) × (length (sanitize_string s) ≤ max_string_length)
unfolding sanitize_string
sanitize_string_clean s =
    let stripped = strip_tags (trim_end (trim_start s)) in
    let (free, inside) = strip-tag_free (trim_end (trim_start s)) in
    elim (Bool-cases (ltb max_string_length (length stripped))) [
      | inl e ↦
          rw e (tag-take max_string_length stripped free, length-take max_string_length stripped)
      | inr e ↦ rw e (free, ground (arith, e))
    ]

both_true : (a b : Bool) → (a && b) ≡ true → (a ≡ true) × (b ≡ true)
both_true true b h = (refl, h)
both_true false b h = cc

wallet-not_blank : (c : ℕ) → is_wallet_unit c ≡ true → is_blank c ≡ false
wallet-not_blank c h = ground (arith, h)

wallet-not_open : (c : ℕ) → is_wallet_unit c ≡ true → (c == b'<') ≡ false
wallet-not_open c h = ground (arith, h)

trim_end_wallet : (s : Text) → all_such is_wallet_unit s ≡ true → trim_end s ≡ s
trim_end_wallet [] h = refl
trim_end_wallet (c ∷ s) h =
    let (unit, units) = both_true (is_wallet_unit c) (all_such is_wallet_unit s) h in
    rw (wallet-not_blank c unit) (ap (λ (t : Text). c ∷ t) (trim_end_wallet s units))

tag_free_wallet : (s : Text) → all_such is_wallet_unit s ≡ true → has_tag s ≡ false
tag_free_wallet [] h = refl
tag_free_wallet (c ∷ s) h =
    let (unit, units) = both_true (is_wallet_unit c) (all_such is_wallet_unit s) h in
    rw (wallet-not_open c unit) (tag_free_wallet s units)

-- Sanitizing a valid wallet address leaves it as it is.
wallet_address_unchanged : (s : Text) → is_valid_wallet_address s ≡ true → sanitize_string s ≡ s
unfolding is_valid_wallet_address sanitize_string
wallet_address_unchanged [] h = cc
wallet_address_unchanged (c ∷ s) h =
    let (short, units) = both_true (leb (length (c ∷ s)) 256) (all_such is_wallet_unit (c ∷ s)) h in
    let (unit, rest) = both_true (is_wallet_unit c) (all_such is_wallet_unit s) units in
    let start : trim_start (c ∷ s) ≡ c ∷ s = rw (wallet-not_blank c unit) refl in
    let stripped : strip_tags (trim_end (trim_start (c ∷ s))) ≡ c ∷ s =
      ap (λ (t : Text). strip_tags (trim_end t)) start
      ∙ ap (λ (t : Text). strip_tags t) (trim_end_wallet (c ∷ s) units)
      ∙ strip_unchanged (c ∷ s) (tag_free_wallet (c ∷ s) units) in
    let fits : ltb max_string_length (length (c ∷ s)) ≡ false = ground (arith, short) in
    ap (λ (t : Text). (if ltb max_string_length (length t) then take max_string_length t else t))
      stripped
    ∙ rw fits refl
