-- ===== src/XdrDecoder/Numbers.antt =====
-- Decimal texts: int_text and parse_int, for toString and parseInt.
use stellar_insured_backend.XdrDecoder.{
  Text, big_str, bigint, digits, int_text, is_digit, is_empty, nearest, negated, num, parse_int,
  read_digits, spacing, string, to_double,
}
use stellar_insured_backend.Prelude.{
  Bool-cases, [], ap, arith, false, inl, inr, ltb, refl, suc, sym, true, zero, ℕ, ◌%◌, ◌*◌, ◌++◌,
  ◌+◌, ◌-◌, ◌/◌, ◌<◌, ◌^◌, ◌∙◌, ◌∷◌, ◌≡◌, ◌≤◌,
}
use stellar_insured_backend.Prelude.Int.{negsuc, pos, ℤ}

append_assoc : (xs : Text) (y : ℕ) (ys : Text) → (xs ++ (y ∷ [])) ++ ys ≡ xs ++ (y ∷ ys)
append_assoc [] y ys = refl
append_assoc (x ∷ xs) y ys = ap (λ zs. x ∷ zs) (append_assoc xs y ys)

read-digit :
    (acc d : ℕ) (rest : Text)
    → d < 10
    → read_digits acc ((48 + d) ∷ rest) ≡ read_digits (acc * 10 + d) rest
unfolding read_digits
read-digit acc d rest h =
    let e : (48 + d) - 48 ≡ d = omega arith in
    let test : is_digit (48 + d) ≡ true = ground arith in rw (test, e) refl

read-digits :
    (fuel n : ℕ) (rest : Text)
    → n < fuel
    → read_digits 0 (digits fuel n ++ rest) ≡ read_digits n rest
unfolding digits
read-digits zero n rest h = absurd (omega arith)
read-digits (suc fuel) n rest h = elim (Bool-cases (ltb n 10)) [
  | inl small ↦
      rw small (read-digit 0 n rest (ground arith) ∙ ap (λ k. read_digits k rest) (omega arith))
  | inr large ↦ rw large (
      ap (read_digits 0) (append_assoc (digits fuel (n / 10)) (48 + n % 10) rest)
      ∙ read-digits fuel (n / 10) ((48 + n % 10) ∷ rest) (ground arith)
      ∙ read-digit (n / 10) (n % 10) rest (omega arith)
      ∙ ap (λ k. read_digits k rest) (omega arith))
]

append-nil : (xs : Text) → xs ++ [] ≡ xs
append-nil [] = refl
append-nil (x ∷ xs) = ap (λ zs. x ∷ zs) (append-nil xs)

read-digits_nil : (fuel n : ℕ) → n < fuel → read_digits 0 (digits fuel n) ≡ n
unfolding read_digits
read-digits_nil fuel n h =
    ap (read_digits 0) (sym (append-nil (digits fuel n))) ∙ read-digits fuel n [] h

-- The first character of a number's digits is a digit.
abbrev StartsWithDigit : Text → Type 0
StartsWithDigit [] = ⊥
StartsWithDigit (c ∷ s) = (48 ≤ c) × (c ≤ 57)

starts-append : (xs ys : Text) → StartsWithDigit xs → StartsWithDigit (xs ++ ys)
starts-append [] ys h = elim h [ ]
starts-append (x ∷ xs) ys h = h

digits-StartsWithDigit : (fuel n : ℕ) → n < fuel → StartsWithDigit (digits fuel n)
unfolding digits
digits-StartsWithDigit zero n h = absurd (omega arith)
digits-StartsWithDigit (suc fuel) n h = elim (Bool-cases (ltb n 10)) [
  | inl small ↦ rw small (ground arith)
  | inr large ↦
      rw large (
        starts-append (digits fuel (n / 10)) _
          (digits-StartsWithDigit fuel (n / 10) (ground arith)))
]

parse-digits : (s : Text) → StartsWithDigit s → parse_int s ≡ pos (read_digits 0 s)
unfolding parse_int
parse-digits [] h = elim h [ ]
parse-digits (c ∷ s) h = ground arith

parse-minus : (s : Text) → parse_int (b'-' ∷ s) ≡ negated (read_digits 0 s)
unfolding parse_int
parse-minus s = refl

pub int_text-nonempty : (n : ℕ) → is_empty (int_text (pos n)) ≡ false
unfolding int_text
int_text-nonempty n = nonempty (digits (suc n) n) (digits-StartsWithDigit (suc n) n (omega arith))
  where
    nonempty : (s : Text) → StartsWithDigit s → is_empty s ≡ false
    nonempty [] h = elim h [ ]
    nonempty (c ∷ s) h = refl

abbrev pub magnitude : ℤ → ℕ
magnitude (pos n) = n
magnitude (negsuc n) = suc n

nearest-unit : (n : ℕ) → nearest 1 n ≡ n
unfolding nearest
nearest-unit n = ground arith

spacing-unit : (fuel n : ℕ) → n < 2 ^ 53 → spacing (suc fuel) 1 n ≡ 1
unfolding spacing
spacing-unit fuel n h = ground arith

to_double-exact : (z : ℤ) → magnitude z < 2 ^ 53 → to_double z ≡ z
unfolding to_double
to_double-exact (pos n) h =
    ap (λ s. pos (nearest s n)) (spacing-unit 255 n h) ∙ ap pos (nearest-unit n)
to_double-exact (negsuc n) h =
    ap (λ s. negated (nearest s (suc n))) (spacing-unit 255 (suc n) h)
    ∙ ap negated (nearest-unit (suc n))

parse-int_text : (z : ℤ) → parse_int (int_text z) ≡ z
unfolding int_text
parse-int_text (pos n) =
    parse-digits (digits (suc n) n) (digits-StartsWithDigit (suc n) n (omega arith))
    ∙ ap pos (read-digits_nil (suc n) n (omega arith))
parse-int_text (negsuc n) =
    parse-minus (digits (suc (suc n)) (suc n))
    ∙ ap negated (read-digits_nil (suc (suc n)) (suc n) (omega arith))

-- A whole number of magnitude below 2^53 comes through the decoder's two ways to a number as it is,
-- whether the payload holds it as an integer or as its decimal text, and bigStr gives that text.
pub num_exact :
    (z : ℤ)
    → magnitude z < 2 ^ 53
    → (num (bigint z) ≡ z) × (num (string (int_text z)) ≡ z) × (big_str (bigint z) ≡ int_text z)
unfolding num big_str
num_exact z h = (to_double-exact z h, ap to_double (parse-int_text z) ∙ to_double-exact z h, refl)

spacing-two : (fuel n : ℕ) → 2 ^ 53 ≤ n → n < 2 ^ 54 → spacing (suc (suc fuel)) 1 n ≡ 2
unfolding spacing
spacing-two fuel n h k = ground arith

nearest-two : (n : ℕ) → n % 4 ≡ 0 → (nearest 2 n ≡ n) × (nearest 2 (n + 1) ≡ n)
unfolding nearest
nearest-two n h = ground arith

-- Above 2^53 the decoder reads different ids as one number: an id from there to 2^54 that is a
-- multiple of 4, and the next id.
pub num_collides :
    (n : ℕ)
    → 2 ^ 53 ≤ n
    → n < 2 ^ 54
    → n % 4 ≡ 0
    → num (bigint (pos (n + 1))) ≡ num (bigint (pos n))
unfolding num to_double
num_collides n h k m =
    let (even, odd) = nearest-two n m in
    ap (λ s. pos (nearest s (n + 1)))
      (spacing-two 254 (n + 1) (omega (arith, h)) (omega (arith, k, m)))
    ∙ ap pos (odd ∙ sym even)
    ∙ sym (ap (λ s. pos (nearest s n)) (spacing-two 254 n h k))
