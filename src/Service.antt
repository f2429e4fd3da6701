-- ===== src/Service.antt =====
-- The body of a service method outside a transaction: what it wrote stays when it throws. Names as in
-- Database, for the other kind of body.
use stellar_insured_backend.Prelude.{ap, Bool, false, if◌then◌else◌, refl, subst, true, ◌≡◌}
use stellar_insured_backend.Database.{Ensures, Error, Result, Tx, err, ok}

abbrev pub Io : Type 0 → Type 0 → Type 0
Io S A = S → Result A × S

infixl 5 ◌>>=◌ ◌>>◌
abbrev pub ◌>>=◌ : {S A B : Type 0} → Io S A → (A → Io S B) → Io S B
◌>>=◌ m f s = let (r, s') = m s in elim r [ ok a ↦ f a s' | err e ↦ (err e, s') ]

abbrev pub ◌>>◌ : {S A B : Type 0} → Io S A → Io S B → Io S B
m >> k = m >>= λ _. k

abbrev pub pure : {S A : Type 0} → A → Io S A
pure a s = (ok a, s)

abbrev pub throw : {S A : Type 0} → Error → Io S A
throw e s = (err e, s)

abbrev pub gets : {S A : Type 0} → (S → A) → Io S A
gets f s = (ok (f s), s)

-- `$transaction`: committed if it returns, rolled back if it throws.
abbrev pub transaction : {S A : Type 0} → Tx S A → Io S A
transaction m s = elim (m s) [ ok (a, s') ↦ (ok a, s') | err e ↦ (err e, s) ]

module _ {S A : Type 0} where
  -- If the method returned, what it returned and reached fits the predicate.
  abbrev pub Yields : (A → S → Type 0) → Result A × S → Type 0
  Yields P (ok a, s) = P a s
  Yields P (err e, s) = Unit

  pub Yields-eq_ok :
      (P : A → S → Type 0) {r : Result A × S} {a : A} {s : S} → r ≡ (ok a, s) → Yields P r → P a s
  Yields-eq_ok P e h = subst (Yields P) e h

  pub Yields-transaction :
      (P : A → S → Type 0) (m : Tx S A) (s : S) → Ensures P (m s) → Yields P (transaction m s)
  Yields-transaction P m s h = go (m s) h
    where
      go :
          (r : Result (A × S))
          → Ensures P r
          → Yields P (elim r [ ok (a, t) ↦ (ok a, t) | err e ↦ (err e, s) ])
      go (ok (a, t)) h = h
      go (err e) h = tt

-- A bind whose first part gave a value.
pub bind-ok :
    {S A B : Type 0} (m : Io S A) (k : A → Io S B) (s t : S) (a : A)
    → m s ≡ (ok a, t)
    → (m >>= k) s ≡ k a t
bind-ok {S} {A} {B} m k s t a = ap (λ (r : Result A × S).
    (let (x, u) = r in elim x as (λ _. Result B × S) [ ok b ↦ k b u | err e ↦ (err e, u) ]))

pub bind-err :
    {S A B : Type 0} (m : Io S A) (k : A → Io S B) (s t : S) (e : Error)
    → m s ≡ (err e, t)
    → (m >>= k) s ≡ (err e, t)
bind-err {S} {A} {B} m k s t e = ap (λ (r : Result A × S).
    (let (x, u) = r in elim x as (λ _. Result B × S) [ ok b ↦ k b u | err x' ↦ (err x', u) ]))

pub Yields-bind :
    {S A B : Type 0} (P : A → S → Type 0) (Q : B → S → Type 0) (m : Io S A) (f : A → Io S B) (s : S)
    → Yields P (m s)
    → ((a : A) (t : S) → P a t → Yields Q (f a t))
    → Yields Q ((m >>= f) s)
Yields-bind {S} {A} {B} P Q m f s h k = go (m s) h
  where
    go :
        (r : Result A × S)
        → Yields P r
        → Yields Q (let (x, t) = r in elim x [ ok a ↦ f a t | err e ↦ (err e, t) ])
    go (ok a, t) h = k a t h
    go (err e, t) h = tt

pub Yields-if :
    {S A : Type 0} (P : A → S → Type 0) (b : Bool) (m n : Io S A) (s : S)
    → (b ≡ true → Yields P (m s))
    → (b ≡ false → Yields P (n s))
    → Yields P ((if b then m else n) s)
Yields-if P true m n s h k = h refl
Yields-if P false m n s h k = k refl

pub Yields-any : {S A : Type 0} (r : Result A × S) → Yields (λ _ _. Unit {0}) r
Yields-any (ok a, s) = tt
Yields-any (err e, s) = tt

pub Yields-map :
    {S A : Type 0} (P Q : A → S → Type 0)
    → ((a : A) (s : S) → P a s → Q a s)
    → (r : Result A × S) → Yields P r
    → Yields Q r
Yields-map P Q f (ok a, s) h = f a s h
Yields-map P Q f (err e, s) h = tt
