-- ===== src/Database/Defs.antt =====
-- What the services assume of @prisma/client: a table of rows under the soft-delete middleware, and
-- an interactive transaction (prisma.service.ts, common/repositories/base.repository.ts).
use stellar_insured_backend.Prelude.{
  Bool, Option, false, if◌then◌else◌, none, refl, some, subst, true, ℕ, ◌==◌, ◌≡◌,
}

-- The errors that the services throw, and those of the client that they meet: P2025, P2002 and
-- P2003.
pub data Error : Type 0 where
  bad_request not_found unauthorized conflict failure : Error
  record_not_found unique_violation foreign_key_violation : Error

pub data Result {ℓ} (A : Type ℓ) : Type ℓ where
  ok : A → Result A
  err : Error → Result A

-- The body of an interactive transaction. An error loses the state that the body reached, as the
-- client rolls it back.
abbrev pub Tx : Type 0 → Type 0 → Type 0
Tx S A = S → Result (A × S)

infixl 5 ◌>>=◌ ◌>>◌
abbrev pub ◌>>=◌ : {S A B : Type 0} → Tx S A → (A → Tx S B) → Tx S B
◌>>=◌ m f s = elim (m s) [ ok (a, s') ↦ f a s' | err e ↦ err e ]

abbrev pub ◌>>◌ : {S A B : Type 0} → Tx S A → Tx S B → Tx S B
m >> k = m >>= λ _. k

abbrev pub pure : {S A : Type 0} → A → Tx S A
pure a s = ok (a, s)

abbrev pub throw : {S A : Type 0} → Error → Tx S A
throw e s = err e

abbrev pub guard : {S : Type 0} → Bool → Error → Tx S (Unit {0})
guard true e s = ok (tt, s)
guard false e s = err e

abbrev pub or_throw : {S A : Type 0} → Option A → Error → Tx S A
or_throw none e s = err e
or_throw (some a) e s = ok (a, s)

abbrev pub gets : {S A : Type 0} → (S → A) → Tx S A
gets f s = ok (f s, s)

abbrev pub modify : {S : Type 0} → (S → S) → Tx S (Unit {0})
modify f s = ok (tt, f s)

-- One model's delegate, on a table `T` of rows `R`. `find` reads a live row and `include` a row
-- through a relation, deleted or not; `save` writes the row of an update or a create, `remove`
-- marks it deleted, `fresh` is the id that the next create is given. `find_first` and `count` filter
-- the live rows.
pub record Table (T R : Type 0) : Type 0 where
  pub find : T → ℕ → Option R
  pub include : T → ℕ → Option R
  pub save : T → ℕ → R → T
  pub remove : T → ℕ → T
  pub fresh : T → ℕ
  pub find_first : T → (R → Bool) → Option (ℕ × R)
  pub count : T → (ℕ → R → Bool) → ℕ
  pub find-save :
      (t : T) (k j : ℕ) (r : R) → find (save t k r) j ≡ (if k == j then some r else find t j)
  pub find-remove : (t : T) (k j : ℕ) → find (remove t k) j ≡ (if k == j then none else find t j)
  pub find-fresh : (t : T) → find t (fresh t) ≡ none
  pub include-find : (t : T) (k : ℕ) (r : R) → find t k ≡ some r → include t k ≡ some r
  pub find_first_sound :
      (t : T) (p : R → Bool) (k : ℕ) (r : R)
      → find_first t p ≡ some (k, r)
      → (find t k ≡ some r) × (p r ≡ true)
  pub find_first_complete :
      (t : T) (p : R → Bool) (k : ℕ) (r : R)
      → find_first t p ≡ none
      → find t k ≡ some r
      → p r ≡ false

-- `update({ where: { id }, data })`: the row as changed, or P2025.
abbrev pub update_row : {T R : Type 0} → Table T R → ℕ → (R → R) → Tx T R
update_row table id change t = elim (table.find t id) [
  | none ↦ err record_not_found
  | some r ↦ ok (change r, table.save t id (change r))
]

-- `create({ data })`: the new row and its id.
abbrev pub create_row : {T R : Type 0} → Table T R → R → Tx T (ℕ × R)
create_row table r t = ok ((table.fresh t, r), table.save t (table.fresh t) r)

-- `delete({ where: { id } })` through the middleware.
abbrev pub delete_row : {T R : Type 0} → Table T R → ℕ → Tx T R
delete_row table id t = elim (table.find t id) [
  | none ↦ err record_not_found
  | some r ↦ ok (r, table.remove t id)
]

-- A run has one result.
pub ok_unique :
    {S A : Type 0} {m : Result (A × S)} {a b : A} {s t : S}
    → m ≡ ok (a, s)
    → m ≡ ok (b, t)
    → (a ≡ b) × (s ≡ t)
ok_unique p q = (cc, cc)

pub ok-ne-err :
    {S A : Type 0} {m : Result (A × S)} {a : A} {s : S} {e : Error} → m ≡ ok (a, s) → m ≡ err e → ⊥
ok-ne-err p q = cc

module _ {S A : Type 0} where
  -- How a transaction ended: it returned, and what it returned and reached fits the predicate.
  abbrev pub Returns : (A → S → Type 0) → Result (A × S) → Type 0
  Returns P (ok (a, s)) = P a s
  Returns P (err e) = ⊥

  pub Returns-eq_ok :
      (P : A → S → Type 0) {m : Result (A × S)} {a : A} {s : S}
      → m ≡ ok (a, s)
      → Returns P m
      → P a s
  Returns-eq_ok P e h = subst (Returns P) e h

  pub Returns-map :
      (P Q : A → S → Type 0)
      → ((a : A) (s : S) → P a s → Q a s)
      → (m : Result (A × S)) → Returns P m
      → Returns Q m
  Returns-map P Q f (ok (a, s)) h = f a s h
  Returns-map P Q f (err e) h = h

pub Returns-bind :
    {S A B : Type 0} (P : A → S → Type 0) (Q : B → S → Type 0) (m : Tx S A) (f : A → Tx S B) (s : S)
    → Returns P (m s)
    → ((a : A) (t : S) → P a t → Returns Q (f a t))
    → Returns Q ((m >>= f) s)
Returns-bind {S} {A} P Q m f s h k = go (m s) h
  where
    go :
        (r : Result (A × S))
        → Returns P r
        → Returns Q (elim r [ ok (a, t) ↦ f a t | err e ↦ err e ])
    go (ok (a, t)) h = k a t h
    go (err e) h = h

-- Inversion of a bind that returned.
pub >>=-eq-ok :
    {S A B : Type 0} (m : Tx S A) (f : A → Tx S B) (s : S) {b : B} {s' : S}
    → (m >>= f) s ≡ ok (b, s')
    → (a : A) × (t : S) × (m s ≡ ok (a, t)) × (f a t ≡ ok (b, s'))
>>=-eq-ok {S} {A} {B} m f s {b} {s'} e = go (m s) refl e
  where
    go :
        (r : Result (A × S))
        → m s ≡ r
        → elim r [ ok (a, t) ↦ f a t | err x ↦ err x ] ≡ ok (b, s')
        → (a : A) × (t : S) × (m s ≡ ok (a, t)) × (f a t ≡ ok (b, s'))
    go (ok (a, t)) h k = (a, t, h, k)
    go (err x) h k = cc

module _ {S A : Type 0} where
  -- Partial correctness: if it returned, what it returned and reached fits the predicate.
  abbrev pub Ensures : (A → S → Type 0) → Result (A × S) → Type 0
  Ensures P (ok (a, s)) = P a s
  Ensures P (err e) = Unit

  pub Ensures-eq_ok :
      (P : A → S → Type 0) {m : Result (A × S)} {a : A} {s : S}
      → m ≡ ok (a, s)
      → Ensures P m
      → P a s
  Ensures-eq_ok P e h = subst (Ensures P) e h

  pub Ensures-map :
      (P Q : A → S → Type 0)
      → ((a : A) (s : S) → P a s → Q a s)
      → (m : Result (A × S)) → Ensures P m
      → Ensures Q m
  Ensures-map P Q f (ok (a, s)) h = f a s h
  Ensures-map P Q f (err e) h = tt

  pub Ensures-Returns : (P : A → S → Type 0) (m : Result (A × S)) → Returns P m → Ensures P m
  Ensures-Returns P (ok (a, s)) h = h
  Ensures-Returns P (err e) h = tt

pub Ensures-bind :
    {S A B : Type 0} (P : A → S → Type 0) (Q : B → S → Type 0) (m : Tx S A) (f : A → Tx S B) (s : S)
    → Ensures P (m s)
    → ((a : A) (t : S) → P a t → Ensures Q (f a t))
    → Ensures Q ((m >>= f) s)
Ensures-bind {S} {A} P Q m f s h k = go (m s) h
  where
    go :
        (r : Result (A × S))
        → Ensures P r
        → Ensures Q (elim r [ ok (a, t) ↦ f a t | err e ↦ err e ])
    go (ok (a, t)) h = k a t h
    go (err e) h = tt

pub Ensures-if :
    {S A : Type 0} (P : A → S → Type 0) (b : Bool) (m n : Tx S A) (s : S)
    → Ensures P (m s)
    → Ensures P (n s)
    → Ensures P ((if b then m else n) s)
Ensures-if P true m n s h k = h
Ensures-if P false m n s h k = k
