-- ===== src/Response/Plain.antt =====
-- What a serialized body is: common/utils/serialization.util.ts.
use mathlib.Core.Option
use stellar_insured_backend.Prelude.{Option, ap, none, refl, some, ◌≡◌}
use stellar_insured_backend.Response.{
  Bodies, Body, Properties, array, bigint, body, bool, both, date, decimal, no_bodies,
  no_properties, null, number, object, property, string, transform, transform_array,
  transform_object, undefined,
}

-- No bigint, Decimal or Date is in it.
unfoldable mutual
  pub IsPlain : Body → Type 0
  IsPlain (bigint z) = ⊥
  IsPlain (decimal s) = ⊥
  IsPlain (date d) = ⊥
  IsPlain (array xs) = ArePlain xs
  IsPlain (object o) = ArePlainProperties o
  IsPlain v = Unit

  pub ArePlain : Bodies → Type 0
  ArePlain no_bodies = Unit
  ArePlain (body v xs) = IsPlain v × ArePlain xs

  pub ArePlainProperties : Properties → Type 0
  ArePlainProperties no_properties = Unit
  ArePlainProperties (property key v o) = IsPlain v × ArePlainProperties o

-- The result, if there is one, has the property.
abbrev pub Given : {A : Type 0} → (A → Type 0) → Option A → Type 0
Given P none = Unit
Given P (some a) = P a

pub all-Given : {A : Type 0} (P : A → Type 0) → ((a : A) → P a) → (o : Option A) → Given P o
all-Given P k none = tt
all-Given P k (some a) = k a

pub map-Given :
    {A B : Type 0} (P : A → Type 0) (Q : B → Type 0) (f : A → B)
    → ((a : A) → P a → Q (f a))
    → (o : Option A) → Given P o
    → Given Q (Option.map f o)
map-Given P Q f k none h = tt
map-Given P Q f k (some a) h = k a h

pub both-Given :
    {A B C : Type 0} (P : A → Type 0) (Q : B → Type 0) (R : C → Type 0) (f : A → B → C)
    → ((a : A) (b : B) → P a → Q b → R (f a b))
    → (x : Option A) (y : Option B) → Given P x
    → Given Q y
    → Given R (both f x y)
both-Given P Q R f k none y h i = tt
both-Given P Q R f k (some a) none h i = tt
both-Given P Q R f k (some a) (some b) h i = k a b h i

mutual
  unfolding transform IsPlain

  pub transform-IsPlain : (v : Body) → Given IsPlain (transform v)
  transform-IsPlain undefined = tt
  transform-IsPlain null = tt
  transform-IsPlain (bool b) = tt
  transform-IsPlain (number z) = tt
  transform-IsPlain (bigint z) = tt
  transform-IsPlain (decimal s) = tt
  transform-IsPlain (string s) = tt
  transform-IsPlain (date none) = tt
  transform-IsPlain (date (some s)) = tt
  transform-IsPlain (array xs) =
      map-Given ArePlain IsPlain array (λ ys h. h) (transform_array xs)
        (transform_array-ArePlain xs)
  transform-IsPlain (object o) =
      map-Given ArePlainProperties IsPlain object (λ p h. h) (transform_object o)
        (transform_object-ArePlain o)

  transform_array-ArePlain : (xs : Bodies) → Given ArePlain (transform_array xs)
  transform_array-ArePlain no_bodies = tt
  transform_array-ArePlain (body v xs) =
      both-Given IsPlain ArePlain ArePlain body (λ a b h i. (h, i)) (transform v)
        (transform_array xs) (transform-IsPlain v) (transform_array-ArePlain xs)

  transform_object-ArePlain : (o : Properties) → Given ArePlainProperties (transform_object o)
  transform_object-ArePlain no_properties = tt
  transform_object-ArePlain (property key v o) =
      both-Given IsPlain ArePlainProperties ArePlainProperties (property key) (λ a b h i. (h, i))
        (transform v) (transform_object o) (transform-IsPlain v) (transform_object-ArePlain o)

mutual
  unfolding transform IsPlain

  pub transform_plain : (v : Body) → IsPlain v → transform v ≡ some v
  transform_plain undefined h = refl
  transform_plain null h = refl
  transform_plain (bool b) h = refl
  transform_plain (number z) h = refl
  transform_plain (bigint z) h = absurd h
  transform_plain (decimal s) h = absurd h
  transform_plain (string s) h = refl
  transform_plain (date d) h = absurd h
  transform_plain (array xs) h = ap (λ o. Option.map array o) (transform_array_plain xs h)
  transform_plain (object o) h = ap (λ p. Option.map object p) (transform_object_plain o h)

  transform_array_plain : (xs : Bodies) → ArePlain xs → transform_array xs ≡ some xs
  transform_array_plain no_bodies h = refl
  transform_array_plain (body v xs) (h, i) =
      rw (transform_plain v h, transform_array_plain xs i) refl

  transform_object_plain : (o : Properties) → ArePlainProperties o → transform_object o ≡ some o
  transform_object_plain no_properties h = refl
  transform_object_plain (property key v o) (h, i) =
      rw (transform_plain v h, transform_object_plain o i) refl
