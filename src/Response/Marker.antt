-- ===== src/Response/Marker.antt =====
-- The soft-delete marker in an answer: common/interceptors/response.interceptor.ts.
use mathlib.Core.Option
use stellar_insured_backend.Prelude.{
  Bool-cases, Option, arith, false, inl, inr, ltb, none, refl, some, suc, zero, ℕ, ◌+◌, ◌≡◌, ap,
  subst,
}
use stellar_insured_backend.Response.{
  Bodies, Body, Properties, array, bigint, body, bool, date, decimal, format_response, format_tried,
  safe_serialize, is_formed, is_marker, is_page, no_bodies, no_properties, null, number, object,
  property, serialize_special_types, string, strip, strip_array, strip_object, success_of,
  transform, transform_array, transform_object, undefined,
}
use stellar_insured_backend.Response.Plain.{
  all-Given, transform_plain, Given, IsPlain, both-Given, map-Given, transform-IsPlain,
}

-- No key of an object is "deletedAt" in that many levels of arrays and objects.
unfoldable mutual
  pub IsUnmarked : ℕ → Body → Type 0
  IsUnmarked zero v = Unit
  IsUnmarked (suc levels) (array xs) = AreUnmarked levels xs
  IsUnmarked (suc levels) (object o) = AreUnmarkedProperties levels o
  IsUnmarked (suc levels) v = Unit

  pub AreUnmarked : ℕ → Bodies → Type 0
  AreUnmarked levels no_bodies = Unit
  AreUnmarked levels (body v xs) = IsUnmarked levels v × AreUnmarked levels xs

  pub AreUnmarkedProperties : ℕ → Properties → Type 0
  AreUnmarkedProperties levels no_properties = Unit
  AreUnmarkedProperties levels (property key v o) =
      (is_marker key ≡ false) × IsUnmarked levels v × AreUnmarkedProperties levels o

mutual
  unfolding strip IsUnmarked

  strip-IsUnmarked :
      (levels depth : ℕ) (v : Body) → levels + depth ≡ 11 → IsUnmarked levels (strip depth v)
  strip-IsUnmarked zero depth v e = tt
  strip-IsUnmarked (suc levels) depth undefined e = tt
  strip-IsUnmarked (suc levels) depth null e = tt
  strip-IsUnmarked (suc levels) depth (bool b) e = tt
  strip-IsUnmarked (suc levels) depth (number z) e = tt
  strip-IsUnmarked (suc levels) depth (bigint z) e = tt
  strip-IsUnmarked (suc levels) depth (decimal s) e = tt
  strip-IsUnmarked (suc levels) depth (string s) e = tt
  strip-IsUnmarked (suc levels) depth (date d) e = tt
  strip-IsUnmarked (suc levels) depth (array xs) e =
      let shallow : ltb 10 depth ≡ false = ground (arith, e) in
      rw shallow (strip_array-AreUnmarked levels (depth + 1) xs (omega (arith, e)))
  strip-IsUnmarked (suc levels) depth (object o) e =
      let shallow : ltb 10 depth ≡ false = ground (arith, e) in
      rw shallow (strip_object-AreUnmarked levels (depth + 1) o (omega (arith, e)))

  strip_array-AreUnmarked :
      (levels depth : ℕ) (xs : Bodies)
      → levels + depth ≡ 11
      → AreUnmarked levels (strip_array depth xs)
  strip_array-AreUnmarked levels depth no_bodies e = tt
  strip_array-AreUnmarked levels depth (body v xs) e =
      (strip-IsUnmarked levels depth v e, strip_array-AreUnmarked levels depth xs e)

  strip_object-AreUnmarked :
      (levels depth : ℕ) (o : Properties)
      → levels + depth ≡ 11
      → AreUnmarkedProperties levels (strip_object depth o)
  strip_object-AreUnmarked levels depth no_properties e = tt
  strip_object-AreUnmarked levels depth (property key v o) e =
      let rest = strip_object-AreUnmarked levels depth o e in
      elim (Bool-cases (is_marker key)) [
        | inl marked ↦ rw marked rest
        | inr plain ↦ rw plain (plain, strip-IsUnmarked levels depth v e, rest)
      ]

mutual
  unfolding transform IsUnmarked

  transform-IsUnmarked :
      (levels : ℕ) (v : Body) → IsUnmarked levels v → Given (IsUnmarked levels) (transform v)
  transform-IsUnmarked zero v h = all-Given (IsUnmarked zero) (λ a. tt) (transform v)
  transform-IsUnmarked (suc levels) undefined h = tt
  transform-IsUnmarked (suc levels) null h = tt
  transform-IsUnmarked (suc levels) (bool b) h = tt
  transform-IsUnmarked (suc levels) (number z) h = tt
  transform-IsUnmarked (suc levels) (bigint z) h = tt
  transform-IsUnmarked (suc levels) (decimal s) h = tt
  transform-IsUnmarked (suc levels) (string s) h = tt
  transform-IsUnmarked (suc levels) (date none) h = tt
  transform-IsUnmarked (suc levels) (date (some s)) h = tt
  transform-IsUnmarked (suc levels) (array xs) h =
      map-Given (AreUnmarked levels) (IsUnmarked (suc levels)) array (λ ys i. i)
        (transform_array xs) (transform_array-AreUnmarked levels xs h)
  transform-IsUnmarked (suc levels) (object o) h =
      map-Given (AreUnmarkedProperties levels) (IsUnmarked (suc levels)) object (λ p i. i)
        (transform_object o) (transform_object-AreUnmarked levels o h)

  transform_array-AreUnmarked :
      (levels : ℕ) (xs : Bodies)
      → AreUnmarked levels xs
      → Given (AreUnmarked levels) (transform_array xs)
  transform_array-AreUnmarked levels no_bodies h = tt
  transform_array-AreUnmarked levels (body v xs) (h, i) =
      both-Given (IsUnmarked levels) (AreUnmarked levels) (AreUnmarked levels) body
        (λ a b j k. (j, k)) (transform v) (transform_array xs) (transform-IsUnmarked levels v h)
        (transform_array-AreUnmarked levels xs i)

  transform_object-AreUnmarked :
      (levels : ℕ) (o : Properties)
      → AreUnmarkedProperties levels o
      → Given (AreUnmarkedProperties levels) (transform_object o)
  transform_object-AreUnmarked levels no_properties h = tt
  transform_object-AreUnmarked levels (property key v o) (plain, h, i) =
      both-Given (IsUnmarked levels) (AreUnmarkedProperties levels) (AreUnmarkedProperties levels)
        (property key) (λ a b j k. (plain, j, k)) (transform v) (transform_object o)
        (transform-IsUnmarked levels v h) (transform_object-AreUnmarked levels o i)

serialize_lem : (v d : Body) → transform v ≡ some d → serialize_special_types v ≡ some d
unfolding serialize_special_types
serialize_lem v d =
    ap (λ o. elim o as (λ _. Option Body) [ none ↦ safe_serialize v | some r ↦ some r ])

tried_lem :
    (v d : Body)
    → is_formed v ≡ false
    → is_page v ≡ false
    → transform (strip 0 v) ≡ some d
    → format_tried v ≡ some (success_of d)
unfolding format_tried
tried_lem v d formed page e =
    rw (formed, page) (ap (λ o. Option.map success_of o) (serialize_lem (strip 0 v) d e))

result-IsPlain : (v d : Body) → transform (strip 0 v) ≡ some d → IsPlain d
result-IsPlain v d e = subst (Given IsPlain) e (transform-IsPlain (strip 0 v))

-- A body that is not in the form of an answer or of a page, and whose serialization does not throw, is
-- wrapped as the data of a success; the data hold no bigint, Decimal or Date, so that serializing them
-- again changes nothing, and no key deletedAt in eleven levels of arrays and objects.
pub format_response_lem :
    (v d : Body)
    → is_formed v ≡ false
    → is_page v ≡ false
    → transform (strip 0 v) ≡ some d
    → (format_response v ≡ some (success_of d))
      × IsPlain d
      × (transform d ≡ some d)
      × IsUnmarked 11 d
unfolding format_response
format_response_lem v d formed page e = (
  ap
      (λ o. elim o as (λ _. Option Body) [
        | none ↦ Option.map success_of (safe_serialize v)
        | some r ↦ some r
      ])
      (tried_lem v d formed page e),
  result-IsPlain v d e,
  transform_plain d (result-IsPlain v d e),
  subst (Given (IsUnmarked 11)) e
      (transform-IsUnmarked 11 (strip 0 v) (strip-IsUnmarked 11 0 v refl)),
)
