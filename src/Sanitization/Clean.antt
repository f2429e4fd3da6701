-- ===== src/Sanitization/Clean.antt =====
-- What a sanitized value is: sanitizeObject of common/utils/sanitization.util.ts.
use stellar_insured_backend.Prelude.{
  not, Bool-cases, arith, false, inl, inr, length, ltb, refl, suc, true, zero, ℕ, ◌+◌, ◌&&◌, ◌||◌,
  ◌≡◌, ◌≤◌,
}
use stellar_insured_backend.XdrDecoder.{Text, codes, is_empty, text_eq}
use stellar_insured_backend.Sanitization.{
  Elements, Json, Members, add_member, array, bool, element, is_container, is_skipped,
  max_object_depth, max_object_keys, max_string_length, member, no_elements, no_members, null,
  number, object, put, sanitize_elements, sanitize_members, sanitize_object, sanitize_string,
  string, undefined,
}
use stellar_insured_backend.Sanitization.Tags.{has_tag, sanitize_string_clean}

abbrev pub IsCleanText : Text → Type 0
IsCleanText s = (has_tag s ≡ false) × (length s ≤ max_string_length)

abbrev pub count : Elements → ℕ
count no_elements = 0
count (element v xs) = suc (count xs)

abbrev pub size : Members → ℕ
size no_members = 0
size (member k v o) = suc (size o)

-- Arrays and objects nest at most so many levels and have at most as many parts as keys are allowed, and
-- every text in it, keys included, has no tag and is not too long.
unfoldable mutual
  pub IsClean : ℕ → Json → Type 0
  IsClean levels undefined = Unit
  IsClean levels null = Unit
  IsClean levels (bool b) = Unit
  IsClean levels (number z) = Unit
  IsClean levels (string s) = IsCleanText s
  IsClean zero (array xs) = ⊥
  IsClean (suc levels) (array xs) = (count xs ≤ max_object_keys) × AreCleanElements levels xs
  IsClean zero (object o) = ⊥
  IsClean (suc levels) (object o) = (size o ≤ max_object_keys) × AreCleanMembers levels o

  pub AreCleanElements : ℕ → Elements → Type 0
  AreCleanElements levels no_elements = Unit
  AreCleanElements levels (element v xs) = IsClean levels v × AreCleanElements levels xs

  pub AreCleanMembers : ℕ → Members → Type 0
  AreCleanMembers levels no_members = Unit
  AreCleanMembers levels (member k v o) =
      IsCleanText k × IsClean levels v × AreCleanMembers levels o

size-put : (o : Members) (k : Text) (v : Json) → size (put o k v) ≤ suc (size o)
size-put no_members k v = omega arith
size-put (member j x o) k v = elim (Bool-cases (text_eq j k)) [
  | inl e ↦ rw e (omega arith)
  | inr e ↦ rw e (omega (arith, size-put o k v))
]

put-AreClean :
    (levels : ℕ) (o : Members) (k : Text) (v : Json)
    → AreCleanMembers levels o
    → IsCleanText k
    → IsClean levels v
    → AreCleanMembers levels (put o k v)
unfolding AreCleanMembers
put-AreClean levels no_members k v c t d = (t, d, tt)
put-AreClean levels (member j x o) k v (t', d', c) t d = elim (Bool-cases (text_eq j k)) [
  | inl e ↦ rw e (t', d, c)
  | inr e ↦ rw e (t', d', put-AreClean levels o k v c t d)
]

abbrev Grown : ℕ → Members → Members → Type 0
Grown levels o o' = AreCleanMembers levels o' × (size o' ≤ suc (size o))

add_member-Grown :
    (levels : ℕ) (o : Members) (k : Text) (v : Json)
    → AreCleanMembers levels o
    → IsClean levels v
    → Grown levels o (add_member o k v)
add_member-Grown levels o k v c d =
    let safe_key = sanitize_string k in
    elim (Bool-cases (is_skipped k || is_empty safe_key)) [
      | inl e ↦ rw e (c, omega arith)
      | inr e ↦ elim (Bool-cases (text_eq safe_key (codes "__proto__") && not (is_container v))) [
        | inl f ↦ rw (e, f) (c, omega arith)
        | inr f ↦
            rw (e, f)
              (
                put-AreClean levels o safe_key v c (sanitize_string_clean k) d,
                size-put o safe_key v,
              )
      ]
    ]

mutual
  unfolding sanitize_object IsClean

  sanitize_object-levels :
      (levels depth : ℕ) (v : Json)
      → levels + depth ≡ suc max_object_depth
      → IsClean levels (sanitize_object depth v)
  sanitize_object-levels levels depth undefined e = tt
  sanitize_object-levels levels depth null e = tt
  sanitize_object-levels levels depth (bool b) e = tt
  sanitize_object-levels levels depth (number z) e = tt
  sanitize_object-levels levels depth (string s) e = sanitize_string_clean s
  sanitize_object-levels zero depth (array xs) e =
      let deep : ltb max_object_depth depth ≡ true = ground (arith, e) in rw deep tt
  sanitize_object-levels (suc levels) depth (array xs) e =
      elim (Bool-cases (ltb max_object_depth depth)) [
        | inl deep ↦ rw deep tt
        | inr shallow ↦
            rw shallow
              (sanitize_elements-levels levels (depth + 1) max_object_keys xs (omega (arith, e)))
      ]
  sanitize_object-levels zero depth (object o) e =
      let deep : ltb max_object_depth depth ≡ true = ground (arith, e) in rw deep tt
  sanitize_object-levels (suc levels) depth (object o) e =
      elim (Bool-cases (ltb max_object_depth depth)) [
        | inl deep ↦ rw deep tt
        | inr shallow ↦ rw shallow (
            sanitize_members-levels levels (depth + 1) max_object_keys o no_members
              (omega (arith, e)) tt)
      ]

  sanitize_elements-levels :
      (levels depth n : ℕ) (xs : Elements)
      → levels + depth ≡ suc max_object_depth
      → (count (sanitize_elements n depth xs) ≤ n)
        × AreCleanElements levels (sanitize_elements n depth xs)
  sanitize_elements-levels levels depth zero xs e = (omega arith, tt)
  sanitize_elements-levels levels depth (suc n) no_elements e = (omega arith, tt)
  sanitize_elements-levels levels depth (suc n) (element v xs) e =
      let (short, clean) = sanitize_elements-levels levels depth n xs e in
      (omega (arith, short), (sanitize_object-levels levels depth v e, clean))

  sanitize_members-levels :
      (levels depth n : ℕ) (o sanitized : Members)
      → levels + depth ≡ suc max_object_depth
      → AreCleanMembers levels sanitized
      → (size (sanitize_members n depth o sanitized) ≤ size sanitized + n)
        × AreCleanMembers levels (sanitize_members n depth o sanitized)
  sanitize_members-levels levels depth zero o sanitized e c = (omega arith, c)
  sanitize_members-levels levels depth (suc n) no_members sanitized e c = (omega arith, c)
  sanitize_members-levels levels depth (suc n) (member key v o) sanitized e c =
      let (clean, grown) =
        add_member-Grown levels sanitized key (sanitize_object depth v) c
          (sanitize_object-levels levels depth v e) in
      let (short, all_clean) =
        sanitize_members-levels levels depth n o
          (add_member sanitized key (sanitize_object depth v)) e clean in
      (omega (arith, short, grown), all_clean)

-- A sanitized value nests at most eleven arrays and objects, none of which has more than fifty parts,
-- and every text in it, keys included, has no tag left and is at most 100000 units long.
pub sanitize_object-IsClean : (v : Json) → IsClean (suc max_object_depth) (sanitize_object 0 v)
sanitize_object-IsClean v = sanitize_object-levels (suc max_object_depth) 0 v refl
