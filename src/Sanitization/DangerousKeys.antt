-- ===== src/Sanitization/DangerousKeys.antt =====
-- The keys that sanitizeObject drops, and those that come through: common/utils/sanitization.util.ts.
use stellar_insured_backend.Prelude.{
  Bool, [], ap, arith, false, if◌then◌else◌, length, ltb, not, refl, true, ℕ, ◌&&◌, ◌++◌, ◌||◌, ◌∙◌,
  ◌∷◌, ◌≡◌,
}
use stellar_insured_backend.XdrDecoder.{Text, is_empty, member, object}
use stellar_insured_backend.Sanitization.{
  DangerousKey, Json, add_member, all_blank, assign, constructor_key, contains, define_getter,
  define_setter, has_close, is_container, is_skipped, lookup_getter, lookup_setter,
  max_string_length, member, name_of, no_members, object, proto, prototype, sanitize_object,
  sanitize_string, strip_both, trim_end,
}

-- The dangerous key after a tag.
abbrev pub wrapped : Text → DangerousKey → Text
wrapped tag k = b'<' ∷ (tag ++ (b'>' ∷ name_of k))

-- The text between the brackets has no closing bracket, and neither of the characters that make a key
-- dangerous.
abbrev pub IsInTag : Text → Type 0
IsInTag tag = (has_close tag ≡ false) × (contains b'$' tag ≡ false) × (contains b'.' tag ≡ false)

abbrev is_proto : DangerousKey → Bool
is_proto proto = true
is_proto _ = false

contains-append :
    (u : ℕ) (s t : Text) → contains u s ≡ false → contains u t ≡ false → contains u (s ++ t) ≡ false
contains-append u [] t h g = g
contains-append u (c ∷ s) t h g = ground (arith, contains-append u s t)

has_close-append : (s t : Text) → has_close (s ++ b'>' ∷ t) ≡ true
has_close-append [] t = refl
has_close-append (c ∷ s) t = ground (arith, has_close-append s t)

all_blank-append : (s t : Text) → all_blank t ≡ false → all_blank (s ++ t) ≡ false
all_blank-append [] t h = h
all_blank-append (c ∷ s) t h = ground (arith, all_blank-append s t h)

trim_end-append : (s t : Text) → all_blank t ≡ false → trim_end t ≡ t → trim_end (s ++ t) ≡ s ++ t
trim_end-append [] t h e = e
trim_end-append (c ∷ s) t h e = ground (arith, all_blank-append s t h, trim_end-append s t h e)

-- What is left of a text inside a tag is what follows the tag.
inside-append :
    (s t : Text) → has_close s ≡ false → (strip_both (s ++ b'>' ∷ t)).1 ≡ (strip_both t).0
inside-append [] t h = refl
inside-append (c ∷ s) t h = ground (arith, inside-append s t)

-- A dangerous key with its closing bracket, as sanitizing sees it.
abbrev closed_name : DangerousKey → Text
closed_name k = b'>' ∷ name_of k

closed_name-kept :
    (k : DangerousKey)
    → (all_blank (closed_name k) ≡ false)
      × (trim_end (closed_name k) ≡ closed_name k)
      × (contains b'$' (closed_name k) ≡ false)
      × (contains b'.' (closed_name k) ≡ false)
      × ((strip_both (name_of k)).0 ≡ name_of k)
      × (ltb max_string_length (length (name_of k)) ≡ false)
closed_name-kept proto = (refl, refl, refl, refl, refl, refl)
closed_name-kept constructor_key = (refl, refl, refl, refl, refl, refl)
closed_name-kept prototype = (refl, refl, refl, refl, refl, refl)
closed_name-kept define_getter = (refl, refl, refl, refl, refl, refl)
closed_name-kept define_setter = (refl, refl, refl, refl, refl, refl)
closed_name-kept lookup_getter = (refl, refl, refl, refl, refl, refl)
closed_name-kept lookup_setter = (refl, refl, refl, refl, refl, refl)

sanitize_string-wrapped :
    (tag : Text) (k : DangerousKey) → IsInTag tag → sanitize_string (wrapped tag k) ≡ name_of k
unfolding sanitize_string
sanitize_string-wrapped tag k (open_, dollar, dot) =
    let (visible, kept, d, e, whole, short) = closed_name-kept k in
    let body = all_blank-append tag (closed_name k) visible in
    let trimmed = trim_end-append tag (closed_name k) visible kept in
    let inside = inside-append tag (name_of k) open_ ∙ whole in
    rw (trimmed, has_close-append tag (name_of k), inside, short) refl

is_skipped-wrapped :
    (tag : Text) (k : DangerousKey) → IsInTag tag → is_skipped (wrapped tag k) ≡ false
is_skipped-wrapped tag k (open_, dollar, dot) =
    let (visible, kept, d, e, whole, short) = closed_name-kept k in
    rw
      (
        contains-append b'$' tag (closed_name k) dollar d,
        contains-append b'.' tag (closed_name k) dot e,
      )
      refl

sanitize_object-only :
    (key : Text) (v : Json)
    → sanitize_object 0 (object (member key v no_members))
      ≡ object (add_member no_members key (sanitize_object 1 v))
unfolding sanitize_object
sanitize_object-only key v = refl

skipped_name : (k : DangerousKey) (v : Json) → add_member no_members (name_of k) v ≡ no_members
unfolding sanitize_string
skipped_name proto v = refl
skipped_name constructor_key v = refl
skipped_name prototype v = refl
skipped_name define_getter v = refl
skipped_name define_setter v = refl
skipped_name lookup_getter v = refl
skipped_name lookup_setter v = refl

assigned_name :
    (k : DangerousKey) (v : Json)
    → (if false || is_empty (name_of k) then no_members else assign no_members (name_of k) v)
      ≡ (if is_proto k && not (is_container v) then no_members else member (name_of k) v no_members)
assigned_name proto v = refl
assigned_name constructor_key v = refl
assigned_name prototype v = refl
assigned_name define_getter v = refl
assigned_name define_setter v = refl
assigned_name lookup_getter v = refl
assigned_name lookup_setter v = refl

-- An object whose only key is one of the seven dangerous ones is sanitized to the empty object. With a
-- tag before the key, whose text has no `>`, `$` or `.`, it keeps its sanitized value under the
-- dangerous key itself, save that `__proto__` takes only an object, an array or null.
pub dangerous_key_through :
    (tag : Text) (k : DangerousKey) (v : Json)
    → IsInTag tag
    → (sanitize_object 0 (object (member (name_of k) v no_members)) ≡ object no_members)
      × (sanitize_object 0 (object (member (wrapped tag k) v no_members))
          ≡ object (
              if is_proto k && not (is_container (sanitize_object 1 v))
              then no_members
              else member (name_of k) (sanitize_object 1 v) no_members))
dangerous_key_through tag k v inside = (
  sanitize_object-only (name_of k) v ∙ ap object (skipped_name k (sanitize_object 1 v)),
  sanitize_object-only (wrapped tag k) v
      ∙ rw (is_skipped-wrapped tag k inside, sanitize_string-wrapped tag k inside)
          (ap object (assigned_name k (sanitize_object 1 v))),
)
