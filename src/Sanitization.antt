-- ===== src/Sanitization.antt =====
-- common/utils/sanitization.util.ts. A text is the list of its UTF-16 units, and the values are those of
-- a JSON document, which shares no object. A member "__proto__" of a result stands for the prototype
-- that the assignment sets; the members are in the order of their first assignment.
pub mod Tags
pub mod Clean
pub mod DangerousKeys
use stellar_insured_backend.Prelude.{
  Bool, List, [], false, if◌then◌else◌, leb, length, ltb, not, suc, take, true, zero, ℕ, ◌&&◌, ◌+◌,
  ◌==◌, ◌||◌, ◌∷◌,
}
use stellar_insured_backend.Prelude.Int.{ℤ}
use stellar_insured_backend.XdrDecoder.{Text, codes, is_empty, text_eq}

mutual
  pub data Json : Type 0 where
    undefined null : Json
    bool : Bool → Json
    number : ℤ → Json
    string : Text → Json
    array : Elements → Json
    object : Members → Json

  pub data Elements : Type 0 where
    no_elements : Elements
    element : Json → Elements → Elements

  pub data Members : Type 0 where
    no_members : Members
    member : Text → Json → Members → Members

abbrev pub max_object_depth : ℕ
max_object_depth = 10

abbrev pub max_object_keys : ℕ
max_object_keys = 50

abbrev pub max_string_length : ℕ
max_string_length = 100000

-- White space and line ends of `trim`.
abbrev pub is_blank : ℕ → Bool
is_blank c =
    leb 9 c && leb c 13
    || c == 32
    || c == 160
    || c == 5760
    || leb 8192 c && leb c 8202
    || c == 8232
    || c == 8233
    || c == 8239
    || c == 8287
    || c == 12288
    || c == 65279

abbrev pub trim_start : Text → Text
trim_start [] = []
trim_start (c ∷ s) = if is_blank c then trim_start s else c ∷ s

abbrev pub all_blank : Text → Bool
all_blank [] = true
all_blank (c ∷ s) = is_blank c && all_blank s

abbrev pub trim_end : Text → Text
trim_end [] = []
trim_end (c ∷ s) = if all_blank (c ∷ s) then [] else c ∷ trim_end s

abbrev pub has_close : Text → Bool
has_close [] = false
has_close (c ∷ s) = c == b'>' || has_close s

-- The replacement of every match of `<[^>]*>` by nothing: what is left of a text, and what is left of
-- it inside a tag.
abbrev pub strip_both : Text → Text × Text
strip_both [] = ([], [])
strip_both (c ∷ s) =
    let (outside, inside) = strip_both s in
    (
      if c == b'<' && has_close s then inside else c ∷ outside,
      if c == b'>' then outside else inside,
    )

abbrev pub strip_tags : Text → Text
strip_tags s = (strip_both s).0

unfoldable pub sanitize_string : Text → Text
sanitize_string s =
    let sanitized = strip_tags (trim_end (trim_start s)) in
    if ltb max_string_length (length sanitized) then take max_string_length sanitized else sanitized

abbrev pub is_upper : ℕ → Bool
is_upper c = leb b'A' c && leb c b'Z'

abbrev pub is_alphanumeric : ℕ → Bool
is_alphanumeric c = is_upper c || leb b'a' c && leb c b'z' || leb b'0' c && leb c b'9'

abbrev pub all_such : (ℕ → Bool) → Text → Bool
all_such p [] = true
all_such p (c ∷ s) = p c && all_such p s

unfoldable pub is_valid_cuid : Text → Bool
is_valid_cuid id =
    leb 3 (length id)
    && leb (length id) 64
    && all_such (λ c. is_alphanumeric c || c == b'_' || c == b'-') id

unfoldable pub is_valid_stellar_address : Text → Bool
is_valid_stellar_address [] = false
is_valid_stellar_address (c ∷ s) =
    c == b'G' && length s == 55 && all_such (λ d. is_upper d || leb b'2' d && leb d b'7') s

abbrev pub is_wallet_unit : ℕ → Bool
is_wallet_unit c = is_alphanumeric c || c == b'_' || c == b'-' || c == b'.' || c == b'@'

unfoldable pub is_valid_wallet_address : Text → Bool
is_valid_wallet_address [] = false
is_valid_wallet_address (c ∷ s) = leb (length (c ∷ s)) 256 && all_such is_wallet_unit (c ∷ s)

pub data DangerousKey : Type 0 where
  proto constructor_key prototype : DangerousKey
  define_getter define_setter lookup_getter lookup_setter : DangerousKey

abbrev pub name_of : DangerousKey → Text
name_of proto = codes "__proto__"
name_of constructor_key = codes "constructor"
name_of prototype = codes "prototype"
name_of define_getter = codes "__defineGetter__"
name_of define_setter = codes "__defineSetter__"
name_of lookup_getter = codes "__lookupGetter__"
name_of lookup_setter = codes "__lookupSetter__"

abbrev pub dangerous_keys : List DangerousKey
dangerous_keys =
    proto ∷ constructor_key ∷ prototype ∷ define_getter ∷ define_setter ∷ lookup_getter
    ∷ lookup_setter ∷ []

abbrev pub is_among : List DangerousKey → Text → Bool
is_among [] key = false
is_among (k ∷ ks) key = text_eq (name_of k) key || is_among ks key

abbrev pub contains : ℕ → Text → Bool
contains u [] = false
contains u (c ∷ s) = c == u || contains u s

abbrev pub is_skipped : Text → Bool
is_skipped key = is_among dangerous_keys key || contains b'$' key || contains b'.' key

-- `sanitized[key] = value`.
abbrev pub put : Members → Text → Json → Members
put no_members k v = member k v no_members
put (member j x o) k v = if text_eq j k then member j v o else member j x (put o k v)

abbrev pub is_container : Json → Bool
is_container null = true
is_container (array xs) = true
is_container (object o) = true
is_container _ = false

abbrev pub assign : Members → Text → Json → Members
assign o k v = if text_eq k (codes "__proto__") && not (is_container v) then o else put o k v

abbrev pub add_member : Members → Text → Json → Members
add_member o key v =
    let safe_key = sanitize_string key in
    if is_skipped key || is_empty safe_key then o else assign o safe_key v

unfoldable mutual
  unfolding sanitize_string

  pub sanitize_object : ℕ → Json → Json
  sanitize_object depth undefined = undefined
  sanitize_object depth null = null
  sanitize_object depth (bool b) = bool b
  sanitize_object depth (number z) = number z
  sanitize_object depth (string s) = string (sanitize_string s)
  sanitize_object depth (array xs) =
      let elements = sanitize_elements max_object_keys (depth + 1) xs in
      if ltb max_object_depth depth then undefined else array elements
  sanitize_object depth (object o) =
      let members = sanitize_members max_object_keys (depth + 1) o no_members in
      if ltb max_object_depth depth then undefined else object members

  pub sanitize_elements : ℕ → ℕ → Elements → Elements
  sanitize_elements zero depth xs = no_elements
  sanitize_elements (suc n) depth no_elements = no_elements
  sanitize_elements (suc n) depth (element v xs) =
      element (sanitize_object depth v) (sanitize_elements n depth xs)

  pub sanitize_members : ℕ → ℕ → Members → Members → Members
  sanitize_members zero depth o sanitized = sanitized
  sanitize_members (suc n) depth no_members sanitized = sanitized
  sanitize_members (suc n) depth (member key v o) sanitized =
      sanitize_members n depth o (add_member sanitized key (sanitize_object depth v))
