-- ===== src/Response.antt =====
-- The body of an answer: common/interceptors/response.interceptor.ts, with common/utils/
-- serialization.util.ts and json-replacer.util.ts. No result stands for an error that is thrown. An
-- object of a body is a plain one with distinct keys and no toString of its own; what the headers and
-- the trace are given is left out.
pub mod Plain
pub mod Marker
use mathlib.Core.Option
use stellar_insured_backend.Prelude.{
  Bool, Option, false, if◌then◌else◌, ltb, none, some, true, ℕ, ◌&&◌, ◌+◌,
}
use stellar_insured_backend.Prelude.Int.{ℤ}
use stellar_insured_backend.XdrDecoder.{Text, codes, int_text, text_eq}

-- A Decimal has its text, and a Date its ISO text, or none where it is invalid.
mutual
  pub data Body : Type 0 where
    undefined null : Body
    bool : Bool → Body
    number bigint : ℤ → Body
    decimal string : Text → Body
    date : Option Text → Body
    array : Bodies → Body
    object : Properties → Body

  pub data Bodies : Type 0 where
    no_bodies : Bodies
    body : Body → Bodies → Bodies

  pub data Properties : Type 0 where
    no_properties : Properties
    property : Text → Body → Properties → Properties

abbrev pub both : {A B C : Type 0} → (A → B → C) → Option A → Option B → Option C
both f none y = none
both f (some a) y = Option.map (f a) y

-- SerializationTransformer.transform.
unfoldable mutual
  unfolding int_text

  pub transform : Body → Option Body
  transform undefined = some undefined
  transform null = some null
  transform (bool b) = some (bool b)
  transform (number z) = some (number z)
  transform (bigint z) = some (string (int_text z))
  transform (decimal s) = some (string s)
  transform (string s) = some (string s)
  transform (date d) = Option.map string d
  transform (array xs) = Option.map array (transform_array xs)
  transform (object o) = Option.map object (transform_object o)

  pub transform_array : Bodies → Option Bodies
  transform_array no_bodies = some no_bodies
  transform_array (body v xs) = both body (transform v) (transform_array xs)

  pub transform_object : Properties → Option Properties
  transform_object no_properties = some no_properties
  transform_object (property key v o) = both (property key) (transform v) (transform_object o)

-- The value for which jsonReplacer changes nothing is gone through by safeSerialize.
unfoldable mutual
  unfolding int_text

  pub safe_serialize : Body → Option Body
  safe_serialize undefined = some undefined
  safe_serialize null = some null
  safe_serialize (bool b) = some (bool b)
  safe_serialize (number z) = some (number z)
  safe_serialize (bigint z) = some (string (int_text z))
  safe_serialize (decimal s) = some (string s)
  safe_serialize (string s) = some (string s)
  safe_serialize (date d) = Option.map string d
  safe_serialize (array xs) = Option.map array (safe_serialize_array xs)
  safe_serialize (object o) = elim (safe_serialize_object o) [
    | none ↦ some (string (codes "[object Object]"))
    | some result ↦ some (object result)
  ]

  pub safe_serialize_array : Bodies → Option Bodies
  safe_serialize_array no_bodies = some no_bodies
  safe_serialize_array (body v xs) = both body (safe_serialize v) (safe_serialize_array xs)

  pub safe_serialize_object : Properties → Option Properties
  safe_serialize_object no_properties = some no_properties
  safe_serialize_object (property key v o) =
      both (property key) (safe_serialize v) (safe_serialize_object o)

abbrev pub is_marker : Text → Bool
is_marker key = text_eq key (codes "deletedAt")

-- stripSoftDeleteMetadata.
unfoldable mutual
  pub strip : ℕ → Body → Body
  strip depth (array xs) =
      let values = strip_array (depth + 1) xs in if ltb 10 depth then array xs else array values
  strip depth (object o) =
      let result = strip_object (depth + 1) o in if ltb 10 depth then object o else object result
  strip depth v = v

  pub strip_array : ℕ → Bodies → Bodies
  strip_array depth no_bodies = no_bodies
  strip_array depth (body v xs) = body (strip depth v) (strip_array depth xs)

  pub strip_object : ℕ → Properties → Properties
  strip_object depth no_properties = no_properties
  strip_object depth (property key v o) =
      let rest = strip_object depth o in
      if is_marker key then rest else property key (strip depth v) rest

unfoldable pub serialize_special_types : Body → Option Body
serialize_special_types v = elim (transform v) [ none ↦ safe_serialize v | some r ↦ some r ]

abbrev pub read : Properties → Text → Option Body
read no_properties key = none
read (property j v o) key = if text_eq j key then some v else read o key

abbrev pub is_bool : Option Body → Bool
is_bool (some (bool b)) = true
is_bool _ = false

abbrev pub is_given : Option Body → Bool
is_given none = false
is_given (some v) = true

abbrev pub or_undefined : Option Body → Body
or_undefined none = undefined
or_undefined (some v) = v

-- The answers that have their form already, and those with a page of data.
abbrev pub is_formed : Body → Bool
is_formed (object o) = is_bool (read o (codes "success"))
is_formed _ = false

abbrev pub is_page : Body → Bool
is_page (object o) = is_given (read o (codes "data")) && is_given (read o (codes "meta"))
is_page _ = false

abbrev pub part : Body → Text → Body
part (object o) key = or_undefined (read o key)
part _ key = undefined

abbrev pub success_of : Body → Body
success_of v =
    object (property (codes "success") (bool true) (property (codes "data") v no_properties))

abbrev pub page_of : Body → Body → Body
page_of meta v = object (
    property (codes "success") (bool true)
      (property (codes "data") v (property (codes "meta") meta no_properties)))

unfoldable pub format_tried : Body → Option Body
unfolding serialize_special_types strip
format_tried v =
    if is_formed v
    then some v
    else if is_page v
    then Option.map (page_of (part v (codes "meta")))
        (serialize_special_types (strip 0 (part v (codes "data"))))
    else Option.map success_of (serialize_special_types (strip 0 v))

unfoldable pub format_response : Body → Option Body
unfolding safe_serialize format_tried
format_response v = elim (format_tried v) [
  | none ↦ Option.map success_of (safe_serialize v)
  | some r ↦ some r
]
