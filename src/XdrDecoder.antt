-- ===== src/XdrDecoder.antt =====
-- The decoder of event values: indexer/services/xdr-decoder.service.ts, its values and conversions.
-- A text is the list of its code points, and the keys of a contract's map are ASCII. A Soroban value
-- has no fractions, so that a number is an integer.
pub mod Members
pub mod ProjectEvents
pub mod MemberEvents
pub mod BridgeEvents
pub mod EventTypes
pub mod Printed
pub mod Decode
pub mod JsonSafe
pub mod Numbers
pub mod Parsing
use Prim.Native.Char.{code}
use Prim.Native.String.{String}
use stellar_insured_backend.Prelude.{
  Bool, List, Option, [], false, if◌then◌else◌, leb, ltb, map, none, some, suc, true, zero, ℕ, ◌%◌,
  ◌&&◌, ◌*◌, ◌++◌, ◌+◌, ◌-◌, ◌/◌, ◌==◌, ◌^◌, ◌||◌, ◌∷◌,
}
use stellar_insured_backend.Prelude.Int.{negsuc, pos, ℤ}

abbrev pub Text : Type 0
Text = List ℕ

abbrev pub codes : String → Text
codes String.[] = []
codes (String.◌∷◌ c s) = code c ∷ codes s

abbrev pub text_eq : Text → Text → Bool
text_eq [] [] = true
text_eq [] (d ∷ t) = false
text_eq (c ∷ s) [] = false
text_eq (c ∷ s) (d ∷ t) = c == d && text_eq s t

abbrev pub is_empty : Text → Bool
is_empty [] = true
is_empty (c ∷ s) = false

abbrev pub lower : ℕ → ℕ
lower c = if leb b'A' c && leb c b'Z' then c + 32 else c

-- The values that scValToNative makes: a buffer has its text in base64 and in UTF-8.
mutual
  pub data Value : Type 0 where
    undefined null : Value
    bool : Bool → Value
    number bigint : ℤ → Value
    string address : Text → Value
    buffer : Text → Text → Value
    array : Items → Value
    object : Fields → Value

  pub data Items : Type 0 where
    no_items : Items
    item : Value → Items → Items

  pub data Fields : Type 0 where
    no_fields : Fields
    member : Text → Value → Fields → Fields

-- `n.toString()`: the decimal digits, on fuel that the number itself exceeds by one.
unfoldable pub digits : ℕ → ℕ → Text
digits zero n = []
digits (suc fuel) n =
    let rest = digits fuel (n / 10) in
    if ltb n 10 then (48 + n) ∷ [] else rest ++ ((48 + n % 10) ∷ [])

unfoldable pub int_text : ℤ → Text
unfolding digits
int_text (pos n) = digits (suc n) n
int_text (negsuc n) = b'-' ∷ digits (suc (suc n)) (suc n)

-- `parseInt(s, 10) || 0`: spaces, a sign, and the digits up to the first other character.
abbrev pub is_digit : ℕ → Bool
is_digit c = leb 48 c && leb c 57

unfoldable pub read_digits : ℕ → Text → ℕ
read_digits acc [] = acc
read_digits acc (c ∷ s) =
    let rest = read_digits (acc * 10 + (c - 48)) s in if is_digit c then rest else acc

abbrev pub is_space : ℕ → Bool
is_space c = c == 32 || leb 9 c && leb c 13

abbrev pub skip_spaces : Text → Text
skip_spaces [] = []
skip_spaces (c ∷ s) = if is_space c then skip_spaces s else c ∷ s

abbrev pub negated : ℕ → ℤ
negated zero = pos 0
negated (suc n) = negsuc n

abbrev pub read_signed : Text → ℤ
read_signed [] = pos 0
read_signed (c ∷ s) =
    if c == b'-'
    then negated (read_digits 0 s)
    else if c == b'+'
    then pos (read_digits 0 s)
    else pos (read_digits 0 (c ∷ s))

unfoldable pub parse_int : Text → ℤ
unfolding read_digits
parse_int s = read_signed (skip_spaces s)

-- `String(value)` and the join of an array, in which null and undefined are empty.
unfoldable mutual
  unfolding int_text

  pub text_of : Value → Text
  text_of undefined = codes "undefined"
  text_of null = codes "null"
  text_of (bool true) = codes "true"
  text_of (bool false) = codes "false"
  text_of (number z) = int_text z
  text_of (bigint z) = int_text z
  text_of (string s) = s
  text_of (address s) = s
  text_of (buffer base64 utf8) = utf8
  text_of (array xs) = join xs
  text_of (object o) = codes "[object Object]"

  pub join : Items → Text
  join no_items = []
  join (item undefined xs) = join_more xs
  join (item null xs) = join_more xs
  join (item v xs) = text_of v ++ join_more xs

  pub join_more : Items → Text
  join_more no_items = []
  join_more (item undefined xs) = b',' ∷ join_more xs
  join_more (item null xs) = b',' ∷ join_more xs
  join_more (item v xs) = b',' ∷ (text_of v ++ join_more xs)

-- `asObject`: the own members of an object. No decoder reads a member that an array or another
-- built-in object has.
abbrev pub as_object : Value → Fields
as_object (object o) = o
as_object _ = no_fields

abbrev pub exact : Fields → Text → Value
exact no_fields k = undefined
exact (member j v o) k = if text_eq j k then v else exact o k

abbrev pub key_like : Fields → Text → Option Text
key_like no_fields k = none
key_like (member j v o) k = if text_eq (map lower j) (map lower k) then some j else key_like o k

abbrev pub by_other_case : Fields → Text → Value
by_other_case o k = elim (key_like o k) [
  | none ↦ undefined
  | some alt ↦ if is_empty alt then undefined else exact o alt
]

unfoldable pub field : Fields → Text → Value
field o k = elim (exact o k) [ undefined ↦ by_other_case o k | v ↦ v ]

-- `a ?? b`.
abbrev pub or_else : Value → Value → Value
or_else undefined b = b
or_else null b = b
or_else a b = a

unfoldable pub str : Value → Text
unfolding int_text text_of
str undefined = []
str null = []
str (string s) = s
str (bigint z) = int_text z
str (number z) = int_text z
str (address s) = s
str (buffer base64 utf8) = base64
str v = text_of v

-- `Number(z)`: the nearest double, of 53 significant bits, of two the one whose last bit is 0. The
-- fuel is above the exponents of a value of 256 bits.
unfoldable pub spacing : ℕ → ℕ → ℕ → ℕ
spacing zero step n = step
spacing (suc fuel) step n =
    let rest = spacing fuel (step * 2) n in if ltb n (2 ^ 53 * step) then step else rest

unfoldable pub nearest : ℕ → ℕ → ℕ
nearest step n =
    let q = n / step in
    let r = n % step in
    if ltb (r * 2) step
    then q * step
    else if ltb step (r * 2)
    then (q + 1) * step
    else (q + q % 2) * step

unfoldable pub to_double : ℤ → ℤ
unfolding spacing nearest
to_double (pos n) = pos (nearest (spacing 256 1 n) n)
to_double (negsuc n) = negated (nearest (spacing 256 1 (suc n)) (suc n))

unfoldable pub num : Value → ℤ
unfolding parse_int to_double
num (bigint z) = to_double z
num (number z) = z
num (string s) = to_double (parse_int s)
num _ = pos 0

unfoldable pub big_str : Value → Text
unfolding int_text
big_str (bigint z) = int_text z
big_str (number z) = int_text z
big_str (string s) = s
big_str _ = codes "0"

abbrev pub is_zero : ℤ → Bool
is_zero (pos zero) = true
is_zero _ = false
