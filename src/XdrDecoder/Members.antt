-- ===== src/XdrDecoder/Members.antt =====
-- The members of a decoded event: indexer/services/xdr-decoder.service.ts.
use Prim.Native.String.{String}
use stellar_insured_backend.Prelude.{List}
use stellar_insured_backend.XdrDecoder.{
  Fields, Text, Value, big_str, codes, field, num, number, or_else, str, string,
}

-- A decoded event, as its members in order, and a decoder of the members of the native value.
abbrev pub Record : Type 0
Record = List (Text × Value)

abbrev pub Decoder : Type 0
Decoder = Fields → Record

abbrev pub get : Fields → String → Value
get o k = field o (codes k)

unfoldable pub number_member : String → Value → Text × Value
unfolding num
number_member k v = (codes k, number (num v))

unfoldable pub string_member : String → Value → Text × Value
unfolding str
string_member k v = (codes k, string (str v))

unfoldable pub amount_member : String → Value → Text × Value
unfolding big_str
amount_member k v = (codes k, string (big_str v))

-- `projectId: this.num(this.field(o, 'project_id') ?? this.field(o, 'id'))`.
abbrev pub project_id : Fields → Text × Value
project_id o = number_member "projectId" (or_else (get o "project_id") (get o "id"))
