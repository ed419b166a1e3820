-- ===== src/Records/Reading/Values.antt =====
-- The values that a field of a trace record can have, read from its dict; a field that is not there,
-- or of another kind, is `None`.
use beyond_kvtransfer.Base.{String, Option, none, some, List, [], ◌∷◌, ℤ, pos, string_eq}
use beyond_kvtransfer.Base.Dict.{get}
use beyond_kvtransfer.Value.{
  Value, Rec, Float, int, float, text, obj, arr, Members, no_members, member, Elements, no_elements,
  element,
}
use beyond_kvtransfer.Records.Shapes.{Number, whole, real, TransferEndpoint}

abbrev pub as_int : Option Value → Option ℤ
as_int (some (int n)) = some n
as_int o = none

abbrev pub as_text : Option Value → Option String
as_text (some (text s)) = some s
as_text o = none

abbrev pub as_float : Option Value → Option Float
as_float (some (float x)) = some x
as_float o = none

unfoldable pub rec_of : Members → Rec
rec_of no_members = []
rec_of (member k v ms) = (k, v) ∷ rec_of ms

-- the integers among the elements
unfoldable pub ints_of : Elements → List ℤ
ints_of no_elements = []
ints_of (element (int n) es) = n ∷ ints_of es
ints_of (element v es) = ints_of es

abbrev pub as_dict : Option Value → Option Rec
as_dict (some (obj ms)) = some (rec_of ms)
as_dict o = none

abbrev pub as_ints : Option Value → Option (List ℤ)
as_ints (some (arr es)) = some (ints_of es)
as_ints o = none

abbrev pub int_or_zero : Option ℤ → ℤ
int_or_zero none = pos 0
int_or_zero (some n) = n

abbrev pub text_or_empty : Option String → String
text_or_empty none = ""
text_or_empty (some s) = s

abbrev pub as_number : Option Value → Number
as_number (some (float x)) = real x
as_number o = whole (int_or_zero (as_int o))

abbrev pub int_at : String → Rec → ℤ
int_at k d = int_or_zero (as_int (get k d))

abbrev pub text_at : String → Rec → String
text_at k d = text_or_empty (as_text (get k d))

abbrev pub opt_int_at : String → Rec → Option ℤ
opt_int_at k d = as_int (get k d)

abbrev pub opt_text_at : String → Rec → Option String
opt_text_at k d = as_text (get k d)

abbrev pub opt_float_at : String → Rec → Option Float
opt_float_at k d = as_float (get k d)

abbrev pub opt_ints_at : String → Rec → Option (List ℤ)
opt_ints_at k d = as_ints (get k d)

abbrev pub opt_dict_at : String → Rec → Option Rec
opt_dict_at k d = as_dict (get k d)

abbrev pub number_at : String → Rec → Number
number_at k d = as_number (get k d)

unfoldable pub read_endpoint : Rec → TransferEndpoint
read_endpoint d = record {
  tier = text_at "tier" d;
  node_id = opt_text_at "node_id" d;
  device_id = opt_int_at "device_id" d;
}

abbrev pub endpoint_in : Option Rec → Option TransferEndpoint
endpoint_in none = none
endpoint_in (some d) = some (read_endpoint d)

abbrev pub opt_endpoint_at : String → Rec → Option TransferEndpoint
opt_endpoint_at k d = endpoint_in (opt_dict_at k d)
