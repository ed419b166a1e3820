-- ===== src/Records/Reading.antt =====
-- A reader of the dicts that the records of bkvt/records.py are written as. The field names stand here
-- once more, as a specification of `to_dict`; a field that is not there is `None`.
pub mod Values
pub mod Shapes
use beyond_kvtransfer.Base.{
  String, Bool, true, false, Option, none, some, List, [], ◌∷◌, ℤ, pos, if◌then◌else◌, ◌==◌,
  string_eq,
}
use beyond_kvtransfer.Base.Dict.{get}
use beyond_kvtransfer.Value.{
  Value, Rec, Float, null, int, float, text, obj, bool, arr, Members, no_members, member, Elements,
  no_elements, element,
}
use beyond_kvtransfer.Records.Shapes.{
  Number, whole, real, RequestRecord, TokenRecord, KvBlockRecord, TransferEndpoint, TransferRecord,
  MetadataRecord, WeightBlockRecord, SysCounterRecord,
}
use beyond_kvtransfer.Records.{
  AnyRecord, request, token, kv_block, weight_block, transfer, metadata, sys_counter,
}
use beyond_kvtransfer.Records.Reading.Values.{
  as_int, as_text, as_float, as_dict, as_ints, as_number, rec_of, ints_of, int_at, text_at,
  opt_int_at, opt_text_at, opt_float_at, opt_ints_at, opt_dict_at, number_at, opt_endpoint_at,
  read_endpoint, endpoint_in,
}
use beyond_kvtransfer.Records.Reading.Shapes.{
  read_request, read_token, read_kv_block, read_weight_block, read_transfer, read_metadata,
  read_sys_counter,
}

-- a record of the kind that its `type` names, by the names of the fields
unfoldable pub read_as : String → Rec → Option AnyRecord
read_as kind d =
    if kind == "request"
    then some (request (read_request d))
    else if kind == "token"
    then some (token (read_token d))
    else if kind == "kv_block"
    then some (kv_block (read_kv_block d))
    else if kind == "weight_block"
    then some (weight_block (read_weight_block d))
    else if kind == "transfer"
    then some (transfer (read_transfer d))
    else if kind == "metadata"
    then some (metadata (read_metadata d))
    else if kind == "sys_counter"
    then some (sys_counter (read_sys_counter d))
    else none

unfoldable pub read : Rec → Option AnyRecord
unfolding read_as
read d = read_as (text_at "type" d) d
