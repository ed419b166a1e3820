-- ===== src/Records/Roundtrip.antt =====
-- What `to_dict` writes reads back as the record.
mod Serving
mod Moving
use beyond_kvtransfer.Base.{
  Bool, true, false, Option, none, List, [], ◌∷◌, ℤ, map, if◌then◌else◌, ◌==◌, string_eq,
}
use beyond_kvtransfer.Base.Dict.{get-set}
use beyond_kvtransfer.Base.Dict.Distinct.{Distinct, distinct, distinct-Distinct}
use beyond_kvtransfer.Value.{
  Value, Rec, Float, int, float, text, obj, arr, is_null, members_of, elements_of,
}
use beyond_kvtransfer.Records.Shapes.{Number, whole, real, TransferEndpoint}
use beyond_kvtransfer.Records.Fields.{
  or_null, dict_value, list_value, number_value, endpoint_fields, endpoint_dict,
}
use beyond_kvtransfer.Records.{strip_none, set_endpoint, endpoint_to_dict}
use beyond_kvtransfer.Records.Envelope.{present, get-to_dict, get-strip_none, get-set_endpoint}
use beyond_kvtransfer.Records.Reading.Values.{
  as_int, as_text, as_float, as_dict, as_ints, as_number, rec_of, ints_of, int_at, text_at,
  opt_int_at, opt_text_at, opt_float_at, opt_ints_at, opt_dict_at, number_at, opt_endpoint_at,
  read_endpoint, endpoint_in,
}
use beyond_kvtransfer.Records.Reading.Shapes.{
  read_request, read_token, read_kv_block, read_weight_block, read_transfer, read_metadata,
  read_sys_counter,
}
use beyond_kvtransfer.Records.Kept.{
  int_at-kept, opt_int_at-kept, opt_text_at-kept, opt_float_at-kept, opt_ints_at-kept,
  opt_dict_at-kept, number_at-kept, plain, src-lem, dst-lem,
}
