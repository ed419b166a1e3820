-- ===== src/Records.antt =====
-- `to_dict` of the records of bkvt/records.py.
pub mod Shapes
pub mod Fields
pub mod Envelope
pub mod Reading
pub mod Kept
pub mod Roundtrip
use beyond_kvtransfer.Base.{String, Option, none, some, List, [], ◌∷◌, ℤ, if◌then◌else◌, string_eq}
use beyond_kvtransfer.Base.Dict.{Dict, set}
use beyond_kvtransfer.Value.{Value, Rec, text, obj, members_of, is_null}
use beyond_kvtransfer.Records.Shapes.{
  RequestRecord, TokenRecord, KvBlockRecord, TransferEndpoint, TransferRecord, MetadataRecord,
  WeightBlockRecord, SysCounterRecord,
}
use beyond_kvtransfer.Records.Fields.{
  request_fields, token_fields, kv_block_fields, endpoint_fields, transfer_fields, metadata_fields,
  weight_block_fields, sys_counter_fields,
}

-- `_strip_none`
unfoldable pub strip_none : Rec → Rec
strip_none [] = []
strip_none ((k, v) ∷ d) = let rest = strip_none d in if is_null v then rest else (k, v) ∷ rest

-- `TransferEndpoint.to_dict`
unfoldable pub endpoint_to_dict : TransferEndpoint → Rec
unfolding strip_none endpoint_fields
endpoint_to_dict e = strip_none (endpoint_fields e)

-- `if self.src is not None: d["src"] = self.src.to_dict()`
unfoldable pub set_endpoint : String → Option TransferEndpoint → Rec → Rec
set_endpoint k none d = d
set_endpoint k (some e) d = set k (obj (members_of (endpoint_to_dict e))) d

pub data AnyRecord : Type 0 where
  request : RequestRecord → AnyRecord
  token : TokenRecord → AnyRecord
  kv_block : KvBlockRecord → AnyRecord
  weight_block : WeightBlockRecord → AnyRecord
  transfer : TransferRecord → AnyRecord
  metadata : MetadataRecord → AnyRecord
  sys_counter : SysCounterRecord → AnyRecord

-- the version field
abbrev pub version : AnyRecord → ℤ
version (request r) = r.v
version (token r) = r.v
version (kv_block r) = r.v
version (weight_block r) = r.v
version (transfer r) = r.v
version (metadata r) = r.v
version (sys_counter r) = r.v

-- the dict that each `to_dict` builds, before it strips the `None`s
unfoldable pub raw_dict : AnyRecord → Rec
raw_dict (request r) = set "type" (text "request") (request_fields r)
raw_dict (token r) = set "type" (text "token") (token_fields r)
raw_dict (kv_block r) = set "type" (text "kv_block") (kv_block_fields r)
raw_dict (weight_block r) = set "type" (text "weight_block") (weight_block_fields r)
raw_dict (transfer r) =
    set_endpoint "dst" r.dst
      (set_endpoint "src" r.src (set "type" (text "transfer") (transfer_fields r)))
raw_dict (metadata r) = set "type" (text "metadata") (metadata_fields r)
raw_dict (sys_counter r) = set "type" (text "sys_counter") (sys_counter_fields r)

unfoldable pub to_dict : AnyRecord → Rec
to_dict r = strip_none (raw_dict r)
