-- ===== src/Tests/Records.antt =====
-- Tests of bkvt/records.py.
use beyond_kvtransfer.Base.{◌≡◌, refl, false, none, some, [], ◌∷◌, pos, string_eq}
use beyond_kvtransfer.Base.Dict.{set}
use beyond_kvtransfer.Value.{text, nat}
use beyond_kvtransfer.Validator.{record_errors}
use beyond_kvtransfer.Records.Shapes.{schema_version, TokenRecord}
use beyond_kvtransfer.Records.Fields.{token_fields}
use beyond_kvtransfer.Records.{token, raw_dict, to_dict, strip_none}
use beyond_kvtransfer.Records.Envelope.{to_dict-envelope}

abbrev decoded : TokenRecord
decoded = record {
  ts_ns = pos 7;
  trace_id = "t";
  node_id = "n";
  worker_id = "w";
  subtype = "decode";
  request_id = "r";
  token_idx = pos 0;
  step_id = pos 3;
  seq_id = none;
  num_tokens = pos 1;
  num_prefill_tokens = pos 0;
  kernel_start_ts_ns = none;
  kernel_end_ts_ns = none;
  cuda_event_ts_ns = none;
  blocks_used_local = none;
  blocks_used_remote = none;
  sample_decision = none;
  v = schema_version;
}

-- tests/unit/test_records.py: Nones are omitted
decoded-dict :
    to_dict (token decoded)
    ≡ ("ts_ns", nat 7)
      ∷ ("trace_id", text "t")
      ∷ ("node_id", text "n")
      ∷ ("worker_id", text "w")
      ∷ ("subtype", text "decode")
      ∷ ("request_id", text "r")
      ∷ ("token_idx", nat 0)
      ∷ ("step_id", nat 3)
      ∷ ("num_tokens", nat 1)
      ∷ ("num_prefill_tokens", nat 0)
      ∷ ("v", nat 1)
      ∷ ("type", text "token")
      ∷ []
unfolding to_dict raw_dict token_fields strip_none set
decoded-dict = refl

to_dict-envelope_example : record_errors [] false (to_dict (token decoded)) ≡ some 0
to_dict-envelope_example = to_dict-envelope [] (token decoded) refl
