-- ===== src/Tests/Validator.antt =====
-- Tests of scripts/validate_traces.py.
use beyond_kvtransfer.Base.{
  none, string_eq, String, ◌≡◌, refl, ◌↔◌, true, false, some, List, [], ◌∷◌,
}
use beyond_kvtransfer.Value.{Rec, text, nat}
use beyond_kvtransfer.Value.Key.{text_key, key_of, truthy, is_one, key_same}
use beyond_kvtransfer.Validator.{
  Validators, errors_of_type, validate_schema, Line, unparsed, parsed, Tally, validate_lines,
  no_tally, validate_files, transfers, requests, validate_line, track, note, mark, field_or,
  record_errors, missing, exit_code, orphans,
}
use beyond_kvtransfer.Base.Dict.{get, set}
use beyond_kvtransfer.Base.Dict.Distinct.{sum_values}
use beyond_kvtransfer.Base.Dict.{update}
use beyond_kvtransfer.Emitter.State.{stamp}
use beyond_kvtransfer.Emitter.Probe.{
  start_record, start_options, start_defaults, add_text, add_int, add_float, add_tier, add_list,
}
use beyond_kvtransfer.Validator.Stamped.{stamp-accepted}
use beyond_kvtransfer.Tests.Run.{emitter}
use beyond_kvtransfer.Validator.Orphans.{IsPaired, records_of}
use beyond_kvtransfer.Validator.Success.{AllClean, validate_files-succeeds}

abbrev no_schema : Validators
no_schema = ("transfer", (λ r. 0)) ∷ []

abbrev record_of : String → Rec
record_of subtype =
    ("v", nat 1)
    ∷ ("ts_ns", nat 5)
    ∷ ("type", text "transfer")
    ∷ ("node_id", text "n")
    ∷ ("worker_id", text "w")
    ∷ ("trace_id", text "t")
    ∷ ("transfer_id", text "u1")
    ∷ ("subtype", text subtype)
    ∷ []

abbrev paired_lines : List Line
paired_lines = parsed (record_of "end") ∷ parsed (record_of "start") ∷ []

abbrev final : Tally
final = record {
  total_records = 2;
  total_errors = 0;
  transfer_state =
      (text_key "t", (text_key "u1", record { opened = true; closed = true }) ∷ []) ∷ [];
  request_state = [];
}

paired_lines-tally : validate_lines no_schema true paired_lines no_tally ≡ some final
unfolding validate_files validate_lines validate_line track note mark field_or record_errors
    validate_schema errors_of_type missing exit_code orphans key_of truthy is_one key_same get set
    sum_values
paired_lines-tally = refl

-- a start with no end fails the strict run only
unpaired_strict : validate_files no_schema true true (parsed (record_of "start") ∷ []) ≡ some 1
unfolding validate_files validate_lines validate_line track note mark field_or record_errors
    validate_schema errors_of_type missing exit_code orphans key_of truthy is_one key_same get set
    sum_values
unpaired_strict = refl

unpaired_lenient : validate_files no_schema true false (parsed (record_of "start") ∷ []) ≡ some 0
unfolding validate_files validate_lines validate_line track note mark field_or record_errors
    validate_schema errors_of_type missing exit_code orphans key_of truthy is_one key_same get set
    sum_values
unpaired_lenient = refl

bad_line : validate_files no_schema true false (unparsed ∷ []) ≡ some 1
unfolding validate_files validate_lines validate_line track note mark field_or record_errors
    validate_schema errors_of_type missing exit_code orphans key_of truthy is_one key_same get set
    sum_values
bad_line = refl

validate_files-succeeds_example : (validate_files no_schema true true paired_lines ≡ some 0) ↔ (
    AllClean no_schema true paired_lines
    × IsPaired transfers (records_of paired_lines)
    × IsPaired requests (records_of paired_lines))
validate_files-succeeds_example =
    validate_files-succeeds no_schema true paired_lines final paired_lines-tally

abbrev started : Rec
started = start_record "u1" 5 (start_defaults "load") none

started_ts : get "ts_ns" started ≡ some (nat 5)
unfolding start_record start_options start_defaults update add_text add_int add_float add_tier
    add_list get set
started_ts = refl

started_type : get "type" started ≡ some (text "transfer")
unfolding start_record start_options start_defaults update add_text add_int add_float add_tier
    add_list get set
started_type = refl

started_v : get "v" started ≡ none
unfolding start_record start_options start_defaults update add_text add_int add_float add_tier
    add_list get set
started_v = refl

stamp-accepted_example : record_errors [] false (stamp emitter started) ≡ some 0
stamp-accepted_example =
    stamp-accepted [] emitter started (nat 5) (text "transfer") started_ts started_type started_v
