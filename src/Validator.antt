-- ===== src/Validator.antt =====
-- scripts/validate_traces.py over the lines of the trace files, all of them read (`--sample 1`). The
-- number of errors that jsonschema reports for a record is a parameter.
pub mod Tracking
pub mod Orphans
pub mod Success
pub mod Stamped
use beyond_kvtransfer.Base.{
  ℕ, ◌+◌, String, Bool, true, false, Option, none, some, List, [], ◌∷◌, ◌&&◌, ◌||◌, not,
  if◌then◌else◌, string_eq, eqb, leb, is_empty,
}
use beyond_kvtransfer.Base.Dict.{Dict, get, set, has, or_else}
use beyond_kvtransfer.Base.Dict.Distinct.{sum_values}
use beyond_kvtransfer.Value.{Value, Rec, text, is_text}
use beyond_kvtransfer.Value.Key.{Key, text_key, key_of, key_eq, truthy, is_one}

-- a line that is not empty: json.loads failed on it or gave None, or it gave a dict
pub data Line : Type 0 where
  unparsed : Line
  parsed : Rec → Line

-- {"start": …, "end": …} and {"arrival": …, "finish": …}
pub record Flags : Type 0 where
  pub opened : Bool
  pub closed : Bool

abbrev pub no_flags : Flags
no_flags = record { opened = false; closed = false }

-- trace_id to id to flags
abbrev pub Table : Type 0
Table = Dict Key (Dict Key Flags)

-- the names of an id and of the subtypes that open and close it
pub record Lifecycle : Type 0 where
  pub record_type : String
  pub id_field : String
  pub opening : String
  pub closing : String
  pub cancelling : String

abbrev pub transfers : Lifecycle
transfers = record {
  record_type = "transfer";
  id_field = "transfer_id";
  opening = "start";
  closing = "end";
  cancelling = "cancel";
}

abbrev pub requests : Lifecycle
requests = record {
  record_type = "request";
  id_field = "request_id";
  opening = "arrival";
  closing = "finish";
  cancelling = "abort";
}

-- `record.get(k, default)` for a text default
unfoldable pub field_or : String → String → Rec → Value
field_or k default r = or_else (get k r) (text default)

unfoldable pub mark : Lifecycle → Rec → Flags → Flags
unfolding field_or
mark c r f =
    let subtype = some (field_or "subtype" "" r) in
    if is_text c.opening subtype
    then record f { opened = true }
    else if is_text c.closing subtype || is_text c.cancelling subtype
    then record f { closed = true }
    else f

-- `setdefault` of the entry, and the assignment to its flag
unfoldable pub note : Lifecycle → Rec → Key → Key → Table → Table
unfolding mark
note c r trace id table =
    let entries = or_else (get trace table) [] in
    set trace (set id (mark c r (or_else (get id entries) no_flags)) entries) table

-- the tracking of one pairing; none where an id or a trace id cannot be a key
unfoldable pub track : Lifecycle → Rec → Table → Option Table
track c r table =
    if is_text c.record_type (some (field_or "type" "" r))
    then (let id = field_or c.id_field "" r in
        if truthy id
        then elim (key_of (field_or "trace_id" "__unknown__" r)) [
          | none ↦ none
          | some trace ↦ elim (key_of id) [ none ↦ none | some k ↦ some (note c r trace k table) ]
        ]
        else some table)
    else some table

pub record Tally : Type 0 where
  pub total_records : ℕ
  pub total_errors : ℕ
  pub transfer_state : Table
  pub request_state : Table

abbrev pub no_tally : Tally
no_tally = record { total_records = 0; total_errors = 0; transfer_state = []; request_state = [] }

-- the required fields of the envelope that a record lacks
unfoldable pub missing : List String → Rec → ℕ
missing [] r = 0
missing (k ∷ ks) r = (if has k r then 0 else 1) + missing ks r

abbrev pub envelope : List String
envelope = "ts_ns" ∷ "type" ∷ "node_id" ∷ "worker_id" ∷ "trace_id" ∷ []

-- `_validators`: what jsonschema finds wrong with a record of each type
abbrev pub Validators : Type 0
Validators = Dict String (Rec → ℕ)

unfoldable pub errors_of_type : Validators → Rec → Key → ℕ
errors_of_type validators r (text_key rtype) = elim (get rtype validators) [
  | none ↦ 0
  | some errors ↦ errors r
]
errors_of_type validators r k = 0

-- `_validate_schema`; none where the type cannot be a key
unfoldable pub validate_schema : Validators → Rec → Option ℕ
unfolding errors_of_type field_or
validate_schema validators r = elim (key_of (field_or "type" "" r)) [
  | none ↦ none
  | some k ↦ some (errors_of_type validators r k)
]

module _ (validators : Validators) (use_schema : Bool) where
  unfoldable pub record_errors : Rec → Option ℕ
  unfolding missing validate_schema
  record_errors r =
      let own = (if is_one (get "v" r) then 0 else 1) + missing envelope r in
      if use_schema && not (is_empty validators)
      then elim (validate_schema validators r) [ none ↦ none | some n ↦ some (own + n) ]
      else some own

  -- one line of a file
  unfoldable pub validate_line : Line → Tally → Option Tally
  validate_line unparsed t =
      some (record t { total_records = t.total_records + 1; total_errors = t.total_errors + 1 })
  validate_line (parsed r) t = elim (record_errors r) [
    | none ↦ none
    | some errors ↦ elim (track transfers r t.transfer_state) [
      | none ↦ none
      | some ts ↦ elim (track requests r t.request_state) [
        | none ↦ none
        | some rs ↦ some (record {
          total_records = t.total_records + 1;
          total_errors = t.total_errors + errors;
          transfer_state = ts;
          request_state = rs;
        })
      ]
    ]
  ]

  unfoldable pub validate_lines : List Line → Tally → Option Tally
  validate_lines [] t = some t
  validate_lines (line ∷ lines) t = elim (validate_line line t) [
    | none ↦ none
    | some t' ↦ validate_lines lines t'
  ]

abbrev pub orphan_flag : Flags → ℕ
orphan_flag f = if f.opened && not f.closed then 1 else 0

-- the orphan report of one table
unfoldable pub orphans : Table → ℕ
unfolding sum_values
orphans = sum_values (sum_values orphan_flag)

unfoldable pub exit_code : Bool → Tally → ℕ
unfolding orphans
exit_code strict t =
    if eqb t.total_errors 0
    then (if strict && not (eqb (orphans t.transfer_state) 0 && eqb (orphans t.request_state) 0)
        then 1
        else 0)
    else 1

-- `validate_files` over the lines of all files; none where it raises
unfoldable pub validate_files : Validators → Bool → Bool → List Line → Option ℕ
validate_files validators use_schema strict lines =
    elim (validate_lines validators use_schema lines no_tally) [
      | none ↦ none
      | some t ↦ some (exit_code strict t)
    ]
