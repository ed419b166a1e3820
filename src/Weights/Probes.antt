-- ===== src/Weights/Probes.antt =====
-- The wrappers of bkvt/integrations/weight_probe_common.py. The call that is wrapped is an argument:
-- what it does to the emitter and to the payload context, and what it returns, none where it raises.
-- The n-th readings of the clock, of uuid4 and of the random generator are given by an oracle.
use beyond_kvtransfer.Base.{
  ℕ, ◌+◌, String, Option, none, some, List, [], ◌∷◌, if◌then◌else◌, ◌==◌, string_eq, ℤ, pos, sub_ℕ,
  map,
}
use beyond_kvtransfer.Value.{Value, Float, text, int, null, nat, arr, elements_of}
use beyond_kvtransfer.Py.{Obj}
use beyond_kvtransfer.Emitter.State.{Emitter, event}
use beyond_kvtransfer.Emitter.Probe.{
  StartArgs, EndArgs, start_defaults, end_defaults, transfer_start, transfer_end,
}
use beyond_kvtransfer.Weights.{TensorInfo}

-- what `payload_context` stores
pub record Payload : Type 0 where
  pub payload_kind : String
  pub param_name : Option String
  pub expert_id : Option ℤ
  pub lora_adapter_id : Option String
  pub weight_version : Option String
  pub reason : Option String

unfoldable pub payload_of : String → Payload
payload_of kind = record {
  payload_kind = kind;
  param_name = none;
  expert_id = none;
  lora_adapter_id = none;
  weight_version = none;
  reason = none;
}

-- a thread: the process-wide emitter, `_TLS.payload`, and how many readings were taken
pub record World : Type 0 where
  pub em : Emitter
  pub payload : Option Payload
  pub ticks : ℕ

pub record Oracle : Type 0 where
  pub clock : ℕ → ℕ
  pub ids : ℕ → String
  pub draws : ℕ → Float

abbrev pub Body : Type 0
Body = World → World × Option Obj

-- `with payload_context(…)` around a call
unfoldable pub payload_context : Payload → Body → Body
payload_context p body w =
    let (w', result) = body (record w { payload = some p }) in
    (record w' { payload = w.payload }, result)

-- `current_payload_context`
unfoldable pub current_payload_context : Option String → World → Option Payload
unfolding payload_of
current_payload_context default_kind w = elim w.payload [
  | some p ↦ some p
  | none ↦ elim default_kind [ none ↦ none | some kind ↦ some (payload_of kind) ]
]

abbrev pub text_or_null : Option String → Value
text_or_null none = null
text_or_null (some s) = text s

abbrev pub int_or_null : Option ℤ → Value
int_or_null none = null
int_or_null (some n) = int n

abbrev pub list_or_null : Option (List ℤ) → Value
list_or_null none = null
list_or_null (some ns) = arr (elements_of (map int ns))

-- the arguments of `_emit_weight`
pub record WeightArgs : Type 0 where
  pub ts_ns : ℕ
  pub subtype : String
  pub param_name : String
  pub info : TensorInfo
  pub layer_idx : Option ℤ
  pub expert_id : Option ℤ
  pub reason : String
  pub tier_before : String
  pub tier_after : String
  pub shard_role : Option String
  pub lora_adapter_id : Option String
  pub weight_version : Option String
  pub owner_request_id : Option String

-- the arguments of `_emit_weight_transfer`
pub record TransferArgs : Type 0 where
  pub direction : String
  pub param_name : String
  pub bytes : Option ℤ
  pub src_tier : String
  pub dst_tier : String
  pub transport : String
  pub earliest_known_ts_ns : ℕ
  pub payload_kind : String
  pub layer_idx : Option ℤ
  pub expert_id : Option ℤ
  pub lora_adapter_id : Option String
  pub weight_version : Option String
  pub request_id : Option String
  pub issued_by : String
  pub backend : Option String

unfoldable pub one_block : String → Option ℤ
one_block kind = if kind == "weight" then some (pos 1) else none

unfoldable pub weight_start : TransferArgs → StartArgs
unfolding start_defaults one_block
weight_start a = record (start_defaults a.direction) {
  payload_kind = a.payload_kind;
  request_id = a.request_id;
  layer_idx = a.layer_idx;
  src_tier = some a.src_tier;
  dst_tier = some a.dst_tier;
  transport = some a.transport;
  num_blocks = one_block a.payload_kind;
  bytes = a.bytes;
  issued_by = some a.issued_by;
  earliest_known_ts_ns = some (pos a.earliest_known_ts_ns);
  extra =
      ("param_name", text a.param_name)
      ∷ ("expert_id", int_or_null a.expert_id)
      ∷ ("lora_adapter_id", text_or_null a.lora_adapter_id)
      ∷ ("weight_version", text_or_null a.weight_version)
      ∷ ("weight_backend", text_or_null a.backend)
      ∷ [];
}

module _ (o : Oracle) (thread : ℕ) where
  -- `_emit_weight`
  unfoldable pub emit_weight : WeightArgs → World → World
  emit_weight a w = record w {
    em =
        event thread
          (("ts_ns", nat a.ts_ns)
            ∷ ("type", text "weight_block")
            ∷ ("subtype", text a.subtype)
            ∷ ("param_name", text a.param_name)
            ∷ ("shape", list_or_null a.info.shape)
            ∷ ("dtype", text_or_null a.info.dtype)
            ∷ ("bytes", int_or_null a.info.bytes)
            ∷ ("layer_idx", int_or_null a.layer_idx)
            ∷ ("expert_id", int_or_null a.expert_id)
            ∷ ("shard_role", text_or_null a.shard_role)
            ∷ ("lora_adapter_id", text_or_null a.lora_adapter_id)
            ∷ ("weight_version", text_or_null a.weight_version)
            ∷ ("tier_before", text a.tier_before)
            ∷ ("tier_after", text a.tier_after)
            ∷ ("owner_request_id", text_or_null a.owner_request_id)
            ∷ ("reason", text a.reason)
            ∷ [])
          w.em;
  }

  -- `_emit_weight_transfer`
  unfoldable pub emit_weight_transfer : TransferArgs → World → World
  emit_weight_transfer a w =
      let n = w.ticks in
      let tid = o.ids n in
      let em = transfer_start thread tid (o.draws n) (o.clock (n + 1)) (weight_start a) w.em in
      let ended : EndArgs = record end_defaults {
        bytes = a.bytes;
        wire_time_ns = some (sub_ℕ (o.clock (n + 2)) (o.clock n));
      } in
      record w { em = transfer_end thread tid (o.clock (n + 3)) ended em; ticks = n + 4 }
