-- ===== src/Weights/Wrappers.antt =====
-- The wrapped calls of bkvt/integrations/weight_probe_common.py. `layer_idx` is the search of
-- `_layer_idx` for a layer number in a parameter's name, by a regular expression.
use beyond_kvtransfer.Base.{
  ℕ, ◌+◌, String, true, false, Option, none, some, List, [], ◌∷◌, if◌then◌else◌, ◌==◌, string_eq, ℤ,
  pos, sub_ℕ, ◌+ℤ◌, is_empty,
}
use beyond_kvtransfer.Base.Dict.{or_else}
use beyond_kvtransfer.Text.{prefix, codes}
use beyond_kvtransfer.Value.{text}
use beyond_kvtransfer.Py.{Obj, nothing, as_text}
use beyond_kvtransfer.Emitter.Probe.{
  StartArgs, EndArgs, start_defaults, end_defaults, transfer_start, transfer_end,
}
use beyond_kvtransfer.Weights.{
  Call, kwarg, bytes_from, bytes_for, params_from, TensorInfo, tensor_info, or_option,
}
use beyond_kvtransfer.Weights.Probes.{
  Payload, World, Oracle, Body, payload_context, current_payload_context, text_or_null, int_or_null,
  WeightArgs, TransferArgs, one_block, emit_weight, emit_weight_transfer,
}

-- `a or b` of texts that may be None
abbrev or_text : Option String → String → String
or_text none b = b
or_text (some s) b = if s == "" then b else s

-- `payload_kind` of a collective
unfoldable pub collective_kind : Payload → Option String → String
collective_kind ctx default_kind =
    or_text (some ctx.payload_kind) (or_text default_kind "activation")

unfoldable pub collective_start : String → String → Option String → Payload → Call → ℕ → StartArgs
unfolding start_defaults one_block collective_kind
collective_start method transport default_kind ctx call t_start =
    let kind = collective_kind ctx default_kind in
    record (start_defaults "load") {
      payload_kind = kind;
      src_tier =
          some (if prefix (codes "nccl") (codes transport) then "HBM_PEER_RDMA" else "DRAM_REMOTE");
      dst_tier = some "HBM_LOCAL";
      transport = some transport;
      bytes = bytes_for call;
      num_blocks = one_block kind;
      issued_by =
          some (if or_else ctx.reason "" == "rlhf_update" then "weight_update" else "moe_layer");
      issued_at_phase = as_text (kwarg "issued_at_phase" call);
      earliest_known_ts_ns = some (pos t_start);
      extra =
          ("param_name", text_or_null ctx.param_name)
          ∷ ("expert_id", int_or_null ctx.expert_id)
          ∷ ("lora_adapter_id", text_or_null ctx.lora_adapter_id)
          ∷ ("weight_version", text_or_null ctx.weight_version)
          ∷ ("collective_method", text method)
          ∷ [];
    }

unfoldable pub collective_end : String → Call → ℕ → ℕ → Option Obj → EndArgs
unfolding end_defaults
collective_end method call t_start t_end result = record end_defaults {
  bytes = or_option (bytes_for call) (bytes_from (or_else result nothing));
  wire_time_ns = some (sub_ℕ t_end t_start);
  cancelled = elim result [ none ↦ true | some v ↦ false ];
  extra = ("collective_method", text method) ∷ [];
}

-- a parameter with its tensor, from what the call returned or from the objects at hand
unfoldable pub first_params : List Obj → List (String × Obj)
unfolding params_from
first_params [] = []
first_params (obj ∷ objs) =
    let rest = first_params objs in
    let params = params_from obj in if is_empty params then rest else params

unfoldable pub params_or : String → Obj → List Obj → List (String × Obj)
unfolding first_params
params_or name value objs =
    let params = first_params objs in if is_empty params then (name, value) ∷ [] else params

-- the sum of the bytes, where a tensor of unknown size counts 0
unfoldable pub total_bytes : List (String × Obj) → ℤ
unfolding bytes_from
total_bytes [] = pos 0
total_bytes ((name, value) ∷ params) = or_else (bytes_from value) (pos 0) +ℤ total_bytes params

abbrev no_info : Option ℤ → TensorInfo
no_info bytes = record { shape = none; dtype = none; bytes = bytes }

module _ (o : Oracle) (thread : ℕ) where
  -- `make_collective_wrapper`
  unfoldable pub collective : String → String → Option String → Call → Body → Body
  collective method transport default_kind call original w =
      elim (current_payload_context default_kind w) [
        | none ↦ original w
        | some ctx ↦
            if w.em.enabled
            then (let n = w.ticks in
                let tid = o.ids n in
                let em =
                  transfer_start thread tid (o.draws n) (o.clock (n + 1))
                    (collective_start method transport default_kind ctx call (o.clock n)) w.em in
                let (w', result) = original (record w { em = em; ticks = n + 2 }) in
                (
                  record w' {
                    em =
                        transfer_end thread tid (o.clock (w'.ticks + 1))
                          (collective_end method call (o.clock n) (o.clock w'.ticks) result) w'.em;
                    ticks = w'.ticks + 2;
                  },
                  result,
                ))
            else original w
      ]

  -- the emissions for one parameter, by the arguments that its name and tensor give
  unfoldable pub emit_each :
      (String → TensorInfo → WeightArgs)
      → (String → TensorInfo → TransferArgs)
      → List (String × Obj)
      → World
      → World
  unfolding tensor_info
  emit_each weight transfer [] w = w
  emit_each weight transfer ((name, value) ∷ params) w =
      let info = tensor_info value in
      emit_each weight transfer params (
        emit_weight_transfer o thread (transfer name info)
          (emit_weight o thread (weight name info) w))

  -- a call in a payload context, and the emissions after it, none where it raises
  unfoldable pub traced : Payload → (Obj → World → World) → Body → Body
  unfolding payload_context
  traced p after original w =
      let (w', result) = payload_context p original (record w { ticks = w.ticks + 1 }) in
      elim result [ none ↦ (w', none) | some v ↦ (after v w', some v) ]

-- the same without a payload context
unfoldable pub plain : (World → World) → Body → Body
plain after original w =
    let (w', result) = original (record w { ticks = w.ticks + 1 }) in
    elim result [ none ↦ (w', none) | some v ↦ (after w', some v) ]
