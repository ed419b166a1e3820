-- ===== src/Weights/Model.antt =====
-- `make_load_model_wrapper`, `make_offload_wrapper`, `make_lora_wrapper` and
-- `make_update_weights_wrapper` of bkvt/integrations/weight_probe_common.py. The names that they
-- build from texts, the weight version and the shard role are arguments.
use beyond_kvtransfer.Base.{
  ℕ, String, Bool, true, false, Option, none, some, List, [], ◌∷◌, if◌then◌else◌, string_eq, ℤ,
}
use beyond_kvtransfer.Py.{Obj, nothing, or_obj}
use beyond_kvtransfer.Weights.{
  Call, kwarg, bytes_for, param_name, request_id, TensorInfo, tensor_info,
}
use beyond_kvtransfer.Weights.Probes.{
  payload_of, World, Oracle, Body, WeightArgs, TransferArgs, emit_weight, emit_weight_transfer,
}
use beyond_kvtransfer.Weights.Wrappers.{params_or, total_bytes, emit_each, traced, plain}

unfoldable pub unknown : Option ℤ → TensorInfo
unknown bytes = record { shape = none; dtype = none; bytes = bytes }

-- the arguments with no keyword given
unfoldable pub weight_args :
    ℕ → String → String → TensorInfo → Option ℤ → String → String → String → WeightArgs
weight_args ts subtype name info layer reason before after = record {
  ts_ns = ts;
  subtype = subtype;
  param_name = name;
  info = info;
  layer_idx = layer;
  expert_id = none;
  reason = reason;
  tier_before = before;
  tier_after = after;
  shard_role = none;
  lora_adapter_id = none;
  weight_version = none;
  owner_request_id = none;
}

unfoldable pub transfer_args :
    String → String → Option ℤ → String → String → String → ℕ → TransferArgs
transfer_args direction name bytes src dst transport earliest = record {
  direction = direction;
  param_name = name;
  bytes = bytes;
  src_tier = src;
  dst_tier = dst;
  transport = transport;
  earliest_known_ts_ns = earliest;
  payload_kind = "weight";
  layer_idx = none;
  expert_id = none;
  lora_adapter_id = none;
  weight_version = none;
  request_id = none;
  issued_by = "model_loader";
  backend = none;
}

-- the record and the transfer of one weight
unfoldable pub emit_both : Oracle → ℕ → WeightArgs → TransferArgs → World → World
emit_both o thread weight transfer w =
    emit_weight_transfer o thread transfer (emit_weight o thread weight w)

abbrev first_arg : List Obj → Obj
first_arg [] = nothing
first_arg (v ∷ vs) = v

module _ (o : Oracle) (thread : ℕ) (layer_idx : String → Option ℤ) where
  -- after the load: one record of the whole model under the coarse profile, else one per parameter
  unfoldable pub loaded :
      Bool → String → String → Option String → ℕ → List (String × Obj) → World → World
  unfolding weight_args transfer_args emit_both unknown total_bytes
  loaded true backend transport shard t_start params =
      let total = some (total_bytes params) in
      emit_both o thread
        (weight_args t_start "load" "model" (unknown total) none "startup_load" "OBJECT_STORE"
          "HBM_LOCAL")
        (record (transfer_args "load" "model" total "OBJECT_STORE" "HBM_LOCAL" transport t_start) {
          backend = some backend;
        })
  loaded false backend transport shard t_start params =
      emit_each o thread
        (λ name info.
          record (weight_args t_start "load" name info (layer_idx name) "startup_load"
            "OBJECT_STORE" "HBM_LOCAL") { shard_role = shard })
        (λ name info.
          record (transfer_args "load" name info.bytes "OBJECT_STORE" "HBM_LOCAL" transport
            t_start) { layer_idx = layer_idx name; backend = some backend })
        params

  -- `make_load_model_wrapper`, on a loader `self`
  unfoldable pub load_model : Bool → String → String → Option String → Obj → Call → Body → Body
  unfolding params_or payload_of
  load_model coarse backend transport shard self call original w =
      if w.em.enabled
      then traced o thread (record (payload_of "weight") { reason = some "startup_load" })
          (λ result.
            loaded coarse backend transport shard (o.clock w.ticks)
              (params_or "model" result (result ∷ self ∷ kwarg "model" call ∷ [])))
          original w
      else original w

  -- `make_offload_wrapper`: whether the method's name is that of a promotion is an argument. No
  -- payload context is set.
  unfoldable pub offload : Bool → String → Call → Body → Body
  unfolding weight_args transfer_args emit_both param_name tensor_info
  offload promote method call original w =
      if w.em.enabled
      then (let name = param_name method call in
          let info = tensor_info (or_obj (kwarg "tensor" call) (first_arg call.args)) in
          let t_start = o.clock w.ticks in
          let src = if promote then "DRAM_LOCAL" else "HBM_LOCAL" in
          let dst = if promote then "HBM_LOCAL" else "DRAM_LOCAL" in
          plain
            (emit_both o thread
              (weight_args t_start (if promote then "tier_promote" else "tier_demote") name info
                (layer_idx name) "cpu_offload" src dst)
              (record (transfer_args (if promote then "load" else "save") name info.bytes src dst
                "local_memcpy" t_start) { layer_idx = layer_idx name }))
            original w)
      else original w

  -- `make_lora_wrapper`, for the adapter and its `lora.…` name
  unfoldable pub lora : Bool → String → String → Call → Body → Body
  unfolding weight_args transfer_args emit_both payload_of unknown bytes_for request_id
  lora activate adapter name call original w =
      if w.em.enabled
      then (let bytes = bytes_for call in
          let t_start = o.clock w.ticks in
          let src = if activate then "DRAM_LOCAL" else "HBM_LOCAL" in
          let dst = if activate then "HBM_LOCAL" else "DRAM_LOCAL" in
          traced o thread
            (record (payload_of "weight") {
              lora_adapter_id = some adapter;
              reason = some "lora_swap";
            })
            (λ result.
              emit_both o thread
                (record (weight_args t_start
                  (if activate then "lora_activate" else "lora_deactivate") name (unknown bytes)
                  none "lora_swap" src dst) {
                    lora_adapter_id = some adapter;
                    owner_request_id = request_id call;
                  })
                (record (transfer_args (if activate then "load" else "save") name bytes src dst
                  "local_memcpy" t_start) {
                    lora_adapter_id = some adapter;
                    request_id = request_id call;
                    issued_by = "lora_manager";
                  }))
            original w)
      else original w

  -- `make_update_weights_wrapper`, for a version
  unfoldable pub update_weights : String → Call → Body → Body
  unfolding weight_args transfer_args params_or payload_of
  update_weights version call original w =
      if w.em.enabled
      then (let t_start = o.clock w.ticks in
          traced o thread
            (record (payload_of "weight") {
              weight_version = some version;
              reason = some "rlhf_update";
            })
            (λ result.
              emit_each o thread
                (λ name info.
                  record (weight_args t_start "update_apply" name info (layer_idx name)
                    "rlhf_update" "HBM_PEER_RDMA" "HBM_LOCAL") { weight_version = some version })
                (λ name info.
                  record (transfer_args "load" name info.bytes "HBM_PEER_RDMA" "HBM_LOCAL"
                    "nccl_send_recv" t_start) {
                      layer_idx = layer_idx name;
                      weight_version = some version;
                      issued_by = "weight_update";
                    })
                (params_or "update" (or_obj (kwarg "tensor" call) result)
                  (kwarg "weights" call ∷ first_arg call.args ∷ result ∷ [])))
            original w)
      else original w
