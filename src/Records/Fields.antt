-- ===== src/Records/Fields.antt =====
-- `dataclasses.asdict` on the dataclasses of bkvt/records.py: the fields in their order, `None` included.
use beyond_kvtransfer.Base.{Option, none, some, List, [], ◌∷◌, ℤ, map}
use beyond_kvtransfer.Value.{Value, Rec, null, int, float, text, obj, arr, members_of, elements_of}
use beyond_kvtransfer.Records.Shapes.{
  Number, whole, real, RequestRecord, TokenRecord, KvBlockRecord, TransferEndpoint, TransferRecord,
  MetadataRecord, WeightBlockRecord, SysCounterRecord,
}

abbrev pub or_null {ℓ} : {A : Type ℓ} → (A → Value) → Option A → Value
or_null f none = null
or_null f (some a) = f a

abbrev pub dict_value : Rec → Value
dict_value d = obj (members_of d)

abbrev pub list_value : List ℤ → Value
list_value xs = arr (elements_of (map int xs))

abbrev pub number_value : Number → Value
number_value (whole n) = int n
number_value (real x) = float x

unfoldable pub endpoint_fields : TransferEndpoint → Rec
endpoint_fields r =
    ("tier", text r.tier)
    ∷ ("node_id", or_null text r.node_id)
    ∷ ("device_id", or_null int r.device_id)
    ∷ []

-- an endpoint inside a record, as `asdict` leaves it
abbrev pub endpoint_dict : TransferEndpoint → Value
endpoint_dict e = obj (members_of (endpoint_fields e))

unfoldable pub request_fields : RequestRecord → Rec
request_fields r =
    ("ts_ns", int r.ts_ns)
    ∷ ("trace_id", text r.trace_id)
    ∷ ("node_id", text r.node_id)
    ∷ ("worker_id", text r.worker_id)
    ∷ ("request_id", text r.request_id)
    ∷ ("subtype", text r.subtype)
    ∷ ("seq_id", or_null text r.seq_id)
    ∷ ("input_len", or_null int r.input_len)
    ∷ ("output_len_so_far", or_null int r.output_len_so_far)
    ∷ ("max_output_len", or_null int r.max_output_len)
    ∷ ("priority", or_null int r.priority)
    ∷ ("arrival_ts_ns", or_null int r.arrival_ts_ns)
    ∷ ("first_schedule_ts_ns", or_null int r.first_schedule_ts_ns)
    ∷ ("first_token_ts_ns", or_null int r.first_token_ts_ns)
    ∷ ("finish_ts_ns", or_null int r.finish_ts_ns)
    ∷ ("ttft_ns", or_null int r.ttft_ns)
    ∷ ("tpot_ns", or_null int r.tpot_ns)
    ∷ ("scheduler_state_snapshot", or_null dict_value r.scheduler_state_snapshot)
    ∷ ("v", int r.v)
    ∷ []

unfoldable pub token_fields : TokenRecord → Rec
token_fields r =
    ("ts_ns", int r.ts_ns)
    ∷ ("trace_id", text r.trace_id)
    ∷ ("node_id", text r.node_id)
    ∷ ("worker_id", text r.worker_id)
    ∷ ("subtype", text r.subtype)
    ∷ ("request_id", text r.request_id)
    ∷ ("token_idx", int r.token_idx)
    ∷ ("step_id", int r.step_id)
    ∷ ("seq_id", or_null text r.seq_id)
    ∷ ("num_tokens", int r.num_tokens)
    ∷ ("num_prefill_tokens", int r.num_prefill_tokens)
    ∷ ("kernel_start_ts_ns", or_null int r.kernel_start_ts_ns)
    ∷ ("kernel_end_ts_ns", or_null int r.kernel_end_ts_ns)
    ∷ ("cuda_event_ts_ns", or_null int r.cuda_event_ts_ns)
    ∷ ("blocks_used_local", or_null int r.blocks_used_local)
    ∷ ("blocks_used_remote", or_null int r.blocks_used_remote)
    ∷ ("sample_decision", or_null float r.sample_decision)
    ∷ ("v", int r.v)
    ∷ []

unfoldable pub kv_block_fields : KvBlockRecord → Rec
kv_block_fields r =
    ("ts_ns", int r.ts_ns)
    ∷ ("trace_id", text r.trace_id)
    ∷ ("node_id", text r.node_id)
    ∷ ("worker_id", text r.worker_id)
    ∷ ("subtype", text r.subtype)
    ∷ ("block_id", int r.block_id)
    ∷ ("block_hash", or_null text r.block_hash)
    ∷ ("layer_idx", or_null int r.layer_idx)
    ∷ ("block_size_tokens", or_null int r.block_size_tokens)
    ∷ ("block_size_bytes", or_null int r.block_size_bytes)
    ∷ ("tier_before", or_null text r.tier_before)
    ∷ ("tier_after", or_null text r.tier_after)
    ∷ ("owner_request_id", or_null text r.owner_request_id)
    ∷ ("refcount_before", or_null int r.refcount_before)
    ∷ ("refcount_after", or_null int r.refcount_after)
    ∷ ("reason", or_null text r.reason)
    ∷ ("age_ns", or_null int r.age_ns)
    ∷ ("reuse_count", or_null int r.reuse_count)
    ∷ ("last_reuse_ts_ns", or_null int r.last_reuse_ts_ns)
    ∷ ("sample_decision", or_null float r.sample_decision)
    ∷ ("v", int r.v)
    ∷ []

unfoldable pub transfer_fields : TransferRecord → Rec
transfer_fields r =
    ("ts_ns", int r.ts_ns)
    ∷ ("trace_id", text r.trace_id)
    ∷ ("node_id", text r.node_id)
    ∷ ("worker_id", text r.worker_id)
    ∷ ("subtype", text r.subtype)
    ∷ ("transfer_id", text r.transfer_id)
    ∷ ("direction", text r.direction)
    ∷ ("payload_kind", text r.payload_kind)
    ∷ ("src", or_null endpoint_dict r.src)
    ∷ ("dst", or_null endpoint_dict r.dst)
    ∷ ("transport", or_null text r.transport)
    ∷ ("request_id", or_null text r.request_id)
    ∷ ("layer_idx", or_null int r.layer_idx)
    ∷ ("param_name", or_null text r.param_name)
    ∷ ("expert_id", or_null int r.expert_id)
    ∷ ("lora_adapter_id", or_null text r.lora_adapter_id)
    ∷ ("weight_version", or_null text r.weight_version)
    ∷ ("num_blocks", or_null int r.num_blocks)
    ∷ ("bytes", or_null int r.bytes)
    ∷ ("block_ids", or_null list_value r.block_ids)
    ∷ ("queued_ts_ns", or_null int r.queued_ts_ns)
    ∷ ("started_ts_ns", or_null int r.started_ts_ns)
    ∷ ("completed_ts_ns", or_null int r.completed_ts_ns)
    ∷ ("queue_wait_ns", or_null int r.queue_wait_ns)
    ∷ ("wire_time_ns", or_null int r.wire_time_ns)
    ∷ ("achieved_bw_gbps", or_null float r.achieved_bw_gbps)
    ∷ ("wr_count", or_null int r.wr_count)
    ∷ ("wr_completion_ts_ns", or_null list_value r.wr_completion_ts_ns)
    ∷ ("issued_by", or_null text r.issued_by)
    ∷ ("issued_at_phase", or_null text r.issued_at_phase)
    ∷ ("earliest_known_ts_ns", or_null int r.earliest_known_ts_ns)
    ∷ ("sample_decision", or_null float r.sample_decision)
    ∷ ("v", int r.v)
    ∷ []

unfoldable pub metadata_fields : MetadataRecord → Rec
metadata_fields r =
    ("ts_ns", int r.ts_ns)
    ∷ ("trace_id", text r.trace_id)
    ∷ ("node_id", text r.node_id)
    ∷ ("worker_id", text r.worker_id)
    ∷ ("subtype", text r.subtype)
    ∷ ("request_id", or_null text r.request_id)
    ∷ ("duration_ns", or_null int r.duration_ns)
    ∷ ("n_keys", or_null int r.n_keys)
    ∷ ("n_hits", or_null int r.n_hits)
    ∷ ("hit_depth_tokens", or_null int r.hit_depth_tokens)
    ∷ ("tier_scope", or_null text r.tier_scope)
    ∷ ("structure", or_null text r.structure)
    ∷ ("size_before", or_null int r.size_before)
    ∷ ("size_after", or_null int r.size_after)
    ∷ ("scheduler_inputs", or_null dict_value r.scheduler_inputs)
    ∷ ("scheduler_outputs", or_null dict_value r.scheduler_outputs)
    ∷ ("t0_unix_ns", or_null int r.t0_unix_ns)
    ∷ ("t0_monotonic_ns", or_null int r.t0_monotonic_ns)
    ∷ ("t0_cuda_event_ns", or_null int r.t0_cuda_event_ns)
    ∷ ("chrony_offset_ns", or_null int r.chrony_offset_ns)
    ∷ ("sample_decision", or_null float r.sample_decision)
    ∷ ("v", int r.v)
    ∷ []

unfoldable pub weight_block_fields : WeightBlockRecord → Rec
weight_block_fields r =
    ("ts_ns", int r.ts_ns)
    ∷ ("trace_id", text r.trace_id)
    ∷ ("node_id", text r.node_id)
    ∷ ("worker_id", text r.worker_id)
    ∷ ("subtype", text r.subtype)
    ∷ ("param_name", text r.param_name)
    ∷ ("shape", or_null list_value r.shape)
    ∷ ("dtype", or_null text r.dtype)
    ∷ ("bytes", or_null int r.bytes)
    ∷ ("layer_idx", or_null int r.layer_idx)
    ∷ ("expert_id", or_null int r.expert_id)
    ∷ ("shard_role", or_null text r.shard_role)
    ∷ ("lora_adapter_id", or_null text r.lora_adapter_id)
    ∷ ("weight_version", or_null text r.weight_version)
    ∷ ("tier_before", or_null text r.tier_before)
    ∷ ("tier_after", or_null text r.tier_after)
    ∷ ("owner_request_id", or_null text r.owner_request_id)
    ∷ ("reason", or_null text r.reason)
    ∷ ("sample_decision", or_null float r.sample_decision)
    ∷ ("v", int r.v)
    ∷ []

unfoldable pub sys_counter_fields : SysCounterRecord → Rec
sys_counter_fields r =
    ("ts_ns", int r.ts_ns)
    ∷ ("trace_id", text r.trace_id)
    ∷ ("node_id", text r.node_id)
    ∷ ("worker_id", text r.worker_id)
    ∷ ("subtype", text r.subtype)
    ∷ ("scope", text r.scope)
    ∷ ("value", number_value r.value)
    ∷ ("unit", text r.unit)
    ∷ ("interval_ns", or_null int r.interval_ns)
    ∷ ("v", int r.v)
    ∷ []
