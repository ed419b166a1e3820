-- ===== src/Records/Roundtrip/Moving.antt =====
-- The records of weights, transfers and metadata read back from their dicts.
use beyond_kvtransfer.Base.{◌≡◌, ◌∙◌, refl, String, false, some, ◌==◌, string_eq}
use beyond_kvtransfer.Base.Dict.{get, set}
use beyond_kvtransfer.Value.{Value}
use beyond_kvtransfer.Records.Shapes.{TransferRecord, MetadataRecord, WeightBlockRecord}
use beyond_kvtransfer.Records.Fields.{transfer_fields, metadata_fields, weight_block_fields}
use beyond_kvtransfer.Records.{weight_block, transfer, metadata, raw_dict, to_dict}
use beyond_kvtransfer.Records.Reading.Shapes.{read_weight_block, read_transfer, read_metadata}
use beyond_kvtransfer.Records.Kept.{
  int_at-kept, text_at-kept, opt_int_at-kept, opt_text_at-kept, opt_float_at-kept, opt_ints_at-kept,
  opt_dict_at-kept, elsewhere, plain, src-lem, dst-lem,
}

pub read_weight_block_lem :
    (r : WeightBlockRecord) → read_weight_block (to_dict (weight_block r)) ≡ r
unfolding raw_dict weight_block_fields get set read_weight_block
read_weight_block_lem r = λ i. record {
  ts_ns = int_at-kept (weight_block r) "ts_ns" r.ts_ns refl i;
  trace_id = text_at-kept (weight_block r) "trace_id" r.trace_id refl i;
  node_id = text_at-kept (weight_block r) "node_id" r.node_id refl i;
  worker_id = text_at-kept (weight_block r) "worker_id" r.worker_id refl i;
  subtype = text_at-kept (weight_block r) "subtype" r.subtype refl i;
  param_name = text_at-kept (weight_block r) "param_name" r.param_name refl i;
  shape = opt_ints_at-kept (weight_block r) "shape" r.shape refl i;
  dtype = opt_text_at-kept (weight_block r) "dtype" r.dtype refl i;
  bytes = opt_int_at-kept (weight_block r) "bytes" r.bytes refl i;
  layer_idx = opt_int_at-kept (weight_block r) "layer_idx" r.layer_idx refl i;
  expert_id = opt_int_at-kept (weight_block r) "expert_id" r.expert_id refl i;
  shard_role = opt_text_at-kept (weight_block r) "shard_role" r.shard_role refl i;
  lora_adapter_id = opt_text_at-kept (weight_block r) "lora_adapter_id" r.lora_adapter_id refl i;
  weight_version = opt_text_at-kept (weight_block r) "weight_version" r.weight_version refl i;
  tier_before = opt_text_at-kept (weight_block r) "tier_before" r.tier_before refl i;
  tier_after = opt_text_at-kept (weight_block r) "tier_after" r.tier_after refl i;
  owner_request_id = opt_text_at-kept (weight_block r) "owner_request_id" r.owner_request_id refl i;
  reason = opt_text_at-kept (weight_block r) "reason" r.reason refl i;
  sample_decision = opt_float_at-kept (weight_block r) "sample_decision" r.sample_decision refl i;
  v = int_at-kept (weight_block r) "v" r.v refl i;
}

pub read_transfer_lem : (r : TransferRecord) → read_transfer (to_dict (transfer r)) ≡ r
unfolding read_transfer transfer_fields get set
read_transfer_lem r = λ i. record {
  ts_ns = int_at-kept (transfer r) "ts_ns" r.ts_ns (at "ts_ns" refl refl refl) i;
  trace_id = text_at-kept (transfer r) "trace_id" r.trace_id (at "trace_id" refl refl refl) i;
  node_id = text_at-kept (transfer r) "node_id" r.node_id (at "node_id" refl refl refl) i;
  worker_id = text_at-kept (transfer r) "worker_id" r.worker_id (at "worker_id" refl refl refl) i;
  subtype = text_at-kept (transfer r) "subtype" r.subtype (at "subtype" refl refl refl) i;
  transfer_id =
      text_at-kept (transfer r) "transfer_id" r.transfer_id (at "transfer_id" refl refl refl) i;
  direction = text_at-kept (transfer r) "direction" r.direction (at "direction" refl refl refl) i;
  payload_kind =
      text_at-kept (transfer r) "payload_kind" r.payload_kind (at "payload_kind" refl refl refl) i;
  src = src-lem r i;
  dst = dst-lem r i;
  transport =
      opt_text_at-kept (transfer r) "transport" r.transport (at "transport" refl refl refl) i;
  request_id =
      opt_text_at-kept (transfer r) "request_id" r.request_id (at "request_id" refl refl refl) i;
  layer_idx =
      opt_int_at-kept (transfer r) "layer_idx" r.layer_idx (at "layer_idx" refl refl refl) i;
  param_name =
      opt_text_at-kept (transfer r) "param_name" r.param_name (at "param_name" refl refl refl) i;
  expert_id =
      opt_int_at-kept (transfer r) "expert_id" r.expert_id (at "expert_id" refl refl refl) i;
  lora_adapter_id =
      opt_text_at-kept (transfer r) "lora_adapter_id" r.lora_adapter_id
        (at "lora_adapter_id" refl refl refl) i;
  weight_version =
      opt_text_at-kept (transfer r) "weight_version" r.weight_version
        (at "weight_version" refl refl refl) i;
  num_blocks =
      opt_int_at-kept (transfer r) "num_blocks" r.num_blocks (at "num_blocks" refl refl refl) i;
  bytes = opt_int_at-kept (transfer r) "bytes" r.bytes (at "bytes" refl refl refl) i;
  block_ids =
      opt_ints_at-kept (transfer r) "block_ids" r.block_ids (at "block_ids" refl refl refl) i;
  queued_ts_ns =
      opt_int_at-kept (transfer r) "queued_ts_ns" r.queued_ts_ns (at "queued_ts_ns" refl refl refl)
        i;
  started_ts_ns =
      opt_int_at-kept (transfer r) "started_ts_ns" r.started_ts_ns
        (at "started_ts_ns" refl refl refl) i;
  completed_ts_ns =
      opt_int_at-kept (transfer r) "completed_ts_ns" r.completed_ts_ns
        (at "completed_ts_ns" refl refl refl) i;
  queue_wait_ns =
      opt_int_at-kept (transfer r) "queue_wait_ns" r.queue_wait_ns
        (at "queue_wait_ns" refl refl refl) i;
  wire_time_ns =
      opt_int_at-kept (transfer r) "wire_time_ns" r.wire_time_ns (at "wire_time_ns" refl refl refl)
        i;
  achieved_bw_gbps =
      opt_float_at-kept (transfer r) "achieved_bw_gbps" r.achieved_bw_gbps
        (at "achieved_bw_gbps" refl refl refl) i;
  wr_count = opt_int_at-kept (transfer r) "wr_count" r.wr_count (at "wr_count" refl refl refl) i;
  wr_completion_ts_ns =
      opt_ints_at-kept (transfer r) "wr_completion_ts_ns" r.wr_completion_ts_ns
        (at "wr_completion_ts_ns" refl refl refl) i;
  issued_by =
      opt_text_at-kept (transfer r) "issued_by" r.issued_by (at "issued_by" refl refl refl) i;
  issued_at_phase =
      opt_text_at-kept (transfer r) "issued_at_phase" r.issued_at_phase
        (at "issued_at_phase" refl refl refl) i;
  earliest_known_ts_ns =
      opt_int_at-kept (transfer r) "earliest_known_ts_ns" r.earliest_known_ts_ns
        (at "earliest_known_ts_ns" refl refl refl) i;
  sample_decision =
      opt_float_at-kept (transfer r) "sample_decision" r.sample_decision
        (at "sample_decision" refl refl refl) i;
  v = int_at-kept (transfer r) "v" r.v (at "v" refl refl refl) i;
}
  where
    at :
        (k : String) {v : Value}
        → "src" == k ≡ false
        → "dst" == k ≡ false
        → get k (plain r) ≡ some v
        → get k (raw_dict (transfer r)) ≡ some v
    at k s d h = elsewhere k r s d ∙ h

pub read_metadata_lem : (r : MetadataRecord) → read_metadata (to_dict (metadata r)) ≡ r
unfolding raw_dict metadata_fields get set read_metadata
read_metadata_lem r = λ i. record {
  ts_ns = int_at-kept (metadata r) "ts_ns" r.ts_ns refl i;
  trace_id = text_at-kept (metadata r) "trace_id" r.trace_id refl i;
  node_id = text_at-kept (metadata r) "node_id" r.node_id refl i;
  worker_id = text_at-kept (metadata r) "worker_id" r.worker_id refl i;
  subtype = text_at-kept (metadata r) "subtype" r.subtype refl i;
  request_id = opt_text_at-kept (metadata r) "request_id" r.request_id refl i;
  duration_ns = opt_int_at-kept (metadata r) "duration_ns" r.duration_ns refl i;
  n_keys = opt_int_at-kept (metadata r) "n_keys" r.n_keys refl i;
  n_hits = opt_int_at-kept (metadata r) "n_hits" r.n_hits refl i;
  hit_depth_tokens = opt_int_at-kept (metadata r) "hit_depth_tokens" r.hit_depth_tokens refl i;
  tier_scope = opt_text_at-kept (metadata r) "tier_scope" r.tier_scope refl i;
  structure = opt_text_at-kept (metadata r) "structure" r.structure refl i;
  size_before = opt_int_at-kept (metadata r) "size_before" r.size_before refl i;
  size_after = opt_int_at-kept (metadata r) "size_after" r.size_after refl i;
  scheduler_inputs = opt_dict_at-kept (metadata r) "scheduler_inputs" r.scheduler_inputs refl i;
  scheduler_outputs = opt_dict_at-kept (metadata r) "scheduler_outputs" r.scheduler_outputs refl i;
  t0_unix_ns = opt_int_at-kept (metadata r) "t0_unix_ns" r.t0_unix_ns refl i;
  t0_monotonic_ns = opt_int_at-kept (metadata r) "t0_monotonic_ns" r.t0_monotonic_ns refl i;
  t0_cuda_event_ns = opt_int_at-kept (metadata r) "t0_cuda_event_ns" r.t0_cuda_event_ns refl i;
  chrony_offset_ns = opt_int_at-kept (metadata r) "chrony_offset_ns" r.chrony_offset_ns refl i;
  sample_decision = opt_float_at-kept (metadata r) "sample_decision" r.sample_decision refl i;
  v = int_at-kept (metadata r) "v" r.v refl i;
}
