-- ===== src/Records/Reading/Shapes.antt =====
-- The fields of each kind of record, read from its dict by their names.
use beyond_kvtransfer.Base.{string_eq}
use beyond_kvtransfer.Value.{Rec}
use beyond_kvtransfer.Records.Shapes.{
  RequestRecord, TokenRecord, KvBlockRecord, TransferRecord, MetadataRecord, WeightBlockRecord,
  SysCounterRecord,
}
use beyond_kvtransfer.Records.Reading.Values.{
  int_at, text_at, opt_int_at, opt_text_at, opt_float_at, opt_ints_at, opt_dict_at, number_at,
  opt_endpoint_at,
}

unfoldable pub read_request : Rec → RequestRecord
read_request d = record {
  ts_ns = int_at "ts_ns" d;
  trace_id = text_at "trace_id" d;
  node_id = text_at "node_id" d;
  worker_id = text_at "worker_id" d;
  request_id = text_at "request_id" d;
  subtype = text_at "subtype" d;
  seq_id = opt_text_at "seq_id" d;
  input_len = opt_int_at "input_len" d;
  output_len_so_far = opt_int_at "output_len_so_far" d;
  max_output_len = opt_int_at "max_output_len" d;
  priority = opt_int_at "priority" d;
  arrival_ts_ns = opt_int_at "arrival_ts_ns" d;
  first_schedule_ts_ns = opt_int_at "first_schedule_ts_ns" d;
  first_token_ts_ns = opt_int_at "first_token_ts_ns" d;
  finish_ts_ns = opt_int_at "finish_ts_ns" d;
  ttft_ns = opt_int_at "ttft_ns" d;
  tpot_ns = opt_int_at "tpot_ns" d;
  scheduler_state_snapshot = opt_dict_at "scheduler_state_snapshot" d;
  v = int_at "v" d;
}

unfoldable pub read_token : Rec → TokenRecord
read_token d = record {
  ts_ns = int_at "ts_ns" d;
  trace_id = text_at "trace_id" d;
  node_id = text_at "node_id" d;
  worker_id = text_at "worker_id" d;
  subtype = text_at "subtype" d;
  request_id = text_at "request_id" d;
  token_idx = int_at "token_idx" d;
  step_id = int_at "step_id" d;
  seq_id = opt_text_at "seq_id" d;
  num_tokens = int_at "num_tokens" d;
  num_prefill_tokens = int_at "num_prefill_tokens" d;
  kernel_start_ts_ns = opt_int_at "kernel_start_ts_ns" d;
  kernel_end_ts_ns = opt_int_at "kernel_end_ts_ns" d;
  cuda_event_ts_ns = opt_int_at "cuda_event_ts_ns" d;
  blocks_used_local = opt_int_at "blocks_used_local" d;
  blocks_used_remote = opt_int_at "blocks_used_remote" d;
  sample_decision = opt_float_at "sample_decision" d;
  v = int_at "v" d;
}

unfoldable pub read_kv_block : Rec → KvBlockRecord
read_kv_block d = record {
  ts_ns = int_at "ts_ns" d;
  trace_id = text_at "trace_id" d;
  node_id = text_at "node_id" d;
  worker_id = text_at "worker_id" d;
  subtype = text_at "subtype" d;
  block_id = int_at "block_id" d;
  block_hash = opt_text_at "block_hash" d;
  layer_idx = opt_int_at "layer_idx" d;
  block_size_tokens = opt_int_at "block_size_tokens" d;
  block_size_bytes = opt_int_at "block_size_bytes" d;
  tier_before = opt_text_at "tier_before" d;
  tier_after = opt_text_at "tier_after" d;
  owner_request_id = opt_text_at "owner_request_id" d;
  refcount_before = opt_int_at "refcount_before" d;
  refcount_after = opt_int_at "refcount_after" d;
  reason = opt_text_at "reason" d;
  age_ns = opt_int_at "age_ns" d;
  reuse_count = opt_int_at "reuse_count" d;
  last_reuse_ts_ns = opt_int_at "last_reuse_ts_ns" d;
  sample_decision = opt_float_at "sample_decision" d;
  v = int_at "v" d;
}

unfoldable pub read_weight_block : Rec → WeightBlockRecord
read_weight_block d = record {
  ts_ns = int_at "ts_ns" d;
  trace_id = text_at "trace_id" d;
  node_id = text_at "node_id" d;
  worker_id = text_at "worker_id" d;
  subtype = text_at "subtype" d;
  param_name = text_at "param_name" d;
  shape = opt_ints_at "shape" d;
  dtype = opt_text_at "dtype" d;
  bytes = opt_int_at "bytes" d;
  layer_idx = opt_int_at "layer_idx" d;
  expert_id = opt_int_at "expert_id" d;
  shard_role = opt_text_at "shard_role" d;
  lora_adapter_id = opt_text_at "lora_adapter_id" d;
  weight_version = opt_text_at "weight_version" d;
  tier_before = opt_text_at "tier_before" d;
  tier_after = opt_text_at "tier_after" d;
  owner_request_id = opt_text_at "owner_request_id" d;
  reason = opt_text_at "reason" d;
  sample_decision = opt_float_at "sample_decision" d;
  v = int_at "v" d;
}

unfoldable pub read_transfer : Rec → TransferRecord
read_transfer d = record {
  ts_ns = int_at "ts_ns" d;
  trace_id = text_at "trace_id" d;
  node_id = text_at "node_id" d;
  worker_id = text_at "worker_id" d;
  subtype = text_at "subtype" d;
  transfer_id = text_at "transfer_id" d;
  direction = text_at "direction" d;
  payload_kind = text_at "payload_kind" d;
  src = opt_endpoint_at "src" d;
  dst = opt_endpoint_at "dst" d;
  transport = opt_text_at "transport" d;
  request_id = opt_text_at "request_id" d;
  layer_idx = opt_int_at "layer_idx" d;
  param_name = opt_text_at "param_name" d;
  expert_id = opt_int_at "expert_id" d;
  lora_adapter_id = opt_text_at "lora_adapter_id" d;
  weight_version = opt_text_at "weight_version" d;
  num_blocks = opt_int_at "num_blocks" d;
  bytes = opt_int_at "bytes" d;
  block_ids = opt_ints_at "block_ids" d;
  queued_ts_ns = opt_int_at "queued_ts_ns" d;
  started_ts_ns = opt_int_at "started_ts_ns" d;
  completed_ts_ns = opt_int_at "completed_ts_ns" d;
  queue_wait_ns = opt_int_at "queue_wait_ns" d;
  wire_time_ns = opt_int_at "wire_time_ns" d;
  achieved_bw_gbps = opt_float_at "achieved_bw_gbps" d;
  wr_count = opt_int_at "wr_count" d;
  wr_completion_ts_ns = opt_ints_at "wr_completion_ts_ns" d;
  issued_by = opt_text_at "issued_by" d;
  issued_at_phase = opt_text_at "issued_at_phase" d;
  earliest_known_ts_ns = opt_int_at "earliest_known_ts_ns" d;
  sample_decision = opt_float_at "sample_decision" d;
  v = int_at "v" d;
}

unfoldable pub read_metadata : Rec → MetadataRecord
read_metadata d = record {
  ts_ns = int_at "ts_ns" d;
  trace_id = text_at "trace_id" d;
  node_id = text_at "node_id" d;
  worker_id = text_at "worker_id" d;
  subtype = text_at "subtype" d;
  request_id = opt_text_at "request_id" d;
  duration_ns = opt_int_at "duration_ns" d;
  n_keys = opt_int_at "n_keys" d;
  n_hits = opt_int_at "n_hits" d;
  hit_depth_tokens = opt_int_at "hit_depth_tokens" d;
  tier_scope = opt_text_at "tier_scope" d;
  structure = opt_text_at "structure" d;
  size_before = opt_int_at "size_before" d;
  size_after = opt_int_at "size_after" d;
  scheduler_inputs = opt_dict_at "scheduler_inputs" d;
  scheduler_outputs = opt_dict_at "scheduler_outputs" d;
  t0_unix_ns = opt_int_at "t0_unix_ns" d;
  t0_monotonic_ns = opt_int_at "t0_monotonic_ns" d;
  t0_cuda_event_ns = opt_int_at "t0_cuda_event_ns" d;
  chrony_offset_ns = opt_int_at "chrony_offset_ns" d;
  sample_decision = opt_float_at "sample_decision" d;
  v = int_at "v" d;
}

unfoldable pub read_sys_counter : Rec → SysCounterRecord
read_sys_counter d = record {
  ts_ns = int_at "ts_ns" d;
  trace_id = text_at "trace_id" d;
  node_id = text_at "node_id" d;
  worker_id = text_at "worker_id" d;
  subtype = text_at "subtype" d;
  scope = text_at "scope" d;
  value = number_at "value" d;
  unit = text_at "unit" d;
  interval_ns = opt_int_at "interval_ns" d;
  v = int_at "v" d;
}
