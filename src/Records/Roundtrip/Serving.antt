-- ===== src/Records/Roundtrip/Serving.antt =====
-- The records of requests, tokens, blocks and counters read back from their dicts.
use beyond_kvtransfer.Base.{◌≡◌, refl, string_eq}
use beyond_kvtransfer.Base.Dict.{get, set}
use beyond_kvtransfer.Records.Shapes.{RequestRecord, TokenRecord, KvBlockRecord, SysCounterRecord}
use beyond_kvtransfer.Records.Fields.{
  request_fields, token_fields, kv_block_fields, sys_counter_fields,
}
use beyond_kvtransfer.Records.{request, token, kv_block, sys_counter, raw_dict, to_dict}
use beyond_kvtransfer.Records.Reading.Shapes.{
  read_request, read_token, read_kv_block, read_sys_counter,
}
use beyond_kvtransfer.Records.Kept.{
  int_at-kept, text_at-kept, opt_int_at-kept, opt_text_at-kept, opt_float_at-kept, opt_dict_at-kept,
  number_at-kept,
}

pub read_request_lem : (r : RequestRecord) → read_request (to_dict (request r)) ≡ r
unfolding raw_dict request_fields get set read_request
read_request_lem r = λ i. record {
  ts_ns = int_at-kept (request r) "ts_ns" r.ts_ns refl i;
  trace_id = text_at-kept (request r) "trace_id" r.trace_id refl i;
  node_id = text_at-kept (request r) "node_id" r.node_id refl i;
  worker_id = text_at-kept (request r) "worker_id" r.worker_id refl i;
  request_id = text_at-kept (request r) "request_id" r.request_id refl i;
  subtype = text_at-kept (request r) "subtype" r.subtype refl i;
  seq_id = opt_text_at-kept (request r) "seq_id" r.seq_id refl i;
  input_len = opt_int_at-kept (request r) "input_len" r.input_len refl i;
  output_len_so_far = opt_int_at-kept (request r) "output_len_so_far" r.output_len_so_far refl i;
  max_output_len = opt_int_at-kept (request r) "max_output_len" r.max_output_len refl i;
  priority = opt_int_at-kept (request r) "priority" r.priority refl i;
  arrival_ts_ns = opt_int_at-kept (request r) "arrival_ts_ns" r.arrival_ts_ns refl i;
  first_schedule_ts_ns =
      opt_int_at-kept (request r) "first_schedule_ts_ns" r.first_schedule_ts_ns refl i;
  first_token_ts_ns = opt_int_at-kept (request r) "first_token_ts_ns" r.first_token_ts_ns refl i;
  finish_ts_ns = opt_int_at-kept (request r) "finish_ts_ns" r.finish_ts_ns refl i;
  ttft_ns = opt_int_at-kept (request r) "ttft_ns" r.ttft_ns refl i;
  tpot_ns = opt_int_at-kept (request r) "tpot_ns" r.tpot_ns refl i;
  scheduler_state_snapshot =
      opt_dict_at-kept (request r) "scheduler_state_snapshot" r.scheduler_state_snapshot refl i;
  v = int_at-kept (request r) "v" r.v refl i;
}

pub read_token_lem : (r : TokenRecord) → read_token (to_dict (token r)) ≡ r
unfolding raw_dict token_fields get set read_token
read_token_lem r = λ i. record {
  ts_ns = int_at-kept (token r) "ts_ns" r.ts_ns refl i;
  trace_id = text_at-kept (token r) "trace_id" r.trace_id refl i;
  node_id = text_at-kept (token r) "node_id" r.node_id refl i;
  worker_id = text_at-kept (token r) "worker_id" r.worker_id refl i;
  subtype = text_at-kept (token r) "subtype" r.subtype refl i;
  request_id = text_at-kept (token r) "request_id" r.request_id refl i;
  token_idx = int_at-kept (token r) "token_idx" r.token_idx refl i;
  step_id = int_at-kept (token r) "step_id" r.step_id refl i;
  seq_id = opt_text_at-kept (token r) "seq_id" r.seq_id refl i;
  num_tokens = int_at-kept (token r) "num_tokens" r.num_tokens refl i;
  num_prefill_tokens = int_at-kept (token r) "num_prefill_tokens" r.num_prefill_tokens refl i;
  kernel_start_ts_ns = opt_int_at-kept (token r) "kernel_start_ts_ns" r.kernel_start_ts_ns refl i;
  kernel_end_ts_ns = opt_int_at-kept (token r) "kernel_end_ts_ns" r.kernel_end_ts_ns refl i;
  cuda_event_ts_ns = opt_int_at-kept (token r) "cuda_event_ts_ns" r.cuda_event_ts_ns refl i;
  blocks_used_local = opt_int_at-kept (token r) "blocks_used_local" r.blocks_used_local refl i;
  blocks_used_remote = opt_int_at-kept (token r) "blocks_used_remote" r.blocks_used_remote refl i;
  sample_decision = opt_float_at-kept (token r) "sample_decision" r.sample_decision refl i;
  v = int_at-kept (token r) "v" r.v refl i;
}

pub read_kv_block_lem : (r : KvBlockRecord) → read_kv_block (to_dict (kv_block r)) ≡ r
unfolding raw_dict kv_block_fields get set read_kv_block
read_kv_block_lem r = λ i. record {
  ts_ns = int_at-kept (kv_block r) "ts_ns" r.ts_ns refl i;
  trace_id = text_at-kept (kv_block r) "trace_id" r.trace_id refl i;
  node_id = text_at-kept (kv_block r) "node_id" r.node_id refl i;
  worker_id = text_at-kept (kv_block r) "worker_id" r.worker_id refl i;
  subtype = text_at-kept (kv_block r) "subtype" r.subtype refl i;
  block_id = int_at-kept (kv_block r) "block_id" r.block_id refl i;
  block_hash = opt_text_at-kept (kv_block r) "block_hash" r.block_hash refl i;
  layer_idx = opt_int_at-kept (kv_block r) "layer_idx" r.layer_idx refl i;
  block_size_tokens = opt_int_at-kept (kv_block r) "block_size_tokens" r.block_size_tokens refl i;
  block_size_bytes = opt_int_at-kept (kv_block r) "block_size_bytes" r.block_size_bytes refl i;
  tier_before = opt_text_at-kept (kv_block r) "tier_before" r.tier_before refl i;
  tier_after = opt_text_at-kept (kv_block r) "tier_after" r.tier_after refl i;
  owner_request_id = opt_text_at-kept (kv_block r) "owner_request_id" r.owner_request_id refl i;
  refcount_before = opt_int_at-kept (kv_block r) "refcount_before" r.refcount_before refl i;
  refcount_after = opt_int_at-kept (kv_block r) "refcount_after" r.refcount_after refl i;
  reason = opt_text_at-kept (kv_block r) "reason" r.reason refl i;
  age_ns = opt_int_at-kept (kv_block r) "age_ns" r.age_ns refl i;
  reuse_count = opt_int_at-kept (kv_block r) "reuse_count" r.reuse_count refl i;
  last_reuse_ts_ns = opt_int_at-kept (kv_block r) "last_reuse_ts_ns" r.last_reuse_ts_ns refl i;
  sample_decision = opt_float_at-kept (kv_block r) "sample_decision" r.sample_decision refl i;
  v = int_at-kept (kv_block r) "v" r.v refl i;
}

pub read_sys_counter_lem : (r : SysCounterRecord) → read_sys_counter (to_dict (sys_counter r)) ≡ r
unfolding raw_dict sys_counter_fields get set read_sys_counter
read_sys_counter_lem r = λ i. record {
  ts_ns = int_at-kept (sys_counter r) "ts_ns" r.ts_ns refl i;
  trace_id = text_at-kept (sys_counter r) "trace_id" r.trace_id refl i;
  node_id = text_at-kept (sys_counter r) "node_id" r.node_id refl i;
  worker_id = text_at-kept (sys_counter r) "worker_id" r.worker_id refl i;
  subtype = text_at-kept (sys_counter r) "subtype" r.subtype refl i;
  scope = text_at-kept (sys_counter r) "scope" r.scope refl i;
  value = number_at-kept (sys_counter r) "value" r.value refl i;
  unit = text_at-kept (sys_counter r) "unit" r.unit refl i;
  interval_ns = opt_int_at-kept (sys_counter r) "interval_ns" r.interval_ns refl i;
  v = int_at-kept (sys_counter r) "v" r.v refl i;
}
