-- ===== src/Records/Shapes.antt =====
-- The dataclasses of bkvt/records.py.
use beyond_kvtransfer.Base.{String, Option, List, ℤ, pos}
use beyond_kvtransfer.Value.{Rec, Float}

abbrev pub schema_version : ℤ
schema_version = pos 1

-- `int | float`
pub data Number : Type 0 where
  whole : ℤ → Number
  real : Float → Number

pub record RequestRecord : Type 0 where
  pub ts_ns : ℤ
  pub trace_id : String
  pub node_id : String
  pub worker_id : String
  pub request_id : String
  pub subtype : String
  pub seq_id : Option String
  pub input_len : Option ℤ
  pub output_len_so_far : Option ℤ
  pub max_output_len : Option ℤ
  pub priority : Option ℤ
  pub arrival_ts_ns : Option ℤ
  pub first_schedule_ts_ns : Option ℤ
  pub first_token_ts_ns : Option ℤ
  pub finish_ts_ns : Option ℤ
  pub ttft_ns : Option ℤ
  pub tpot_ns : Option ℤ
  pub scheduler_state_snapshot : Option Rec
  pub v : ℤ

pub record TokenRecord : Type 0 where
  pub ts_ns : ℤ
  pub trace_id : String
  pub node_id : String
  pub worker_id : String
  pub subtype : String
  pub request_id : String
  pub token_idx : ℤ
  pub step_id : ℤ
  pub seq_id : Option String
  pub num_tokens : ℤ
  pub num_prefill_tokens : ℤ
  pub kernel_start_ts_ns : Option ℤ
  pub kernel_end_ts_ns : Option ℤ
  pub cuda_event_ts_ns : Option ℤ
  pub blocks_used_local : Option ℤ
  pub blocks_used_remote : Option ℤ
  pub sample_decision : Option Float
  pub v : ℤ

pub record KvBlockRecord : Type 0 where
  pub ts_ns : ℤ
  pub trace_id : String
  pub node_id : String
  pub worker_id : String
  pub subtype : String
  pub block_id : ℤ
  pub block_hash : Option String
  pub layer_idx : Option ℤ
  pub block_size_tokens : Option ℤ
  pub block_size_bytes : Option ℤ
  pub tier_before : Option String
  pub tier_after : Option String
  pub owner_request_id : Option String
  pub refcount_before : Option ℤ
  pub refcount_after : Option ℤ
  pub reason : Option String
  pub age_ns : Option ℤ
  pub reuse_count : Option ℤ
  pub last_reuse_ts_ns : Option ℤ
  pub sample_decision : Option Float
  pub v : ℤ

-- the source or the destination of a transfer
pub record TransferEndpoint : Type 0 where
  pub tier : String
  pub node_id : Option String
  pub device_id : Option ℤ

pub record TransferRecord : Type 0 where
  pub ts_ns : ℤ
  pub trace_id : String
  pub node_id : String
  pub worker_id : String
  pub subtype : String
  pub transfer_id : String
  pub direction : String
  pub payload_kind : String
  pub src : Option TransferEndpoint
  pub dst : Option TransferEndpoint
  pub transport : Option String
  pub request_id : Option String
  pub layer_idx : Option ℤ
  pub param_name : Option String
  pub expert_id : Option ℤ
  pub lora_adapter_id : Option String
  pub weight_version : Option String
  pub num_blocks : Option ℤ
  pub bytes : Option ℤ
  pub block_ids : Option (List ℤ)
  pub queued_ts_ns : Option ℤ
  pub started_ts_ns : Option ℤ
  pub completed_ts_ns : Option ℤ
  pub queue_wait_ns : Option ℤ
  pub wire_time_ns : Option ℤ
  pub achieved_bw_gbps : Option Float
  pub wr_count : Option ℤ
  pub wr_completion_ts_ns : Option (List ℤ)
  pub issued_by : Option String
  pub issued_at_phase : Option String
  pub earliest_known_ts_ns : Option ℤ
  pub sample_decision : Option Float
  pub v : ℤ

pub record MetadataRecord : Type 0 where
  pub ts_ns : ℤ
  pub trace_id : String
  pub node_id : String
  pub worker_id : String
  pub subtype : String
  pub request_id : Option String
  pub duration_ns : Option ℤ
  pub n_keys : Option ℤ
  pub n_hits : Option ℤ
  pub hit_depth_tokens : Option ℤ
  pub tier_scope : Option String
  pub structure : Option String
  pub size_before : Option ℤ
  pub size_after : Option ℤ
  pub scheduler_inputs : Option Rec
  pub scheduler_outputs : Option Rec
  pub t0_unix_ns : Option ℤ
  pub t0_monotonic_ns : Option ℤ
  pub t0_cuda_event_ns : Option ℤ
  pub chrony_offset_ns : Option ℤ
  pub sample_decision : Option Float
  pub v : ℤ

pub record WeightBlockRecord : Type 0 where
  pub ts_ns : ℤ
  pub trace_id : String
  pub node_id : String
  pub worker_id : String
  pub subtype : String
  pub param_name : String
  pub shape : Option (List ℤ)
  pub dtype : Option String
  pub bytes : Option ℤ
  pub layer_idx : Option ℤ
  pub expert_id : Option ℤ
  pub shard_role : Option String
  pub lora_adapter_id : Option String
  pub weight_version : Option String
  pub tier_before : Option String
  pub tier_after : Option String
  pub owner_request_id : Option String
  pub reason : Option String
  pub sample_decision : Option Float
  pub v : ℤ

pub record SysCounterRecord : Type 0 where
  pub ts_ns : ℤ
  pub trace_id : String
  pub node_id : String
  pub worker_id : String
  pub subtype : String
  pub scope : String
  pub value : Number
  pub unit : String
  pub interval_ns : Option ℤ
  pub v : ℤ
