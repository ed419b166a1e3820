-- ===== src/Sglang/Disagg.antt =====
-- The wrapper of bkvt/integrations/sglang/disagg_probe.py.
use beyond_kvtransfer.Base.{
  ℕ, String, Option, none, some, List, [], ◌∷◌, ◌++◌, map, not, if◌then◌else◌, ◌==◌, string_eq,
  ◌||◌, ℤ, pos, sub_ℕ, length, is_some,
}
use beyond_kvtransfer.Value.{Rec, text, nat, int}
use beyond_kvtransfer.Text.{Text, codes, contains}
use beyond_kvtransfer.Config.{lower}
use beyond_kvtransfer.Py.{Obj, nothing, getattr, first_item}
use beyond_kvtransfer.Py.Reads.{len_of}
use beyond_kvtransfer.Weights.{Call, first_kwarg, or_option}
use beyond_kvtransfer.Weights.Probes.{text_or_null, list_or_null}
use beyond_kvtransfer.Emitter.Probe.{StartArgs, EndArgs, start_defaults, end_defaults}
use beyond_kvtransfer.Connector.Calls.{present_ids, count_ids}
use beyond_kvtransfer.Probes.{Env, Action, Original, ◌>>=◌, ◌>>◌, pure, now, emit}
use beyond_kvtransfer.Sglang.Blocks.{named, bytes_for, block_ids_for}
use beyond_kvtransfer.Sglang.Transfers.{finish, around}
use beyond_kvtransfer.Sglang.HiCache.{mentions, result_or_none, ids_or}

abbrev pub prefill_verbs : List String
prefill_verbs =
    "dispatch" ∷ "dispatch_kv" ∷ "send" ∷ "send_kv" ∷ "send_kv_cache" ∷ "transfer" ∷ "transfer_kv"
    ∷ "push" ∷ "put" ∷ []

abbrev pub decode_verbs : List String
decode_verbs =
    "recv" ∷ "recv_kv" ∷ "recv_kv_cache" ∷ "receive" ∷ "receive_kv" ∷ "fetch" ∷ "get" ∷ "pull" ∷ []

-- `_direction_for`
unfoldable pub direction_for : String → String → String
unfolding mentions lower
direction_for method role =
    if role == "decode" || mentions (map lower (codes method)) decode_verbs then "load" else "save"

-- `_transport_for`, where `owner` is the module and the class of the first argument, with a dot
-- between them
unfoldable pub transport_for : String → Option Text → String
unfolding contains lower
transport_for module_name owner =
    let name =
      map lower (codes module_name ++ elim owner [ none ↦ [] | some s ↦ codes "." ++ s ]) in
    if contains (codes "nixl") name
    then "nixl"
    else if contains (codes "mooncake") name
    then "tcp"
    else if contains (codes "file") name || contains (codes "storage") name
    then "file"
    else "tcp"

-- `_endpoints`
unfoldable pub endpoints : String → String → String × String
endpoints direction transport =
    let remote : String = if transport == "nixl" then "HBM_PEER_RDMA" else "DRAM_REMOTE" in
    if direction == "load" then (remote, "HBM_LOCAL") else ("HBM_LOCAL", remote)

-- `_request_id_from`
unfoldable pub request_id_from : Call → Option String
unfolding named first_kwarg first_item
request_id_from call =
    or_option (first_kwarg named ("request" ∷ "req" ∷ "request_id" ∷ "req_id" ∷ "rid" ∷ []) call)
      (first_item named call.args)

abbrev block_names : List String
block_names = "block_id" ∷ "id" ∷ "idx" ∷ "index" ∷ "page_id" ∷ []

abbrev block_keys : List String
block_keys = "block_ids" ∷ "blocks" ∷ "kv_indices" ∷ "indices" ∷ "page_indices" ∷ []

-- the method that is wrapped, and the class of its owner
pub record Site : Type 0 where
  pub method : String
  pub module_name : String
  pub role : String
  pub owner : Option Text

unfoldable pub disagg_start : Site → Option String → List ℤ → Option ℤ → ℕ → StartArgs
unfolding start_defaults direction_for transport_for endpoints
disagg_start site request_id ids bytes t_start =
    let direction = direction_for site.method site.role in
    let transport = transport_for site.module_name site.owner in
    let (src, dst) = endpoints direction transport in
    record (start_defaults direction) {
      request_id = request_id;
      src_tier = some src;
      dst_tier = some dst;
      transport = some transport;
      num_blocks = count_ids ids;
      bytes = bytes;
      block_ids = present_ids ids;
      issued_by = some "connector";
      issued_at_phase = some (if direction == "save" then "prefill" else "decode");
      earliest_known_ts_ns = some (pos t_start);
      extra = ("disagg_method", text site.method) ∷ ("disagg_module", text site.module_name) ∷ [];
    }

abbrev count_of : Option ℕ → Option ℤ
count_of none = none
count_of (some n) = some (pos n)

-- `wr_count`
unfoldable pub wr_count : Obj → Option ℤ
unfolding getattr len_of
wr_count result = count_of (len_of (getattr "descriptors" result))

unfoldable pub disagg_end : Site → List ℤ → Option ℤ → ℕ → ℕ → Option Obj → EndArgs
unfolding end_defaults wr_count
disagg_end site ids bytes t_start t_end result = record end_defaults {
  bytes = bytes;
  wire_time_ns = some (sub_ℕ t_end t_start);
  wr_count = wr_count (result_or_none result);
  cancelled = not (is_some result);
  extra =
      ("block_ids", list_or_null (present_ids ids))
      ∷ ("disagg_method", text site.method)
      ∷ ("disagg_module", text site.module_name)
      ∷ [];
}

unfoldable pub nixl_record : Site → Option String → ℕ → ℕ → ℕ → Rec
nixl_record site request_id t_start t_end n =
    ("ts_ns", nat t_start)
    ∷ ("type", text "metadata")
    ∷ ("subtype", text "nixl_call")
    ∷ ("request_id", text_or_null request_id)
    ∷ ("duration_ns", int (sub_ℕ t_end t_start))
    ∷ ("n_keys", nat n)
    ∷ ("disagg_method", text site.method)
    ∷ []

module _ (env : Env) where
  unfoldable pub ids_for : Call → Obj → List ℤ
  unfolding block_ids_for
  ids_for call result = block_ids_for env.classes block_names block_keys call result

  -- the blocks that are known before the call, or those that its result shows
  unfoldable pub moved_ids : Call → Option Obj → List ℤ
  unfolding ids_for
  moved_ids call result = ids_or (ids_for call nothing) (ids_for call (result_or_none result))

  unfoldable pub moved_bytes : Call → Option Obj → Option ℤ
  unfolding bytes_for
  moved_bytes call result =
      or_option (bytes_for call nothing) (bytes_for call (result_or_none result))

  -- the record of a call of nixl
  unfoldable pub nixl_call : Site → Option String → List ℤ → ℕ → ℕ → Action (Unit {0})
  unfolding emit nixl_record contains lower
  nixl_call site request_id ids t_start t_end =
      if contains (codes "nixl") (map lower (codes site.module_name))
      then emit env (nixl_record site request_id t_start t_end (length ids))
      else pure tt

  unfoldable pub disagg_after : Site → Call → ℕ → String → Option Obj → Action (Unit {0})
  unfolding now finish disagg_end nixl_call moved_ids moved_bytes request_id_from
  disagg_after site call t_start tid result = do
    t_end ← now env
    finish env tid
        (disagg_end site (moved_ids call result) (moved_bytes call result) t_start t_end result)
    nixl_call site (request_id_from call) (moved_ids call result) t_start t_end

  -- `make_disagg_transfer_wrapper`
  unfoldable pub disagg_transfer : Site → Call → Original → Action Obj
  unfolding around disagg_start disagg_after ids_for bytes_for request_id_from
  disagg_transfer site call original =
      around env
        (disagg_start site (request_id_from call) (ids_for call nothing) (bytes_for call nothing))
        (disagg_after site call) original
