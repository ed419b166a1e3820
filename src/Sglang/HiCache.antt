-- ===== src/Sglang/HiCache.antt =====
-- The wrappers of bkvt/integrations/sglang/hicache_probe.py.
pub mod Tiers
use Prim.Native.String.{◌++◌ as append}
use beyond_kvtransfer.Base.{
  ℕ, String, Bool, true, false, Option, none, some, List, [], ◌∷◌, ◌++◌, map, not, if◌then◌else◌,
  ◌==◌, string_eq, ◌||◌, any_by, ℤ, pos, sub_ℕ, length, is_some,
}
use beyond_kvtransfer.Base.Dict.{or_else}
use beyond_kvtransfer.Value.{Value, Rec, Float, text, nat, int}
use beyond_kvtransfer.Text.{Text, codes, contains}
use beyond_kvtransfer.Config.{lower}
use beyond_kvtransfer.Py.{Obj, nothing, integer, first_attr, first_item}
use beyond_kvtransfer.Py.Reads.{value_of}
use beyond_kvtransfer.Weights.{Call, first_kwarg, or_option}
use beyond_kvtransfer.Weights.Probes.{text_or_null, list_or_null}
use beyond_kvtransfer.Emitter.Probe.{StartArgs, EndArgs, start_defaults, end_defaults}
use beyond_kvtransfer.Connector.Calls.{present_ids, count_ids}
use beyond_kvtransfer.Probes.{
  Process, Env, Action, Original, ◌>>=◌, ◌>>◌, pure, now, emit, emit_blocks, timed,
}
use beyond_kvtransfer.BlockPool.{rate_field}
use beyond_kvtransfer.Scheduler.{given}
use beyond_kvtransfer.Sglang.Blocks.{named, bytes_for, block_ids_for}
use beyond_kvtransfer.Sglang.Transfers.{finish, around}

-- what `_tier_plan` gives
pub record Plan : Type 0 where
  pub direction : String
  pub src_tier : String
  pub dst_tier : String
  pub kv_subtype : String
  pub meta_subtype : String

-- `any(s in name for s in words)`
unfoldable pub mentions : Text → List String → Bool
unfolding any_by contains
mentions name words = any_by (λ w. contains (codes w) name) words

abbrev pub load_plan : String → String → Plan
load_plan src dst = record {
  direction = "load";
  src_tier = src;
  dst_tier = dst;
  kv_subtype = "tier_promote";
  meta_subtype = "hicache_promote";
}

abbrev pub save_plan : String → String → Plan
save_plan src dst = record {
  direction = "save";
  src_tier = src;
  dst_tier = dst;
  kv_subtype = "tier_demote";
  meta_subtype = "hicache_demote";
}

-- `_tier_plan`
unfoldable pub tier_plan : String → Plan
unfolding mentions lower
tier_plan method =
    let name = map lower (codes method) in
    let loads = "load" ∷ "get" ∷ "restore" ∷ "promote" ∷ [] in
    if mentions name ("l3" ∷ "storage" ∷ "file" ∷ "disk" ∷ "mooncake" ∷ [])
    then (if mentions name loads
        then load_plan "OBJECT_STORE" "DRAM_LOCAL"
        else save_plan "DRAM_LOCAL" "OBJECT_STORE")
    else if mentions name ("load" ∷ "get" ∷ "restore" ∷ "promote" ∷ "to_device" ∷ [])
    then load_plan "DRAM_LOCAL" "HBM_LOCAL"
    else save_plan "HBM_LOCAL" "DRAM_LOCAL"

abbrev request_names : List String
request_names = "request" ∷ "req" ∷ "request_id" ∷ "req_id" ∷ "rid" ∷ []

-- `_first_present`
unfoldable pub first_present : List String → Call → Obj
unfolding first_kwarg first_item first_attr
first_present names call =
    or_else
      (or_option (first_kwarg given names call) (first_item (first_attr given names) call.args))
      nothing

-- `_request_id_from`
unfoldable pub request_id_from : Call → Option String
unfolding first_present named first_item
request_id_from call =
    or_option (named (first_present request_names call)) (first_item named call.args)

abbrev block_names : List String
block_names = "block_id" ∷ "id" ∷ "idx" ∷ "index" ∷ "token_idx" ∷ []

abbrev block_keys : List String
block_keys = "block_ids" ∷ "blocks" ∷ "indices" ∷ "token_indices" ∷ "page_indices" ∷ []

unfoldable pub transport_of : Plan → String
transport_of plan =
    if plan.src_tier == "OBJECT_STORE" || plan.dst_tier == "OBJECT_STORE"
    then "file"
    else "local_memcpy"

-- `f"{src_tier}->{dst_tier}"`
unfoldable pub tier_scope : Plan → String
tier_scope plan = append plan.src_tier (append "->" plan.dst_tier)

abbrev pub result_or_none : Option Obj → Obj
result_or_none none = nothing
result_or_none (some v) = v

abbrev pub ids_or : List ℤ → List ℤ → List ℤ
ids_or [] later = later
ids_or (n ∷ ns) later = n ∷ ns

unfoldable pub controller_start : String → Option String → List ℤ → Option ℤ → ℕ → StartArgs
unfolding start_defaults tier_plan transport_of
controller_start method request_id ids bytes t_start =
    let plan = tier_plan method in
    record (start_defaults plan.direction) {
      request_id = request_id;
      src_tier = some plan.src_tier;
      dst_tier = some plan.dst_tier;
      transport = some (transport_of plan);
      num_blocks = count_ids ids;
      bytes = bytes;
      block_ids = present_ids ids;
      issued_by = some "cache_controller";
      issued_at_phase = some (if plan.direction == "load" then "prefetch" else "spillover");
      earliest_known_ts_ns = some (pos t_start);
      extra = ("hicache_method", text method) ∷ [];
    }

unfoldable pub controller_end : String → List ℤ → Option ℤ → ℕ → ℕ → Bool → EndArgs
unfolding end_defaults
controller_end method ids bytes t_start t_end ok = record end_defaults {
  bytes = bytes;
  wire_time_ns = some (sub_ℕ t_end t_start);
  cancelled = not ok;
  extra = ("block_ids", list_or_null (present_ids ids)) ∷ ("hicache_method", text method) ∷ [];
}

abbrev reason_of : Plan → String
reason_of plan =
    if plan.kv_subtype == "tier_promote" then "controller_promote" else "capacity_evict"

unfoldable pub controller_summary : String → Option String → ℕ → ℕ → ℕ → Rec
unfolding tier_plan tier_scope
controller_summary method request_id t_start t_end n =
    let plan = tier_plan method in
    ("ts_ns", nat t_start)
    ∷ ("type", text "metadata")
    ∷ ("subtype", text plan.meta_subtype)
    ∷ ("request_id", text_or_null request_id)
    ∷ ("duration_ns", int (sub_ℕ t_end t_start))
    ∷ ("n_keys", nat n)
    ∷ ("tier_scope", text (tier_scope plan))
    ∷ ("hicache_method", text method)
    ∷ []

unfoldable pub hiradix_summary : String → ℕ → ℕ → ℕ → Rec
unfolding tier_plan tier_scope
hiradix_summary method t_start t_end n =
    let plan = tier_plan method in
    ("ts_ns", nat t_start)
    ∷ ("type", text "metadata")
    ∷ ("subtype", text plan.meta_subtype)
    ∷ ("duration_ns", int (sub_ℕ t_end t_start))
    ∷ ("n_keys", nat n)
    ∷ ("tier_scope", text (tier_scope plan))
    ∷ ("structure", text "radix")
    ∷ ("hicache_method", text method)
    ∷ []

module _ (env : Env) where
  unfoldable pub tier_fields : String → ℕ → Obj → Rec
  unfolding tier_plan value_of
  tier_fields method ts block =
      let plan = tier_plan method in
      ("ts_ns", nat ts)
      ∷ ("type", text "kv_block")
      ∷ ("subtype", text plan.kv_subtype)
      ∷ ("block_id", value_of env.classes block)
      ∷ ("tier_before", text plan.src_tier)
      ∷ ("tier_after", text plan.dst_tier)
      ∷ []

  -- the record of a block that a controller moved
  unfoldable pub controller_record : String → Option String → ℕ → Obj → Option Float → Rec
  unfolding tier_plan tier_fields
  controller_record method request_id ts block rate = rate_field rate (
      tier_fields method ts block
      ++ (("owner_request_id", text_or_null request_id)
          ∷ ("reason", text (reason_of (tier_plan method)))
          ∷ []))

  unfoldable pub hiradix_record : String → ℕ → Obj → Option Float → Rec
  unfolding tier_plan tier_fields
  hiradix_record method ts block rate =
      rate_field rate
        (tier_fields method ts block ++ (("reason", text (reason_of (tier_plan method))) ∷ []))

  unfoldable pub ids_for : Call → Obj → List ℤ
  unfolding block_ids_for
  ids_for call result = block_ids_for env.classes block_names block_keys call result

  -- the records after the end of the transfer
  unfoldable pub controller_report : String → Option String → List ℤ → ℕ → ℕ → Action (Unit {0})
  unfolding emit emit_blocks controller_summary controller_record tier_plan
  controller_report method request_id ids t_start t_end =
      emit env (controller_summary method request_id t_start t_end (length ids))
      >> emit_blocks env (tier_plan method).kv_subtype
          (λ block rate. some (controller_record method request_id t_end block rate))
          (map integer ids)

  -- the blocks that are known before the call, or those that its result shows
  unfoldable pub moved_ids : Call → Option Obj → List ℤ
  unfolding ids_for
  moved_ids call result = ids_or (ids_for call nothing) (ids_for call (result_or_none result))

  unfoldable pub moved_bytes : Call → Option Obj → Option ℤ
  unfolding bytes_for
  moved_bytes call result =
      or_option (bytes_for call nothing) (bytes_for call (result_or_none result))

  unfoldable pub controller_after : String → Call → ℕ → String → Option Obj → Action (Unit {0})
  unfolding now finish controller_end controller_report moved_ids moved_bytes request_id_from
  controller_after method call t_start tid result = do
    t_end ← now env
    finish env tid (
        controller_end method (moved_ids call result) (moved_bytes call result) t_start t_end
          (is_some result))
    controller_report method (request_id_from call) (moved_ids call result) t_start t_end

  -- `make_hicache_transfer_wrapper`
  unfoldable pub hicache_transfer : String → Call → Original → Action Obj
  unfolding around controller_start controller_after ids_for bytes_for request_id_from
  hicache_transfer method call original =
      around env
        (controller_start method (request_id_from call) (ids_for call nothing)
          (bytes_for call nothing))
        (controller_after method call) original

  unfoldable pub hiradix_after : String → Call → ℕ → ℕ → Obj → Action Obj
  unfolding emit emit_blocks hiradix_summary hiradix_record ids_for tier_plan
  hiradix_after method call t_start t_end result = do
    let ids = ids_for call result
    emit env (hiradix_summary method t_start t_end (length ids))
    emit_blocks env (tier_plan method).kv_subtype
        (λ block rate. some (hiradix_record method t_end block rate)) (map integer ids)
    pure result

  -- `make_hiradix_tier_wrapper`
  unfoldable pub hiradix_tier : String → Call → Original → Action Obj
  unfolding timed hiradix_after
  hiradix_tier method call original = timed env (hiradix_after method call) original
