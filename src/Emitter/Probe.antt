-- ===== src/Emitter/Probe.antt =====
-- `transfer_start`, `transfer_end` and `metadata` of bkvt/emitter.py. The calls of `now_ns`, of
-- `new_transfer_id` and of the random generator are arguments.
use beyond_kvtransfer.Base.{
  ℕ, String, Bool, false, Option, none, some, List, [], ◌∷◌, map, if◌then◌else◌, ℤ, sub_ℕ, nat_eq,
  string_eq, ◌==◌,
}
use beyond_kvtransfer.Base.Dict.{get, set, update, remove}
use beyond_kvtransfer.Value.{Rec, text, nat, int, float, arr, obj, Float, elements_of, members_of}
use beyond_kvtransfer.Sampling.{should_emit_transfer, should_emit_metadata}
use beyond_kvtransfer.Emitter.State.{Emitter, event}

-- `if s: rec[k] = s`
unfoldable pub add_text : String → Option String → Rec → Rec
add_text k none r = r
add_text k (some s) r = if s == "" then r else set k (text s) r

-- `if n is not None: rec[k] = n`
unfoldable pub add_int : String → Option ℤ → Rec → Rec
add_int k none r = r
add_int k (some n) r = set k (int n) r

unfoldable pub add_float : String → Option Float → Rec → Rec
add_float k none r = r
add_float k (some x) r = set k (float x) r

-- `if s: rec[k] = {"tier": s}`
unfoldable pub add_tier : String → Option String → Rec → Rec
add_tier k none r = r
add_tier k (some s) r = if s == "" then r else set k (obj (members_of (("tier", text s) ∷ []))) r

-- `if xs: rec[k] = xs`
unfoldable pub add_list : String → Option (List ℤ) → Rec → Rec
add_list k none r = r
add_list k (some []) r = r
add_list k (some (x ∷ xs)) r = set k (arr (elements_of (map int (x ∷ xs)))) r

-- the arguments of `transfer_start`
pub record StartArgs : Type 0 where
  pub direction : String
  pub payload_kind : String
  pub request_id : Option String
  pub layer_idx : Option ℤ
  pub src_tier : Option String
  pub dst_tier : Option String
  pub transport : Option String
  pub num_blocks : Option ℤ
  pub bytes : Option ℤ
  pub block_ids : Option (List ℤ)
  pub issued_by : Option String
  pub issued_at_phase : Option String
  pub earliest_known_ts_ns : Option ℤ
  pub extra : Rec

-- `transfer_start(direction)` with its defaults
unfoldable pub start_defaults : String → StartArgs
start_defaults direction = record {
  direction = direction;
  payload_kind = "kv";
  request_id = none;
  layer_idx = none;
  src_tier = none;
  dst_tier = none;
  transport = none;
  num_blocks = none;
  bytes = none;
  block_ids = none;
  issued_by = none;
  issued_at_phase = none;
  earliest_known_ts_ns = none;
  extra = [];
}

-- the optional fields, in the order of the code
unfoldable pub start_options : StartArgs → Option Float → Rec → Rec
unfolding add_text add_int add_float add_tier add_list
start_options a rate r = add_float "sample_decision" rate (
    add_int "earliest_known_ts_ns" a.earliest_known_ts_ns (
      add_text "issued_at_phase" a.issued_at_phase (
        add_text "issued_by" a.issued_by (
          add_list "block_ids" a.block_ids (
            add_int "bytes" a.bytes (
              add_int "num_blocks" a.num_blocks (
                add_text "transport" a.transport (
                  add_tier "dst" a.dst_tier (
                    add_tier "src" a.src_tier (
                      add_int "layer_idx" a.layer_idx
                        (add_text "request_id" a.request_id r)))))))))))

unfoldable pub start_record : String → ℕ → StartArgs → Option Float → Rec
start_record transfer_id ts a rate =
    update
      (start_options a rate (
        ("ts_ns", nat ts)
        ∷ ("type", text "transfer")
        ∷ ("subtype", text "start")
        ∷ ("transfer_id", text transfer_id)
        ∷ ("direction", text a.direction)
        ∷ ("payload_kind", text a.payload_kind)
        ∷ ("started_ts_ns", nat ts)
        ∷ ("queued_ts_ns", nat ts)
        ∷ []))
      a.extra

-- `transfer_start`, which returns `transfer_id` on every path
unfoldable pub transfer_start : ℕ → String → Float → ℕ → StartArgs → Emitter → Emitter
transfer_start thread transfer_id draw ts a em =
    if em.enabled
    then (let (emit, rate) = should_emit_transfer em.sampler draw in
        if emit
        then (let em' = event thread (start_record transfer_id ts a rate) em in
            record em' {
              live_transfers = set transfer_id (a.direction, a.payload_kind) em'.live_transfers;
            })
        else em)
    else em

-- the arguments of `transfer_end`
pub record EndArgs : Type 0 where
  pub bytes : Option ℤ
  pub wire_time_ns : Option ℤ
  pub achieved_bw_gbps : Option Float
  pub wr_count : Option ℤ
  pub wr_completion_ts_ns : Option (List ℤ)
  pub cancelled : Bool
  pub extra : Rec

unfoldable pub end_defaults : EndArgs
end_defaults = record {
  bytes = none;
  wire_time_ns = none;
  achieved_bw_gbps = none;
  wr_count = none;
  wr_completion_ts_ns = none;
  cancelled = false;
  extra = [];
}

unfoldable pub end_options : EndArgs → Rec → Rec
unfolding add_int add_float add_list
end_options a r = add_list "wr_completion_ts_ns" a.wr_completion_ts_ns (
    add_int "wr_count" a.wr_count (
      add_float "achieved_bw_gbps" a.achieved_bw_gbps
        (add_int "wire_time_ns" a.wire_time_ns (add_int "bytes" a.bytes r))))

unfoldable pub end_record : String → String × String → ℕ → EndArgs → Rec
end_record transfer_id (direction, payload_kind) ts a =
    update
      (end_options a (
        ("ts_ns", nat ts)
        ∷ ("type", text "transfer")
        ∷ ("subtype", text (if a.cancelled then "cancel" else "end"))
        ∷ ("transfer_id", text transfer_id)
        ∷ ("direction", text direction)
        ∷ ("payload_kind", text payload_kind)
        ∷ ("completed_ts_ns", nat ts)
        ∷ []))
      a.extra

-- `transfer_end`
unfoldable pub transfer_end : ℕ → String → ℕ → EndArgs → Emitter → Emitter
transfer_end thread transfer_id ts a em =
    if em.enabled
    then (let popped : Emitter = record em {
      live_transfers = remove transfer_id em.live_transfers;
    } in
        elim (get transfer_id em.live_transfers) [
          | none ↦ popped
          | some meta ↦ event thread (end_record transfer_id meta ts a) popped
        ])
    else em

-- `metadata` up to its `yield`: none where the emitter is disabled
unfoldable pub metadata_enter : String → Float → Emitter → Option (Bool × Option Float)
metadata_enter subtype draw em =
    if em.enabled then some (should_emit_metadata em.sampler subtype draw) else none

-- `full_rec`, with what the body wrote into the record that it was given
unfoldable pub metadata_record : String → Option String → Rec → Option Float → ℕ → ℕ → Rec → Rec
metadata_record subtype request_id kw rate t_start t_end written =
    update
      (update
        (add_float "sample_decision" rate (
          add_text "request_id" request_id (
            ("ts_ns", nat t_start)
            ∷ ("type", text "metadata")
            ∷ ("subtype", text subtype)
            ∷ ("duration_ns", int (sub_ℕ t_end t_start))
            ∷ [])))
        written)
      kw

-- the `finally` of `metadata`, which runs whether or not the body raised
unfoldable pub metadata_exit :
    ℕ
    → String
    → Option String
    → Rec
    → Option (Bool × Option Float)
    → ℕ
    → ℕ
    → Rec
    → Emitter
    → Emitter
metadata_exit thread subtype request_id kw none t_start t_end written em = em
metadata_exit thread subtype request_id kw (some (emit, rate)) t_start t_end written em =
    if emit
    then event thread (metadata_record subtype request_id kw rate t_start t_end written) em
    else em
