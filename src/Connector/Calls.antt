-- ===== src/Connector/Calls.antt =====
-- `start_load_kv`, `wait_for_layer_load`, `save_kv_layer` and `wait_for_save` of the connector
-- wrapper. The wrapped connector's call is an argument: what it does to the emitter, and whether it
-- returns. So are the calls of `now_ns`, of `new_transfer_id`, which is never empty, and of the
-- random generator.
use beyond_kvtransfer.Base.{
  ℕ, String, Bool, true, Option, none, some, List, [], ◌∷◌, if◌then◌else◌, ◌==◌, string_eq, ℤ, pos,
  sub_ℕ, eqb, length,
}
use beyond_kvtransfer.Base.Dict.{or_else}
use beyond_kvtransfer.Value.{Value, Rec, Float, text, int, null, nat}
use beyond_kvtransfer.Py.{Obj, or_obj, getattr}
use beyond_kvtransfer.Emitter.State.{Emitter}
use beyond_kvtransfer.Emitter.Probe.{
  StartArgs, EndArgs, start_defaults, end_defaults, transfer_start, transfer_end, metadata_enter,
  metadata_exit,
}
use beyond_kvtransfer.Connector.{
  Entry, TransferState, src_dst_for, req_id, layer_idx, block_ids_from, bytes_from, earliest_for,
  add_load, pop_loads, add_save, pop_saves,
}

-- `TracingConnectorWrapper`, with the process-wide emitter
pub record Connector : Type 0 where
  pub em : Emitter
  pub state : TransferState
  pub transport : String

-- a call of the wrapped connector: the emitter after it, and whether it returned
abbrev pub Inner : Type 0
Inner = Emitter → Emitter × Bool

-- what `start_load_kv` and `save_kv_layer` read of their arguments
pub record CallArgs : Type 0 where
  pub request_id : Option String
  pub layer : Option ℤ
  pub block_ids : Obj
  pub bytes : Obj
  pub issued_at_phase : Option String

-- `kwargs.get("request_id") or _req_id(…)`
unfoldable pub named_request : Option String → Obj → Option String
unfolding req_id
named_request none request = req_id request
named_request (some s) request = if s == "" then req_id request else some s

-- the arguments of `start_load_kv`
unfoldable pub load_args :
    Option String → Option ℤ → Obj → Obj → Obj → Option String → Obj → CallArgs
unfolding named_request
load_args request_id layer block_ids bytes kv phase forward_context = record {
  request_id = named_request request_id (getattr "request" forward_context);
  layer = layer;
  block_ids = or_obj block_ids (getattr "block_ids" forward_context);
  bytes = or_obj bytes (or_obj kv (getattr "kv_tensors" forward_context));
  issued_at_phase = phase;
}

-- the arguments of `save_kv_layer`: a layer that is given, or that of the layer's name
unfoldable pub save_args :
    Option String → Option (Option ℤ) → Obj → Obj → Obj → Option String → Obj → Obj → Obj → CallArgs
unfolding named_request
save_args request_id layer block_ids blocks bytes phase request layer_name kv_layer = record {
  request_id = named_request request_id request;
  layer = or_else layer (layer_idx layer_name);
  block_ids = or_obj block_ids blocks;
  bytes = or_obj bytes kv_layer;
  issued_at_phase = phase;
}

abbrev pub present_ids : List ℤ → Option (List ℤ)
present_ids [] = none
present_ids (n ∷ ns) = some (n ∷ ns)

abbrev pub count_ids : List ℤ → Option ℤ
count_ids [] = none
count_ids (n ∷ ns) = some (pos (length (n ∷ ns)))

-- the arguments of the call of `transfer_start`
unfoldable pub connector_start : String → String → CallArgs → Option ℤ → StartArgs
unfolding start_defaults
connector_start direction transport a earliest =
    let (src, dst) = src_dst_for direction transport in
    let ids = block_ids_from a.block_ids in
    record (start_defaults direction) {
      request_id = a.request_id;
      layer_idx = a.layer;
      src_tier = some src;
      dst_tier = some dst;
      transport = some transport;
      num_blocks = count_ids ids;
      bytes = bytes_from a.bytes;
      block_ids = present_ids ids;
      issued_by = some "connector";
      issued_at_phase = a.issued_at_phase;
      earliest_known_ts_ns = earliest;
    }

unfoldable pub entry_of : String → ℕ → CallArgs → Entry
entry_of tid ts a = record {
  transfer_id = tid;
  started_ts_ns = ts;
  bytes = bytes_from a.bytes;
  request_id = a.request_id;
  layer = a.layer;
}

unfoldable pub cancelled : EndArgs
unfolding end_defaults
cancelled = record end_defaults { cancelled = true }

-- `self._state.earliest_for(request_id) or start_ts`
unfoldable pub earliest_or : Option ℕ → ℕ → Option ℤ
earliest_or none ts = some (pos ts)
earliest_or (some t) ts = some (pos (if eqb t 0 then ts else t))

-- a transfer around the call of the connector: kept by `keep` where it returns, cancelled where it
-- raises
unfoldable pub around :
    ℕ
    → String
    → Float
    → ℕ
    → ℕ
    → StartArgs
    → (TransferState → TransferState)
    → Inner
    → Connector
    → Connector
around thread tid draw ts end_ts args keep inner c =
    let em = if c.em.enabled then transfer_start thread tid draw ts args c.em else c.em in
    let (em', returned) = inner em in
    if c.em.enabled
    then (if returned
        then record c { em = em'; state = keep c.state }
        else record c { em = transfer_end thread tid end_ts cancelled em' })
    else record c { em = em' }

unfoldable pub start_load_kv :
    ℕ → String → Float → ℕ → ℕ → ℕ → CallArgs → Inner → Connector → Connector
unfolding around
start_load_kv thread tid draw start_ts ts end_ts a inner c =
    around thread tid draw ts end_ts
      (connector_start "load" c.transport a
        (earliest_or (earliest_for a.request_id c.state) start_ts))
      (add_load a.layer (entry_of tid start_ts a)) inner c

-- `earliest` is `kwargs.get("earliest_known_ts_ns", start_ts)`
unfoldable pub save_kv_layer :
    ℕ → String → Float → ℕ → ℕ → ℕ → CallArgs → Option (Option ℤ) → Inner → Connector → Connector
unfolding around
save_kv_layer thread tid draw start_ts ts end_ts a earliest inner c =
    around thread tid draw ts end_ts
      (connector_start "save" c.transport a (or_else earliest (some (pos start_ts))))
      (add_save (entry_of tid start_ts a)) inner c

abbrev text_or_null : Option String → Value
text_or_null none = null
text_or_null (some s) = text s

abbrev int_or_null : Option ℤ → Value
int_or_null none = null
int_or_null (some n) = int n

-- the arguments of the call of `transfer_end` for an entry
unfoldable pub entry_end : ℕ → Entry → EndArgs
unfolding end_defaults
entry_end end_ts entry = record end_defaults {
  bytes = entry.bytes;
  wire_time_ns = some (sub_ℕ end_ts entry.started_ts_ns);
  extra =
      ("request_id", text_or_null entry.request_id) ∷ ("layer_idx", int_or_null entry.layer) ∷ [];
}

-- `for entry in …: em.transfer_end(…)`; `clock` is what `now_ns` gives at the end of an id
unfoldable pub end_all : ℕ → (String → ℕ) → (Entry → EndArgs) → List Entry → Emitter → Emitter
end_all thread clock args [] em = em
end_all thread clock args (entry ∷ entries) em =
    end_all thread clock args entries
      (transfer_end thread entry.transfer_id (clock entry.transfer_id) (args entry) em)

-- the metadata probe around the connector's call, and the ends of the entries that `pop` takes:
-- cancelled where the call raises
unfoldable pub wait_for :
    ℕ
    → String
    → Rec
    → (TransferState → List Entry × TransferState)
    → Float
    → ℕ
    → ℕ
    → ℕ
    → (String → ℕ)
    → Inner
    → Connector
    → Connector
wait_for thread subtype kw pop draw t0 t1 end_ts clock inner c =
    let probe = metadata_enter subtype draw c.em in
    let (em, returned) = inner c.em in
    if c.em.enabled
    then (let (entries, state) = pop c.state in
        if returned
        then (let written = ("n_hits", nat (length entries)) ∷ [] in
            record c {
              em =
                  end_all thread clock (entry_end end_ts) entries
                    (metadata_exit thread subtype none kw probe t0 t1 written em);
              state = state;
            })
        else record c {
          em =
              end_all thread clock (λ entry. cancelled) entries
                (metadata_exit thread subtype none kw probe t0 t1 [] em);
          state = state;
        })
    else record c { em = em }

unfoldable pub wait_for_layer_load :
    ℕ → Option ℤ → Float → ℕ → ℕ → ℕ → (String → ℕ) → Inner → Connector → Connector
unfolding wait_for
wait_for_layer_load thread layer =
    wait_for thread "wait_for_layer_load" (("n_keys", nat 1) ∷ []) (pop_loads layer)

unfoldable pub wait_for_save : ℕ → Float → ℕ → ℕ → ℕ → (String → ℕ) → Inner → Connector → Connector
unfolding wait_for
wait_for_save thread = wait_for thread "wait_for_save" [] pop_saves
