-- ===== src/Connector/Run.antt =====
-- Sequences of calls of the connector wrapper.
use beyond_kvtransfer.Py.Reads.{Classes}
use beyond_kvtransfer.Base.{ℕ, refl, String, Bool, Option, List, [], ◌∷◌, string_eq, opt_int_eq, ℤ}
use beyond_kvtransfer.Value.{Float}
use beyond_kvtransfer.Connector.{add_load, add_save}
use beyond_kvtransfer.Connector.Calls.{
  Connector, Inner, CallArgs, start_load_kv, save_kv_layer, wait_for_layer_load, wait_for_save,
  entry_of,
}
use beyond_kvtransfer.Connector.Tracked.{
  add_load-Adds, add_save-Adds, pop_loads-Takes, pop_saves-Takes,
}
use beyond_kvtransfer.Py.{Obj}
use beyond_kvtransfer.Connector.Lookups
use beyond_kvtransfer.Connector.Lookups.{
  get_num_new_matched_tokens, update_state_after_alloc, build_connector_meta, get_finished,
}
use beyond_kvtransfer.Connector.Lookups.Booked.{
  effect_of, IsBooked-lookup, IsBooked-alloc, IsBooked-build, IsBooked-finished,
}
use beyond_kvtransfer.Connector.Booked.{Contained, IsBooked, around-IsBooked, wait_for-IsBooked}

-- a call, with the arguments of its function
pub data Call : Type 0 where
  load : ℕ → String → Float → ℕ → ℕ → ℕ → CallArgs → Inner → Call
  save : ℕ → String → Float → ℕ → ℕ → ℕ → CallArgs → Option (Option ℤ) → Inner → Call
  wait_load : ℕ → Option ℤ → Float → ℕ → ℕ → ℕ → (String → ℕ) → Inner → Call
  wait_save : ℕ → Float → ℕ → ℕ → ℕ → (String → ℕ) → Inner → Call
  lookup : Classes → ℕ → Float → ℕ → ℕ → ℕ → Obj → ℤ → Lookups.Inner → Call
  alloc : ℕ → ℕ → Obj → Obj → Lookups.Inner → Call
  build_meta : ℕ → Float → ℕ → ℕ → Obj → Lookups.Inner → Call
  finished : ℕ → Float → ℕ → ℕ → Obj → Lookups.Inner → Call

unfoldable pub perform : Call → Connector → Connector
perform (load t tid draw start_ts ts end_ts a inner) c =
    start_load_kv t tid draw start_ts ts end_ts a inner c
perform (save t tid draw start_ts ts end_ts a earliest inner) c =
    save_kv_layer t tid draw start_ts ts end_ts a earliest inner c
perform (wait_load t layer draw t0 t1 end_ts clock inner) c =
    wait_for_layer_load t layer draw t0 t1 end_ts clock inner c
perform (wait_save t draw t0 t1 end_ts clock inner) c =
    wait_for_save t draw t0 t1 end_ts clock inner c
perform (lookup classes t draw t0 t1 ts request n inner) c =
    (get_num_new_matched_tokens classes t draw t0 t1 ts request n inner c).0
perform (alloc t ts request blocks inner) c =
    (update_state_after_alloc t ts request blocks inner c).0
perform (build_meta t draw t0 t1 output inner) c =
    (build_connector_meta t draw t0 t1 output inner c).0
perform (finished t draw t0 t1 ids inner) c = (get_finished t draw t0 t1 ids inner c).0

unfoldable pub run : List Call → Connector → Connector
run [] c = c
run (call ∷ calls) c = run calls (perform call c)

-- the connector's own call, inside a call of the wrapper
abbrev pub inner_of : Call → Inner
inner_of (load t tid draw start_ts ts end_ts a inner) = inner
inner_of (save t tid draw start_ts ts end_ts a earliest inner) = inner
inner_of (wait_load t layer draw t0 t1 end_ts clock inner) = inner
inner_of (wait_save t draw t0 t1 end_ts clock inner) = inner
inner_of (lookup classes t draw t0 t1 ts request n inner) = effect_of inner
inner_of (alloc t ts request blocks inner) = effect_of inner
inner_of (build_meta t draw t0 t1 output inner) = effect_of inner
inner_of (finished t draw t0 t1 ids inner) = effect_of inner

module _ (others : String → Bool) where
  abbrev pub AllContained : List Call → Type 0
  AllContained [] = Unit
  AllContained (call ∷ calls) = Contained others (inner_of call) × AllContained calls

  perform-IsBooked :
      (call : Call) (c : Connector)
      → Contained others (inner_of call)
      → IsBooked others c
      → IsBooked others (perform call c)
  unfolding perform start_load_kv save_kv_layer wait_for_layer_load wait_for_save entry_of
  perform-IsBooked (load t tid draw start_ts ts end_ts a inner) c contained b =
      let entry = entry_of tid start_ts a in
      around-IsBooked others t tid draw ts end_ts _ entry (add_load a.layer entry) inner c refl
        (add_load-Adds a.layer entry) contained b
  perform-IsBooked (save t tid draw start_ts ts end_ts a earliest inner) c contained b =
      let entry = entry_of tid start_ts a in
      around-IsBooked others t tid draw ts end_ts _ entry (add_save entry) inner c refl
        (add_save-Adds entry) contained b
  perform-IsBooked (wait_load t layer draw t0 t1 end_ts clock inner) c contained b =
      wait_for-IsBooked others t _ _ _ draw t0 t1 end_ts clock inner c (pop_loads-Takes layer)
        contained b
  perform-IsBooked (wait_save t draw t0 t1 end_ts clock inner) c contained b =
      wait_for-IsBooked others t _ _ _ draw t0 t1 end_ts clock inner c pop_saves-Takes contained b
  perform-IsBooked (lookup classes t draw t0 t1 ts request n inner) c contained b =
      IsBooked-lookup others classes t draw t0 t1 ts request n inner c contained b
  perform-IsBooked (alloc t ts request blocks inner) c contained b =
      IsBooked-alloc others t ts request blocks inner c contained b
  perform-IsBooked (build_meta t draw t0 t1 output inner) c contained b =
      IsBooked-build others t draw t0 t1 output inner c contained b
  perform-IsBooked (finished t draw t0 t1 ids inner) c contained b =
      IsBooked-finished others t draw t0 t1 ids inner c contained b

  -- If it was so before, and the wrapped connector's calls leave open no transfers but those of
  -- others: whatever calls the engine makes of the wrapper, in any order and whether the wrapped connector
  -- returns or raises: a transfer that is open in the emitter is in the wrapper's book, where a
  -- later wait finds it, or it is one of those that others may leave open.
  pub run-IsBooked :
      (calls : List Call) (c : Connector)
      → AllContained calls
      → IsBooked others c
      → IsBooked others (run calls c)
  unfolding run
  run-IsBooked [] c contained b = b
  run-IsBooked (call ∷ calls) c contained b =
      run-IsBooked calls (perform call c) contained.1 (perform-IsBooked call c contained.0 b)
