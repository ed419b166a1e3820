-- ===== src/Tests/Probes.antt =====
-- Tests of the vLLM probes of bkvt/integrations/vllm.
use mathlib.Core.List.{Memᴰ}
use beyond_kvtransfer.Base.{
  ◌+◌, ◌*◌, ◌≡◌, refl, true, false, none, some, List, [], ◌∷◌, string_eq, pos, count_by, length,
  if◌then◌else◌,
}
use beyond_kvtransfer.Base.Dict.{get}
use beyond_kvtransfer.Value.{Rec, float_zero, float_one, float_le, text, nat}
use beyond_kvtransfer.Py.{
  Obj, nothing, integer, sequence, next_obj, no_objs, object, attr, no_attrs, items,
}
use beyond_kvtransfer.Py.Reads.{Classes, getattr_or, attr_or, list_of, hash_text, hex, hex_onto}
use beyond_kvtransfer.Weights.{Call}
use beyond_kvtransfer.Emitter.State.{event}
use beyond_kvtransfer.Probes.{Process, Env, Original}
use beyond_kvtransfer.Tests.Run.{emitter}
use beyond_kvtransfer.Emitter.State.{enqueue, get_buf, account}
use beyond_kvtransfer.Emitter.Ring
use beyond_kvtransfer.Sampling.{should_emit_kv_block, should_emit, rate_for, decide_rate, member}
use beyond_kvtransfer.Base.{any_by}
use beyond_kvtransfer.Value.{float_lt}
use beyond_kvtransfer.Probes.{
  timed, when_enabled, now, emit, emit_blocks, each, emit_sampled, sample_kv_block,
}
use beyond_kvtransfer.Probes.Reports.{events}
use beyond_kvtransfer.BlockPool.{owner, to_list, allocate_record, add_hash, block_hash}
use beyond_kvtransfer.BlockPool.Wrappers.{alloc_blocks, alloc_after, owner_now}
use beyond_kvtransfer.BlockPool.Wrapped.{alloc, lookup, wrap, entered, blocks_of}
use beyond_kvtransfer.BlockPool.Wrapped.Reported.{wrap-reports, summary_after, log_after}
use beyond_kvtransfer.BlockPool.Wrapped.Typed.{is_kv_block}
use beyond_kvtransfer.BlockPool.Wrapped.Counted.{wrap-counts, wrap-unhashable}
use beyond_kvtransfer.BlockPool.Wrapped.Quiet.{wrap-raises}

abbrev pub classes : Classes
classes = record {
  int_of_text = λ s. none;
  int_of_object = λ a. none;
  index_of_object = λ a. none;
  shown = λ v. "";
}

abbrev pub env : Env
env = record {
  thread = 0;
  clock = λ n. 10 * n + 5;
  draws = λ n. float_zero;
  ids = λ n. "u1";
  set_order = λ ids. ids;
  classes = classes;
  cuda = false;
  elapsed = λ n. none;
}

abbrev pub process : Process
process = record { em = emitter; states = []; current_request = none; steps = 0; ticks = 0 }

-- hexadecimal numbers
hex_255 : hex (pos 255) ≡ "0xff"
unfolding hex hex_onto
hex_255 = refl

abbrev pub list_1 : Obj → Obj
list_1 v = sequence (next_obj v no_objs)

abbrev three : Obj
three = list_1 (integer (pos 3))

abbrev pub returns : Obj → Original
returns v p = (p, some v)

abbrev raises : Original
raises p = (p, none)

abbrev call : Call
call = record { args = integer (pos 1) ∷ []; kwargs = [] }

abbrev after : Process
after = record process { ticks = 1 }

full : float_le float_one process.em.sampler.sample_metadata ≡ true
unfolding float_le float_one
full = refl

wrap-reports_example :
    ((wrap env (alloc call) (returns three) process).0.em
      ≡ events 0
          (summary_after env (alloc call) process after three
            ∷ (log_after env (alloc call) after three).records)
          process.em)
    × ((wrap env (alloc call) (returns three) process).1
        ≡ (if (log_after env (alloc call) after three).complete then some three else none))
wrap-reports_example =
    wrap-reports env (alloc call) (returns three) process after three refl (unfold entered in refl)

abbrev Counts : Process → Type 0
Counts w =
    (summary : Rec) × (rs : List Rec) × ((wrap env (alloc call) (returns three) w).0.em
      ≡ events 0 (summary ∷ rs) w.em)
    × (get "type" summary ≡ some (text "metadata"))
    × (get "n_hits" summary ≡ some (nat (count_by is_kv_block rs)))
    × (count_by is_kv_block rs ≡ length (blocks_of env (alloc call) three))

alloc_returns : (wrap env (alloc call) (returns three) process).1 ≡ some three
unfolding wrap alloc_blocks timed when_enabled now alloc_after owner_now owner emit emit_blocks each
    emit_sampled sample_kv_block should_emit_kv_block should_emit rate_for decide_rate member any_by
    float_le float_one float_lt allocate_record add_hash block_hash getattr_or to_list list_of items
    event enqueue Ring.put get_buf get Ring.new account
alloc_returns = refl

wrap-counts_example : Counts process
wrap-counts_example =
    wrap-counts env (alloc call) (returns three) process after three refl (unfold entered in refl)
      full refl alloc_returns

abbrev odd_block : Obj
odd_block = object (attr "block_hash" (sequence no_objs) no_attrs)

wrap-unhashable_example : (wrap env (alloc call) (returns (list_1 odd_block)) process).1 ≡ none
unfolding entered
wrap-unhashable_example =
    wrap-unhashable env (alloc call) (returns (list_1 odd_block)) process after (list_1 odd_block)
      refl refl full odd_block refl (unfold blocks_of to_list list_of items in Memᴰ.head refl)
      (unfold block_hash getattr_or attr_or in refl)
      (unfold block_hash getattr_or attr_or hash_text in refl)

wrap-raises_example : wrap env (lookup nothing call) raises process ≡ (after, none)
wrap-raises_example =
    wrap-raises env (lookup nothing call) raises process after refl (unfold entered in refl)
