-- ===== src/Sglang.antt =====
-- What the scheduler probes of bkvt/integrations/sglang/scheduler_probe.py read of the engine's
-- objects.
pub mod Arrival
pub mod Batch
pub mod Finished
pub mod Requests
pub mod Kept
pub mod Once
pub mod Blocks
pub mod Transfers
pub mod HiCache
pub mod Disagg
pub mod Ended
pub mod Moves
pub mod Radix
use beyond_kvtransfer.Base.{
  ℕ, String, Bool, true, false, Option, none, some, List, [], ◌∷◌, map, if◌then◌else◌, ◌==◌,
  string_eq, ltb, eqb, ◌||◌, ◌&&◌, ℤ, pos,
}
use beyond_kvtransfer.Base.Dict.{or_else}
use beyond_kvtransfer.Text.{Text, codes}
use beyond_kvtransfer.Py.{
  Obj, nothing, integer, string, mapping, returning, raising, Attrs, no_attrs, attr, as_text,
  getattr, first_attr,
}
use beyond_kvtransfer.Py.Reads.{Classes, list_of, len_of, int_of}
use beyond_kvtransfer.Weights.{or_option}
use beyond_kvtransfer.Scheduler.{keep_id, set_of, given}

-- `_req_id`
unfoldable pub req_id : Obj → Option String
unfolding first_attr
req_id (string s) = some s
req_id obj = first_attr as_text ("rid" ∷ "request_id" ∷ "req_id" ∷ "id" ∷ []) obj

unfoldable pub value_objs : Attrs → List Obj
value_objs no_attrs = []
value_objs (attr k v attrs) = v ∷ value_objs attrs

-- `_as_list`
unfoldable pub as_list : Obj → List Obj
unfolding value_objs list_of
as_list nothing = []
as_list (mapping attrs) = value_objs attrs
as_list (string s) = string s ∷ []
as_list v = or_else (list_of v) (v ∷ [])

-- the loop of `_req_ids_from_iterable`
unfoldable pub ids_of : List Obj → List String
unfolding req_id
ids_of [] = []
ids_of (v ∷ vs) = keep_id (req_id v) (ids_of vs)

unfoldable pub req_ids_from : Obj → List String
unfolding ids_of as_list
req_ids_from v = ids_of (as_list v)

-- `_batch_reqs`
unfoldable pub batch_reqs : Obj → List Obj
unfolding first_attr as_list
batch_reqs batch = elim (first_attr given ("reqs" ∷ "requests" ∷ "batch_reqs" ∷ []) batch) [
  | none ↦ as_list batch
  | some v ↦ as_list v
]

-- the first of these sets that is not empty, or the last one
unfoldable pub first_filled : List (List String) → List String → List String
first_filled [] last = last
first_filled ([] ∷ sets) last = first_filled sets last
first_filled ((s ∷ ids) ∷ sets) last = s ∷ ids

-- `_get_running_ids`
unfoldable pub running_ids : Obj → List String
unfolding first_filled set_of ids_of batch_reqs getattr req_ids_from
running_ids scheduler =
    first_filled
      (map (λ name. set_of (ids_of (batch_reqs (getattr name scheduler))))
        ("running_batch" ∷ "cur_batch" ∷ "batch" ∷ []))
      (set_of (req_ids_from (getattr "running" scheduler)))

-- `_get_waiting_ids`
unfoldable pub waiting_ids : Obj → List String
unfolding first_filled set_of req_ids_from getattr
waiting_ids scheduler =
    first_filled
      (map (λ name. set_of (req_ids_from (getattr name scheduler)))
        ("waiting_queue" ∷ "req_queue" ∷ "waiting" ∷ "recv_reqs" ∷ []))
      []

-- the ids of the first of these attributes that is there
unfoldable pub ids_from_first : List String → Obj → List String
unfolding first_attr req_ids_from
ids_from_first names obj = elim (first_attr given names obj) [ none ↦ [] | some v ↦ req_ids_from v ]

-- `_input_len`
unfoldable pub input_len : Obj → Option ℤ
unfolding first_attr len_of
input_len req =
    elim (first_attr given
      ("origin_input_ids" ∷ "input_ids" ∷ "prompt_token_ids" ∷ "input_tokens" ∷ []) req) [
        | none ↦ none
        | some v ↦ elim (len_of v) [ none ↦ none | some n ↦ some (pos n) ]
      ]

abbrev max_names : List String
max_names = "max_new_tokens" ∷ "max_tokens" ∷ "max_output_len" ∷ []

-- `_max_output_len`: none where `int` raises
unfoldable pub max_output_len : Classes → Obj → Option ℤ
unfolding first_attr getattr int_of
max_output_len classes req =
    elim (or_option (first_attr given max_names req)
      (first_attr given max_names (getattr "sampling_params" req))) [
        | none ↦ none
        | some v ↦ int_of classes v
      ]

-- `_scheduler_size`
unfoldable pub scheduler_size : Obj → Obj
unfolding len_of
scheduler_size v = elim (len_of v) [ none ↦ nothing | some n ↦ integer (pos n) ]

-- `free_blocks`, which a method tells; None where it raises
unfoldable pub called_size : Obj → Obj
called_size (returning v) = v
called_size raising = nothing
called_size v = v

-- the order of texts by their characters
unfoldable pub text_leb : Text → Text → Bool
text_leb [] t = true
text_leb (c ∷ s) [] = false
text_leb (c ∷ s) (d ∷ t) = ltb c d || (eqb c d && text_leb s t)

unfoldable pub insert : String → List String → List String
unfolding text_leb
insert s [] = s ∷ []
insert s (t ∷ ts) =
    let rest = insert s ts in if text_leb (codes s) (codes t) then s ∷ t ∷ ts else t ∷ rest

-- `sorted(ids)`
unfoldable pub sorted : List String → List String
unfolding insert
sorted [] = []
sorted (s ∷ ids) = insert s (sorted ids)
