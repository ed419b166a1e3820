-- ===== src/Ids.antt =====
-- The identifiers of bkvt/ids.py. The host name and uuid4 are arguments.
pub mod Distinct
use beyond_kvtransfer.Base.{
  String, Bool, Option, none, some, List, [], ◌∷◌, ◌++◌, if◌then◌else◌, ◌==◌, string_eq, ℤ, pos,
}
use beyond_kvtransfer.Base.Dict.{Dict, get, or_else}
use beyond_kvtransfer.Text.{Text, codes, decimal_int}

-- `get_node_id`
unfoldable pub get_node_id : Dict String String → String → Text
get_node_id env hostname =
    let own : Text = elim (get "LOCAL_RANK" env) [
      | none ↦ codes hostname
      | some local_rank ↦ codes hostname ++ (codes "-" ++ codes local_rank)
    ] in
    elim (get "BKVT_NODE_ID" env) [
      | none ↦ own
      | some override ↦ if override == "" then own else codes override
    ]

-- `f"{node_id}/tp{tp_rank}/pp{pp_rank}"`
unfoldable pub make_vllm_worker_id : Text → ℤ → ℤ → Text
unfolding decimal_int
make_vllm_worker_id node_id tp_rank pp_rank =
    node_id ++ (codes "/tp" ++ (decimal_int tp_rank ++ (codes "/pp" ++ decimal_int pp_rank)))

-- `f"{role}-{rank}"`
unfoldable pub make_sglang_worker_id : Text → ℤ → Text
unfolding decimal_int
make_sglang_worker_id role rank = role ++ (codes "-" ++ decimal_int rank)

unfoldable pub ranked : Text → Option ℤ → Option ℤ → Text
ranked node_id none none = node_id
ranked node_id (some tp) none = make_vllm_worker_id node_id tp (pos 0)
ranked node_id none (some pp) = make_vllm_worker_id node_id (pos 0) pp
ranked node_id (some tp) (some pp) = make_vllm_worker_id node_id tp pp

-- `get_worker_id`, with its keyword arguments
unfoldable pub get_worker_id :
    Dict String String → String → Option Text → Option ℤ → Option ℤ → Option Text → Option ℤ → Text
unfolding ranked get_node_id make_sglang_worker_id
get_worker_id env hostname node_id tp_rank pp_rank (some role) (some rank) =
    make_sglang_worker_id role rank
get_worker_id env hostname node_id tp_rank pp_rank none rank =
    ranked (or_else node_id (get_node_id env hostname)) tp_rank pp_rank
get_worker_id env hostname node_id tp_rank pp_rank (some role) none =
    ranked (or_else node_id (get_node_id env hostname)) tp_rank pp_rank
