-- ===== src/Tests/Ids.antt =====
-- Tests of bkvt/ids.py.
use beyond_kvtransfer.Base.{◌≡◌, refl, ℕ, none, some, [], ◌∷◌, pos, string_eq}
use beyond_kvtransfer.Base.Dict.{get}
use beyond_kvtransfer.Text.{codes, decimal_int}
use beyond_kvtransfer.Ids.{get_node_id, make_sglang_worker_id, get_worker_id}
use beyond_kvtransfer.Ids.Distinct.{make_vllm_worker_id-injective}

local_rank : get_node_id (("LOCAL_RANK", "3") ∷ []) "gpu" ≡ codes "gpu-3"
unfolding get_node_id get
local_rank = refl

decode_worker :
    get_worker_id [] "gpu" none none none (some (codes "decode")) (some (pos 2)) ≡ codes "decode-2"
unfolding get_worker_id make_sglang_worker_id decimal_int
decode_worker = refl

make_vllm_worker_id-injective_example : ◌≡◌ {A = ℕ} 1 1 × ◌≡◌ {A = ℕ} 12 12
make_vllm_worker_id-injective_example = make_vllm_worker_id-injective (codes "gpu") 1 12 1 12 refl
