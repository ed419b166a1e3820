-- ===== src/Ids/Distinct.antt =====
-- Workers of one node have different identifiers.
use mathlib.Core.Path.{◌≡◌, refl, sym, ap, ◌∙◌}
use mathlib.Core.List.{append_cancel_left}
use beyond_kvtransfer.Base.{ℕ, ◌++◌, pos}
use beyond_kvtransfer.Text.{Text, codes, decimal, decimal_int}
use beyond_kvtransfer.Text.Decimal.{
  read_number, read_number-decimal, read-decimal, read_from, no_digit,
}
use beyond_kvtransfer.Ids.{make_vllm_worker_id}

-- Two workers of a node with the same identifier have the same tensor and pipeline ranks.
pub make_vllm_worker_id-injective :
    (node_id : Text) (tp pp tp' pp' : ℕ)
    → make_vllm_worker_id node_id (pos tp) (pos pp)
      ≡ make_vllm_worker_id node_id (pos tp') (pos pp')
    → (tp ≡ tp') × (pp ≡ pp')
unfolding make_vllm_worker_id decimal_int
make_vllm_worker_id-injective node_id tp pp tp' pp' e =
    let tail = append_cancel_left (codes "/tp") _ _ (append_cancel_left node_id _ _ e) in
    let read =
      sym (read_number-decimal tp (codes "/pp" ++ decimal pp) (unfold no_digit in refl))
      ∙ ap (read_number 0) tail
      ∙ read_number-decimal tp' (codes "/pp" ++ decimal pp') (unfold no_digit in refl) in
    let rest = append_cancel_left (codes "/pp") _ _ (ap (λ r. r.1) read) in
    (ap (λ r. r.0) read, sym (read-decimal pp) ∙ ap (read_from 0) rest ∙ read-decimal pp')
