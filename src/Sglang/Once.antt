-- ===== src/Sglang/Once.antt =====
-- That `make_handle_finished_requests_wrapper` of bkvt/integrations/sglang/scheduler_probe.py ends each
-- request once in a call, whatever names it.
use mathlib.Core.Path.{subst}
use beyond_kvtransfer.Base.{
  ℕ, ◌+◌, ◌≡◌, refl, sym, ◌∙◌, ap, String, Bool, true, false, Option, none, some, List, [], ◌∷◌,
  ◌||◌, ◌&&◌, not, if◌then◌else◌, ◌==◌, ==_iff, string_eq, count_by, any_by, arith, Bool-cases, inl,
  inr,
}
use beyond_kvtransfer.Sampling.{member}
use beyond_kvtransfer.Py.{Obj}
use beyond_kvtransfer.Sglang.{req_id}
use beyond_kvtransfer.Sglang.Finished.{unseen}

module _ (rid : String) where
  -- whether the id is that of a request
  abbrev names : Option String → Bool
  names none = false
  names (some s) = s == rid

  unfoldable pub is_named : Obj → Bool
  unfolding req_id
  is_named req = names (req_id req)

  -- how often the id is ended
  unfoldable pub ends : List (String × Obj) → ℕ
  unfolding count_by
  ends requests = count_by (λ request. request.0 == rid) requests

  -- once, where it is not empty and neither seen before nor absent
  abbrev once : List String → Bool → ℕ
  once seen there = if not (rid == "") && not (member rid seen) && there then 1 else 0

  -- a request whose id is passed over is no new one
  skipped :
      (s : String) (seen : List String) (there : Bool)
      → (s == "" || member s seen) ≡ true
      → once seen (s == rid || there) ≡ once seen there
  skipped s seen there h = elim (Bool-cases (s == rid)) [
    | inl same ↦
        let e : s ≡ rid = (==_iff s rid).0 same in
        let h' : (rid == "" || member rid seen) ≡ true =
          subst (λ x. (x == "" || member x seen) ≡ true) e h in
        ground arith
    | inr other ↦ ground arith
  ]

  -- a request whose id is new
  taken :
      (s : String) (seen : List String) (there : Bool)
      → (s == "" || member s seen) ≡ false
      → (if s == rid then 1 else 0) + once (s ∷ seen) there ≡ once seen (s == rid || there)
  unfolding member any_by
  taken s seen there h = elim (Bool-cases (s == rid)) [
    | inl same ↦
        let e : s ≡ rid = (==_iff s rid).0 same in
        let h' : (rid == "" || member rid seen) ≡ false =
          subst (λ x. (x == "" || member x seen) ≡ false) e h in
        ground arith
    | inr other ↦ ground arith
  ]

  ends-unseen :
      (seen : List String) (reqs : List Obj)
      → ends (unseen seen reqs) ≡ once seen (any_by is_named reqs)
  unfolding ends unseen count_by any_by is_named
  ends-unseen seen [] = ground arith
  ends-unseen seen (req ∷ reqs) = by_id (λ seen'. ends-unseen seen' reqs) (req_id req)
    where
      by_test :
          ((seen' : List String) → ends (unseen seen' reqs) ≡ once seen' (any_by is_named reqs))
          → (s : String) (b : Bool) → (s == "" || member s seen) ≡ b
          → ends (elim b [ true ↦ unseen seen reqs | false ↦ (s, req) ∷ unseen (s ∷ seen) reqs ])
            ≡ once seen (s == rid || any_by is_named reqs)
      by_test later s true h = later seen ∙ sym (skipped s seen _ h)
      by_test later s false h =
          ap (λ n. (if s == rid then 1 else 0) + n) (later (s ∷ seen)) ∙ taken s seen _ h

      by_id :
          ((seen' : List String) → ends (unseen seen' reqs) ≡ once seen' (any_by is_named reqs))
          → (o : Option String)
          → ends (elim o [
            | none ↦ unseen seen reqs
            | some s ↦ elim (s == "" || member s seen) [
              | true ↦ unseen seen reqs
              | false ↦ (s, req) ∷ unseen (s ∷ seen) reqs
            ]
          ])
            ≡ once seen (names o || any_by is_named reqs)
      by_id later none = later seen
      by_id later (some s) = by_test later s (s == "" || member s seen) refl

  -- Of the candidates of one call, a request id that is not empty and that one of them has is ended
  -- exactly once, however many have it; any other id is not ended.
  pub unseen-once :
      (reqs : List Obj)
      → ends (unseen [] reqs) ≡ (if not (rid == "") && any_by is_named reqs then 1 else 0)
  unfolding member any_by
  unseen-once reqs = ends-unseen [] reqs ∙ ground arith
