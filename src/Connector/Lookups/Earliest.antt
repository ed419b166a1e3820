-- ===== src/Connector/Lookups/Earliest.antt =====
-- The time from which a load could have been known to be needed: the first lookup of its request.
use beyond_kvtransfer.Base.{
  ℕ, ◌≡◌, ◌≢◌, String, Option, none, some, List, [], ◌∷◌, if◌then◌else◌, ◌==◌, ==_iff, string_eq,
  arith,
}
use beyond_kvtransfer.Base.Dict.{get-setdefault}
use beyond_kvtransfer.Connector.{TransferState, remember_earliest, earliest_for}

-- the lookups of a run: the request, if it has an id, and the time
unfoldable pub remember_all : List (Option String × ℕ) → TransferState → TransferState
remember_all [] s = s
remember_all ((request_id, ts) ∷ lookups) s =
    remember_all lookups (remember_earliest request_id ts s)

unfoldable pub first_lookup : String → List (Option String × ℕ) → Option ℕ
first_lookup r [] = none
first_lookup r ((none, ts) ∷ lookups) = first_lookup r lookups
first_lookup r ((some id, ts) ∷ lookups) =
    let later = first_lookup r lookups in if id == r then some ts else later

-- the first of two times
abbrev pub first_time : Option ℕ → Option ℕ → Option ℕ
first_time none b = b
first_time (some a) b = some a

-- one lookup
earliest-step :
    (r : String) (id : Option String) (ts : ℕ) (s : TransferState)
    → r ≢ ""
    → earliest_for (some r) (remember_earliest id ts s)
      ≡ first_time (earliest_for (some r) s) (first_lookup r ((id, ts) ∷ []))
unfolding earliest_for remember_earliest first_lookup
earliest-step r none ts s h = ground arith
earliest-step r (some id) ts s h =
    ground (
      arith,
      get-setdefault r id ts s.earliest_by_request,
      ==_iff id r,
      ==_iff r "",
      ==_iff id "",
      h,
    )

-- After any sequence of lookups, the time kept for a request with an id is that of its first lookup,
-- or the one that was kept before them.
pub earliest_first :
    (r : String) (lookups : List (Option String × ℕ)) (s : TransferState)
    → r ≢ ""
    → earliest_for (some r) (remember_all lookups s)
      ≡ first_time (earliest_for (some r) s) (first_lookup r lookups)
unfolding remember_all first_lookup
earliest_first r [] s h = ground arith
earliest_first r ((none, ts) ∷ lookups) s h =
    let rest = earliest_first r lookups (remember_earliest none ts s) h in
    let first = earliest-step r none ts s h in ground (arith, rest, first)
earliest_first r ((some id, ts) ∷ lookups) s h =
    let rest = earliest_first r lookups (remember_earliest (some id) ts s) h in
    let first = earliest-step r (some id) ts s h in ground (arith, rest, first)
