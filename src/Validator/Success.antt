-- ===== src/Validator/Success.antt =====
-- When scripts/validate_traces.py succeeds, in terms of the lines alone.
use mathlib.Core.Option.{some-injective}
use beyond_kvtransfer.Base.{
  ℕ, ◌+◌, ◌≡◌, refl, String, Bool, true, false, Option, none, some, List, [], ◌∷◌, ◌&&◌, not,
  if◌then◌else◌, is_empty, string_eq, arith, bind-eq-some, ◌↔◌, ◌∙◌, sym, ap, Bool-cases,
  Option-cases, inl, inr,
}
use beyond_kvtransfer.Base.Dict.{has, get}
use beyond_kvtransfer.Value.{Rec}
use beyond_kvtransfer.Value.Key.{is_one}
use beyond_kvtransfer.Validator.{
  Validators, Line, unparsed, parsed, transfers, requests, Tally, no_tally, missing, envelope,
  validate_schema, record_errors, validate_line, validate_lines, validate_files, orphans, exit_code,
}
use beyond_kvtransfer.Validator.Orphans.{IsPaired, records_of, lines_tracked, track_all-IsPaired}

-- the record has each of these fields
abbrev pub HasAll : List String → Rec → Type 0
HasAll [] r = Unit
HasAll (k ∷ ks) r = (has k r ≡ true) × HasAll ks r

-- A line that json.loads reads, whose record has the version 1 and the fields of the envelope, and
-- with which jsonschema, where it is in use, finds nothing wrong.
abbrev pub IsClean : Validators → Bool → Line → Type 0
IsClean validators use_schema unparsed = ⊥
IsClean validators use_schema (parsed r) =
    (is_one (get "v" r) ≡ true)
    × HasAll envelope r
    × ((use_schema && not (is_empty validators)) ≡ true → validate_schema validators r ≡ some 0)

abbrev pub AllClean : Validators → Bool → List Line → Type 0
AllClean validators use_schema [] = Unit
AllClean validators use_schema (line ∷ lines) =
    IsClean validators use_schema line × AllClean validators use_schema lines

missing-zero : (ks : List String) (r : Rec) → (missing ks r ≡ 0) ↔ HasAll ks r
unfolding missing
missing-zero [] r = (λ h. tt, λ h. refl)
missing-zero (k ∷ ks) r =
    let rest = missing-zero ks r in
    elim (Bool-cases (has k r)) [
      | inl here ↦
          (λ z. (here, rest.0 (ground (arith, here, z))), λ h. rw here (ground (arith, rest.1 h.1)))
      | inr gone ↦ (λ z. absurd (ground (arith, gone, z)), λ h. absurd (ground (arith, gone, h.0)))
    ]

own-zero :
    (r : Rec)
    → ((if is_one (get "v" r) then 0 else 1) + missing envelope r ≡ 0)
      ↔ ((is_one (get "v" r) ≡ true) × HasAll envelope r)
own-zero r =
    let all = missing-zero envelope r in
    elim (Bool-cases (is_one (get "v" r))) [
      | inl is ↦ rw is (λ z. (refl, all.0 (omega (arith, z))), λ h. omega (arith, all.1 h.1))
      | inr isnt ↦ rw isnt (λ z. absurd (omega (arith, z)), λ h. absurd cc)
    ]

with_schema :
    (used : Bool) (o : Option ℕ) (own n : ℕ)
    → (if used then elim o [ none ↦ none | some k ↦ some (own + k) ] else some own) ≡ some n
    → (n ≡ 0) ↔ ((own ≡ 0) × (used ≡ true → o ≡ some 0))
with_schema true none own n h = absurd cc
with_schema true (some k) own n h =
    let sum : own + k ≡ n = some-injective _ _ h in
    (
      λ z. (omega (arith, sum, z), λ u. ap some (omega (arith, sum, z))),
      λ (z, all). omega (arith, sum, z, some-injective k 0 (all refl)),
    )
with_schema false o own n h =
    let same : own ≡ n = some-injective _ _ h in
    (λ z. (same ∙ z, λ u. absurd cc), λ z. sym same ∙ z.0)

module _ (validators : Validators) (use_schema : Bool) where
  record_errors-zero :
      (r : Rec) (n : ℕ)
      → record_errors validators use_schema r ≡ some n
      → (n ≡ 0) ↔ IsClean validators use_schema (parsed r)
  unfolding record_errors
  record_errors-zero r n h =
      let own = own-zero r in
      let both =
        with_schema (use_schema && not (is_empty validators)) (validate_schema validators r) _ n
          h in
      (
        λ z. let (zero, schema) = both.0 z in let (one, all) = own.0 zero in (one, all, schema),
        λ (one, all, schema). both.1 (own.1 (one, all), schema),
      )

  parsed_errors :
      (r : Rec) (t t' : Tally)
      → validate_line validators use_schema (parsed r) t ≡ some t'
      → (n : ℕ) × (record_errors validators use_schema r ≡ some n)
        × (t'.total_errors ≡ t.total_errors + n)
  unfolding validate_line
  parsed_errors r t t' h = elim (Option-cases (record_errors validators use_schema r)) [
    | inl out ↦ absurd (ground (arith, out, h))
    | inr (n, at) ↦ (n, at, ground (arith, at, h))
  ]

  unparsed_errors :
      (t t' : Tally)
      → validate_line validators use_schema unparsed t ≡ some t'
      → t'.total_errors ≡ t.total_errors + 1
  unfolding validate_line
  unparsed_errors t t' h = ground arith

  line_errors :
      (line : Line) (t t' : Tally)
      → validate_line validators use_schema line t ≡ some t'
      → (t'.total_errors ≡ 0) ↔ ((t.total_errors ≡ 0) × IsClean validators use_schema line)
  line_errors unparsed t t' h =
      let more = unparsed_errors t t' h in (λ z. absurd (omega (arith, more, z)), λ h. absurd h.1)
  line_errors (parsed r) t t' h =
      let (n, at, sum) = parsed_errors r t t' h in
      let own = record_errors-zero r n at in
      (
        λ z. (omega (arith, sum, z), own.0 (omega (arith, sum, z))),
        λ (z, clean). omega (arith, sum, z, own.1 clean),
      )

  lines_errors :
      (lines : List Line) (t t' : Tally)
      → validate_lines validators use_schema lines t ≡ some t'
      → (t'.total_errors ≡ 0) ↔ ((t.total_errors ≡ 0) × AllClean validators use_schema lines)
  unfolding validate_lines
  lines_errors [] t t' h =
      let same : t.total_errors ≡ t'.total_errors =
        ap (λ x. x.total_errors) (some-injective t t' h) in
      (λ z. (same ∙ z, tt), λ h. sym same ∙ h.0)
  lines_errors (line ∷ lines) t t' h =
      let (next, fine, go) = bind-eq-some _ (validate_lines validators use_schema lines) h in
      let first = line_errors line t next fine in
      let rest = lines_errors lines next t' go in
      (
        λ z.
            let (before, later) = rest.0 z in
            let (zero, clean) = first.0 before in (zero, (clean, later)),
        λ (zero, both). rest.1 (first.1 (zero, both.0), both.1),
      )

exit_code-zero :
    (t : Tally)
    → (exit_code true t ≡ 0)
      ↔ ((t.total_errors ≡ 0) × (orphans t.transfer_state ≡ 0) × (orphans t.request_state ≡ 0))
unfolding exit_code
exit_code-zero t = ground arith

-- With --strict, the script succeeds on lines that it can read exactly when each line is JSON, has
-- the version 1 and the fields of the envelope and no schema error, every transfer that is started is
-- ended or cancelled, and every request that arrives is finished or aborted, by a record of the same
-- trace.
pub validate_files-succeeds :
    (validators : Validators) (use_schema : Bool) (lines : List Line) (t : Tally)
    → validate_lines validators use_schema lines no_tally ≡ some t
    → (validate_files validators use_schema true lines ≡ some 0) ↔ (
        AllClean validators use_schema lines
        × IsPaired transfers (records_of lines)
        × IsPaired requests (records_of lines))
unfolding validate_files
validate_files-succeeds validators use_schema lines t h =
    let (ts, rs) = lines_tracked validators use_schema lines no_tally t h in
    let both_ts = track_all-IsPaired transfers (records_of lines) t.transfer_state ts in
    let both_rs = track_all-IsPaired requests (records_of lines) t.request_state rs in
    let errors = lines_errors validators use_schema lines no_tally t h in
    let code = exit_code-zero t in
    rw (validate_files, h)
      (
        λ e.
            let (none_wrong, a, b) = code.0 (some-injective (exit_code true t) 0 e) in
            ((errors.0 none_wrong).1, both_ts.0 a, both_rs.0 b),
        λ (clean, a, b). ap some (code.1 (errors.1 (refl, clean), both_ts.1 a, both_rs.1 b)),
      )
