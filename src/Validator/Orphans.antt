-- ===== src/Validator/Orphans.antt =====
-- The orphan reports of scripts/validate_traces.py, in terms of the records alone.
use mathlib.Core.Bool.{false≢true}
use beyond_kvtransfer.Base.{
  ◌≡◌, refl, Bool, true, false, Option, none, some, List, [], ◌∷◌, ◌||◌, string_eq, arith, any_by,
  Option-cases, bind-eq-some, inl, inr, ◌↔◌, ◌∙◌, sym,
}
use beyond_kvtransfer.Base.Dict.{Dict, get, or_else}
use beyond_kvtransfer.Base.Dict.Distinct.{sum_values, sum_zero_get, get_sum_zero}
use beyond_kvtransfer.Value.{Rec}
use beyond_kvtransfer.Value.Key.{Key, key_eq}
use beyond_kvtransfer.Validator.{
  Validators, Line, unparsed, parsed, Flags, no_flags, Table, Lifecycle, transfers, requests, Tally,
  track, validate_line, validate_lines, orphan_flag, orphans,
}
use beyond_kvtransfer.Validator.Tracking.{
  flags_at, opens, closes, track-Adds, DistinctTable, DistinctTable-empty, track-DistinctTable,
}

-- the records of the lines that json.loads accepted
unfoldable pub records_of : List Line → List Rec
records_of [] = []
records_of (unparsed ∷ lines) = records_of lines
records_of (parsed r ∷ lines) = r ∷ records_of lines

-- every id that some record opens is closed by some record
abbrev pub IsPaired : Lifecycle → List Rec → Type 0
IsPaired c rs =
    (trace id : Key) → any_by (opens c trace id) rs ≡ true → any_by (closes c trace id) rs ≡ true

-- the table holds, for each id, what the records say of it
pub record Describes (c : Lifecycle) (table : Table) (before : Table) (rs : List Rec) : Type 0 where
  pub distinct : DistinctTable table
  pub opened :
      (trace id : Key)
      → (flags_at table trace id).opened
        ≡ ((flags_at before trace id).opened || any_by (opens c trace id) rs)
  pub closed :
      (trace id : Key)
      → (flags_at table trace id).closed
        ≡ ((flags_at before trace id).closed || any_by (closes c trace id) rs)

-- the tracking of one pairing over all records
unfoldable pub track_all : Lifecycle → List Rec → Table → Option Table
track_all c [] table = some table
track_all c (r ∷ rs) table = elim (track c r table) [
  | none ↦ none
  | some table' ↦ track_all c rs table'
]

or_shift : (a b c d : Bool) → b ≡ (a || c) → (b || d) ≡ (a || (c || d))
or_shift a b c d h = ground arith

or_false : (a : Bool) → a ≡ (a || false)
or_false a = ground arith

pub track_all-Describes :
    (c : Lifecycle) (rs : List Rec) (table table' : Table)
    → DistinctTable table
    → track_all c rs table ≡ some table'
    → Describes c table' table rs
unfolding track_all any_by
track_all-Describes c [] table table' d h =
    let same : table ≡ table' = cc in
    rw (← same)
      (record { distinct = d; opened = λ trace id. or_false _; closed = λ trace id. or_false _ })
track_all-Describes c (r ∷ rs) table table' d h =
    let (next, fine, go) = bind-eq-some (track c r table) (λ t. track_all c rs t) h in
    let rest =
      track_all-Describes c rs next table' (track-DistinctTable c r table next fine d) go in
    record {
      distinct = rest.distinct;
      opened = λ trace id.
          rest.opened trace id ∙ or_shift _ _ _ _ (track-Adds c r table next trace id fine).opened;
      closed = λ trace id.
          rest.closed trace id ∙ or_shift _ _ _ _ (track-Adds c r table next trace id fine).closed;
    }

module _ (validators : Validators) (use_schema : Bool) where
  -- one parsed line tracks both pairings and counts its errors
  line_inv :
      (r : Rec) (t t' : Tally)
      → validate_line validators use_schema (parsed r) t ≡ some t'
      → (track transfers r t.transfer_state ≡ some t'.transfer_state)
        × (track requests r t.request_state ≡ some t'.request_state)
  unfolding validate_line
  line_inv r t t' h = ground arith

  unparsed_inv :
      (t t' : Tally)
      → validate_line validators use_schema unparsed t ≡ some t'
      → (t.transfer_state ≡ t'.transfer_state) × (t.request_state ≡ t'.request_state)
  unfolding validate_line
  unparsed_inv t t' h = ground arith

  pub lines_tracked :
      (lines : List Line) (t t' : Tally)
      → validate_lines validators use_schema lines t ≡ some t'
      → (track_all transfers (records_of lines) t.transfer_state ≡ some t'.transfer_state)
        × (track_all requests (records_of lines) t.request_state ≡ some t'.request_state)
  unfolding validate_lines records_of track_all
  lines_tracked [] t t' h = ground arith
  lines_tracked (unparsed ∷ lines) t t' h =
      let (next, fine, go) = bind-eq-some _ (validate_lines validators use_schema lines) h in
      let (same_ts, same_rs) = unparsed_inv t next fine in
      let rest = lines_tracked lines next t' go in (rw same_ts rest.0, rw same_rs rest.1)
  lines_tracked (parsed r ∷ lines) t t' h =
      let (next, fine, go) = bind-eq-some _ (validate_lines validators use_schema lines) h in
      let first = line_inv r t next fine in
      let rest = lines_tracked lines next t' go in
      (rw (first.0, track_all) rest.0, rw (first.1, track_all) rest.1)

flags_at-empty : (trace id : Key) → flags_at [] trace id ≡ no_flags
unfolding flags_at get
flags_at-empty trace id = refl

flags_at-entry :
    (table : Table) (trace id : Key) (entries : Dict Key Flags)
    → get trace table ≡ some entries
    → flags_at table trace id ≡ or_else (get id entries) no_flags
unfolding flags_at
flags_at-entry table trace id entries h = rw h refl

-- an entry that is counted is that of an id opened and not closed
flag_zero : (f : Flags) → (orphan_flag f ≡ 0) ↔ (f.opened ≡ true → f.closed ≡ true)
flag_zero f = ground arith

closed_entry :
    (table : Table) (trace id : Key)
    → orphans table ≡ 0
    → (flags_at table trace id).opened ≡ true
    → (flags_at table trace id).closed ≡ true
unfolding orphans get
closed_entry table trace id z = elim (Option-cases (get trace table)) [
  | inl out ↦ unfold flags_at in rw (out, get) (λ h. absurd (false≢true h))
  | inr (entries, at) ↦
      let zero_entries = sum_zero_get (sum_values orphan_flag) table z trace entries at in
      rw (flags_at-entry table trace id entries at)
        (in_entries entries zero_entries (get id entries) refl)
]
  where
    in_entries :
        (entries : Dict Key Flags)
        → sum_values orphan_flag entries ≡ 0
        → (o : Option Flags) → get id entries ≡ o
        → (or_else o no_flags).opened ≡ true
        → (or_else o no_flags).closed ≡ true
    in_entries entries z none e h = absurd (false≢true h)
    in_entries entries z (some f) e h =
        (flag_zero f).0 (sum_zero_get orphan_flag entries z id f e) h

-- the report of a table counts nothing exactly when every id opened is closed
pub orphans-zero :
    (table : Table)
    → DistinctTable table
    → (orphans table ≡ 0) ↔ (
        (trace id : Key)
        → (flags_at table trace id).opened ≡ true
        → (flags_at table trace id).closed ≡ true)
orphans-zero table d = (λ z trace id. closed_entry table trace id z, unfold orphans in all_closed)
  where
    all_closed :
        ((trace id : Key)
          → (flags_at table trace id).opened ≡ true
          → (flags_at table trace id).closed ≡ true)
        → sum_values (sum_values orphan_flag) table ≡ 0
    all_closed h = get_sum_zero (sum_values orphan_flag) table d.traces (λ trace entries at.
        get_sum_zero orphan_flag entries (d.ids trace entries at) (λ id f found.
          let flags : flags_at table trace id ≡ f =
            flags_at-entry table trace id entries at ∙ rw found refl in
          (flag_zero f).1 (rw flags at (h trace id))))

-- after all the records, the report of a pairing is empty exactly when the records are paired
pub track_all-IsPaired :
    (c : Lifecycle) (rs : List Rec) (table : Table)
    → track_all c rs [] ≡ some table
    → (orphans table ≡ 0) ↔ IsPaired c rs
track_all-IsPaired c rs table h =
    let d = track_all-Describes c rs [] table DistinctTable-empty h in
    let zero = orphans-zero table d.distinct in
    let opened : (trace id : Key)
        → (flags_at table trace id).opened ≡ any_by (opens c trace id) rs =
      λ trace id. d.opened trace id ∙ rw flags_at-empty refl in
    let closed : (trace id : Key)
        → (flags_at table trace id).closed ≡ any_by (closes c trace id) rs =
      λ trace id. d.closed trace id ∙ rw flags_at-empty refl in
    (
      λ z trace id h. sym (closed trace id) ∙ zero.0 z trace id (opened trace id ∙ h),
      λ paired.
          zero.1 (λ trace id h. closed trace id ∙ paired trace id (sym (opened trace id) ∙ h)),
    )
