-- ===== src/Validator/Tracking.antt =====
-- The tables of scripts/validate_traces.py against the records that they were built from.
use mathlib.Core.Path.{subst}
use beyond_kvtransfer.Base.{
  ◌≡◌, refl, Bool, true, false, Option, none, some, [], ◌&&◌, ◌||◌, not, if◌then◌else◌, string_eq,
  arith, Bool-cases, inl, inr, ◌==◌, ==_iff, ◌⊎◌,
}
use beyond_kvtransfer.Base.Dict.{Dict, get, set, or_else, get-set}
use beyond_kvtransfer.Base.Dict.Distinct.{Distinct, set-Distinct}
use beyond_kvtransfer.Value.{Rec, is_text}
use beyond_kvtransfer.Value.Key.{Key, key_of, key_eq, truthy}
use beyond_kvtransfer.Validator.{Flags, no_flags, Table, Lifecycle, field_or, mark, note, track}

-- the entry of an id of a trace
unfoldable pub flags_at : Table → Key → Key → Flags
flags_at table trace id = or_else (get id (or_else (get trace table) [])) no_flags

-- the trace and the id that a record tracks
unfoldable pub tracked : Lifecycle → Rec → Option (Key × Key)
tracked c r =
    if is_text c.record_type (some (field_or "type" "" r)) && truthy (field_or c.id_field "" r)
    then elim (key_of (field_or "trace_id" "__unknown__" r)) [
      | none ↦ none
      | some trace ↦ elim (key_of (field_or c.id_field "" r)) [
        | none ↦ none
        | some id ↦ some (trace, id)
      ]
    ]
    else none

unfoldable pub is_opening : Lifecycle → Rec → Bool
is_opening c r = is_text c.opening (some (field_or "subtype" "" r))

unfoldable pub is_closing : Lifecycle → Rec → Bool
is_closing c r =
    let subtype = some (field_or "subtype" "" r) in
    is_text c.closing subtype || is_text c.cancelling subtype

unfoldable pub at_key : Option (Key × Key) → Key → Key → Bool
at_key none trace id = false
at_key (some (t, i)) trace id = t == trace && i == id

-- a record that opens this id of this trace, and one that closes it
unfoldable pub opens : Lifecycle → Key → Key → Rec → Bool
unfolding at_key
opens c trace id r = at_key (tracked c r) trace id && is_opening c r

unfoldable pub closes : Lifecycle → Key → Key → Rec → Bool
unfolding at_key
closes c trace id r = at_key (tracked c r) trace id && not (is_opening c r) && is_closing c r

flags_at-note :
    (c : Lifecycle) (r : Rec) (t i trace id : Key) (table : Table)
    → flags_at (note c r t i table) trace id ≡ (
        if t == trace && i == id
        then mark c r (flags_at table trace id)
        else flags_at table trace id)
unfolding flags_at note
flags_at-note c r t i trace id table =
    let entries = or_else (get t table) [] in
    let entry = mark c r (or_else (get i entries) no_flags) in
    let outer = get-set trace t (set i entry entries) table in
    let inner = get-set id i entry entries in
    ground (arith, outer, inner, ==_iff t trace, ==_iff i id)

-- what a record adds to the flags of an id
pub record Adds (c : Lifecycle) (r : Rec) (trace id : Key) (before after : Flags) : Type 0 where
  pub opened : after.opened ≡ (before.opened || opens c trace id r)
  pub closed : after.closed ≡ (before.closed || closes c trace id r)

Adds-mark :
    (c : Lifecycle) (r : Rec) (t i trace id : Key) (f : Flags)
    → tracked c r ≡ some (t, i)
    → Adds c r trace id f (if t == trace && i == id then mark c r f else f)
unfolding opens closes mark is_opening is_closing
Adds-mark c r t i trace id f h = record { opened = ground arith; closed = ground arith }

Adds-none :
    (c : Lifecycle) (r : Rec) (trace id : Key) (f : Flags)
    → tracked c r ≡ none
    → Adds c r trace id f f
unfolding opens closes
Adds-none c r trace id f h = record { opened = ground arith; closed = ground arith }

-- a record that is tracked without an error is tracked at one key, or not at all
track_inv :
    (c : Lifecycle) (r : Rec) (table table' : Table)
    → track c r table ≡ some table'
    → ((tracked c r ≡ none) × (table' ≡ table))
      ⊎ ((t : Key) × (i : Key) × (tracked c r ≡ some (t, i)) × (table' ≡ note c r t i table))
unfolding track tracked
track_inv c r table table' =
    inverted (is_text c.record_type (some (field_or "type" "" r)))
      (truthy (field_or c.id_field "" r)) (key_of (field_or "trace_id" "__unknown__" r))
      (key_of (field_or c.id_field "" r))
  where
    inverted :
        (relevant named : Bool) (trace id : Option Key)
        → (if relevant
            then (if named
                then elim trace [
                  | none ↦ none
                  | some t ↦ elim id [ none ↦ none | some i ↦ some (note c r t i table) ]
                ]
                else some table)
            else some table)
          ≡ some table'
        → let key : Option (Key × Key) =
            if relevant && named
            then elim trace [
              | none ↦ none
              | some t ↦ elim id [ none ↦ none | some i ↦ some (t, i) ]
            ]
            else none in
          ((key ≡ none) × (table' ≡ table))
          ⊎ ((t : Key) × (i : Key) × (key ≡ some (t, i)) × (table' ≡ note c r t i table))
    inverted false named trace id h = inl (refl, cc)
    inverted true false trace id h = inl (refl, cc)
    inverted true true none id h = cc
    inverted true true (some t) none h = cc
    inverted true true (some t) (some i) h = inr (t, i, refl, cc)

pub track-Adds :
    (c : Lifecycle) (r : Rec) (table table' : Table) (trace id : Key)
    → track c r table ≡ some table'
    → Adds c r trace id (flags_at table trace id) (flags_at table' trace id)
track-Adds c r table table' trace id h = elim (track_inv c r table table' h) [
  | inl (out, same) ↦ rw same (Adds-none c r trace id (flags_at table trace id) out)
  | inr (t, i, at, noted) ↦
      rw (noted, flags_at-note) (Adds-mark c r t i trace id (flags_at table trace id) at)
]

-- a table with no key twice, at either level
pub record DistinctTable (table : Table) : Type 0 where
  pub traces : Distinct table
  pub ids :
      (trace : Key) (entries : Dict Key Flags) → get trace table ≡ some entries → Distinct entries

pub DistinctTable-empty : DistinctTable []
unfolding get
DistinctTable-empty = record { traces = tt; ids = λ trace entries h. cc }

or_else-Distinct :
    (o : Option (Dict Key Flags))
    → ((entries : Dict Key Flags) → o ≡ some entries → Distinct entries)
    → Distinct (or_else o [])
or_else-Distinct none h = tt
or_else-Distinct (some d) h = h d refl

note-DistinctTable :
    (c : Lifecycle) (r : Rec) (t i : Key) (table : Table)
    → DistinctTable table
    → DistinctTable (note c r t i table)
unfolding note
note-DistinctTable c r t i table d =
    let entries = or_else (get t table) [] in
    let entry = mark c r (or_else (get i entries) no_flags) in
    let entries' = set i entry entries in
    let fresh : Distinct entries' =
      set-Distinct i entry entries (or_else-Distinct (get t table) (d.ids t)) in
    record {
      traces = set-Distinct t entries' table d.traces;
      ids = λ trace found h. elim (Bool-cases (t == trace)) [
        | inl here ↦
            let same : some entries' ≡ some found = rw (get-set, here) at h in
            let equal : entries' ≡ found = cc in subst (λ e. Distinct e) equal fresh
        | inr there ↦ d.ids trace found (rw (get-set, there) at h)
      ];
    }

pub track-DistinctTable :
    (c : Lifecycle) (r : Rec) (table table' : Table)
    → track c r table ≡ some table'
    → DistinctTable table
    → DistinctTable table'
track-DistinctTable c r table table' h d = elim (track_inv c r table table' h) [
  | inl (out, same) ↦ rw same d
  | inr (t, i, at, noted) ↦ rw noted (note-DistinctTable c r t i table d)
]
