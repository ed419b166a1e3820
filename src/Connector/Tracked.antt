-- ===== src/Connector/Tracked.antt =====
-- The book of the connector wrapper against the open transfers of the emitter.
use mathlib.Core.Path.{subst}
use beyond_kvtransfer.Base.{
  ℕ, ◌≡◌, ◌⊎◌, refl, String, Bool, true, false, Option, none, some, List, [], ◌∷◌, ◌++◌, ◌||◌,
  string_eq, opt_int_eq, ◌==◌, ==_iff, any_by, any_by-append, ℤ, ◌∙◌, arith, Bool-cases,
  Option-cases, inl, inr,
}
use beyond_kvtransfer.Base.Dict.{Dict, get, set, remove, has, or_else}
use beyond_kvtransfer.Base.Dict.Distinct.{Distinct, set-Distinct, remove-Distinct}
use beyond_kvtransfer.Value.{Float}
use beyond_kvtransfer.Emitter.State.{Emitter}
use beyond_kvtransfer.Emitter.Probe.{StartArgs, EndArgs, transfer_start, transfer_end}
use beyond_kvtransfer.Emitter.Run.Live.{opened_by, Tracks-start, Tracks-finish}
use beyond_kvtransfer.Connector.{
  Entry, TransferState, add_load, pop_loads, pop_unassigned, add_save, pop_saves,
}
use beyond_kvtransfer.Connector.Calls.{end_all}

-- whether a transfer is open in the emitter
unfoldable pub is_live : String → Emitter → Bool
is_live tid em = has tid em.live_transfers

pub start-is_live :
    (tid : String) (t : ℕ) (id : String) (draw : Float) (ts : ℕ) (a : StartArgs) (em : Emitter)
    → em.enabled ≡ true
    → is_live tid (transfer_start t id draw ts a em) ≡ true
    → (id == tid ≡ true) ⊎ (is_live tid em ≡ true)
unfolding is_live opened_by
start-is_live tid t id draw ts a em on h =
    let tracks = Tracks-start tid t id draw ts a em on in ground (arith, tracks.live)

pub end-is_live :
    (tid : String) (t : ℕ) (id : String) (ts : ℕ) (a : EndArgs) (em : Emitter)
    → em.enabled ≡ true
    → is_live tid (transfer_end t id ts a em) ≡ true
    → (id == tid ≡ false) × (is_live tid em ≡ true)
unfolding is_live opened_by
end-is_live tid t id ts a em on h =
    let tracks = Tracks-finish tid t id ts a em on in ground (arith, tracks.live)

-- whether an entry is that of a transfer
unfoldable pub is_of : String → Entry → Bool
is_of tid entry = entry.transfer_id == tid

pub end_all-is_live :
    (tid : String) (t : ℕ) (clock : String → ℕ) (args : Entry → EndArgs) (entries : List Entry)
    (em : Emitter)
    → em.enabled ≡ true
    → is_live tid (end_all t clock args entries em) ≡ true
    → (any_by (is_of tid) entries ≡ false) × (is_live tid em ≡ true)
unfolding end_all any_by is_of
end_all-is_live tid t clock args [] em on h = (refl, h)
end_all-is_live tid t clock args (entry ∷ entries) em on h =
    let id = entry.transfer_id in
    let next = transfer_end t id (clock id) (args entry) em in
    let tracks = Tracks-finish tid t id (clock id) (args entry) em on in
    let (rest, live) = end_all-is_live tid t clock args entries next (tracks.enabled ∙ on) h in
    let (other, before) = end-is_live tid t id (clock id) (args entry) em on live in
    (rw (other, rest) refl, before)

-- the entries of the loads, and those of the saves, have a transfer
unfoldable pub in_loads : String → Dict (Option ℤ) (List Entry) → Bool
in_loads tid [] = false
in_loads tid ((layer, entries) ∷ loads) = any_by (is_of tid) entries || in_loads tid loads

unfoldable pub is_pending : String → TransferState → Bool
is_pending tid s = in_loads tid s.loads_by_layer || any_by (is_of tid) s.saves

in_loads-set :
    (tid : String) (layer : Option ℤ) (entry : Entry) (loads : Dict (Option ℤ) (List Entry))
    → in_loads tid (set layer (or_else (get layer loads) [] ++ entry ∷ []) loads)
      ≡ (in_loads tid loads || is_of tid entry)
unfolding in_loads set get any_by
in_loads-set tid layer entry [] = ground arith
in_loads-set tid layer entry ((l, es) ∷ loads) =
    ground (arith, in_loads-set tid layer entry loads, any_by-append (is_of tid) es (entry ∷ []))

in_loads-get :
    (tid : String) (layer : Option ℤ) (loads : Dict (Option ℤ) (List Entry))
    → get layer loads ≡ none
    → in_loads tid (remove layer loads) ≡ in_loads tid loads
unfolding in_loads remove get
in_loads-get tid layer [] h = refl
in_loads-get tid layer ((l, es) ∷ loads) h = ground (arith, in_loads-get tid layer loads)

in_loads-remove :
    (tid : String) (layer : Option ℤ) (loads : Dict (Option ℤ) (List Entry))
    → Distinct loads
    → in_loads tid loads
      ≡ (any_by (is_of tid) (or_else (get layer loads) []) || in_loads tid (remove layer loads))
unfolding in_loads remove get any_by
in_loads-remove tid layer [] d = refl
in_loads-remove tid layer ((l, es) ∷ loads) d = elim (Bool-cases (l == layer)) [
  | inl here ↦
      let fresh : get layer loads ≡ none =
        subst (λ k. get k loads ≡ none) ((==_iff l layer).0 here) d.0 in
      rw (here, in_loads-get tid layer loads fresh) refl
  | inr there ↦ let rest = in_loads-remove tid layer loads d.1 in ground (arith, rest, there)
]

-- an operation that books an entry
pub record Adds (entry : Entry) (keep : TransferState → TransferState) : Type 0 where
  pub pending :
      (tid : String) (s : TransferState)
      → is_pending tid (keep s) ≡ (is_pending tid s || is_of tid entry)
  pub distinct : (s : TransferState) → Distinct s.loads_by_layer → Distinct (keep s).loads_by_layer

pub add_load-Adds : (layer : Option ℤ) (entry : Entry) → Adds entry (add_load layer entry)
unfolding add_load is_pending
add_load-Adds layer entry = record {
  pending =
      λ tid s. let loads = in_loads-set tid layer entry s.loads_by_layer in ground (arith, loads);
  distinct = λ s d. set-Distinct layer _ s.loads_by_layer d;
}

pub add_save-Adds : (entry : Entry) → Adds entry (add_save entry)
unfolding add_save is_pending any_by
add_save-Adds entry = record {
  pending = λ tid s. ground (arith, any_by-append (is_of tid) s.saves (entry ∷ []));
  distinct = λ s d. d;
}

-- an operation that takes entries out of the book
pub record Takes (pop : TransferState → List Entry × TransferState) : Type 0 where
  pub pending :
      (tid : String) (s : TransferState)
      → Distinct s.loads_by_layer
      → is_pending tid s ≡ (any_by (is_of tid) (pop s).0 || is_pending tid (pop s).1)
  pub distinct : (s : TransferState) → Distinct s.loads_by_layer → Distinct (pop s).1.loads_by_layer

pub pop_saves-Takes : Takes pop_saves
unfolding pop_saves is_pending any_by
pop_saves-Takes = record { pending = λ tid s d. ground arith; distinct = λ s d. d }

-- what a pop of one layer gives, by what the book has there
taken_at : Option ℤ → TransferState → List Entry × TransferState
taken_at layer s = elim (get layer s.loads_by_layer) [
  | none ↦ ([], s)
  | some loads ↦ (loads, record s { loads_by_layer = remove layer s.loads_by_layer })
]

taken_at-Takes : (layer : Option ℤ) → Takes (taken_at layer)
unfolding taken_at is_pending any_by
taken_at-Takes layer = record {
  pending = λ tid s d. ground (arith, in_loads-remove tid layer s.loads_by_layer d);
  distinct = λ s d. kept s d (get layer s.loads_by_layer);
}
  where
    kept :
        (s : TransferState)
        → Distinct s.loads_by_layer
        → (o : Option (List Entry))
        → let s' : TransferState =
            (elim o as (λ x. List Entry × TransferState) [
              | none ↦ ([], s)
              | some loads ↦ (loads, record s { loads_by_layer = remove layer s.loads_by_layer })
            ]).1 in
          Distinct s'.loads_by_layer
    kept s d none = d
    kept s d (some loads) = remove-Distinct layer s.loads_by_layer d

-- `pop_loads` takes from the layer, or from no layer, or nothing
pop_loads-cases :
    (layer : Option ℤ) (s : TransferState)
    → (pop_loads layer s ≡ taken_at layer s)
      ⊎ (pop_loads layer s ≡ taken_at none s)
      ⊎ (pop_loads layer s ≡ ([], s))
unfolding pop_loads pop_unassigned taken_at
pop_loads-cases none s = elim (Option-cases (get none s.loads_by_layer)) [
  | inl out ↦ inr (inr (rw (pop_loads, out) refl))
  | inr (loads, found) ↦ inl (rw (pop_loads, taken_at, found) refl)
]
pop_loads-cases (some n) s = elim (Option-cases (get (some n) s.loads_by_layer)) [
  | inr (loads, found) ↦ inl (rw (pop_loads, taken_at, found) refl)
  | inl out ↦ elim (Option-cases (get none s.loads_by_layer)) [
    | inl none_out ↦ inr (inr (rw (pop_loads, out, pop_unassigned, none_out) refl))
    | inr (loads, found) ↦ inr (inl (rw (pop_loads, taken_at, out, pop_unassigned, found) refl))
  ]
]

none_taken : Takes (λ s. ([], s))
unfolding any_by
none_taken = record { pending = λ tid s d. refl; distinct = λ s d. d }

pub pop_loads-Takes : (layer : Option ℤ) → Takes (pop_loads layer)
pop_loads-Takes layer = record {
  pending = λ tid s d. elim (pop_loads-cases layer s) [
    | inl own ↦ rw own ((taken_at-Takes layer).pending tid s d)
    | inr (inl unassigned) ↦ rw unassigned ((taken_at-Takes none).pending tid s d)
    | inr (inr nothing) ↦ rw nothing (none_taken.pending tid s d)
  ];
  distinct = λ s d. elim (pop_loads-cases layer s) [
    | inl own ↦ rw own ((taken_at-Takes layer).distinct s d)
    | inr (inl unassigned) ↦ rw unassigned ((taken_at-Takes none).distinct s d)
    | inr (inr nothing) ↦ rw nothing d
  ];
}
