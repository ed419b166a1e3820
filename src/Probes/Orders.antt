-- ===== src/Probes/Orders.antt =====
-- Two relations that the probes respect: the open transfers stay, and so do the first times that the
-- tracker keeps of a request.
use beyond_kvtransfer.Base.{
  ◌≡◌, ◌⊎◌, inl, inr, refl, ◌∙◌, ap, sym, String, true, false, none, some, ◌==◌, ==_iff, string_eq,
  arith, Bool-cases, if◌then◌else◌,
}
use beyond_kvtransfer.Base.Dict.{get, set, has, get-set, get-update_absent}
use beyond_kvtransfer.Value.{Value, Rec}
use beyond_kvtransfer.Emitter.Run.Live.{Untouched, Untouched-event}
use beyond_kvtransfer.Tracker
use beyond_kvtransfer.Tracker.{States}
use beyond_kvtransfer.Tracker.Laws.{state-set_if_absent, state-update, state-pop}
use beyond_kvtransfer.Probes.{Process}
use beyond_kvtransfer.Probes.Keeps.{Order, NoFirsts}

-- the open transfers, the sampler and the switch of the emitter are as before
abbrev pub Quiet : Process → Process → Type 0
Quiet p q = Untouched p.em q.em

unfoldable pub quiet : Order
quiet = record {
  rel = Quiet;
  same = λ p. record { enabled = refl; sampler = refl; live = refl };
  chain = λ p q r a b. record {
    enabled = b.enabled ∙ a.enabled;
    sampler = b.sampler ∙ a.sampler;
    live = b.live ∙ a.live;
  };
  ticked = λ p n. record { enabled = refl; sampler = refl; live = refl };
  stepped = λ p n. record { enabled = refl; sampler = refl; live = refl };
  emitted = λ t r p. Untouched-event t r p.em;
  merged = λ request_id fields p h. record { enabled = refl; sampler = refl; live = refl };
  takes = λ key. true;
  offered = λ request_id key v p t. record { enabled = refl; sampler = refl; live = refl };
}

-- the keys of the first times
abbrev pub IsFirst : String → Type 0
IsFirst key = (key ≡ "first_schedule_ts_ns") ⊎ (key ≡ "first_token_ts_ns")

-- a first time that the tracker has of the request `r` stays as it is
pub record FirstsKept (r : String) (s s' : States) : Type 0 where
  pub kept :
      (key : String) (v : Value)
      → IsFirst key
      → get key (Tracker.state_of r s) ≡ some v
      → get key (Tracker.state_of r s') ≡ some v

-- a key that is there is not set again
kept-offered :
    (key k : String) (v w : Value) (state : Rec)
    → get k state ≡ some w
    → get k (if has key state then state else set key v state) ≡ some w
kept-offered key k v w state h = elim (Bool-cases (has key state)) [
  | inl there ↦ rw there h
  | inr absent ↦ rw (absent, get-set) (other (Bool-cases (key == k)) absent)
]
  where
    other :
        ((key == k) ≡ true) ⊎ ((key == k) ≡ false)
        → has key state ≡ false
        → (if key == k then some v else get k state) ≡ some w
    other (inl same) absent =
        let e : key ≡ k = (==_iff key k).0 same in
        let clash : has k state ≡ false = rw e at absent in ground arith
    other (inr differ) absent = rw differ h

-- the state of a request after a change of the state of one request
changed :
    (r k request_id : String) (w : Value) (state : Rec) (s : States)
    → (get k (Tracker.state_of request_id s) ≡ some w → get k state ≡ some w)
    → get k (Tracker.state_of r s) ≡ some w
    → get k (if request_id == r then state else Tracker.state_of r s) ≡ some w
changed r k request_id w state s step h = elim (Bool-cases (request_id == r)) [
  | inl own ↦
      let e : request_id ≡ r = (==_iff request_id r).0 own in
      let here : get k (Tracker.state_of request_id s) ≡ some w = rw (sym e) at h in
      rw own (step here)
  | inr other ↦ rw other h
]

pub offered-FirstsKept :
    (r request_id key : String) (v : Value) (s : States)
    → FirstsKept r s (Tracker.set_if_absent request_id key v s).0
offered-FirstsKept r request_id key v s = record {
  kept = λ k w f h.
      ap (get k) (state-set_if_absent r request_id key v s)
      ∙ changed r k request_id w _ s (kept-offered key k v w (Tracker.state_of request_id s)) h;
}

absent_first : (k : String) (fields : Rec) → IsFirst k → NoFirsts fields → get k fields ≡ none
absent_first k fields (inl e) absent = rw e absent.0
absent_first k fields (inr e) absent = rw e absent.1

pub merged-FirstsKept :
    (r request_id : String) (fields : Rec) (s : States)
    → NoFirsts fields
    → FirstsKept r s (Tracker.update request_id fields s)
merged-FirstsKept r request_id fields s absent = record {
  kept = λ k w f h.
      ap (get k) (state-update r request_id fields s)
      ∙ changed r k request_id w _ s
          (λ here.
            get-update_absent k (Tracker.state_of request_id s) fields
              (absent_first k fields f absent)
            ∙ here)
          h;
}

unfoldable pub firsts : String → Order
firsts r = record {
  rel = λ p q. FirstsKept r p.states q.states;
  same = λ p. record { kept = λ k v f h. h };
  chain = λ p q s a b. record { kept = λ k v f h. b.kept k v f (a.kept k v f h) };
  ticked = λ p n. record { kept = λ k v f h. h };
  stepped = λ p n. record { kept = λ k v f h. h };
  emitted = λ t e p. record { kept = λ k v f h. h };
  merged = λ request_id fields p h. merged-FirstsKept r request_id fields p.states h;
  takes = λ key. true;
  offered = λ request_id key v p t. offered-FirstsKept r request_id key v p.states;
}

-- forgetting another request keeps the first times of this one
pub popped-FirstsKept :
    (r request_id : String) (s : States)
    → (request_id == r) ≡ false
    → FirstsKept r s (Tracker.pop request_id s).1
popped-FirstsKept r request_id s other = record {
  kept = λ k v f h. ap (get k) (state-pop r request_id s ∙ rw other refl) ∙ h;
}
