-- ===== src/Records/Kept.antt =====
-- What a reader finds of each kind of field in the dict that `to_dict` of bkvt/records.py writes.
use beyond_kvtransfer.Base.{
  ◌≡◌, ◌∙◌, refl, ap, String, true, false, Option, none, some, List, [], ◌∷◌, ℤ, map, ◌==◌,
  string_eq,
}
use beyond_kvtransfer.Base.Dict.{get, set, get-set}
use beyond_kvtransfer.Base.Dict.Distinct.{Distinct, distinct, distinct-Distinct}
use beyond_kvtransfer.Value.{Rec, Float, int, float, text, members_of, elements_of}
use beyond_kvtransfer.Records.Shapes.{Number, whole, real, TransferEndpoint, TransferRecord}
use beyond_kvtransfer.Records.Fields.{
  or_null, dict_value, list_value, number_value, endpoint_fields, endpoint_dict, transfer_fields,
}
use beyond_kvtransfer.Records.{
  AnyRecord, transfer, raw_dict, to_dict, set_endpoint, endpoint_to_dict,
}
use beyond_kvtransfer.Records.Envelope.{present, get-to_dict, get-strip_none, get-set_endpoint}
use beyond_kvtransfer.Records.Reading.Values.{
  as_int, as_text, rec_of, ints_of, int_at, text_at, opt_int_at, opt_text_at, opt_float_at,
  opt_ints_at, opt_dict_at, number_at, opt_endpoint_at, read_endpoint,
}

rec_of-members_of : (d : Rec) → rec_of (members_of d) ≡ d
unfolding rec_of members_of
rec_of-members_of [] = refl
rec_of-members_of ((k, v) ∷ d) = ap (λ (x : Rec). (k, v) ∷ x) (rec_of-members_of d)

ints_of-elements_of : (ns : List ℤ) → ints_of (elements_of (map int ns)) ≡ ns
unfolding ints_of elements_of
ints_of-elements_of [] = refl
ints_of-elements_of (n ∷ ns) = ap (λ (x : List ℤ). n ∷ x) (ints_of-elements_of ns)

-- a field, read from what was kept of it
module _ (r : AnyRecord) (k : String) where
  pub int_at-kept : (n : ℤ) → get k (raw_dict r) ≡ some (int n) → int_at k (to_dict r) ≡ n
  unfolding present
  int_at-kept n h = rw (get-to_dict, h) refl

  pub text_at-kept : (s : String) → get k (raw_dict r) ≡ some (text s) → text_at k (to_dict r) ≡ s
  unfolding present
  text_at-kept s h = rw (get-to_dict, h) refl

  pub opt_int_at-kept :
      (o : Option ℤ) → get k (raw_dict r) ≡ some (or_null int o) → opt_int_at k (to_dict r) ≡ o
  unfolding present
  opt_int_at-kept none h = rw (get-to_dict, h) refl
  opt_int_at-kept (some n) h = rw (get-to_dict, h) refl

  pub opt_text_at-kept :
      (o : Option String)
      → get k (raw_dict r) ≡ some (or_null text o)
      → opt_text_at k (to_dict r) ≡ o
  unfolding present
  opt_text_at-kept none h = rw (get-to_dict, h) refl
  opt_text_at-kept (some s) h = rw (get-to_dict, h) refl

  pub opt_float_at-kept :
      (o : Option Float)
      → get k (raw_dict r) ≡ some (or_null float o)
      → opt_float_at k (to_dict r) ≡ o
  unfolding present
  opt_float_at-kept none h = rw (get-to_dict, h) refl
  opt_float_at-kept (some x) h = rw (get-to_dict, h) refl

  pub opt_ints_at-kept :
      (o : Option (List ℤ))
      → get k (raw_dict r) ≡ some (or_null list_value o)
      → opt_ints_at k (to_dict r) ≡ o
  unfolding present
  opt_ints_at-kept none h = rw (get-to_dict, h) refl
  opt_ints_at-kept (some ns) h = rw (get-to_dict, h) (ap some (ints_of-elements_of ns))

  pub opt_dict_at-kept :
      (o : Option Rec)
      → get k (raw_dict r) ≡ some (or_null dict_value o)
      → opt_dict_at k (to_dict r) ≡ o
  unfolding present
  opt_dict_at-kept none h = rw (get-to_dict, h) refl
  opt_dict_at-kept (some d) h = rw (get-to_dict, h) (ap some (rec_of-members_of d))

  pub number_at-kept :
      (n : Number) → get k (raw_dict r) ≡ some (number_value n) → number_at k (to_dict r) ≡ n
  unfolding present
  number_at-kept (whole n) h = rw (get-to_dict, h) refl
  number_at-kept (real x) h = rw (get-to_dict, h) refl

endpoint-Distinct : (e : TransferEndpoint) → Distinct (endpoint_fields e)
endpoint-Distinct e = distinct-Distinct _ (unfold endpoint_fields distinct get in refl)

endpoint-kept :
    (k : String) (e : TransferEndpoint)
    → get k (endpoint_to_dict e) ≡ present (get k (endpoint_fields e))
unfolding endpoint_to_dict
endpoint-kept k e = get-strip_none k (endpoint_fields e) (endpoint-Distinct e)

opt_text-present : (o : Option String) → as_text (present (some (or_null text o))) ≡ o
unfolding present
opt_text-present none = refl
opt_text-present (some s) = refl

opt_int-present : (o : Option ℤ) → as_int (present (some (or_null int o))) ≡ o
unfolding present
opt_int-present none = refl
opt_int-present (some n) = refl

read_endpoint_lem : (e : TransferEndpoint) → read_endpoint (endpoint_to_dict e) ≡ e
unfolding read_endpoint
read_endpoint_lem e =
    λ i. record { tier = text_kept i; node_id = node_kept i; device_id = device_kept i }
  where
    text_kept : text_at "tier" (endpoint_to_dict e) ≡ e.tier
    text_kept = rw endpoint-kept (unfold endpoint_fields get present in refl)

    node_kept : opt_text_at "node_id" (endpoint_to_dict e) ≡ e.node_id
    node_kept = rw endpoint-kept (unfold endpoint_fields get in opt_text-present e.node_id)

    device_kept : opt_int_at "device_id" (endpoint_to_dict e) ≡ e.device_id
    device_kept = rw endpoint-kept (unfold endpoint_fields get in opt_int-present e.device_id)

-- an endpoint that was set under its name, and what `asdict` left there where there is none
endpoint_at-kept :
    (r : AnyRecord) (k : String) (o : Option TransferEndpoint) (d : Rec)
    → get k (raw_dict r) ≡ get k (set_endpoint k o d)
    → get k d ≡ some (or_null endpoint_dict o)
    → (k == k) ≡ true
    → opt_endpoint_at k (to_dict r) ≡ o
unfolding present set_endpoint
endpoint_at-kept r k none d h at self = rw (get-to_dict, h, at) refl
endpoint_at-kept r k (some e) d h at self =
    rw (get-to_dict, h, get-set, self)
      (ap some (ap read_endpoint (rec_of-members_of (endpoint_to_dict e)) ∙ read_endpoint_lem e))

abbrev pub plain : TransferRecord → Rec
plain r = set "type" (text "transfer") (transfer_fields r)

pub elsewhere :
    (k : String) (r : TransferRecord)
    → "src" == k ≡ false
    → "dst" == k ≡ false
    → get k (raw_dict (transfer r)) ≡ get k (plain r)
unfolding raw_dict
elsewhere k r s d = get-set_endpoint k "dst" r.dst _ d ∙ get-set_endpoint k "src" r.src (plain r) s

pub src-lem : (r : TransferRecord) → opt_endpoint_at "src" (to_dict (transfer r)) ≡ r.src
unfolding raw_dict
src-lem r =
    endpoint_at-kept (transfer r) "src" r.src (plain r) (get-set_endpoint "src" "dst" r.dst _ refl)
      (unfold transfer_fields get set in refl) refl

pub dst-lem : (r : TransferRecord) → opt_endpoint_at "dst" (to_dict (transfer r)) ≡ r.dst
unfolding raw_dict
dst-lem r =
    endpoint_at-kept (transfer r) "dst" r.dst (set_endpoint "src" r.src (plain r)) refl
      (get-set_endpoint "dst" "src" r.src (plain r) refl ∙ unfold transfer_fields get set in refl)
      refl
