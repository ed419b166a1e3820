-- ===== src/Records/Envelope.antt =====
-- What `to_dict` keeps of a record, and that the validator accepts its envelope.
use beyond_kvtransfer.Base.{
  ◌≡◌, refl, String, true, false, Option, none, some, [], ◌∷◌, ℤ, if◌then◌else◌, string_eq, ◌∙◌,
  ◌==◌, ==_iff, arith,
}
use beyond_kvtransfer.Base.Dict.{get, set, get-set}
use beyond_kvtransfer.Base.Dict.Distinct.{Distinct, set-Distinct, distinct, distinct-Distinct}
use beyond_kvtransfer.Value.{Value, Rec, int, text, is_null}
use beyond_kvtransfer.Value.Key.{is_one, key_of, key_same}
use beyond_kvtransfer.Validator.{Validators, missing, record_errors}
use beyond_kvtransfer.Records.Shapes.{schema_version, TransferEndpoint}
use beyond_kvtransfer.Records.Fields.{
  request_fields, token_fields, kv_block_fields, transfer_fields, metadata_fields,
  weight_block_fields, sys_counter_fields,
}
use beyond_kvtransfer.Records.{
  AnyRecord, request, token, kv_block, weight_block, transfer, metadata, sys_counter, version,
  raw_dict, to_dict, strip_none, set_endpoint,
}

-- a value, unless it is null
unfoldable pub present : Option Value → Option Value
present none = none
present (some v) = if is_null v then none else some v

pub get-strip_none : (k : String) (d : Rec) → Distinct d → get k (strip_none d) ≡ present (get k d)
unfolding get strip_none present
get-strip_none k [] u = refl
get-strip_none k ((j, v) ∷ d) u = ground (arith, get-strip_none k d u.1, ==_iff j k, u.0)

set_endpoint-Distinct :
    (k : String) (e : Option TransferEndpoint) (d : Rec)
    → Distinct d
    → Distinct (set_endpoint k e d)
unfolding set_endpoint
set_endpoint-Distinct k none d u = u
set_endpoint-Distinct k (some e) d u = set-Distinct k _ d u

typed : (s : String) (d : Rec) → distinct d ≡ true → Distinct (set "type" (text s) d)
typed s d h = set-Distinct "type" (text s) d (distinct-Distinct d h)

raw_dict-Distinct : (r : AnyRecord) → Distinct (raw_dict r)
unfolding raw_dict request_fields token_fields kv_block_fields transfer_fields metadata_fields
    weight_block_fields sys_counter_fields distinct get
raw_dict-Distinct (request r) = typed "request" (request_fields r) refl
raw_dict-Distinct (token r) = typed "token" (token_fields r) refl
raw_dict-Distinct (kv_block r) = typed "kv_block" (kv_block_fields r) refl
raw_dict-Distinct (weight_block r) = typed "weight_block" (weight_block_fields r) refl
raw_dict-Distinct (transfer r) =
    set_endpoint-Distinct "dst" r.dst _
      (set_endpoint-Distinct "src" r.src _ (typed "transfer" (transfer_fields r) refl))
raw_dict-Distinct (metadata r) = typed "metadata" (metadata_fields r) refl
raw_dict-Distinct (sys_counter r) = typed "sys_counter" (sys_counter_fields r) refl

-- `to_dict` loses and adds nothing: it holds the fields of the record and its type, at whatever
-- key, but for those that are None.
pub get-to_dict : (k : String) (r : AnyRecord) → get k (to_dict r) ≡ present (get k (raw_dict r))
unfolding to_dict
get-to_dict k r = get-strip_none k (raw_dict r) (raw_dict-Distinct r)

-- the fields of the envelope, and the version tag
record HasEnvelope (v : ℤ) (d : Rec) : Type 0 where
  ts : (n : ℤ) × (get "ts_ns" d ≡ some (int n))
  trace : (s : String) × (get "trace_id" d ≡ some (text s))
  node : (s : String) × (get "node_id" d ≡ some (text s))
  worker : (s : String) × (get "worker_id" d ≡ some (text s))
  kind : (s : String) × (get "type" d ≡ some (text s))
  tag : get "v" d ≡ some (int v)

by_fields :
    (v : ℤ) (d : Rec) {n : ℤ} {trace node worker kind : String}
    → get "ts_ns" d ≡ some (int n)
    → get "trace_id" d ≡ some (text trace)
    → get "node_id" d ≡ some (text node)
    → get "worker_id" d ≡ some (text worker)
    → get "type" d ≡ some (text kind)
    → get "v" d ≡ some (int v)
    → HasEnvelope v d
by_fields v d h1 h2 h3 h4 h5 h6 = record {
  ts = (_, h1);
  trace = (_, h2);
  node = (_, h3);
  worker = (_, h4);
  kind = (_, h5);
  tag = h6;
}

pub get-set_endpoint :
    (j k : String) (e : Option TransferEndpoint) (d : Rec)
    → k == j ≡ false
    → get j (set_endpoint k e d) ≡ get j d
unfolding set_endpoint
get-set_endpoint j k none d h = refl
get-set_endpoint j k (some e) d h = rw (get-set, h) refl

HasEnvelope-set_endpoint :
    (v : ℤ) (k : String) (e : Option TransferEndpoint) (d : Rec)
    → k == "ts_ns" ≡ false
    → k == "trace_id" ≡ false
    → k == "node_id" ≡ false
    → k == "worker_id" ≡ false
    → k == "type" ≡ false
    → k == "v" ≡ false
    → HasEnvelope v d
    → HasEnvelope v (set_endpoint k e d)
HasEnvelope-set_endpoint v k e d h1 h2 h3 h4 h5 h6 o = record {
  ts = (o.ts.0, get-set_endpoint _ k e d h1 ∙ o.ts.1);
  trace = (o.trace.0, get-set_endpoint _ k e d h2 ∙ o.trace.1);
  node = (o.node.0, get-set_endpoint _ k e d h3 ∙ o.node.1);
  worker = (o.worker.0, get-set_endpoint _ k e d h4 ∙ o.worker.1);
  kind = (o.kind.0, get-set_endpoint _ k e d h5 ∙ o.kind.1);
  tag = get-set_endpoint _ k e d h6 ∙ o.tag;
}

raw_dict-HasEnvelope : (r : AnyRecord) → HasEnvelope (version r) (raw_dict r)
unfolding raw_dict request_fields token_fields kv_block_fields transfer_fields metadata_fields
    weight_block_fields sys_counter_fields get set
raw_dict-HasEnvelope (request r) = by_fields _ _ refl refl refl refl refl refl
raw_dict-HasEnvelope (token r) = by_fields _ _ refl refl refl refl refl refl
raw_dict-HasEnvelope (kv_block r) = by_fields _ _ refl refl refl refl refl refl
raw_dict-HasEnvelope (weight_block r) = by_fields _ _ refl refl refl refl refl refl
raw_dict-HasEnvelope (transfer r) =
    HasEnvelope-set_endpoint r.v "dst" r.dst _ refl refl refl refl refl refl (
      HasEnvelope-set_endpoint r.v "src" r.src _ refl refl refl refl refl refl
        (by_fields _ _ refl refl refl refl refl refl))
raw_dict-HasEnvelope (metadata r) = by_fields _ _ refl refl refl refl refl refl
raw_dict-HasEnvelope (sys_counter r) = by_fields _ _ refl refl refl refl refl refl

kept :
    (k : String) (r : AnyRecord) (v : Value)
    → get k (raw_dict r) ≡ some v
    → is_null v ≡ false
    → get k (to_dict r) ≡ some v
unfolding present
kept k r v h n = get-to_dict k r ∙ rw (h, n) refl

-- The validator finds no error in the envelope of any record that `to_dict` writes at the version
-- of the schema.
pub to_dict-envelope :
    (validators : Validators) (r : AnyRecord)
    → version r ≡ schema_version
    → record_errors validators false (to_dict r) ≡ some 0
unfolding record_errors missing is_one key_of key_same
to_dict-envelope validators r h =
    let o = raw_dict-HasEnvelope r in
    let tag : get "v" (to_dict r) ≡ some (int schema_version) =
      kept "v" r (int schema_version) (rw h at o.tag) refl in
    simp (
      tag,
      kept "ts_ns" r _ o.ts.1 refl,
      kept "trace_id" r _ o.trace.1 refl,
      kept "node_id" r _ o.node.1 refl,
      kept "worker_id" r _ o.worker.1 refl,
      kept "type" r _ o.kind.1 refl,
    )
