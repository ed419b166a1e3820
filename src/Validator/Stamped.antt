-- ===== src/Validator/Stamped.antt =====
-- scripts/validate_traces.py on the records that bkvt/emitter.py stamps.
use beyond_kvtransfer.Base.{◌≡◌, false, none, some, string_eq}
use beyond_kvtransfer.Base.Dict.{get, get-setdefault}
use beyond_kvtransfer.Value.{Value, Rec}
use beyond_kvtransfer.Value.Key.{is_one, key_of, key_same}
use beyond_kvtransfer.Emitter.State.{Emitter, stamp}
use beyond_kvtransfer.Validator.{Validators, missing, record_errors}

-- With no JSON schema in use, the validator counts no error on a record that `event` has stamped,
-- if the caller gave it a time and a type and no version of its own.
pub stamp-accepted :
    (validators : Validators) (em : Emitter) (r : Rec) (ts kind : Value)
    → get "ts_ns" r ≡ some ts
    → get "type" r ≡ some kind
    → get "v" r ≡ none
    → record_errors validators false (stamp em r) ≡ some 0
unfolding record_errors missing is_one key_of key_same stamp
stamp-accepted validators em r ts kind h1 h2 h3 = simp (get-setdefault, h1, h2, h3)
