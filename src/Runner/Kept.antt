-- ===== src/Runner/Kept.antt =====
-- What the probes of bkvt/integrations/vllm/runner_probe.py leave alone.
use beyond_kvtransfer.Base.{
  ℕ, ◌+◌, ◌≡◌, refl, String, Bool, true, false, Option, none, some, List, [], ◌∷◌, ℤ, pos, ◌+ℤ◌,
  ◌-ℤ◌, if◌then◌else◌, string_eq,
}
use beyond_kvtransfer.Base.Dict.{get}
use beyond_kvtransfer.Value.{Float, nat, int}
use beyond_kvtransfer.Sampling.{member}
use beyond_kvtransfer.Py.{
  Obj, nothing, integer, string, sequence, tuple, mapping, returning, raising, object, Attrs,
  no_attrs, attr, getattr,
}
use beyond_kvtransfer.Py.Reads.{list_of}
use beyond_kvtransfer.Weights.{Call}
use beyond_kvtransfer.Probes.{
  Process, Env, Action, Original, ◌>>=◌, pure, lift, each, now, emit, sample_token,
}
use beyond_kvtransfer.Probes.Keeps.{
  Order, Keeps, Keeps-pure, Keeps-lift, Keeps-bind, Keeps-each, Keeps-when, Keeps-now, Keeps-emit,
  Keeps-sample_token,
}
use beyond_kvtransfer.Scheduler.{req_id}
use beyond_kvtransfer.Scheduler.Arrival.{track}
use beyond_kvtransfer.Scheduler.Kept.{Keeps-track}
use beyond_kvtransfer.Runner.{
  Step, scheduler_output, prefill_ids, tokens_or, sum_tokens, produced, first_token_record,
  token_record, aggregate_record, or_one,
}
use beyond_kvtransfer.Runner.Tokens.{
  next_step_id, counted, mark_first, measure, later_token, token, output, aggregate, outputs,
  execute_traced, execute_model, late_first_record, late_first, first_token_after, process_outputs,
  outputs_of, late_firsts, emit_step, step_at, subtype_of, emit_token, emit_aggregate,
}

module _ (o : Order) (marks : o.takes "first_token_ts_ns" ≡ true) where
  Keeps-counted : (request_id : String) → Keeps o (counted request_id)
  unfolding counted
  Keeps-counted request_id = record { kept = λ p. o.same p }

  Keeps-mark_first : (request_id : String) (ts : ℕ) → Keeps o (mark_first request_id ts)
  unfolding mark_first
  Keeps-mark_first request_id ts = record {
    kept = λ p. o.offered request_id "first_token_ts_ns" (nat ts) p marks;
  }

  Keeps-next_step_id : Keeps o next_step_id
  unfolding next_step_id
  Keeps-next_step_id = record { kept = λ p. o.stepped p (p.steps + 1) }

  module _ (env : Env) where
    Keeps-measure : Keeps o (measure env)
    unfolding measure
    Keeps-measure = record { kept = λ p. o.ticked p (p.ticks + 1) }

    -- the record of a token that is sampled
    Keeps-emit_token :
        (s : Step) (request_id : String) (n : ℤ) (rate : Option Float)
        → Keeps o (emit_token env s request_id n rate)
    unfolding emit_token
    Keeps-emit_token s request_id n rate =
        Keeps-bind o (lift (tokens_or (pos 0) request_id s.tokens)) _ (Keeps-lift o _) (λ scheduled.
          Keeps-bind o (counted request_id) _ (Keeps-counted request_id) (λ so_far.
            Keeps-emit o env (
              token_record s (subtype_of s request_id) request_id (scheduled +ℤ so_far -ℤ n) n
                (if member request_id s.prefill then scheduled else pos 0) rate)))

    Keeps-later_token :
        (s : Step) (request_id : String) (n : ℤ) → Keeps o (later_token env s request_id n)
    unfolding later_token
    Keeps-later_token s request_id n =
        Keeps-bind o (sample_token env (subtype_of s request_id)) _ (Keeps-sample_token o env _)
          decided
      where
        decided :
            (d : Bool × Option Float)
            → Keeps o (if d.0 then emit_token env s request_id n d.1 else pure tt)
        decided (true, rate) = Keeps-emit_token s request_id n rate
        decided (false, rate) = Keeps-pure o tt

    Keeps-token :
        (s : Step) (request_id : String) (out : Obj) → Keeps o (token env s request_id out)
    unfolding token
    Keeps-token s request_id out =
        Keeps-bind o (lift (produced request_id s.tokens out)) _ (Keeps-lift o _) (λ n.
          Keeps-bind o (counted request_id) _ (Keeps-counted request_id) (λ prev.
            Keeps-bind o (track env request_id (("output_tokens_so_far", int (prev +ℤ n)) ∷ [])) _
              (Keeps-track o env request_id _ (unfold get in (refl, refl)))
              (λ u.
                Keeps-bind o (mark_first request_id s.t_end) _ (Keeps-mark_first request_id s.t_end)
                  (marked n prev))))
      where
        marked :
            (n prev : ℤ) (first : Bool)
            → Keeps o (
                if first
                then emit env (first_token_record s request_id prev n)
                else later_token env s request_id n)
        marked n prev true = Keeps-emit o env _
        marked n prev false = Keeps-later_token s request_id n

    Keeps-output : (s : Step) (out : Obj) → Keeps o (output env s out)
    unfolding output
    Keeps-output s out = by_id (req_id out)
      where
        by_id :
            (r : Option String)
            → Keeps o (elim r as (λ x. Action (Unit {0})) [
              | none ↦ pure tt
              | some request_id ↦ token env s request_id out
            ])
        by_id none = Keeps-pure o tt
        by_id (some request_id) = Keeps-token s request_id out

    Keeps-emit_aggregate :
        (s : Step) (total : ℤ) (sampled : Bool) (rate : Option Float)
        → Keeps o (emit_aggregate env s total sampled rate)
    unfolding emit_aggregate
    Keeps-emit_aggregate s total sampled rate = by_tokens s.tokens sampled
      where
        by_tokens :
            (tokens : Attrs) (b : Bool)
            → Keeps o (elim tokens as (λ x. Action (Unit {0})) [
              | no_attrs ↦ pure tt
              | attr k v rest ↦
                  if b then emit env (aggregate_record s (or_one total) rate) else pure tt
            ])
        by_tokens no_attrs b = Keeps-pure o tt
        by_tokens (attr k v rest) true = Keeps-emit o env _
        by_tokens (attr k v rest) false = Keeps-pure o tt

    Keeps-aggregate : (s : Step) → Keeps o (aggregate env s)
    unfolding aggregate
    Keeps-aggregate s = Keeps-bind o (lift (sum_tokens s.tokens)) _ (Keeps-lift o _) (λ total.
        Keeps-bind o (sample_token env "decode") _ (Keeps-sample_token o env "decode")
          (λ d. Keeps-emit_aggregate s total d.0 d.1))

    Keeps-outputs : (s : Step) (v : Obj) → Keeps o (outputs env s v)
    unfolding outputs
    Keeps-outputs s v = by_obj v
      where
        listed : (a : Option (List Obj)) → Keeps o (lift a >>= each (output env s))
        listed a =
            Keeps-bind o (lift a) (each (output env s)) (Keeps-lift o a)
              (Keeps-each o (output env s) (Keeps-output s))

        by_obj : (v' : Obj) → Keeps o (outputs env s v')
        by_obj nothing = Keeps-aggregate s
        by_obj (integer n) = listed (list_of (integer n))
        by_obj (string t) = listed (list_of (string t))
        by_obj (sequence vs) = listed (list_of (sequence vs))
        by_obj (tuple vs) = listed (list_of (tuple vs))
        by_obj (mapping attrs) = listed (list_of (mapping attrs))
        by_obj (returning r) = listed (list_of (returning r))
        by_obj raising = listed (list_of raising)
        by_obj (object attrs) = listed (list_of (object attrs))

    Keeps-emit_step : (s : Step) (result : Obj) → Keeps o (emit_step env s result)
    unfolding emit_step
    Keeps-emit_step s result =
        Keeps-bind o (outputs env s (getattr "outputs" result)) _
          (Keeps-outputs s (getattr "outputs" result)) (λ u. Keeps-pure o result)

    pub Keeps-execute_model :
        (call : Call) (original : Original)
        → Keeps o original
        → Keeps o (execute_model env call original)
    unfolding execute_model execute_traced
    Keeps-execute_model call original k =
        Keeps-when o original (execute_traced env call original) k (
          Keeps-bind o next_step_id _ Keeps-next_step_id (λ step_id.
            Keeps-bind o (now env) _ (Keeps-now o env) (λ started.
              Keeps-bind o original _ k (λ result.
                Keeps-bind o (now env) _ (Keeps-now o env) (λ t_end.
                  Keeps-bind o (measure env) _ Keeps-measure (λ first.
                    Keeps-bind o (measure env) _ Keeps-measure (λ second.
                      Keeps-bind o (lift (prefill_ids (scheduler_output call))) _ (Keeps-lift o _)
                        (λ prefill.
                          Keeps-emit_step
                            (step_at env (scheduler_output call) step_id started t_end first second
                              prefill)
                            result))))))))

    Keeps-late_first : (ts : ℕ) (out : Obj) → Keeps o (late_first env ts out)
    unfolding late_first
    Keeps-late_first ts out = by_id (req_id out)
      where
        marked :
            (request_id : String) (first : Bool)
            → Keeps o (if first then emit env (late_first_record env ts request_id) else pure tt)
        marked request_id true = Keeps-emit o env _
        marked request_id false = Keeps-pure o tt

        by_id :
            (r : Option String)
            → Keeps o (elim r as (λ x. Action (Unit {0})) [
              | none ↦ pure tt
              | some request_id ↦ do
                first ← mark_first request_id ts
                if first then emit env (late_first_record env ts request_id) else pure tt
            ])
        by_id none = Keeps-pure o tt
        by_id (some request_id) =
            Keeps-bind o (mark_first request_id ts) _ (Keeps-mark_first request_id ts)
              (marked request_id)

    Keeps-late_firsts : (result : Obj) → Keeps o (late_firsts env result)
    unfolding late_firsts
    Keeps-late_firsts result = Keeps-bind o (now env) _ (Keeps-now o env) (λ ts.
        Keeps-bind o (lift (list_of (outputs_of env result))) _ (Keeps-lift o _) (λ outs.
          Keeps-bind o (each (late_first env ts) outs) _
            (Keeps-each o (late_first env ts) (Keeps-late_first ts) outs)
            (λ u. Keeps-pure o result)))

    Keeps-first_token_after : (result : Obj) → Keeps o (first_token_after env result)
    unfolding first_token_after
    Keeps-first_token_after result = record { kept = λ p. by_switch p p.em.enabled }
      where
        by_switch :
            (p : Process) (on : Bool)
            → o.rel p (if on then late_firsts env result p else pure result p).0
        by_switch p true = (Keeps-late_firsts result).kept p
        by_switch p false = o.same p

    pub Keeps-process_outputs :
        (original : Original) → Keeps o original → Keeps o (process_outputs env original)
    unfolding process_outputs
    Keeps-process_outputs original k =
        Keeps-bind o original (first_token_after env) k Keeps-first_token_after
