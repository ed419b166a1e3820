-- ===== src/Tests/Ring.antt =====
-- Tests of `_RingBuffer` of bkvt/emitter.py.
use beyond_kvtransfer.Base.{ℕ, ◌≡◌, refl, List, [], ◌∷◌, arith}
use beyond_kvtransfer.Emitter.Ring.{RingBuffer}
use beyond_kvtransfer.Emitter.Ring.Order.{
  RingOp, put_op, drain_op, start, step, run, IsQueue, ring-run-IsQueue,
}
use beyond_kvtransfer.Emitter.Ring.Race.{raced_drain, all_true, raced_drain_loses}

abbrev two : RingBuffer ℕ
two = record { buf = 7 ∷ []; capacity = 2; dropped = 0 }

abbrev calls : List (RingOp ℕ)
calls = put_op 8 ∷ put_op 9 ∷ drain_op ∷ put_op 10 ∷ []

calls-run : run calls (start two) ≡ record {
  accepted = 7 ∷ 8 ∷ 10 ∷ [];
  drained = 7 ∷ 8 ∷ [];
  refused = 1;
  ring = record { buf = 10 ∷ []; capacity = 2; dropped = 1 };
}
unfolding run step start
calls-run = refl

ring-run-IsQueue_example : IsQueue (run calls (start two))
ring-run-IsQueue_example = ring-run-IsQueue calls two (omega arith)

raced_drain_loses_example :
    raced_drain (8 ∷ []) two ≡ (all_true {A = ℕ} (8 ∷ []), two.buf, record two { buf = [] })
raced_drain_loses_example = raced_drain_loses (8 ∷ []) two (omega arith)
