-- ===== src/Tests/Run.antt =====
-- Tests of runs of the emitter.
use beyond_kvtransfer.Base.{
  ◌≡◌, ◌+◌, Bool, string_eq, nat_eq, arith, ◌≢◌, refl, true, false, Option, some, List, [], ◌∷◌,
  pos, count_by,
}
use beyond_kvtransfer.Value.{Rec, text, float_one, float_zero, float_le}
use beyond_kvtransfer.Text.{Text, codes}
use beyond_kvtransfer.Emitter.Ring
use beyond_kvtransfer.Emitter.State.{Emitter, testing, closed, event, enqueue, get_buf, stamp}
use beyond_kvtransfer.Emitter.Probe.{
  start_defaults, end_defaults, end_record, transfer_start, transfer_end,
}
use beyond_kvtransfer.Emitter.Held.{held, has_room, ring_of, one_if}
use beyond_kvtransfer.Emitter.Run.{Action, emit, start, finish, flush, World, run, begin}
use beyond_kvtransfer.Emitter.Run.Conserved.{IsConserved}
use beyond_kvtransfer.Base.Dict.{get, set, setdefault, remove}
use beyond_kvtransfer.Sampling.{should_emit_transfer, should_emit, rate_for, decide_rate}
use beyond_kvtransfer.Emitter.OutFile.Batches.{lines_bytes}
use beyond_kvtransfer.Emitter.Flusher.{serialise}
use beyond_kvtransfer.Emitter.Run.Pairing.{
  ending, opened_after, handed, finish-emits, refused_start_is_live,
}
use beyond_kvtransfer.Emitter.Run.Raced.{acts}
use beyond_kvtransfer.Emitter.Run.Raced.Conserved.{IsAccounted, acts-IsAccounted, in_hand}
use beyond_kvtransfer.Emitter.Run.Raced.Whole.{settled}
use beyond_kvtransfer.Emitter.Run.Written.{IsWritten, written_up_to, bytes_at}
use beyond_kvtransfer.Emitter.Run.OnDisk.{run-IsWritten}
use beyond_kvtransfer.Emitter.Run.Shutdown.{IsFinal, last_actions, shutdown-flushes}

abbrev pub dumps : Rec → Option Text
dumps r = some (codes "{}")

abbrev pub emitter : Emitter
emitter = record {
  enabled = true;
  trace_id = "t";
  node_id = "n";
  worker_id = "n";
  sampler = record {
    sample_token = float_one;
    sample_metadata = float_one;
    sample_transfer = float_one;
  };
  buffers = [];
  live_transfers = [];
  outfile = record {
    path = codes "t/n";
    rotate_bytes = pos 1000;
    written = 0;
    seq = 1;
    gzip_started = [];
  };
  flush_bytes = pos 512;
  pending_approx_bytes = 0;
  flush_trigger = false;
  stop_event = false;
  phase = testing;
  dropped_total = 0;
}

abbrev pub first_world : World
first_world = begin emitter []

abbrev actions : List Action
actions =
    emit 0 (("type", text "request") ∷ [])
    ∷ start 1 "u1" float_zero 5 (start_defaults "load")
    ∷ flush
    ∷ flush
    ∷ finish 1 "u1" 9 end_defaults
    ∷ []

first_world-IsConserved : IsConserved first_world
unfolding begin count_by held
first_world-IsConserved = record { enabled = refl; conserved = λ p. refl; counted = refl }

first_world-running : first_world.em.phase ≢ closed
unfolding begin
first_world-running e = cc

shutdown-flushes_example : IsFinal first_world (run dumps last_actions first_world)
shutdown-flushes_example =
    shutdown-flushes dumps first_world first_world-IsConserved first_world-running

first_world-IsWritten : IsWritten emitter.outfile [] (serialise dumps [])
unfolding written_up_to lines_bytes bytes_at serialise get
first_world-IsWritten = record { content = refl; later = λ k h. refl; positive = omega arith }

run-IsWritten_example :
    let w' = run dumps actions first_world in
    IsWritten w'.em.outfile w'.files (serialise dumps w'.flushed)
unfolding begin
run-IsWritten_example = run-IsWritten dumps actions first_world first_world-IsWritten

finish-emits_example :
    let em = (run dumps actions first_world).em in
    let opened = opened_after emitter.sampler "u1" actions (get "u1" emitter.live_transfers) in
    transfer_end 2 "u1" 11 end_defaults em
    ≡ record (handed (ending 2 "u1" 11 end_defaults opened) em) {
      live_transfers = remove "u1" em.live_transfers;
    }
unfolding begin
finish-emits_example = finish-emits dumps actions first_world 2 "u1" 11 end_defaults refl

-- a ring with no room left
abbrev full : Emitter
full = record emitter { buffers = (0, record { buf = [] ∷ []; capacity = 1; dropped = 0 }) ∷ [] }

sampled : (should_emit_transfer emitter.sampler float_zero).0 ≡ true
unfolding should_emit_transfer should_emit rate_for decide_rate float_one float_le
sampled = refl

no_room : has_room 0 full ≡ false
unfolding has_room ring_of get
no_room = refl

abbrev refused : Emitter
refused = transfer_start 0 "u1" float_zero 5 (start_defaults "load") full

room_elsewhere : has_room 1 refused ≡ true
unfolding has_room ring_of get transfer_start event enqueue get_buf set setdefault Ring.put Ring.new
room_elsewhere = simp sampled refl

refused_start_is_live_example :
    (refused.dropped_total ≡ 1)
    × ((p : Rec → Bool) → held p refused.buffers ≡ held p full.buffers)
    × ((p : Rec → Bool)
        → held p (transfer_end 1 "u1" 9 end_defaults refused).buffers
          ≡ held p full.buffers
            + one_if (p (stamp refused (end_record "u1" ("load", "kv") 9 end_defaults))))
unfolding start_defaults
refused_start_is_live_example =
    refused_start_is_live 0 1 "u1" float_zero 5 9 (start_defaults "load") end_defaults full refl
      sampled no_room room_elsewhere

-- a record that thread 0 puts between the copy and the swap of its ring
abbrev raced : List Action
raced =
    emit 0 (("type", text "request") ∷ [])
    ∷ flush
    ∷ flush
    ∷ flush
    ∷ emit 0 (("type", text "token") ∷ [])
    ∷ flush
    ∷ flush
    ∷ []

settled-IsAccounted : IsAccounted (settled first_world [])
unfolding begin count_by held in_hand
settled-IsAccounted = record { enabled = refl; accounted = λ p. refl; counted = refl; front = tt }

acts-IsAccounted_example : IsAccounted (acts dumps raced (settled first_world []))
acts-IsAccounted_example = acts-IsAccounted dumps raced (settled first_world []) settled-IsAccounted
