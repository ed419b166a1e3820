-- ===== src/Clock.antt =====
-- `CudaEventTimer` of bkvt/clock.py. Whether there is a CUDA device, and the time between the two
-- events that torch reports, already converted by `int(elapsed * 1_000_000)`, are arguments.
use beyond_kvtransfer.Base.{ℕ, Bool, Option, none, some, if◌then◌else◌, ℤ, pos, ◌+ℤ◌}

pub record Timer : Type 0 where
  -- whether the two events were created
  pub has_events : Bool
  pub host_start_ns : Option ℕ

-- `__init__`
unfoldable pub new : Bool → Timer
new cuda = record { has_events = cuda; host_start_ns = none }

-- `record_start`, at a reading of the clock
unfoldable pub record_start : ℕ → Timer → Timer
record_start now t = record t { host_start_ns = some now }

-- `elapsed_ms`: none without events, or where torch raises
unfoldable pub elapsed : Option ℤ → Timer → Option ℤ
elapsed measured t = if t.has_events then measured else none

-- `start_ns`
unfoldable pub start_ns : Timer → Option ℕ
start_ns t = t.host_start_ns

abbrev shifted : ℕ → Option ℤ → Option ℤ
shifted start none = none
shifted start (some d) = some (pos start +ℤ d)

-- `end_ns`
unfoldable pub end_ns : Option ℤ → Timer → Option ℤ
unfolding elapsed
end_ns measured t = elim t.host_start_ns [
  | none ↦ none
  | some start ↦ shifted start (elapsed measured t)
]

-- `cuda_event_ts_ns`
unfoldable pub cuda_event_ts_ns : Option ℤ → Timer → Option ℤ
unfolding elapsed
cuda_event_ts_ns measured t = elapsed measured t
