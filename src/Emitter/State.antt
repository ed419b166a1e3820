-- ===== src/Emitter/State.antt =====
-- The state of `Emitter` of bkvt/emitter.py, its construction, and its accessors. A thread is a
-- number; the disk, the clock, uuid4 and the host name are arguments.
use beyond_kvtransfer.Base.{
  ℕ, ◌+◌, String, Bool, true, false, Option, none, some, [], if◌then◌else◌, ℤ, pos, leb_ℤ, nat_eq,
  string_eq, ◌==◌,
}
use beyond_kvtransfer.Base.Dict.{Dict, get, set, setdefault, or_else}
use beyond_kvtransfer.Value.{Rec, text, nat}
use beyond_kvtransfer.Text.{Text, codes, join, replace}
use beyond_kvtransfer.Sampling.{Sampler}
use beyond_kvtransfer.Emitter.Ring
use beyond_kvtransfer.Emitter.Ring.{RingBuffer}
use beyond_kvtransfer.Emitter.OutFile
use beyond_kvtransfer.Emitter.OutFile.{OutputFile, Files}

-- what `Emitter.__init__` reads of the configuration
pub record Settings : Type 0 where
  pub enabled : Bool
  pub output_dir : String
  pub trace_id : Option String
  pub sampler : Sampler
  pub rotate_bytes : ℤ
  pub flush_bytes : ℤ

-- where the flusher thread stands: at the test of its loop, in the wait of its body, or past the
-- loop with the file closed
pub data Phase : Type 0 where
  testing waiting closed : Phase

pub record Emitter : Type 0 where
  pub enabled : Bool
  pub trace_id : String
  pub node_id : String
  pub worker_id : String
  pub sampler : Sampler
  -- `_tls.buf` and `_buffers`: the ring of each thread, in the order of registration
  pub buffers : Dict ℕ (RingBuffer Rec)
  -- transfer_id to (direction, payload_kind)
  pub live_transfers : Dict String (String × String)
  pub outfile : OutputFile
  pub flush_bytes : ℤ
  pub pending_approx_bytes : ℕ
  pub flush_trigger : Bool
  pub stop_event : Bool
  pub phase : Phase
  pub dropped_total : ℕ

-- `config.trace_id or new_trace_id()`
unfoldable pub or_new : Option String → String → String
or_new none fresh = fresh
or_new (some s) fresh = if s == "" then fresh else s

-- `self._worker_id.replace("/", "_").replace(":", "_")`
unfoldable pub worker_safe : Text → Text
unfolding replace
worker_safe s = replace 58 95 (replace 47 95 s)

unfoldable pub out_path : Text → Text → Text → Text → Text
unfolding worker_safe join
out_path output_dir trace_id node_id worker_id =
    join (join (join output_dir trace_id) node_id) (worker_safe worker_id)

-- `__init__`: where the configuration is disabled no file is opened
unfoldable pub init : Settings → String → String → Files → Emitter × Files
unfolding or_new
init config fresh_trace_id node_id files =
    let trace_id = or_new config.trace_id fresh_trace_id in
    let path =
      out_path (codes config.output_dir) (codes trace_id) (codes node_id) (codes node_id) in
    let (outfile, files') = OutFile.new path config.rotate_bytes files in
    let em : Emitter = record {
      enabled = config.enabled;
      trace_id = if config.enabled then trace_id else "";
      node_id = if config.enabled then node_id else "";
      worker_id = if config.enabled then node_id else "";
      sampler = config.sampler;
      buffers = [];
      live_transfers = [];
      outfile = outfile;
      flush_bytes = config.flush_bytes;
      pending_approx_bytes = 0;
      flush_trigger = false;
      stop_event = false;
      phase = testing;
      dropped_total = 0;
    } in
    (em, if config.enabled then files' else files)

-- `_get_buf`: the ring of the calling thread, registered at its first call
unfoldable pub get_buf : ℕ → Emitter → RingBuffer Rec × Emitter
get_buf thread em = (
  or_else (get thread em.buffers) Ring.new,
  record em { buffers = setdefault thread Ring.new em.buffers },
)

-- the four `setdefault` lines of `event`
unfoldable pub stamp : Emitter → Rec → Rec
stamp em r = setdefault "v" (nat 1) (
    setdefault "worker_id" (text em.worker_id)
      (setdefault "node_id" (text em.node_id) (setdefault "trace_id" (text em.trace_id) r)))

-- the `else` branch of `event`: the byte estimate and the early flush
unfoldable pub account : Emitter → Emitter
account em =
    let pending = em.pending_approx_bytes + 256 in
    if leb_ℤ em.flush_bytes (pos pending)
    then record em { pending_approx_bytes = 0; flush_trigger = true }
    else record em { pending_approx_bytes = pending }

-- `event` from the stamping on
unfoldable pub enqueue : ℕ → Rec → Emitter → Emitter
enqueue thread r em =
    let (ring, em') = get_buf thread em in
    let (done, ring') = Ring.put (stamp em r) ring in
    let em'' : Emitter = record em' { buffers = set thread ring' em'.buffers } in
    if done then account em'' else record em'' { dropped_total = em''.dropped_total + 1 }

-- `event`
unfoldable pub event : ℕ → Rec → Emitter → Emitter
event thread r em = if em.enabled then enqueue thread r em else em
