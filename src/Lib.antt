-- ===== src/Lib.antt =====
-- BeyondKVTransfer: a tracing framework for distributed LLM serving, and the laws of its core.
--
-- The program. Probes patched into a serving engine call one process-wide emitter
-- (bkvt/emitter.py). Each thread appends records to a ring buffer of its own, and a flusher thread
-- drains the buffers into numbered JSONL files that rotate by size. A sampler (bkvt/sampling.py)
-- decides which records are kept; the settings come from the environment and a YAML file
-- (bkvt/config.py). scripts/validate_traces.py reads the files and checks envelopes and pairings.
--
-- The modules and the code that each is about:
--   Base, Text, Value, Py   Python's numbers, dicts, texts, paths, JSON values and objects
--   Sampling                bkvt/sampling.py: Sampler, init_sampler, get_sampler
--   Emitter.Ring            bkvt/emitter.py: _RingBuffer
--   Emitter.OutFile         bkvt/emitter.py: _OutputFile, _gzip_file
--   Emitter.State, .Probe   bkvt/emitter.py: Emitter.__init__, _get_buf, event, transfer_start,
--                           transfer_end, metadata
--   Emitter.Flusher         bkvt/emitter.py: _flusher_loop, _flush_once, shutdown
--   Emitter.Held            how many records the ring buffers hold
--   Emitter.Run             sequences of calls and passes of the flusher, with their theorems below
--   Emitter.Run.Raced       the same, with calls also inside a pass and inside `drain`
--   Records                 bkvt/records.py: the dataclasses and to_dict; Records.Reading is a
--                           reader of the dicts, which is not code of the program
--   Config                  bkvt/config.py
--   Validator               scripts/validate_traces.py: validate_files
--   Connector               bkvt/integrations/vllm/connector_wrapper.py
--   Ids                     bkvt/ids.py
--   Weights                 bkvt/integrations/weight_probe_common.py
--   Probes                  the process and the actions that the probes below share
--   BlockPool               bkvt/integrations/vllm/block_pool_probe.py
--   Tracker                 bkvt/integrations/vllm/scheduler_probe.py: RequestStateTracker
--   Scheduler               bkvt/integrations/vllm/scheduler_probe.py: the wrappers
--   Clock                   bkvt/clock.py: CudaEventTimer
--   Runner                  bkvt/integrations/vllm/runner_probe.py
--   Engine                  sequences of calls of the vLLM methods that these probes wrap
--   Sglang                  bkvt/integrations/sglang: scheduler_probe.py, hicache_probe.py,
--                           disagg_probe.py and radix_probe.py
--   Tests                   runs at concrete inputs
--
-- State. `Emitter.State.Emitter` has the fields of the class: `buffers` stands for `_tls.buf` and
-- `_buffers` (a ring per thread), `phase` for where the flusher thread stands, and the files are a
-- dict from paths to bytes beside it. A run (`Emitter.Run.run`) is a sequence of actions of any
-- threads: whole calls, and passes of the flusher between two points where it waits or tests, during
-- which no thread acts. `Emitter.Run.Raced.acts` takes the same actions, but a pass is many of them
-- there (`tick`): its start, the copy and the swap of each ring, and the write, with the calls of
-- other threads anywhere in between.
-- `Connector.Calls` threads the emitter and the wrapper's book through its calls.
-- `Probes.Process` has the emitter, the tracker's states and the counters; an `Action` is a function
-- from it to the process after a call and the result, none where the call raises. The objects of the
-- engine are the values of Py that the probes read.
--
-- Parameters. Not modelled but passed in: orjson (`dumps`, none where it raises), the clock,
-- uuid4, the random draws, gzip (`compress`), jsonschema (`Validators`), what yaml.safe_load
-- gives (`Overlay`), Python's `int` and `float` of a text, the host name, and the calls that the
-- wrappers wrap (`Inner`, `Body`, `Original`). `Probes.Env` has the n-th readings of the clock,
-- of the draws and of a CUDA timer, the order in which a set is walked, and `Classes`, which is
-- what int and str do with objects of the engine's classes.
--
-- Numbers. Python's integers are the ℤ of Base, natural where the code only counts. A float is an
-- exact binary64 value: a multiple of 2^-1074, an infinity or nan. A hash key follows Python's
-- `1 == True == 1.0`, but a nan is equal to itself.
--
-- Fuel. Only `Text.digits` and `Py.Reads.hex_onto` take some: a number below its fuel is printed in
-- full, and `decimal` and `hex` give `suc n` for `n`. Everything else is structural recursion.
--
-- Not modelled: file handles, directories and locks beyond the order of effects; log lines and
-- the printed report; file discovery; the patching of the engine's classes, which are not here;
-- the collectors; the manifest; the analysis over DuckDB.
pub mod Base
pub mod Text
pub mod Value
pub mod Py
pub mod Sampling
pub mod Emitter
pub mod Validator
pub mod Records
pub mod Config
pub mod Connector
pub mod Ids
pub mod Weights
pub mod Probes
pub mod BlockPool
pub mod Tracker
pub mod Scheduler
pub mod Clock
pub mod Runner
pub mod Engine
pub mod Sglang
mod Tests
