-- ===== src/Emitter.antt =====
-- bkvt/emitter.py, one child for each part of it.
pub mod Ring
pub mod OutFile
pub mod State
pub mod Probe
pub mod Flusher
pub mod Held
pub mod Run
