-- ===== src/Tests.antt =====
-- Tests on small inputs, and an instance of each theorem at one.
mod Sampling
mod Ring
mod Probes
mod Engine
mod OutFile
mod Run
mod Validator
mod Records
mod Config
mod Connector
mod Weights
mod Ids
mod Sglang
