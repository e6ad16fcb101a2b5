-- ===== src/Tests.antt =====
-- The theorems at concrete inputs.
mod Soft
mod Jpu
mod Coding
mod Rest
mod Wrap
mod Streams
mod Calls
mod Lines
mod Edges
