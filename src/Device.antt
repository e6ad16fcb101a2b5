-- ===== src/Device.antt =====
-- What encoding and decoding share: the memory that src/shjpeg_common.c allocates, the answers of
-- the client's stream and of the system, and the state of one call of the library.
use libshjpeg.Base.{ℕ, ◌*◌, Bool, List, [], ◌∷◌}
use libshjpeg.Context.{Context}
use libshjpeg.Jpu.State.{Machine, jpu_setreg32}

abbrev pub reload_size : ℕ
reload_size = 64 * 1024

-- The physical addresses of the reload buffers and of the two line buffers.
pub record Layout : Type 0 where
  pub jpeg_phys : ℕ
  pub jpeg_lb1 : ℕ
  pub jpeg_lb2 : ℕ

-- The answer of a read operation: whether it reports an error, and the number of bytes read.
pub record Transfer : Type 0 where
  pub failed : Bool
  pub len : ℕ

-- Answers from outside: the lock, the unlock and the mapping of the frame buffer succeed or not;
-- `read n` is the answer of the n-th stream call; `write n len` is the number of bytes that the n-th
-- stream call takes of `len`; `coded n` is what the data count registers say before it; `libjpeg` is
-- whether libjpeg decodes without an error.
pub record World : Type 0 where
  pub lock : Bool
  pub unlock : Bool
  pub map_frame : Bool
  pub read : ℕ → Transfer
  pub write : ℕ → ℕ → ℕ
  pub coded : ℕ → ℕ
  pub libjpeg : Bool

-- The calls of the stream operations, with the offset into the reload buffers and the length.
pub data Call : Type 0 where
  init_call : Call
  read_call write_call : ℕ → ℕ → Call

-- The head of `calls` is the last call; `count` is the number of reads and writes so far.
pub record Session : Type 0 where
  pub context : Context
  pub machine : Machine
  pub locked : Bool
  pub mapped : Bool
  pub calls : List Call
  pub count : ℕ

-- A return, with whether it reports an error; a wait for an interrupt that does not come; no fuel; a
-- division by zero.
pub data Coded : Type 0 where
  finished : Session → Bool → Coded
  waits exhausted trapped : Session → Coded

abbrev pub jpu_setregs : List (ℕ × ℕ) → Machine → Machine
jpu_setregs [] m = m
jpu_setregs (write ∷ writes) m = jpu_setregs writes (jpu_setreg32 (write.0) (write.1) m)
