-- ===== src/Source.antt =====
-- src/shjpeg_decode.c: the source manager through which libjpeg reads the client's stream, and
-- shjpeg_decode_init.
pub mod Skip
pub mod Header
use libshjpeg.Base.{
  ℕ, zero, suc, ◌+◌, ◌-◌, ◌*◌, ◌/◌, ltb, ◌==◌, Bool, true, false, not, ◌&&◌, ◌||◌, if◌then◌else◌,
  Option, none, some,
}
use libshjpeg.Memory.{Mem}
use libshjpeg.Context.{Context}
use libshjpeg.Device.{Transfer}

-- SHJPEG_STREAM_BUF_SIZE.
abbrev pub stream_buf_size : ℕ
stream_buf_size = 0x10000

-- The n-th call for more input: what the read operation answers, and what it leaves in the buffer.
pub record Stream : Type 0 where
  pub has_read : Bool
  pub read : ℕ → Transfer
  pub contents : ℕ → Mem

-- `fills` is the number of calls for more input so far.
pub record Source : Type 0 where
  pub buffer : Mem
  pub next_input_byte : ℕ
  pub bytes_in_buffer : ℕ
  pub fills : ℕ

-- The end of `shjpeg_init_src`: an empty buffer.
abbrev pub init_src : Mem → Source
init_src buffer = record { buffer = buffer; next_input_byte = 0; bytes_in_buffer = 0; fills = 0 }

-- A fake EOI marker takes the place of input that does not come.
unfoldable pub fill_input_buffer : Stream → Source → Source
fill_input_buffer stream src =
    let answer = stream.read src.fills in
    let input = if stream.has_read then stream.contents src.fills else src.buffer in
    if not stream.has_read || (answer.failed || answer.len == 0)
    then record {
      buffer = λ a. if a == 0 then 0xff else if a == 1 then 0xd9 else input a;
      next_input_byte = 0;
      bytes_in_buffer = 2;
      fills = src.fills + 1;
    }
    else record {
      buffer = input;
      next_input_byte = 0;
      bytes_in_buffer = answer.len;
      fills = src.fills + 1;
    }

-- The loop, on fuel: none where it does not end. A number that is not positive skips nothing.
unfoldable pub skip_input_data : ℕ → Stream → ℕ → Source → Option Source
skip_input_data zero stream num_bytes src = none
skip_input_data (suc fuel) stream num_bytes src =
    let rest =
      skip_input_data fuel stream (num_bytes - src.bytes_in_buffer)
        (fill_input_buffer stream src) in
    if ltb src.bytes_in_buffer num_bytes
    then rest
    else some (record src {
      next_input_byte = src.next_input_byte + num_bytes;
      bytes_in_buffer = src.bytes_in_buffer - num_bytes;
    })

-- What libjpeg reads from a header: the size, and the sampling factors of the three components.
pub record Frame : Type 0 where
  pub output_width : ℕ
  pub output_height : ℕ
  pub h0 : ℕ
  pub v0 : ℕ
  pub h1 : ℕ
  pub v1 : ℕ
  pub h2 : ℕ
  pub v2 : ℕ

abbrev pub is_420 : Frame → Bool
is_420 f = f.h1 == f.h0 / 2 && (f.v1 == f.v0 / 2 && (f.h2 == f.h0 / 2 && f.v2 == f.v0 / 2))

abbrev pub is_444 : Frame → Bool
is_444 f = f.h1 == f.h0 && (f.v1 == f.v0 && (f.h2 == f.h0 && f.v2 == f.v0))

-- `valid` is a context that is not NULL, `initialized` a reference count that is not zero; `header`
-- is none where libjpeg panics. The result is none for a return of -1.
unfoldable pub shjpeg_decode_init : Bool → Bool → Option Frame → Context → Option Context
shjpeg_decode_init valid initialized header context =
    if not valid then none else if not initialized then none else elim header [
      | none ↦ none
      | some f ↦ some (record context {
        width = f.output_width;
        height = f.output_height;
        mode420 = is_420 f;
        mode444 = is_444 f;
      })
    ]
