-- ===== src/Wrap/Input.antt =====
-- src/libjpeg_wrap/jpeg_io.c: how the decoder reads through the source manager that the client gave
-- to libjpeg. The client's buffer is one memory, the decoder's another, and the cache of what
-- libjpeg read with the header a third. The client's fill_input_buffer is a parameter.
pub mod Stream
pub mod Marker
pub mod Deliver
use libshjpeg.Base.{
  ℕ, zero, suc, ◌+◌, ◌-◌, ltb, ◌==◌, Bool, true, false, ◌&&◌, if◌then◌else◌, Option, none, some,
}
use mathlib.Core.Option
use libshjpeg.Memory.{Mem, memcpy, store8}

-- JPEG_EOI of libjpeg.
abbrev pub jpeg_eoi : ℕ
jpeg_eoi = 0xd9

-- The client's n-th fill: the buffer afterwards, where the new bytes stand, and how many.
pub record Feed : Type 0 where
  pub contents : ℕ → Mem
  pub addr : ℕ → ℕ
  pub len : ℕ → ℕ

-- The source manager, with the number of fills so far.
pub record Input : Type 0 where
  pub memory : Mem
  pub next_input_byte : ℕ
  pub bytes_in_buffer : ℕ
  pub fills : ℕ

unfoldable pub fill_buffer : Feed → Input → Input
fill_buffer feed src = record {
  memory = feed.contents src.fills;
  next_input_byte = feed.addr src.fills;
  bytes_in_buffer = feed.len src.fills;
  fills = src.fills + 1;
}

-- What else the client's source manager does.
pub record SourceMgr : Type 0 where
  pub init_source : Input → Input
  pub term_source : Input → Input

abbrev pub jpeg_src_init : SourceMgr → Input → Input
jpeg_src_init mgr src = mgr.init_source src

abbrev pub jpeg_src_finalize : SourceMgr → Input → Input
jpeg_src_finalize mgr src = mgr.term_source src

-- The variables of jpeg_src_read.
pub record Reading : Type 0 where
  pub src : Input
  pub out : Mem
  pub dataptr : ℕ
  pub datacnt : ℕ
  pub n_bytes : ℕ

-- The copy of a whole buffer, and the call for the next one.
unfoldable pub take_buffer : Feed → Reading → Reading
take_buffer feed r = record {
  src = fill_buffer feed r.src;
  out = memcpy r.out r.dataptr r.src.memory r.src.next_input_byte r.src.bytes_in_buffer;
  dataptr = r.dataptr + r.src.bytes_in_buffer;
  datacnt = r.datacnt - r.src.bytes_in_buffer;
  n_bytes = r.n_bytes;
}

-- The copy after the loop.
unfoldable pub take_part : Reading → Reading
take_part r = record r {
  src = record r.src {
    next_input_byte = r.src.next_input_byte + r.datacnt;
    bytes_in_buffer = r.src.bytes_in_buffer - r.datacnt;
  };
  out = memcpy r.out r.dataptr r.src.memory r.src.next_input_byte r.datacnt;
}

-- The end marker at the end of the buffer: either the buffer is all there is, or the marker is kept
-- apart from a read that it would fill.
unfoldable pub at_marker : Reading → Reading
at_marker r =
    let r1 = record r { n_bytes = r.n_bytes - (r.datacnt - r.src.bytes_in_buffer) } in
    if r.datacnt == r.src.bytes_in_buffer
    then record r1 { out = store8 r.out (r.dataptr + r.datacnt - 1) 0xff; datacnt = r.datacnt - 1 }
    else record r1 { datacnt = r.src.bytes_in_buffer }

-- One byte is left, and it is the second one of the marker.
unfoldable pub at_marker_end : Reading → Reading
at_marker_end r = record r {
  n_bytes = r.n_bytes - (r.datacnt - r.src.bytes_in_buffer);
  datacnt = r.src.bytes_in_buffer;
}

-- The last byte of the buffer, and the one before.
abbrev pub last_byte : Input → ℕ
last_byte src = src.memory (src.next_input_byte + src.bytes_in_buffer - 2 + 1)

abbrev pub byte_before : Input → ℕ
byte_before src = src.memory (src.next_input_byte + src.bytes_in_buffer - 2)

-- The loop and the copy after it, on fuel.
unfoldable pub src_loop : ℕ → Feed → Reading → Option Reading
src_loop zero feed r = none
src_loop (suc fuel) feed r =
    let rest = src_loop fuel feed (take_buffer feed r) in
    if ltb r.datacnt r.src.bytes_in_buffer
    then some (take_part r)
    else if r.src.bytes_in_buffer == 0
    then some (record r { n_bytes = r.n_bytes - r.datacnt })
    else if r.src.bytes_in_buffer == 1
    then (if r.src.memory (r.src.next_input_byte) == jpeg_eoi
        then some (take_part (at_marker_end r))
        else rest)
    else if byte_before r.src == 0xff && last_byte r.src == jpeg_eoi
    then some (take_part (at_marker r))
    else rest

-- The number of bytes is the `n_bytes` of the result; the function itself returns 0.
unfoldable pub jpeg_src_read : ℕ → Feed → ℕ → Mem → ℕ → Input → Option Reading
jpeg_src_read fuel feed n_bytes out dataptr src = src_loop fuel feed (record {
  src = if src.bytes_in_buffer == 0 then fill_buffer feed src else src;
  out = out;
  dataptr = dataptr;
  datacnt = n_bytes;
  n_bytes = n_bytes;
})
