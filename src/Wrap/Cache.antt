-- ===== src/Wrap/Cache.antt =====
-- src/libjpeg_wrap/jpeg_io.c and the header calls of override.c: what libjpeg reads with the header
-- is kept, so that the decoder can read it again. The cache is a memory of its own.
pub mod Header
pub mod Current
pub mod Replay
use libshjpeg.Base.{
  ℕ, zero, suc, ◌+◌, ◌-◌, ltb, ◌==◌, Bool, true, false, ◌&&◌, if◌then◌else◌, Option, none, some,
}
use mathlib.Core.Option
use libshjpeg.Memory.{Mem, memcpy}
use libshjpeg.Wrap.Input.{Feed, Input, fill_buffer, Reading, jpeg_src_read}

-- `buffer_cache_context_t`. `block` is the memory at `buffer_cache`; two flags say that a pointer
-- is not NULL.
pub record Cache : Type 0 where
  pub block : Mem
  pub has_block : Bool
  pub has_current : Bool
  pub current_start : ℕ
  pub last_buffer_size : ℕ
  pub total_buffer_size : ℕ
  pub cache_read : ℕ
  pub current_read : ℕ

-- What a context of the wrapper keeps for reading; `direct` is whether the read operation is
-- jpeg_src_read, and not jpeg_src_read_header.
pub record Reader : Type 0 where
  pub src : Input
  pub cache : Cache
  pub direct : Bool

-- The first part of cache_input_buffer; `heap` is the new block.
unfoldable pub cache_current : Mem → Input → Cache → Cache
cache_current heap src c =
    if c.has_current
    then (let kept = if c.has_block then memcpy heap 0 c.block 0 c.total_buffer_size else heap in
        record c {
          block = memcpy kept c.total_buffer_size src.memory c.current_start c.last_buffer_size;
          has_block = true;
          cache_read = 0;
          total_buffer_size = c.total_buffer_size + c.last_buffer_size;
        })
    else c

-- A buffer that is filled is at an address that is not NULL.
unfoldable pub cache_input_buffer : Feed → Mem → Reader → Reader
cache_input_buffer feed heap r =
    let src' = fill_buffer feed r.src in
    record r {
      src = src';
      cache = record (cache_current heap r.src r.cache) {
        last_buffer_size = src'.bytes_in_buffer;
        has_current = true;
        current_start = src'.next_input_byte;
        current_read = src'.next_input_byte;
      };
    }

-- shjpeg_read_header up to the call of libjpeg; `present` is whether next_input_byte is not NULL.
unfoldable pub read_header_init : Bool → Reader → Reader
read_header_init present r = record r {
  cache = record r.cache {
    total_buffer_size = 0;
    last_buffer_size = r.src.bytes_in_buffer;
    has_current = present;
    current_start = r.src.next_input_byte;
    current_read = r.src.next_input_byte;
  };
}

-- shjpeg_read_header after the call of libjpeg: reading begins with what libjpeg has read.
unfoldable pub read_header_end : Reader → Reader
read_header_end r = record r { direct = false }

-- What a read leaves: the reader, the decoder's memory, and the number of bytes.
pub record Answer : Type 0 where
  pub reader : Reader
  pub out : Mem
  pub n_bytes : ℕ

-- All that libjpeg has taken of the buffer is read.
abbrev pub current_done : Cache → Cache
current_done c = record c {
  has_current = false;
  current_start = 0;
  current_read = 0;
  last_buffer_size = 0;
}

-- jpeg_src_read_header from the second part on: `local` bytes are still wanted.
unfoldable pub read_current : ℕ → Feed → ℕ → ℕ → Mem → ℕ → Reader → Option Answer
read_current fuel feed n_bytes local out dataptr r =
    let c = r.cache in
    let copied = c.last_buffer_size - r.src.bytes_in_buffer in
    let copybytes = if ltb copied local then copied else local in
    let out1 = memcpy out dataptr r.src.memory c.current_read copybytes in
    let last = c.last_buffer_size - copybytes in
    if last == r.src.bytes_in_buffer
    then (let taken = n_bytes - (local - copybytes) in
        Option.map
          (λ (d : Reading). record {
            reader = record { src = d.src; cache = current_done c; direct = true };
            out = d.out;
            n_bytes = taken + d.n_bytes;
          })
          (jpeg_src_read fuel feed (local - copybytes) out1 (dataptr + copybytes) r.src))
    else some (record {
      reader = record r {
        cache = record c { last_buffer_size = last; current_read = c.current_read + copybytes };
      };
      out = out1;
      n_bytes = n_bytes;
    })

unfoldable pub jpeg_src_read_header : ℕ → Feed → ℕ → Mem → ℕ → Reader → Option Answer
jpeg_src_read_header fuel feed n_bytes out dataptr r =
    let c = r.cache in
    if c.total_buffer_size == 0
    then read_current fuel feed n_bytes n_bytes out dataptr r
    else let copybytes = if ltb c.total_buffer_size n_bytes then c.total_buffer_size else n_bytes in
      let out1 = memcpy out dataptr c.block c.cache_read copybytes in
      let total = c.total_buffer_size - copybytes in
      if total == 0
      then read_current fuel feed n_bytes (n_bytes - copybytes) out1 (dataptr + copybytes)
          (record r {
            cache = record c { total_buffer_size = 0; has_block = false; cache_read = 0 };
          })
      else some (record {
        reader = record r {
          cache = record c { total_buffer_size = total; cache_read = c.cache_read + copybytes };
        };
        out = out1;
        n_bytes = n_bytes;
      })

-- The read operation of the context.
unfoldable pub sops_read : ℕ → Feed → ℕ → Mem → ℕ → Reader → Option Answer
sops_read fuel feed n_bytes out dataptr r =
    if r.direct
    then Option.map
        (λ (d : Reading). record {
          reader = record r { src = d.src };
          out = d.out;
          n_bytes = d.n_bytes;
        })
        (jpeg_src_read fuel feed n_bytes out dataptr r.src)
    else jpeg_src_read_header fuel feed n_bytes out dataptr r
