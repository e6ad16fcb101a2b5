-- ===== src/Jpu/Ints.antt =====
-- What the interrupt bits mean for the driver's state, for every contents of JINTS.
use libshjpeg.Base.{
  ℕ, ◌+◌, ◌-◌, ◌*◌, ◌/◌, ◌%◌, ◌^◌, ◌<◌, ◌≡◌, arith, ◌==◌, Bool, true, ◌||◌, if◌then◌else◌, bit_or,
  bit_and_field, bit_or_shifted, bit_or-one,
}
use libshjpeg.Jpu.State.{Internal, dec, has}
use libshjpeg.Jpu.Interrupts.{process_jpu_ints}

-- Bit `k` of a word.
unfoldable pub bit : ℕ → ℕ → Bool
bit word k = word / 2 ^ k % 2 == 1

has-bit : (k word : ℕ) → has word ((2 ^ 1 - 1) * 2 ^ k) ≡ bit word k
unfolding has bit
has-bit k word = ground (arith, bit_and_field 1 k word)

has-linebufs : (word : ℕ) → has word 0x1800 ≡ (bit word 11 || bit word 12)
unfolding has bit
has-linebufs word = ground (arith, bit_and_field 2 11 word)

-- The transfer's end counts as the end of line buffer 1.
has_linebuf1 : (ints : ℕ) → has (bit_or ints 0x1000) 0x1800 ≡ true
unfolding has
has_linebuf1 ints = ground (
  arith,
  bit_and_field 2 11 (bit_or ints 0x1000),
  bit_or_shifted 12 ints 1,
  bit_or-one (ints / 2 ^ 12),
)

abbrev pub count : Bool → ℕ
count b = if b then 1 else 0

-- What processing the interrupt bits of `ints` does to a state, told by the bits.
pub record Processed (ints jcderr : ℕ) (d : Internal) (done : Bool) (d' : Internal) (done' : Bool)
    : Type 0 where
  pub error : d'.jpeg_error ≡ (if bit ints 5 then jcderr else d.jpeg_error)
  pub ended : d'.jpeg_end ≡ (d.jpeg_end || bit ints 10)
  pub lines :
      d'.jpu_line_bufs_done
      ≡ d.jpu_line_bufs_done + count (bit ints 10 || (bit ints 11 || bit ints 12))
  pub pending : d'.jpu_line_bufs_pending ≡ (
      if bit ints 10 || (bit ints 11 || bit ints 12)
      then dec d.jpu_line_bufs_pending
      else d.jpu_line_bufs_pending)
  pub linebuf :
      d'.jpeg_linebuf ≡ (d.jpeg_linebuf + count (bit ints 10 || (bit ints 11 || bit ints 12))) % 2
  pub buffer : d'.jpeg_buffer ≡ (d.jpeg_buffer + count (bit ints 13) + count (bit ints 14)) % 2
  pub converter : d'.vio_line_bufs_done ≡ d.vio_line_bufs_done
  pub over : done' ≡ (done || (bit ints 5 || (bit ints 10 || (bit ints 13 || bit ints 14))))

-- The driver's view of an interrupt, for every contents of JINTS: the end of the transfer or either
-- line buffer's bit finishes exactly one line buffer, even where several of them are set; each of
-- the loaded and reload bits switches the reload buffer; an error, the end, and a reload end the
-- loop.
pub process_jpu_ints-Processed :
    (ints jcderr : ℕ) (d : Internal) (done : Bool)
    → d.jpeg_linebuf < 2
    → d.jpeg_buffer < 2
    → Processed ints jcderr d done
        (process_jpu_ints ints jcderr d done).0
        (process_jpu_ints ints jcderr d done).1
unfolding process_jpu_ints
process_jpu_ints-Processed ints jcderr d done h h' = record {
  error = ground (arith, has-bit 5 ints);
  ended = ground (arith, has-bit 10 ints);
  lines = ground (arith, has-bit 10 ints, has_linebuf1 ints, has-linebufs ints);
  pending = ground (arith, has-bit 10 ints, has_linebuf1 ints, has-linebufs ints);
  linebuf = ground (arith, has-bit 10 ints, has_linebuf1 ints, has-linebufs ints);
  buffer = ground (arith, has-bit 13 ints, has-bit 14 ints);
  converter = ground arith;
  over = ground (arith, has-bit 5 ints, has-bit 10 ints, has-bit 13 ints, has-bit 14 ints);
}
