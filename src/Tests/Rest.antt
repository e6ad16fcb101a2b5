-- ===== src/Tests/Rest.antt =====
-- The software decoder and the life of the library.
use libshjpeg.Base.{ℕ, ◌+◌, ◌*◌, ◌%◌, ◌≡◌, refl, arith, true, false, some, ltb, if◌then◌else◌}
use libshjpeg.PixelFormat.{pf_nv12}
use libshjpeg.Memory.{Mem}
use libshjpeg.Soft.{soft_from_ycbcr_byword}
use libshjpeg.SoftDecode.{copy_line_nv16, row_memory, decode_sw}
use libshjpeg.SoftDecode.Line.{copy_line_nv16-agrees}
use libshjpeg.SoftDecode.Formats.{nv12, Shows, decode_sw-Shows}
use libshjpeg.Context.{Context}
use libshjpeg.SoftByte.{soft_from_ycbcr_bybyte}
use libshjpeg.SoftByte.Agree.{soft_from_ycbcr_bybyte-agrees}
use libshjpeg.Source.{Stream, Source, init_src, skip_input_data, Frame}
use libshjpeg.Source.Skip.{Skipped, skip_input_data-Skipped}
use libshjpeg.Lifecycle.{Answers, Library, untouched, uio_init, shjpeg_init, shjpeg_shutdown}
use libshjpeg.Lifecycle.Holders.{
  Reach, at_first, initialized, given_back, Held, Reach-Held, NeverUnregistered,
  Reach-NeverUnregistered,
}
use libshjpeg.Tests.Soft.{
  surface, buffer, fresh, small, surface-IsBytes, fresh-IsBytes, small-FitsLinebuf,
}

-- Row 1 of the surface of the converters' tests.
abbrev row : Mem
row a = surface (100 + 12 * 1 + a)

copy_line_nv16-agrees_example :
    let line = copy_line_nv16 500 600 row 4 buffer in
    let out = soft_from_ycbcr_byword small fresh buffer 0 8192 surface 100 2 in
    (line (500 + 3) ≡ out (0 + 4096 * 1 + 3)) × (line (600 + 3) ≡ out (8192 + 4096 * 1 + 3))
copy_line_nv16-agrees_example =
    copy_line_nv16-agrees small fresh buffer 0 8192 surface 100 2 fresh-IsBytes surface-IsBytes
      small-FitsLinebuf 500 600 buffer 1 3 (omega arith) (omega arith) (omega arith)

-- Scanlines that differ.
abbrev scanline : ℕ → Mem
scanline y a = (7 * a + 5 * y) % 256

-- The second line of NV12 shares the chroma of the first.
decode_sw-Shows_example :
    (m : Mem) × (decode_sw scanline (λ y a. 0) 2 2 pf_nv12 1000 3 2 8 buffer ≡ some m)
    × Shows nv12 (row_memory 2 scanline (λ y a. 0)) 1000 1016 8 m 1 2
decode_sw-Shows_example =
    decode_sw-Shows nv12 scanline (λ y a. 0) 2 2 1000 3 2 8 buffer (λ y a. omega arith)
      (λ y a. omega arith) (omega arith) (omega arith) (omega arith) 1 2 (omega arith) (omega arith)

abbrev works : Answers
works = record {
  vio_opens = true;
  uiomux_opens = true;
  has_mmio = true;
  has_mem = true;
  jpeg_size = 0x2000000;
  gives = record { reload = true; line1 = true; line2 = true };
}

-- Two clients, one of which has left.
abbrev after_two : Library
after_two = (shjpeg_init true works (shjpeg_init true works untouched).0).0

after_two-Reach : Reach 2 after_two
unfolding shjpeg_init uio_init
after_two-Reach = initialized true works (initialized true works at_first refl) refl

Reach-Held_example : Held 1 (shjpeg_shutdown after_two) works.gives
unfolding after_two-Reach
Reach-Held_example = Reach-Held (given_back after_two-Reach)

Reach-NeverUnregistered_example :
    NeverUnregistered (shjpeg_shutdown (shjpeg_shutdown after_two)).registrations
Reach-NeverUnregistered_example = Reach-NeverUnregistered (given_back (given_back after_two-Reach))

soft_from_ycbcr_bybyte-agrees_example :
    let by_byte = soft_from_ycbcr_bybyte small fresh buffer 0 8192 surface 100 2 in
    let by_word = soft_from_ycbcr_byword small fresh fresh 0 8192 surface 100 2 in
    (by_byte (0 + 4096 * 1 + 3) ≡ by_word (0 + 4096 * 1 + 3))
    × (by_byte (8192 + 4096 * 1 + 3) ≡ by_word (8192 + 4096 * 1 + 3))
soft_from_ycbcr_bybyte-agrees_example =
    soft_from_ycbcr_bybyte-agrees small fresh fresh buffer fresh 0 8192 surface 100 2 fresh-IsBytes
      fresh-IsBytes surface-IsBytes small-FitsLinebuf (omega arith) refl 1 3 (omega arith)
      (omega arith)

-- A stream of blocks of 100 bytes that ends after three.
abbrev short_stream : Stream
short_stream = record {
  has_read = true;
  read = λ n. record { failed = false; len = if ltb n 3 then 100 else 0 };
  contents = λ n. row;
}

skip_input_data-Skipped_example :
    (src' : Source) × (skip_input_data 310 short_stream 305 (init_src row) ≡ some src')
    × Skipped short_stream 305 (init_src row) src'
skip_input_data-Skipped_example =
    skip_input_data-Skipped 310 short_stream 305 (init_src row) (omega arith)

abbrev frame_420 : Frame
frame_420 = record {
  output_width = 640;
  output_height = 480;
  h0 = 2;
  v0 = 2;
  h1 = 1;
  v1 = 1;
  h2 = 1;
  v2 = 1;
}

abbrev read_context : Context
read_context = record small { width = 640; height = 480; mode420 = true; mode444 = false }
