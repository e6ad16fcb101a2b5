-- ===== src/Tests/Lines.antt =====
-- Scanlines out of and into the buffer.
use libshjpeg.Base.{ℕ, ◌*◌, true}
use libshjpeg.Wrap.Calls.{Wrapper, live, sized, src_ops}
use libshjpeg.Wrap.Lines.{Lines}

-- Four lines of two pixels, with two bytes between the lines of the buffer.
abbrev small : Wrapper
small = record {
  handle = live;
  context = record (sized 2 4 3) { pitch = 8 };
  virt_addr = 1000;
  bufsize = 32;
  jpumode = true;
  ops = src_ops;
}

-- Two lines are left.
abbrev at_line : Lines
at_line = record { memory = λ a. 0; scanline = 2 }

abbrev rows : ℕ → ℕ
rows i = 6 * i
