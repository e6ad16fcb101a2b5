-- ===== src/Wrap/Lines.antt =====
-- src/libjpeg_wrap/override.c: the scanlines of an image in JPU mode, copied out of and into the
-- buffer. The buffer is one memory, the client's another; `rows` is the client's array of pointers.
-- A JDIMENSION is 32 bits wide.
pub mod Copies
pub mod Whole
use libshjpeg.Base.{
  ℕ, zero, suc, ◌+◌, ◌-◌, ◌*◌, ◌%◌, ◌^◌, ltb, Bool, not, if◌then◌else◌, Option, none, some,
}
use libshjpeg.Memory.{Mem, memcpy}
use libshjpeg.Wrap.Calls.{Wrapper}

-- The memory that is written, and the object's next scanline.
pub record Lines : Type 0 where
  pub memory : Mem
  pub scanline : ℕ

-- An object without a context, one that is left to libjpeg, or the number of lines that are copied.
pub data LinesOutcome : Type 0 where
  no_context by_libjpeg : LinesOutcome
  copied : ℕ → Lines → LinesOutcome

-- The lines asked for, or those that are left.
unfoldable pub line_count : ℕ → ℕ → ℕ → ℕ
line_count height scanline max_lines =
    if ltb height ((max_lines + scanline) % 2 ^ 32)
    then (height + 2 ^ 32 - scanline) % 2 ^ 32
    else max_lines

-- The loop of shjpeg_read_scanlines with `n` lines left.
unfoldable pub read_lines : ℕ → ℕ → Wrapper → ℕ → Mem → (ℕ → ℕ) → Lines → Lines
read_lines zero linecnt w components buffer rows l = l
read_lines (suc n) linecnt w components buffer rows l =
    read_lines n (linecnt + 1) w components buffer rows (record {
      memory =
          memcpy l.memory (rows linecnt) buffer (w.virt_addr + l.scanline * w.context.pitch)
            (w.context.width * components);
      scanline = l.scanline + 1;
    })

abbrev pub read_on : ℕ → Mem → (ℕ → ℕ) → ℕ → Lines → Option Wrapper → LinesOutcome
read_on components buffer rows max_lines l none = no_context
read_on components buffer rows max_lines l (some w) =
    if not w.jpumode
    then by_libjpeg
    else let n = line_count w.context.height l.scanline max_lines in
      copied n (read_lines n 0 w components buffer rows l)

unfoldable pub shjpeg_read_scanlines : Option Wrapper → ℕ → Mem → (ℕ → ℕ) → ℕ → Lines → LinesOutcome
shjpeg_read_scanlines ctx components buffer rows max_lines l =
    read_on components buffer rows max_lines l ctx

-- The loop of shjpeg_write_scanlines with `n` lines left.
unfoldable pub write_lines : ℕ → ℕ → Wrapper → ℕ → Mem → (ℕ → ℕ) → Lines → Lines
write_lines zero linecnt w components client rows l = l
write_lines (suc n) linecnt w components client rows l =
    write_lines n (linecnt + 1) w components client rows (record {
      memory =
          memcpy l.memory (w.virt_addr + l.scanline * w.context.pitch) client (rows linecnt)
            (w.context.width * components);
      scanline = l.scanline + 1;
    })

abbrev pub write_on : ℕ → Mem → (ℕ → ℕ) → ℕ → Lines → Option Wrapper → LinesOutcome
write_on components client rows num_lines l none = no_context
write_on components client rows num_lines l (some w) =
    if not w.jpumode
    then by_libjpeg
    else let n = line_count w.context.height l.scanline num_lines in
      copied n (write_lines n 0 w components client rows l)

unfoldable pub shjpeg_write_scanlines :
    Option Wrapper → ℕ → Mem → (ℕ → ℕ) → ℕ → Lines → LinesOutcome
shjpeg_write_scanlines ctx components client rows num_lines l =
    write_on components client rows num_lines l ctx
