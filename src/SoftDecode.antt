-- ===== src/SoftDecode.antt =====
-- src/shjpeg_decode.c: decode_sw and the copies of a line, on a little-endian machine. libjpeg gives
-- the scanlines: `row y` are the bytes of the row buffer after the y-th call of jpeg_read_scanlines,
-- and `beyond y` are those that happen to stand behind the row buffer, which may be any: a surface
-- that is wider than the image is filled from them. The user's surface is one memory, the row
-- buffer another.
pub mod Line
pub mod Image
pub mod Luma
pub mod Nv12
pub mod Pixels
pub mod Rgb
pub mod Formats
use libshjpeg.Base.{
  ℕ, zero, suc, ◌+◌, ◌-◌, ◌*◌, ◌/◌, ◌%◌, ◌^◌, bit_and, bit_or, ◌==◌, ltb, ◌||◌, if◌then◌else◌,
  Option, none, some,
}
use libshjpeg.PixelFormat.{pf_nv12, pf_nv16, pf_rgb16, pf_rgb24, pf_rgb32}
use libshjpeg.Memory.{Mem, store16, store32, memcpy}

abbrev pub pixel_rgb16 : ℕ → ℕ → ℕ → ℕ
pixel_rgb16 r g b =
    bit_or (bit_or (bit_and r 0xf8 * 2 ^ 8) (bit_and g 0xfc * 2 ^ 3)) (bit_and b 0xf8 / 2 ^ 3)

abbrev pub pixel_rgb32 : ℕ → ℕ → ℕ → ℕ
pixel_rgb32 r g b = bit_or (bit_or (r * 2 ^ 16) (g * 2 ^ 8)) b

-- `n` pixels are left of the loop over `i`.
pub write_rgb16 : ℕ → ℕ → Mem → ℕ → Mem → Mem
write_rgb16 zero i src dst m = m
write_rgb16 (suc n) i src dst m =
    write_rgb16 n (i + 1) src dst
      (store16 m (dst + 2 * i) (pixel_rgb16 (src (i * 3 + 0)) (src (i * 3 + 1)) (src (i * 3 + 2))))

pub write_rgb32 : ℕ → ℕ → Mem → ℕ → Mem → Mem
write_rgb32 zero i src dst m = m
write_rgb32 (suc n) i src dst m =
    write_rgb32 n (i + 1) src dst
      (store32 m (dst + 4 * i) (pixel_rgb32 (src (i * 3 + 0)) (src (i * 3 + 1)) (src (i * 3 + 2))))

unfoldable pub write_rgb_span : Mem → ℕ → ℕ → ℕ → Mem → Mem
write_rgb_span src dst len format m =
    if format == pf_rgb16
    then write_rgb16 len 0 src dst m
    else if format == pf_rgb24
    then memcpy m dst src 0 (len * 3)
    else if format == pf_rgb32
    then write_rgb32 len 0 src dst m
    else m

-- Two luma bytes, and the mean chroma of their pixels.
abbrev pub y_word : Mem → ℕ → ℕ
y_word src x = bit_or (src (6 * x + 3) * 2 ^ 8) (src (6 * x))

abbrev pub cbcr_word : Mem → ℕ → ℕ
cbcr_word src x =
    bit_or (bit_and ((src (6 * x + 2) + src (6 * x + 5)) * 2 ^ 7) 0xff00)
      ((src (6 * x + 1) + src (6 * x + 4)) / 2)

-- The loops over the pairs of pixels, `n` of them left.
pub copy_pairs_nv16 : ℕ → ℕ → ℕ → ℕ → Mem → Mem → Mem
copy_pairs_nv16 zero x yy cbcr src m = m
copy_pairs_nv16 (suc n) x yy cbcr src m =
    copy_pairs_nv16 n (x + 1) yy cbcr src
      (store16 (store16 m (yy + 2 * x) (y_word src x)) (cbcr + 2 * x) (cbcr_word src x))

unfoldable pub copy_line_nv16 : ℕ → ℕ → Mem → ℕ → Mem → Mem
copy_line_nv16 yy cbcr src width m = copy_pairs_nv16 (width / 2) 0 yy cbcr src m

pub copy_pairs_y : ℕ → ℕ → ℕ → Mem → Mem → Mem
copy_pairs_y zero x yy src m = m
copy_pairs_y (suc n) x yy src m =
    copy_pairs_y n (x + 1) yy src (store16 m (yy + 2 * x) (y_word src x))

unfoldable pub copy_line_y : ℕ → Mem → ℕ → Mem → Mem
copy_line_y yy src width m = copy_pairs_y (width / 2) 0 yy src m

-- The surface and the two moving pointers.
pub record Rows : Type 0 where
  pub surface : Mem
  pub addr : ℕ
  pub addr_uv : ℕ

-- One round of the loop over the scanlines; `y + 1` is libjpeg's `output_scanline` in it.
unfoldable pub decode_sw_line : (ℕ → Mem) → ℕ → ℕ → ℕ → ℕ → Rows → Rows
decode_sw_line scanline format width pitch y r =
    let r1 =
      if format == pf_nv12
      then (if (y + 1) % 2 == 1
          then record r {
            surface = copy_line_nv16 r.addr r.addr_uv (scanline y) width r.surface;
            addr_uv = r.addr_uv + pitch;
          }
          else record r { surface = copy_line_y r.addr (scanline y) width r.surface })
      else if format == pf_nv16
      then record r {
        surface = copy_line_nv16 r.addr r.addr_uv (scanline y) width r.surface;
        addr_uv = r.addr_uv + pitch;
      }
      else record r { surface = write_rgb_span (scanline y) r.addr width format r.surface } in
    record r1 { addr = r.addr + pitch }

-- `n` scanlines are left.
pub decode_sw_lines : (ℕ → Mem) → ℕ → ℕ → ℕ → ℕ → ℕ → Rows → Rows
decode_sw_lines scanline format width pitch zero y r = r
decode_sw_lines scanline format width pitch (suc n) y r =
    decode_sw_lines scanline format width pitch n (y + 1)
      (decode_sw_line scanline format width pitch y r)

-- The choice of the format and the loop; `scanline y` is the memory from the row buffer on.
unfoldable pub decode_sw_rows : (ℕ → Mem) → ℕ → ℕ → ℕ → ℕ → ℕ → ℕ → Mem → Option Mem
decode_sw_rows scanline output_height format addr width height pitch surface =
    let rows : Rows = record { surface = surface; addr = addr; addr_uv = addr + height * pitch } in
    if format == pf_rgb16 || (format == pf_rgb24 || format == pf_rgb32)
    then some (decode_sw_lines scanline format width pitch output_height 0 rows).surface
    else if format == pf_nv12 || format == pf_nv16
    then some
        (decode_sw_lines scanline format (bit_and (width + 1) (2 ^ 32 - 2)) pitch output_height 0
          rows).surface
    else none

-- The memory from the row buffer on, which has `row_stride` bytes of its own.
abbrev pub row_stride : ℕ → ℕ
row_stride output_width = bit_and ((output_width + 1) % 2 ^ 32) (2 ^ 32 - 2) * 3 % 2 ^ 32

abbrev pub row_memory : ℕ → (ℕ → Mem) → (ℕ → Mem) → ℕ → Mem
row_memory output_width row beyond y a =
    if ltb a (row_stride output_width) then row y a else beyond y a

-- The surface that is left, where libjpeg decodes without an error; none for a return of -1.
unfoldable pub decode_sw : (ℕ → Mem) → (ℕ → Mem) → ℕ → ℕ → ℕ → ℕ → ℕ → ℕ → ℕ → Mem → Option Mem
decode_sw row beyond output_width output_height format addr width height pitch surface =
    decode_sw_rows (row_memory output_width row beyond) output_height format addr width height pitch
      surface
