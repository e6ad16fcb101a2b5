-- ===== src/PixelFormat.antt =====
-- include/shjpeg/shjpeg_types.h: the pixel format numbers and the fields packed into them.
pub mod Laws
use libshjpeg.Base.{ℕ, ◌*◌, ◌/◌, ◌^◌, bit_and, bit_or}

-- The macro that packs an identifier, a pitch multiplier, a depth and a plane multiplier. The
-- library's own identifiers are at most 7, so the shift by 24 stays inside an `int`.
unfoldable pub pixelformat : ℕ → ℕ → ℕ → ℕ → ℕ
pixelformat id pitch bpp mul =
    bit_or
      (bit_or (bit_or (bit_and id 0xffff * 2 ^ 24) (bit_and pitch 0xff * 2 ^ 16))
        (bit_and bpp 0xff * 2 ^ 8))
      (bit_and mul 0xff)

unfoldable pub pitch_multiply : ℕ → ℕ
pitch_multiply format = bit_and format 0x00ff0000 / 2 ^ 16

unfoldable pub bits_per_pixel : ℕ → ℕ
bits_per_pixel format = bit_and format 0x0000ff00 / 2 ^ 8

unfoldable pub plane_multiply : ℕ → ℕ → ℕ
plane_multiply format height = bit_and format 0xff * height / 2

-- The enumeration, by value: `pixelformat 1 2 16 2` and so on (checked in `Laws`).
abbrev pub pf_none : ℕ
pf_none = 0

abbrev pub pf_rgb16 : ℕ
pf_rgb16 = 0x01021002

abbrev pub pf_rgb24 : ℕ
pf_rgb24 = 0x02031802

abbrev pub pf_rgb32 : ℕ
pf_rgb32 = 0x03042002

abbrev pub pf_nv12 : ℕ
pf_nv12 = 0x04010c03

abbrev pub pf_nv16 : ℕ
pf_nv16 = 0x05011004

abbrev pub pf_grayscale : ℕ
pf_grayscale = 0x06010c03

abbrev pub pf_ycbcr : ℕ
pf_ycbcr = 0x07031802
