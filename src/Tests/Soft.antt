-- ===== src/Tests/Soft.antt =====
-- The pixel formats and the software converters on a surface of four by two pixels.
use libshjpeg.Base.{◌+◌, ◌*◌, ◌/◌, ◌%◌, ◌≡◌, refl, arith, false, true}
use libshjpeg.Memory.{Mem, IsBytes}
use libshjpeg.Context.{Context, allowed}
use libshjpeg.PixelFormat.{pixelformat, pitch_multiply, bits_per_pixel, plane_multiply, pf_ycbcr}
use libshjpeg.PixelFormat.Laws.{accessors-pixelformat}
use libshjpeg.Soft.{soft_from_ycbcr_byword}
use libshjpeg.Soft.From.{mean_chroma}
use libshjpeg.Soft.FromImage.{
  FitsLinebuf, soft_from_ycbcr_byword-luma, soft_from_ycbcr_byword-chroma,
}
use libshjpeg.SoftTo.{soft_to_ycbcr_byword}
use libshjpeg.SoftTo.Words.{HasPixel}
use libshjpeg.SoftTo.Image.{FitsSurface, soft_to_ycbcr_byword-pixels}
use libshjpeg.SoftTo.RoundTrip.{from_to_roundtrip}

accessors-pixelformat_example :
    (pitch_multiply (pixelformat 5 1 16 4) ≡ 1)
    × (bits_per_pixel (pixelformat 5 1 16 4) ≡ 16)
    × (plane_multiply (pixelformat 5 1 16 4) 480 ≡ 4 * 480 / 2)
accessors-pixelformat_example =
    accessors-pixelformat 5 1 16 4 (omega arith) (omega arith) (omega arith) (omega arith) 480

-- Memories with recognisable contents.
abbrev pub surface : Mem
surface a = (7 * a + 3) % 256

abbrev pub buffer : Mem
buffer a = (5 * a + 1) % 256

abbrev pub fresh : Mem
fresh a = 0xa5

pub surface-IsBytes : IsBytes surface
surface-IsBytes a = omega arith

buffer-IsBytes : IsBytes buffer
buffer-IsBytes a = omega arith

pub fresh-IsBytes : IsBytes fresh
fresh-IsBytes a = omega arith

abbrev pub small : Context
small = record {
  width = 4;
  height = 2;
  mode420 = false;
  mode444 = true;
  sops = record { init = false; read = true; write = true; finalize = false };
  libjpeg_disabled = allowed;
  libjpeg_used = false;
  pitch = 12;
  format = pf_ycbcr;
}

pub small-FitsLinebuf : FitsLinebuf small 0 8192 2
small-FitsLinebuf = record {
  width_fits = omega arith;
  packed_line = omega arith;
  addressable = omega arith;
  planes_apart = omega arith;
}

small-FitsSurface : FitsSurface small 2
small-FitsSurface = record {
  width_fits = omega arith;
  packed_line = omega arith;
  addressable = omega arith;
}

soft_from_ycbcr_byword-luma_example :
    soft_from_ycbcr_byword small fresh buffer 0 8192 surface 100 2 (0 + 4096 * 1 + 3)
    ≡ surface (100 + (12 * 1 + 3 * 3))
soft_from_ycbcr_byword-luma_example =
    soft_from_ycbcr_byword-luma small fresh buffer 0 8192 surface 100 2 fresh-IsBytes
      surface-IsBytes small-FitsLinebuf 1 3 (omega arith) (omega arith)

soft_from_ycbcr_byword-chroma_example :
    soft_from_ycbcr_byword small fresh buffer 0 8192 surface 100 2 (8192 + 4096 * 1 + 3)
    ≡ mean_chroma surface (100 + 12 * 1) 3
soft_from_ycbcr_byword-chroma_example =
    soft_from_ycbcr_byword-chroma small fresh buffer 0 8192 surface 100 2 fresh-IsBytes
      surface-IsBytes small-FitsLinebuf 1 3 (omega arith) (omega arith)

soft_to_ycbcr_byword-pixels_example :
    HasPixel
      (soft_to_ycbcr_byword small fresh buffer 0 8192 surface 100 2)
      (100 + (12 * 1 + 3 * 3))
      (buffer (0 + 4096 * 1 + 3))
      (buffer (8192 + 4096 * 1 + 3 / 2 * 2))
      (buffer (8192 + 4096 * 1 + (3 / 2 * 2 + 1)))
soft_to_ycbcr_byword-pixels_example =
    soft_to_ycbcr_byword-pixels small fresh buffer 0 8192 surface 100 2 fresh-IsBytes buffer-IsBytes
      small-FitsSurface 1 3 (omega arith) (omega arith)

from_to_roundtrip_example :
    let packed =
      soft_from_ycbcr_byword small fresh fresh 0 8192
        (soft_to_ycbcr_byword small fresh buffer 0 8192 surface 100 2)
        100
        2 in
    (packed (0 + 4096 * 1 + 3) ≡ buffer (0 + 4096 * 1 + 3))
    × (packed (8192 + 4096 * 1 + 3) ≡ buffer (8192 + 4096 * 1 + 3))
from_to_roundtrip_example =
    from_to_roundtrip small fresh fresh buffer fresh 0 8192 0 8192 surface 100 2 fresh-IsBytes
      fresh-IsBytes buffer-IsBytes surface-IsBytes refl small-FitsLinebuf 1 3 (omega arith)
      (omega arith)
