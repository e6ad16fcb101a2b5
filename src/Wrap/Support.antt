-- ===== src/Wrap/Support.antt =====
-- src/libjpeg_wrap/override.c: which images the wrapper gives to the JPU. ANDROID_RGB is not
-- defined.
use libshjpeg.Base.{ℕ, ◌==◌, Bool, true, false, not, ◌||◌, if◌then◌else◌}
use libshjpeg.PixelFormat.{pf_none, pf_rgb24, pf_ycbcr}
use libshjpeg.Source.{Frame, is_444}

-- libjpeg's J_COLOR_SPACE.
pub data ColorSpace : Type 0 where
  jcs_unknown jcs_grayscale jcs_rgb jcs_ycbcr jcs_cmyk jcs_ycck : ColorSpace

abbrev pub get_shjpeg_pixelformat : ColorSpace → ℕ
get_shjpeg_pixelformat jcs_rgb = pf_rgb24
get_shjpeg_pixelformat jcs_ycbcr = pf_ycbcr
get_shjpeg_pixelformat jcs_unknown = pf_none
get_shjpeg_pixelformat jcs_grayscale = pf_none
get_shjpeg_pixelformat jcs_cmyk = pf_none
get_shjpeg_pixelformat jcs_ycck = pf_none

abbrev pub is_ycbcr : ColorSpace → Bool
is_ycbcr jcs_ycbcr = true
is_ycbcr jcs_unknown = false
is_ycbcr jcs_grayscale = false
is_ycbcr jcs_rgb = false
is_ycbcr jcs_cmyk = false
is_ycbcr jcs_ycck = false

-- What the wrapper reads of a decompressor: whether it has a source, the colours, and the frame with
-- its output size.
pub record Decompress : Type 0 where
  pub has_src : Bool
  pub output_components : ℕ
  pub out_color_components : ℕ
  pub out_color_space : ColorSpace
  pub jpeg_color_space : ColorSpace
  pub frame : Frame

-- What it reads of a compressor.
pub record Compress : Type 0 where
  pub has_dest : Bool
  pub in_color_space : ColorSpace
  pub image_width : ℕ
  pub image_height : ℕ
  pub input_components : ℕ

unfoldable pub is_jpu_supported_decompress : Decompress → Bool
is_jpu_supported_decompress cinfo =
    if not cinfo.has_src
    then false
    else if not (cinfo.output_components == cinfo.out_color_components)
    then false
    else if get_shjpeg_pixelformat cinfo.out_color_space == pf_none
    then false
    else if not (is_ycbcr cinfo.jpeg_color_space) || is_444 cinfo.frame
    then false
    else true

unfoldable pub is_jpu_supported_compress : Compress → Bool → Bool
is_jpu_supported_compress cinfo wat =
    if not cinfo.has_dest
    then false
    else if not wat
    then false
    else if get_shjpeg_pixelformat cinfo.in_color_space == pf_none
    then false
    else true
