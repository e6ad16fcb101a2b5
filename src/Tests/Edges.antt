-- ===== src/Tests/Edges.antt =====
-- The edges of the library: the mapping of a surface, and the tables of functions.
use libshjpeg.Base.{◌+◌, ◌*◌, ◌≡◌, inr, refl, arith, true, false, Bool, not, some, List, [], ◌∷◌}
use Prim.Native.String.{String}
use text.Mathlib.Text.{◌==◌ as str_eq}
use libshjpeg.PixelFormat.{pf_ycbcr, plane_multiply}
use libshjpeg.FrameMap.{Mapping, page_align, get_frame_buffer_virtual}
use libshjpeg.FrameMap.Covers.{MapResult, surface_size, get_frame_buffer_virtual-MapResult}
use libshjpeg.Hooks.{Loaded, init_lib}
use libshjpeg.Hooks.Tables.{Leads, init_lib-Leads}
use libshjpeg.Context.{Context}
use libshjpeg.SoftTo.{soft_to_ycbcr_byword}
use libshjpeg.SoftTo.Image.{FitsSurface}
use libshjpeg.SoftToByte.{soft_to_ycbcr_bybyte}
use libshjpeg.SoftToByte.Agree.{soft_to_ycbcr_bybyte-agrees}
use libshjpeg.Tests.Jpu.{image}
use libshjpeg.Tests.Soft.{surface, fresh, fresh-IsBytes, surface-IsBytes}

abbrev unmapped : Mapping
unmapped = record {
  mapbuflen = 0;
  mapfd = 0;
  mapaddr = 0;
  user_jpeg_virt = 0;
  files = 3 ∷ [];
  regions = [];
}

get_frame_buffer_virtual-MapResult_example :
    MapResult 0x41000123
      (surface_size image pf_ycbcr)
      unmapped
      (get_frame_buffer_virtual (some 4) 0x20000000 image pf_ycbcr 0x41000123 unmapped)
unfolding plane_multiply page_align
get_frame_buffer_virtual-MapResult_example =
    get_frame_buffer_virtual-MapResult (some 4) 0x20000000 image pf_ycbcr 0x41000123 unmapped
      (omega arith) (omega arith) (inr (omega arith, omega arith))

-- A libjpeg without one of three functions.
abbrev old_libjpeg : String → Bool
old_libjpeg name = not (str_eq name "jpeg_skip_scanlines")

abbrev three_names : List String
three_names = "jpeg_read_header" ∷ "jpeg_set_defaults" ∷ "jpeg_skip_scanlines" ∷ []

init_lib-Leads_example :
    (l : Loaded) × (init_lib false true old_libjpeg three_names ≡ some l)
    × Leads old_libjpeg "jpeg_skip_scanlines" l
init_lib-Leads_example =
    init_lib-Leads false true old_libjpeg three_names "jpeg_skip_scanlines" (inr refl) refl

-- Four by two pixels in 4:2:0.
abbrev four_by_two : Context
four_by_two = record image { width = 4; height = 2; mode420 = true; pitch = 14 }

four_by_two-FitsSurface : FitsSurface four_by_two 2
four_by_two-FitsSurface = record {
  width_fits = omega arith;
  packed_line = omega arith;
  addressable = omega arith;
}

soft_to_ycbcr_bybyte-agrees_example :
    let bybyte = soft_to_ycbcr_bybyte four_by_two fresh surface 0 8192 fresh 100 2 in
    let byword = soft_to_ycbcr_byword four_by_two fresh surface 0 8192 fresh 100 2 in
    let a = 100 + (14 * 1 + 3 * 3) in
    (bybyte a ≡ byword a) × (bybyte (a + 1) ≡ byword (a + 1)) × (bybyte (a + 2) ≡ byword (a + 2))
soft_to_ycbcr_bybyte-agrees_example =
    soft_to_ycbcr_bybyte-agrees four_by_two fresh surface 0 8192 fresh 100 2 fresh-IsBytes
      surface-IsBytes four_by_two-FitsSurface (omega arith) 1 3 (omega arith) (omega arith)
