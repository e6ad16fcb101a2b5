-- ===== src/Jpu/Vio.antt =====
-- src/shjpeg_vio.c and src/shjpeg_vio.h: the calls of libshvio, in the order in which the code makes
-- them. A failure of `shvio_setup` is only printed, and no caller looks at it.
use libshjpeg.Base.{ℕ, ◌==◌, Bool, not, if◌then◌else◌}
use libshjpeg.PixelFormat.{pf_rgb16, pf_rgb24, pf_rgb32, pf_nv12, pf_nv16}
use libshjpeg.Soft.{linebuffer_height}
use libshjpeg.Regs.{jifesya1, jifesca1, jifesya2, jifesca2, jifddya1, jifddca1, jifddya2, jifddca2}
use libshjpeg.Jpu.State.{
  Machine, Surface, effect, vio_color_conversion, vio_setup, vio_set_src, vio_set_dst, vio_start,
  vio_start_bundle, VioFormat, ren_unknown, ren_nv12, ren_nv16, ren_rgb565, ren_rgb24, ren_rgb32,
}

abbrev pub shjpeg_vio_color : ℕ → VioFormat
shjpeg_vio_color format =
    if format == pf_nv12
    then ren_nv12
    else if format == pf_nv16
    then ren_nv16
    else if format == pf_rgb16
    then ren_rgb565
    else if format == pf_rgb32
    then ren_rgb32
    else if format == pf_rgb24
    then ren_rgb24
    else ren_unknown

abbrev pub shjpeg_vio_init : Surface → Surface → Machine → Machine
shjpeg_vio_init src dst m = effect (vio_setup src dst) (effect (vio_color_conversion 0 1) m)

-- The JPU's line buffer `vio_linebuf` becomes the destination.
abbrev pub shjpeg_vio_set_dst_jpu : Machine → Machine
shjpeg_vio_set_dst_jpu m =
    if not (m.internal.vio_linebuf == 0)
    then effect (vio_set_dst (m.regs jifesya2) (m.regs jifesca2)) m
    else effect (vio_set_dst (m.regs jifesya1) (m.regs jifesca1)) m

-- The JPU's line buffer `vio_linebuf` becomes the source.
abbrev pub shjpeg_vio_set_src_jpu : Machine → Machine
shjpeg_vio_set_src_jpu m =
    if not (m.internal.vio_linebuf == 0)
    then effect (vio_set_src (m.regs jifddya2) (m.regs jifddca2)) m
    else effect (vio_set_src (m.regs jifddya1) (m.regs jifddca1)) m

abbrev pub shjpeg_vio_set_src : ℕ → ℕ → Machine → Machine
shjpeg_vio_set_src src_y src_c m = effect (vio_set_src src_y src_c) m

abbrev pub shjpeg_vio_start : Bool → Machine → Machine
shjpeg_vio_start bundle_mode m =
    if bundle_mode then effect (vio_start_bundle linebuffer_height) m else effect vio_start m
