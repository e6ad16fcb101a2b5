-- ===== src/Jpu/Convert.antt =====
-- src/shjpeg_jpu.c: colour conversion of one line buffer, by the VIO or in software.
use libshjpeg.Base.{◌+◌, ◌-◌, ◌*◌, ◌/◌, ◌%◌, ◌^◌, ltb, ◌==◌, true, false, if◌then◌else◌}
use libshjpeg.Context.{Context}
use libshjpeg.Soft.{linebuffer_pitch, linebuffer_height}
use libshjpeg.Jpu.State.{
  Machine, Surface, VioFormat, ren_unknown, ren_nv16, effect, has, flag_convert, flag_softconvert,
  soft_from, soft_to, vio_wait,
}
use libshjpeg.Jpu.Vio.{
  shjpeg_vio_color, shjpeg_vio_init, shjpeg_vio_set_dst_jpu, shjpeg_vio_set_src_jpu,
  shjpeg_vio_set_src, shjpeg_vio_start,
}

-- The encoder's half of `start_vio`, for a known source format; the source moves on by one line
-- buffer.
unfoldable pub start_vio_encode : Context → VioFormat → Machine → Machine
start_vio_encode context format m =
    let src : Surface = record {
      w = context.width;
      h = linebuffer_height;
      format = format;
      pitch = context.pitch / m.size_y format 1 0;
    } in
    let dst : Surface = record {
      w = context.width;
      h = linebuffer_height;
      format = ren_nv16;
      pitch = linebuffer_pitch;
    } in
    let m1 = shjpeg_vio_init src dst m in
    let m2 = shjpeg_vio_set_src m.jpeg.sa_y m.jpeg.sa_c m1 in
    let m3 = shjpeg_vio_start false (shjpeg_vio_set_dst_jpu m2) in
    record m3 {
      jpeg = record m.jpeg {
        sa_y = (m.jpeg.sa_y + m.jpeg.sa_inc) % 2 ^ 32;
        sa_c = (m.jpeg.sa_c + m.jpeg.sa_inc) % 2 ^ 32;
      };
    }

unfoldable pub start_vio : Context → Machine → Machine
unfolding start_vio_encode
start_vio context m =
    if m.internal.jpeg_encode
    then elim (shjpeg_vio_color context.format) [
      | ren_unknown ↦ m
      | format ↦ start_vio_encode context format m
    ]
    else shjpeg_vio_start true (shjpeg_vio_set_src_jpu m)

-- Both return 0 always. The VIO goes on to the other line buffer.
abbrev pub next_vio_linebuf : Machine → Machine
next_vio_linebuf m = record m {
  internal = record m.internal {
    vio_linebuf = (m.internal.vio_linebuf + 1) % 2;
    vio_line_bufs_done = m.internal.vio_line_bufs_done + 1;
  };
}

unfoldable pub wait_and_process_vio : Machine → Machine
wait_and_process_vio m = next_vio_linebuf (effect vio_wait m)

-- `soft_line` never passes `height`, so the difference is not negative.
unfoldable pub shjpeg_sw_convert : Context → Machine → Machine
shjpeg_sw_convert context m =
    let left = context.height - m.jpeg.soft_line in
    let lines = if ltb linebuffer_height left then linebuffer_height else left in
    if lines == 0
    then m
    else next_vio_linebuf (
        let e =
          if m.internal.jpeg_encode
          then soft_from m.internal.vio_linebuf m.jpeg.soft_offset lines
          else soft_to m.internal.vio_linebuf m.jpeg.soft_offset lines in
        record (effect e m) {
          jpeg = record m.jpeg {
            soft_offset = (m.jpeg.soft_offset + context.pitch * lines) % 2 ^ 32;
            soft_line = m.jpeg.soft_line + lines;
          };
        })

unfoldable pub shjpeg_convert : Context → Machine → Machine
unfolding start_vio wait_and_process_vio shjpeg_sw_convert
shjpeg_convert context m =
    if has m.jpeg.flags flag_convert
    then wait_and_process_vio (start_vio context m)
    else if has m.jpeg.flags flag_softconvert
    then shjpeg_sw_convert context m
    else record m {
      internal = record m.internal { vio_line_bufs_done = m.internal.vio_line_bufs_done + 1 };
    }
