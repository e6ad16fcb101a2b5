-- ===== src/Jpu/Run.antt =====
-- src/shjpeg_jpu.c: shjpeg_jpu_reset and shjpeg_jpu_run.
use libshjpeg.Base.{ℕ, ◌^◌, bit_or, bit_xor, ◌==◌, false, not, if◌then◌else◌}
use libshjpeg.Context.{Context}
use libshjpeg.Regs.{jccmd, jccmd_start}
use libshjpeg.Jpu.State.{Machine, Internal, start, run, end, pos, has, flag_encode, jpu_setreg32}
use libshjpeg.Jpu.Convert.{shjpeg_convert}
use libshjpeg.Jpu.Loops.{Outcome, returned, failed, blocked, out_of_fuel, jpu_encode, jpu_decode}

-- The wait for the reset bit to clear is the hardware's.
unfoldable pub shjpeg_jpu_reset : Machine → Machine
shjpeg_jpu_reset m = jpu_setreg32 jccmd 0x6 (jpu_setreg32 jccmd 0x80 (jpu_setreg32 jccmd 0x1000 m))

-- The case SHJPEG_JPU_START: a fresh state and the START command.
unfoldable pub jpu_run_init : Machine → Machine
jpu_run_init m =
    let encode = has m.jpeg.flags flag_encode in
    let d : Internal = record {
      jpeg_buffers = m.jpeg.buffers;
      jpeg_buffer = 0;
      jpeg_error = 0;
      jpeg_encode = encode;
      jpeg_end = false;
      jpeg_linebuf = 0;
      jpu_line_bufs_pending = if encode then pos 0 else pos 2;
      jpu_line_bufs_done = 0;
      vio_linebuf = 0;
      vio_line_bufs_done = 0;
    } in
    let m1 = jpu_setreg32 jccmd jccmd_start m in
    record m1 { internal = d; jpeg = record m.jpeg { state = run; error = 0 } }

-- An encoder converts one line buffer in advance.
unfoldable pub jpu_run_start : Context → Machine → Machine
jpu_run_start context m =
    if has m.jpeg.flags flag_encode then shjpeg_convert context (jpu_run_init m) else jpu_run_init m

-- The case SHJPEG_JPU_RUN: the buffers that the caller has loaded or emptied become valid.
unfoldable pub jpu_run_resume : Machine → Machine
jpu_run_resume m = record m {
  internal = record m.internal { jpeg_buffers = bit_or m.internal.jpeg_buffers m.jpeg.buffers };
}

-- What the caller gets back: the end or an error, and the buffers to reload or to empty.
unfoldable pub jpu_run_result : Machine → Machine
jpu_run_result m =
    if not (m.internal.jpeg_error == 0)
    then record m { jpeg = record m.jpeg { state = end; error = m.internal.jpeg_error } }
    else let buffers = bit_xor m.internal.jpeg_buffers 3 in
      if m.internal.jpeg_end
      then record m {
        jpeg = record m.jpeg { state = end; buffers = bit_or buffers (2 ^ m.internal.jpeg_buffer) };
      }
      else record m { jpeg = record m.jpeg { buffers = buffers } }

abbrev pub jpu_run_finish : Outcome → Outcome
jpu_run_finish (returned m) = returned (jpu_run_result m)
jpu_run_finish (failed m) = failed m
jpu_run_finish (blocked m) = blocked m
jpu_run_finish (out_of_fuel m) = out_of_fuel m

unfoldable pub jpu_run_loop : ℕ → Context → Machine → Outcome
jpu_run_loop fuel context m =
    jpu_run_finish (
      if has m.jpeg.flags flag_encode then jpu_encode fuel context m else jpu_decode fuel context m)

-- `switch (jpeg->state)`; any other state is refused with -1.
unfoldable pub shjpeg_jpu_run : ℕ → Context → Machine → Outcome
shjpeg_jpu_run fuel context m = elim m.jpeg.state [
  | start ↦ jpu_run_loop fuel context (jpu_run_start context m)
  | run ↦ jpu_run_loop fuel context (jpu_run_resume m)
  | end ↦ failed m
]
