-- ===== src/Decode/Run.antt =====
-- src/shjpeg_decode.c: decode_hw as a whole, and shjpeg_decode_run.
use libshjpeg.Base.{ℕ, ◌*◌, ltb, ◌==◌, Bool, true, false, not, ◌&&◌, ◌||◌, if◌then◌else◌, ◌∷◌}
use libshjpeg.Context.{Fallback, software_only, allowed, disabled}
use libshjpeg.PixelFormat.{pitch_multiply, pf_nv12, pf_nv16, pf_rgb16, pf_rgb24, pf_rgb32, pf_ycbcr}
use libshjpeg.Jpu.Vio.{shjpeg_vio_color}
use libshjpeg.Device.{
  reload_size, Layout, World, Session, Coded, finished, waits, exhausted, trapped, init_call,
}
use libshjpeg.Decode.{
  Target, is_unknown, frame_mode, sops_read, decode_setup, decode_frame, decode_linebuf, decode_vio,
  decode_soft, decode_loop,
}

-- free_frame_buffer_virtual, and uiomux_unlock with its effect on what is returned. A JPU that is not
-- unlocked stays as it is.
abbrev pub free_frame : Coded → Coded
free_frame (finished s ret) = finished (record s { mapped = false }) ret
free_frame (waits s) = waits s
free_frame (exhausted s) = exhausted s
free_frame (trapped s) = trapped s

abbrev pub unlock_jpu : World → Coded → Coded
unlock_jpu world (finished s ret) =
    finished (record s { locked = if world.unlock then false else s.locked })
      (if world.unlock then ret else true)
unlock_jpu world (waits s) = waits s
unlock_jpu world (exhausted s) = exhausted s
unlock_jpu world (trapped s) = trapped s

-- From the setting of the registers on: `len` bytes of the stream are read.
unfoldable pub decode_program : ℕ → ℕ → World → Layout → Target → ℕ → Session → Coded
decode_program fuel rounds world layout target len s =
    let reload = len == reload_size in
    let m = decode_setup layout len reload s.machine in
    let loop = λ (t : Session).
      free_frame (decode_loop fuel rounds world (record { session = t; ret = false })) in
    unlock_jpu world (
      if frame_mode s.context target.format
      then loop (record s { machine = decode_frame target reload m })
      else let m1 = decode_linebuf layout reload m in
        if target.format == pf_ycbcr
        then (let s1 = record s {
          machine = decode_soft m1;
          context = record s.context { pitch = target.pitch };
        } in
            if world.map_frame then loop (record s1 { mapped = true }) else finished s1 false)
        else loop (record s { machine = decode_vio s.context target m1 }))

-- The VIO's pitch is a quotient of `size_y`, which is libshvio's, also where it is not used.
unfoldable pub decode_hw : ℕ → ℕ → World → Layout → Target → Session → Coded
decode_hw fuel rounds world layout target s =
    if is_unknown (shjpeg_vio_color target.format) && not (target.format == pf_ycbcr)
    then finished s true
    else if s.machine.size_y (shjpeg_vio_color target.format) 1 0 == 0
    then trapped s
    else if not world.lock
    then finished s true
    else let s1 = record s { locked = true } in
      if not s.context.sops.read
      then finished s1 true
      else let answer = world.read s.count in
        let s2 = sops_read 0 s1 in
        if answer.failed
        then finished (record s2 { locked = if world.unlock then false else true }) true
        else decode_program fuel rounds world layout target answer.len s2

abbrev pub sops_init : Session → Session
sops_init s = if s.context.sops.init then record s { calls = init_call ∷ s.calls } else s

-- decode_sw: whether it reports an error. libjpeg panics, or refuses no format that is left.
unfoldable pub decode_sw_fails : World → ℕ → Bool
decode_sw_fails world format = format == pf_ycbcr || not world.libjpeg

abbrev pub allows_hardware : Fallback → Bool
allows_hardware software_only = false
allows_hardware allowed = true
allows_hardware disabled = true

abbrev pub allows_software : Fallback → Bool
allows_software software_only = true
allows_software allowed = true
allows_software disabled = false

abbrev pub use_libjpeg : Bool → Session → Session
use_libjpeg used s = record s { context = record s.context { libjpeg_used = used } }

-- The fallback after the hardware.
abbrev pub decode_fallback : World → ℕ → Coded → Coded
decode_fallback world format (finished s ret) =
    if allows_software s.context.libjpeg_disabled && ret
    then (let failed = decode_sw_fails world format in
        finished (if failed then s else use_libjpeg true s) failed)
    else finished s ret
decode_fallback world format (waits s) = waits s
decode_fallback world format (exhausted s) = exhausted s
decode_fallback world format (trapped s) = trapped s

abbrev pub is_supported : ℕ → Bool
is_supported format =
    format == pf_nv12
    || (format == pf_nv16
        || (format == pf_rgb16
            || (format == pf_rgb32 || (format == pf_rgb24 || format == pf_ycbcr))))

-- `initialized` is a reference count that is not zero; `virt` a buffer address that is not NULL.
unfoldable pub shjpeg_decode_run : ℕ → ℕ → World → Layout → Bool → Bool → Target → Session → Coded
shjpeg_decode_run fuel rounds world layout initialized virt target s =
    if not initialized
    then finished s true
    else if ltb target.width s.context.width
        || (ltb target.height s.context.height
            || ltb target.pitch (s.context.width * pitch_multiply target.format))
    then finished s true
    else if not virt
    then finished s true
    else if target.phys == 0
    then finished s true
    else if not (is_supported target.format)
    then finished s true
    else let s1 = use_libjpeg false s in
      decode_fallback world target.format (
        if not s.context.mode444 && allows_hardware s.context.libjpeg_disabled
        then decode_hw fuel rounds world layout target (sops_init s1)
        else finished s1 true)
