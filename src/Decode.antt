-- ===== src/Decode.antt =====
-- src/shjpeg_decode.c: the parts of decode_hw, with the VIO built in. Run has the whole of it and
-- shjpeg_decode_run.
pub mod Run
pub mod Reload
pub mod Outcomes
pub mod Ended
pub mod Choice
use libshjpeg.Base.{
  ℕ, zero, suc, ◌+◌, ◌-◌, ◌*◌, ◌/◌, ◌^◌, ◌%◌, bit_and, bit_or, ltb, ◌==◌, Bool, true, false, not,
  ◌&&◌, ◌||◌, if◌then◌else◌, List, [], ◌∷◌,
}
use libshjpeg.Context.{Context, Fallback, software_only, allowed, disabled}
use libshjpeg.PixelFormat.{pitch_multiply, pf_nv12, pf_nv16, pf_rgb16, pf_rgb24, pf_rgb32, pf_ycbcr}
use libshjpeg.Regs.{
  jcmod, jinte, jifcnt, jifecnt, jifdcnt, jifdsa1, jifdsa2, jifddrsz, jifddya1, jifddca1, jifddya2,
  jifddca2, jifddmw, jcmod_input_ctrl, jcmod_dsp_decode, jifcnt_vjsel_jpu, jifecnt_swap_4321,
  jifdcnt_swap_4321, jifdcnt_reload_enable, jifdcnt_linebuf_mode, jints_ins5_error, jints_ins6_done,
  jints_ins10_xfer_done, jints_ins11_linebuf0, jints_ins12_linebuf1, jints_ins14_reload,
}
use libshjpeg.Soft.{linebuffer_pitch, linebuffer_height, linebuffer_size_y}
use libshjpeg.Jpu.State.{
  Machine, Jpeg, Surface, VioFormat, ren_unknown, ren_nv12, ren_nv16, JpuState, start, run, end,
  has, effect, vio_set_src, vio_set_dst, flag_reload, flag_convert, flag_softconvert,
}
use libshjpeg.Jpu.Vio.{shjpeg_vio_color, shjpeg_vio_init}
use libshjpeg.Jpu.Run.{shjpeg_jpu_reset, shjpeg_jpu_run}
use libshjpeg.Jpu.Loops.{returned, failed, blocked, out_of_fuel}
use libshjpeg.Device.{
  reload_size, Layout, World, Session, Coded, finished, waits, exhausted, Call, init_call,
  read_call, jpu_setregs,
}

abbrev pub is_unknown : VioFormat → Bool
is_unknown ren_unknown = true
is_unknown format = false

-- The surface of the user: format, physical address, size and pitch.
pub record Target : Type 0 where
  pub format : ℕ
  pub phys : ℕ
  pub width : ℕ
  pub height : ℕ
  pub pitch : ℕ

-- The JPU can write the surface itself.
abbrev pub frame_mode : Context → ℕ → Bool
frame_mode context format =
    (context.mode420 && format == pf_nv12) || (not context.mode420 && format == pf_nv16)

-- A read of the stream into the reload buffers.
abbrev pub sops_read : ℕ → Session → Session
sops_read offset s = record s {
  calls = read_call offset reload_size ∷ s.calls;
  count = s.count + 1;
}

-- Reset, the registers that both modes set, and the request; `len` bytes are in reload buffer 1.
unfoldable pub decode_setup : Layout → ℕ → Bool → Machine → Machine
decode_setup layout len reload m =
    let m1 =
      jpu_setregs
        ((jcmod, bit_or jcmod_input_ctrl jcmod_dsp_decode)
          ∷ (jifcnt, jifcnt_vjsel_jpu)
          ∷ (jifecnt, jifecnt_swap_4321)
          ∷ (jifdsa1, layout.jpeg_phys)
          ∷ (jifdsa2, layout.jpeg_phys + reload_size)
          ∷ (jifddrsz, bit_and (len + 255) 0x00ffff00)
          ∷ [])
        (shjpeg_jpu_reset m) in
    record m1 {
      jpeg = record m.jpeg {
        state = start;
        flags = if reload then flag_reload else 0;
        buffers = 1;
      };
    }

unfoldable pub decode_frame : Target → Bool → Machine → Machine
decode_frame target reload m =
    jpu_setregs
      ((
        jinte,
        bit_or (bit_or (bit_or jints_ins5_error jints_ins6_done) jints_ins10_xfer_done)
            (if reload then jints_ins14_reload else 0),
      )
        ∷ (jifdcnt, bit_or jifdcnt_swap_4321 (if reload then jifdcnt_reload_enable else 0))
        ∷ (jifddya1, target.phys)
        ∷ (jifddca1, (target.phys + target.pitch * target.height) % 2 ^ 32)
        ∷ (jifddmw, bit_and (target.pitch + 7) (2 ^ 32 - 8))
        ∷ [])
      m

unfoldable pub decode_linebuf : Layout → Bool → Machine → Machine
decode_linebuf layout reload m =
    jpu_setregs
      ((
        jinte,
        bit_or
            (bit_or
              (bit_or (bit_or (bit_or jints_ins5_error jints_ins6_done) jints_ins10_xfer_done)
                jints_ins11_linebuf0)
              jints_ins12_linebuf1)
            (if reload then jints_ins14_reload else 0),
      )
        ∷ (
          jifdcnt,
          bit_or
              (bit_or (bit_or jifdcnt_linebuf_mode (linebuffer_height * 2 ^ 16)) jifdcnt_swap_4321)
              (if reload then jifdcnt_reload_enable else 0),
        )
        ∷ (jifddya1, layout.jpeg_lb1)
        ∷ (jifddca1, layout.jpeg_lb1 + linebuffer_size_y)
        ∷ (jifddya2, layout.jpeg_lb2)
        ∷ (jifddca2, layout.jpeg_lb2 + linebuffer_size_y)
        ∷ (jifddmw, linebuffer_pitch)
        ∷ [])
      m

-- The VIO scales and converts from the line buffers to the surface.
unfoldable pub decode_vio : Context → Target → Machine → Machine
decode_vio context target m =
    let format = shjpeg_vio_color target.format in
    let src : Surface = record {
      w = context.width;
      h = context.height;
      format = if context.mode420 then ren_nv12 else ren_nv16;
      pitch = linebuffer_pitch;
    } in
    let dst : Surface = record {
      w = target.width;
      h = target.height;
      format = format;
      pitch = target.pitch / m.size_y format 1 0;
    } in
    let m1 =
      shjpeg_vio_init src dst
        (record m { jpeg = record m.jpeg { flags = bit_or m.jpeg.flags flag_convert } }) in
    effect (vio_set_dst target.phys ((target.phys + target.pitch * target.height) % 2 ^ 32))
      (effect (vio_set_src 0 0) m1)

-- Software conversion.
unfoldable pub decode_soft : Machine → Machine
decode_soft m = record m {
  jpeg = record m.jpeg {
    flags = bit_or m.jpeg.flags flag_softconvert;
    soft_offset = 0;
    soft_line = 0;
  };
}

-- The state of the reload loop: the session, and whether `ret` is not zero.
pub record Reloading : Type 0 where
  pub session : Session
  pub ret : Bool

abbrev pub set_request : ℕ → ℕ → Session → Session
set_request buffers flags s = record s {
  machine = record s.machine { jpeg = record s.machine.jpeg { buffers = buffers; flags = flags } };
}

-- One round of the loop over the reload buffers, for the buffer with the bit `i`, 1 or 2.
unfoldable pub reload_buffer : World → ℕ → Reloading → Reloading
reload_buffer world i r =
    let s = r.session in
    let buffers = s.machine.jpeg.buffers in
    let flags = s.machine.jpeg.flags in
    let without = bit_and buffers (2 ^ 32 - 1 - i) in
    let last = bit_and flags (2 ^ 32 - 1 - flag_reload) in
    let answer = world.read s.count in
    let s1 = sops_read ((i - 1) * reload_size) s in
    if has buffers i && has flags flag_reload
    then record {
      session =
          if answer.failed
          then set_request without last s1
          else if ltb answer.len reload_size
          then set_request buffers last s1
          else s1;
      ret = answer.failed;
    }
    else record { session = set_request without flags s; ret = r.ret }

unfoldable pub reload_buffers : World → Reloading → Reloading
reload_buffers world r = reload_buffer world 1 (reload_buffer world 2 r)

abbrev pub is_end : JpuState → Bool
is_end end = true
is_end other = false

-- The state machine's loop, on `fuel` calls of shjpeg_jpu_run with `rounds` rounds each.
unfoldable pub decode_loop : ℕ → ℕ → World → Reloading → Coded
decode_loop zero rounds world r = exhausted r.session
decode_loop (suc fuel) rounds world r =
    elim (shjpeg_jpu_run rounds r.session.context r.session.machine) [
      | returned m ↦
          let s = record r.session { machine = m } in
          if is_end m.jpeg.state
          then finished s (if not (m.jpeg.error == 0) then true else r.ret)
          else decode_loop fuel rounds world
              (reload_buffers world (record { session = s; ret = r.ret }))
      | failed m ↦ finished (record r.session { machine = m }) true
      | blocked m ↦ waits (record r.session { machine = m })
      | out_of_fuel m ↦ exhausted (record r.session { machine = m })
    ]
