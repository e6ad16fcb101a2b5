-- ===== src/Encode.antt =====
-- src/shjpeg_encode.c: encode_hw, with the VIO built in, and shjpeg_encode. `mode420` is a constant
-- false there.
pub mod Stream
pub mod Release
use libshjpeg.Base.{
  ℕ, zero, suc, ◌+◌, ◌-◌, ◌*◌, ◌/◌, ◌^◌, ◌%◌, bit_and, bit_or, ltb, leb, ◌==◌, min, Bool, true,
  false, not, ◌||◌, if◌then◌else◌, [], ◌∷◌,
}
use libshjpeg.Context.{Context}
use libshjpeg.PixelFormat.{pf_nv12, pf_nv16, pf_ycbcr}
use libshjpeg.Regs.{
  jcmod, jcqtn, jchtn, jcdriu, jcdrid, jchszu, jchszd, jcvszu, jcvszd, jinte, jifcnt, jifecnt,
  jifdcnt, jifeda1, jifeda2, jifedrsz, jifeshsz, jifesvsz, jifesya1, jifesca1, jifesya2, jifesca2,
  jifesmw, jcmod_input_ctrl, jcmod_dsp_encode, jifcnt_vjsel_jpu, jifdcnt_swap_4321,
  jifecnt_swap_4321, jifecnt_reload_enable, jifecnt_linebuf_mode, jints_ins10_xfer_done,
  jints_ins11_linebuf0, jints_ins12_linebuf1, jints_ins13_loaded,
}
use libshjpeg.Soft.{linebuffer_pitch, linebuffer_height, linebuffer_size_y}
use libshjpeg.Jpu.State.{
  Machine, Jpeg, start, has, flag_encode, flag_reload, flag_convert, flag_softconvert,
}
use libshjpeg.Jpu.Run.{shjpeg_jpu_reset, shjpeg_jpu_run}
use libshjpeg.Jpu.Loops.{returned, failed, blocked, out_of_fuel}
use libshjpeg.Jpu.Tables.{shjpeg_jpu_init_quantization_table, shjpeg_jpu_init_huffman_table}
use libshjpeg.Device.{
  reload_size, Layout, World, Session, Coded, finished, waits, exhausted, init_call, write_call,
  jpu_setregs,
}
use libshjpeg.Decode.{Target, is_end}
use libshjpeg.Decode.Run.{free_frame, unlock_jpu, sops_init, is_supported}

-- The request and the registers of both modes.
unfoldable pub encode_setup : Layout → Target → Machine → Machine
encode_setup layout source m =
    let m1 =
      jpu_setregs
        ((jcmod, bit_or (bit_or jcmod_input_ctrl jcmod_dsp_encode) 1)
          ∷ (jcqtn, 0x14)
          ∷ (jchtn, 0x3c)
          ∷ (jcdriu, 0x02)
          ∷ (jcdrid, 0x00)
          ∷ (jchszu, source.width / 2 ^ 8)
          ∷ (jchszd, bit_and source.width 0xff)
          ∷ (jcvszu, source.height / 2 ^ 8)
          ∷ (jcvszd, bit_and source.height 0xff)
          ∷ (jifcnt, jifcnt_vjsel_jpu)
          ∷ (jifdcnt, jifdcnt_swap_4321)
          ∷ (jifeda1, layout.jpeg_phys)
          ∷ (jifeda2, layout.jpeg_phys + reload_size)
          ∷ (jifedrsz, reload_size)
          ∷ (jifeshsz, bit_and (source.width + 3) 0x00000ffc)
          ∷ (jifesvsz, bit_and (source.height + 3) 0x00000ffc)
          ∷ [])
        (shjpeg_jpu_reset m) in
    record m1 {
      jpeg = record m.jpeg { state = start; flags = bit_or flag_encode flag_reload; buffers = 3 };
    }

-- The JPU reads the surface itself.
unfoldable pub encode_frame : Target → Machine → Machine
encode_frame source m =
    jpu_setregs
      ((jinte, bit_or jints_ins10_xfer_done jints_ins13_loaded)
        ∷ (jifecnt, bit_or jifecnt_swap_4321 jifecnt_reload_enable)
        ∷ (jifesya1, source.phys)
        ∷ (jifesca1, (source.phys + source.pitch * source.height) % 2 ^ 32)
        ∷ (jifesmw, bit_and (source.pitch + 7) 0x0ff8)
        ∷ [])
      m

unfoldable pub encode_linebuf : Layout → Target → Machine → Machine
encode_linebuf layout source m =
    let m1 =
      jpu_setregs
        ((
          jinte,
          bit_or (bit_or (bit_or jints_ins11_linebuf0 jints_ins12_linebuf1) jints_ins10_xfer_done)
              jints_ins13_loaded,
        )
          ∷ (
            jifecnt,
            bit_or
                (bit_or (bit_or jifecnt_linebuf_mode (linebuffer_height * 2 ^ 16))
                  jifecnt_swap_4321)
                jifecnt_reload_enable,
          )
          ∷ (jifesya1, layout.jpeg_lb1)
          ∷ (jifesca1, layout.jpeg_lb1 + linebuffer_size_y)
          ∷ (jifesya2, layout.jpeg_lb2)
          ∷ (jifesca2, layout.jpeg_lb2 + linebuffer_size_y)
          ∷ (jifesmw, linebuffer_pitch)
          ∷ [])
        m in
    record m1 {
      jpeg = record m.jpeg {
        height = source.height;
        sa_y = source.phys;
        sa_c = (source.phys + source.pitch * source.height) % 2 ^ 32;
        sa_inc = (source.pitch * linebuffer_height) % 2 ^ 32;
      };
    }

unfoldable pub encode_soft : Machine → Machine
encode_soft m = record m {
  jpeg = record m.jpeg {
    flags = bit_or m.jpeg.flags flag_softconvert;
    soft_offset = 0;
    soft_line = 0;
  };
}

-- The state of the writing loop: the session, and the number of bytes written.
pub record Writing : Type 0 where
  pub session : Session
  pub written : ℕ

-- The bytes to write from one buffer, as `size_t`: a count that goes back is a large number.
abbrev pub amount_to_write : ℕ → ℕ → ℕ
amount_to_write coded written =
    if leb written coded then min (coded - written) reload_size else coded + 2 ^ 32 - written

-- One round of the loop over the loaded buffers, for the buffer with the bit `i`, 1 or 2.
unfoldable pub write_buffer : World → ℕ → Writing → Writing
write_buffer world i w =
    let s = w.session in
    let len = amount_to_write (world.coded s.count) w.written in
    if has s.machine.jpeg.buffers i
    then record {
      session = record s {
        calls = write_call ((i - 1) * reload_size) len ∷ s.calls;
        count = s.count + 1;
      };
      written = w.written + world.write s.count len;
    }
    else w

unfoldable pub write_buffers : World → Writing → Writing
write_buffers world w = write_buffer world 2 (write_buffer world 1 w)

-- The state machine's loop, on `fuel` calls of shjpeg_jpu_run with `rounds` rounds each.
unfoldable pub encode_loop : ℕ → ℕ → World → Writing → Coded
encode_loop zero rounds world w = exhausted w.session
encode_loop (suc fuel) rounds world w =
    elim (shjpeg_jpu_run rounds w.session.context w.session.machine) [
      | returned m ↦
          let w' =
            write_buffers world
              (record { session = record w.session { machine = m }; written = w.written }) in
          if is_end m.jpeg.state
          then finished w'.session (not (m.jpeg.error == 0))
          else encode_loop fuel rounds world w'
      | failed m ↦ finished (record w.session { machine = m }) true
      | blocked m ↦ waits (record w.session { machine = m })
      | out_of_fuel m ↦ exhausted (record w.session { machine = m })
    ]

-- Tables, the loop, and the release of the frame buffer and the JPU.
unfoldable pub encode_run : ℕ → ℕ → World → Session → Coded
encode_run fuel rounds world s =
    let m = shjpeg_jpu_init_huffman_table (shjpeg_jpu_init_quantization_table s.machine) in
    unlock_jpu world (
      free_frame (
        encode_loop fuel rounds world (record { session = record s { machine = m }; written = 0 })))

unfoldable pub encode_hw : ℕ → ℕ → World → Layout → Target → Session → Coded
encode_hw fuel rounds world layout source s =
    if not world.lock
    then finished s true
    else let s1 = sops_init (record s { locked = true }) in
      let m = encode_setup layout source s1.machine in
      if source.format == pf_nv12 || source.format == pf_nv16
      then encode_run fuel rounds world (record s1 { machine = encode_frame source m })
      else let m1 = encode_linebuf layout source m in
        if source.format == pf_ycbcr
        then (let s2 = record s1 {
          machine = encode_soft m1;
          context = record s1.context { pitch = source.pitch };
        } in
            if world.map_frame
            then encode_run fuel rounds world (record s2 { mapped = true })
            else finished s2 true)
        else encode_run fuel rounds world (record s1 {
          machine = record m1 {
            jpeg = record m1.jpeg { flags = bit_or m1.jpeg.flags flag_convert };
          };
          context = record s1.context { pitch = source.pitch; format = source.format };
        })

-- `valid` is a context that is not NULL, `initialized` a reference count that is not zero, `virt` a
-- buffer address that is not NULL.
unfoldable pub shjpeg_encode :
    ℕ → ℕ → World → Layout → Bool → Bool → Bool → Target → Session → Coded
shjpeg_encode fuel rounds world layout valid initialized virt source s =
    if not valid
    then finished s true
    else if not initialized
    then finished s true
    else if not virt
    then finished s true
    else if not (is_supported source.format)
    then finished s true
    else encode_hw fuel rounds world layout source s
