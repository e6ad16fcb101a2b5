-- ===== src/SoftToByte.antt =====
-- src/shjpeg_softhelper.c, soft_toYCbCr_bybyte with USE_CACHED: the same conversion as
-- soft_toYCbCr_byword, byte by byte. The memories are those of `Soft`.
pub mod Row
pub mod Agree
use libshjpeg.Base.{
  ℕ, zero, suc, ◌+◌, ◌-◌, ◌*◌, ◌/◌, ◌%◌, ◌^◌, ◌==◌, if◌then◌else◌, Bool, not, ◌||◌,
}
use libshjpeg.Memory.{Mem, store8, memcpy}
use libshjpeg.Context.{Context}
use libshjpeg.Soft.{linebuffer_pitch}

-- The local surface and the moving pointers.
pub record ToByte : Type 0 where
  pub out : Mem
  pub src_ydata : ℕ
  pub src_cdata : ℕ
  pub out_buffer : ℕ
  pub rewind : ℕ

-- Two pixels with the chroma of their pair.
pub to_pair : Mem → Mem → ToByte → ToByte
to_pair ybuf cbuf r =
    let o = r.out_buffer in
    let u = cbuf r.src_cdata in
    let v = cbuf (r.src_cdata + 1) in
    let first = store8 (store8 (store8 r.out o (ybuf r.src_ydata)) (o + 1) u) (o + 2) v in
    record r {
      out = store8 (store8 (store8 first (o + 3) (ybuf (r.src_ydata + 1))) (o + 4) u) (o + 5) v;
      src_ydata = r.src_ydata + 2;
      src_cdata = r.src_cdata + 2;
      out_buffer = o + 6;
    }

pub to_pairs : ℕ → Mem → Mem → ToByte → ToByte
to_pairs zero ybuf cbuf r = r
to_pairs (suc n) ybuf cbuf r = to_pairs n ybuf cbuf (to_pair ybuf cbuf r)

-- One line; before the second line of two that share chroma the chroma pointer goes back.
pub to_row : ℕ → ℕ → Bool → Mem → Mem → ℕ → ToByte → ToByte
to_row halfwidth pitch mode420 ybuf cbuf y r =
    let inpitchskip = (linebuffer_pitch + 2 ^ 32 - halfwidth * 2) % 2 ^ 32 in
    let outpitchskip = (pitch + 2 ^ 32 - halfwidth * 2 * 3) % 2 ^ 32 in
    let r1 = to_pairs halfwidth ybuf cbuf r in
    let onward = (r1.src_cdata + inpitchskip) % 2 ^ 32 in
    let moves = y % 2 == 1 || not mode420 in
    record {
      out = r1.out;
      src_ydata = (r1.src_ydata + inpitchskip) % 2 ^ 32;
      src_cdata = if moves then onward else r1.rewind;
      out_buffer = (r1.out_buffer + outpitchskip) % 2 ^ 32;
      rewind = if moves then onward else r1.rewind;
    }

pub to_rows : ℕ → ℕ → ℕ → Bool → Mem → Mem → ℕ → ToByte → ToByte
to_rows zero halfwidth pitch mode420 ybuf cbuf y r = r
to_rows (suc n) halfwidth pitch mode420 ybuf cbuf y r =
    to_rows n halfwidth pitch mode420 ybuf cbuf (y + 1)
      (to_row halfwidth pitch mode420 ybuf cbuf y r)

-- The number of pairs that cover a line.
abbrev pub halfwidth : ℕ → ℕ
halfwidth width = width / 2 + width % 2

-- The result is the user's memory; the function itself returns 0.
pub soft_to_ycbcr_bybyte : Context → Mem → Mem → ℕ → ℕ → Mem → ℕ → ℕ → Mem
soft_to_ycbcr_bybyte context heap linebuf inydata incdata user outbuf lines =
    memcpy user outbuf
      (to_rows lines (halfwidth context.width) context.pitch context.mode420
        (memcpy heap 0 linebuf inydata (linebuffer_pitch * lines))
        (memcpy heap 0 linebuf incdata (linebuffer_pitch * lines)) 0
        (record { out = heap; src_ydata = 0; src_cdata = 0; out_buffer = 0; rewind = 0 })).out
      0 (context.pitch * lines)
