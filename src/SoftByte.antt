-- ===== src/SoftByte.antt =====
-- src/shjpeg_softhelper.c, soft_fromYCbCr_bybyte with USE_CACHED: the same conversion as
-- soft_fromYCbCr_byword, byte by byte. The memories are those of `Soft`.
pub mod Pairs
pub mod Rows
pub mod Agree
use libshjpeg.Base.{ℕ, zero, suc, ◌+◌, ◌-◌, ◌*◌, ◌/◌, ◌%◌, ◌^◌, ◌==◌, if◌then◌else◌}
use libshjpeg.Memory.{Mem, store8, memcpy}
use libshjpeg.Context.{Context}
use libshjpeg.Soft.{linebuffer_pitch}

-- The local planes, the moving pointers, and the 16-bit sums of a pair.
pub record ByteRow : Type 0 where
  pub ybuf : Mem
  pub cbuf : Mem
  pub dst_ydata : ℕ
  pub dst_cdata : ℕ
  pub in_buffer : ℕ
  pub accum_cb : ℕ
  pub accum_cr : ℕ

-- One pixel; the second one of a pair puts out the means.
pub from_pixel : Mem → ℕ → ByteRow → ByteRow
from_pixel input x r =
    let cb = (r.accum_cb + input (r.in_buffer + 1)) % 2 ^ 16 in
    let cr = (r.accum_cr + input (r.in_buffer + 2)) % 2 ^ 16 in
    let r1 = record r {
      ybuf = store8 r.ybuf r.dst_ydata (input r.in_buffer);
      dst_ydata = r.dst_ydata + 1;
      in_buffer = r.in_buffer + 3;
    } in
    if x % 2 == 1
    then record r1 {
      cbuf = store8 (store8 r.cbuf r.dst_cdata (cb / 2)) (r.dst_cdata + 1) (cr / 2);
      dst_cdata = r.dst_cdata + 2;
      accum_cb = 0;
      accum_cr = 0;
    }
    else record r1 { accum_cb = cb; accum_cr = cr }

-- The inner loop with `n` pixels left.
pub from_pixels : ℕ → ℕ → Mem → ByteRow → ByteRow
from_pixels zero x input r = r
from_pixels (suc n) x input r = from_pixels n (x + 1) input (from_pixel input x r)

-- A last pixel without a partner is put out as it is.
pub last_pixel : ℕ → ByteRow → ByteRow
last_pixel width r =
    if width % 2 == 1
    then record r {
      cbuf = store8 (store8 r.cbuf r.dst_cdata r.accum_cb) (r.dst_cdata + 1) r.accum_cr;
      dst_cdata = r.dst_cdata + 1;
      accum_cb = 0;
      accum_cr = 0;
    }
    else r

pub from_row : ℕ → ℕ → Mem → ByteRow → ByteRow
from_row width pitch input r =
    let outpitchskip = (linebuffer_pitch + 2 ^ 32 - width) % 2 ^ 32 in
    let inpitchskip = (pitch + 2 ^ 32 - width * 3) % 2 ^ 32 in
    let r1 = last_pixel width (from_pixels width 0 input r) in
    record r1 {
      dst_ydata = (r1.dst_ydata + outpitchskip) % 2 ^ 32;
      dst_cdata = (r1.dst_cdata + outpitchskip) % 2 ^ 32;
      in_buffer = (r1.in_buffer + inpitchskip) % 2 ^ 32;
    }

pub from_rows : ℕ → ℕ → ℕ → Mem → ByteRow → ByteRow
from_rows zero width pitch input r = r
from_rows (suc n) width pitch input r = from_rows n width pitch input (from_row width pitch input r)

-- The result is the line buffer memory; the function itself returns 0.
pub soft_from_ycbcr_bybyte : Context → Mem → Mem → ℕ → ℕ → Mem → ℕ → ℕ → Mem
soft_from_ycbcr_bybyte context heap linebuf outydata outcdata user inbuf lines =
    let r =
      from_rows lines context.width context.pitch (memcpy heap 0 user inbuf (context.pitch * lines))
        (record {
          ybuf = heap;
          cbuf = heap;
          dst_ydata = 0;
          dst_cdata = 0;
          in_buffer = 0;
          accum_cb = 0;
          accum_cr = 0;
        }) in
    memcpy (memcpy linebuf outydata r.ybuf 0 (linebuffer_pitch * lines)) outcdata r.cbuf 0
      (linebuffer_pitch * lines)
