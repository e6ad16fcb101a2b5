-- ===== src/SoftTo.antt =====
-- src/shjpeg_softhelper.c, soft_toYCbCr_byword: from the JPU's line buffers to packed YCbCr 4:4:4.
-- The memories are those of `Soft`.
pub mod Words
pub mod Line
pub mod Image
pub mod RoundTrip
use libshjpeg.Base.{
  ℕ, zero, suc, ◌+◌, ◌-◌, ◌*◌, ◌/◌, ◌%◌, ◌^◌, bit_and, bit_or, ◌==◌, if◌then◌else◌, Bool, not, ◌||◌,
}
use libshjpeg.Memory.{Mem, load32, store32, memcpy, shl32}
use libshjpeg.Context.{Context}
use libshjpeg.Soft.{linebuffer_pitch, conv_chunk_size, chunks}

-- `outwords[0]`, Y1 Cr0 Cb0 Y0 from the top.
pub to_word0 : ℕ → ℕ → ℕ
to_word0 yword cword =
    bit_or (bit_or (bit_and yword 0xff) (shl32 (bit_and cword 0xffff) 8))
      (shl32 (bit_and yword 0xff00) 16)

-- `outwords[1]`, Cb1 Y2 Cr0 Cb0.
pub to_word1 : ℕ → ℕ → ℕ
to_word1 yword cword =
    bit_or (bit_or (bit_and cword 0xffff) (bit_and yword 0xff0000))
      (shl32 (bit_and cword 0xff0000) 8)

-- `outwords[2]`, Cr1 Cb1 Y3 Cr1.
pub to_word2 : ℕ → ℕ → ℕ
to_word2 yword cword =
    bit_or (bit_or (bit_and cword 0xff000000 / 2 ^ 24) (bit_and yword 0xff000000 / 2 ^ 16))
      (bit_and cword 0xffff0000)

-- The local packed surface under construction and the moving pointers.
pub record ToRow : Type 0 where
  pub out : Mem
  pub in_ybuffer : ℕ
  pub in_cbuffer : ℕ
  pub out_buffer : ℕ

pub to_chunk : Mem → Mem → ToRow → ToRow
to_chunk ybuf cbuf r =
    let yword = load32 ybuf r.in_ybuffer in
    let cword = load32 cbuf r.in_cbuffer in
    let out0 = store32 r.out r.out_buffer (to_word0 yword cword) in
    let out1 = store32 out0 (r.out_buffer + 4) (to_word1 yword cword) in
    record {
      out = store32 out1 (r.out_buffer + 8) (to_word2 yword cword);
      in_ybuffer = r.in_ybuffer + 4;
      in_cbuffer = r.in_cbuffer + 4;
      out_buffer = r.out_buffer + 12;
    }

pub to_chunks : ℕ → Mem → Mem → ToRow → ToRow
to_chunks zero ybuf cbuf r = r
to_chunks (suc n) ybuf cbuf r = to_chunks n ybuf cbuf (to_chunk ybuf cbuf r)

pub record ToLines : Type 0 where
  pub y : ℕ
  pub ybuf : Mem
  pub cbuf : Mem
  pub inydata : ℕ
  pub incdata : ℕ
  pub row : ToRow

-- One line. In 4:2:0 mode a chroma line serves two lines, so its pointer moves after odd lines only.
pub to_line : ℕ → ℕ → Bool → Mem → ToLines → ToLines
to_line width pitch mode420 linebuf s =
    let outpitchskip = (pitch + 2 ^ 32 - width * conv_chunk_size * 3) % 2 ^ 32 in
    let ybuf' = memcpy s.ybuf 0 linebuf s.inydata (width * conv_chunk_size) in
    let cbuf' = memcpy s.cbuf 0 linebuf s.incdata (width * conv_chunk_size) in
    let r = to_chunks width ybuf' cbuf' s.row in
    record {
      y = s.y + 1;
      ybuf = ybuf';
      cbuf = cbuf';
      inydata = s.inydata + linebuffer_pitch;
      incdata = if not mode420 || s.y % 2 == 1 then s.incdata + linebuffer_pitch else s.incdata;
      row = record r {
        in_ybuffer = 0;
        in_cbuffer = 0;
        out_buffer = (r.out_buffer + outpitchskip) % 2 ^ 32;
      };
    }

pub to_lines : ℕ → ℕ → ℕ → Bool → Mem → ToLines → ToLines
to_lines zero width pitch mode420 linebuf s = s
to_lines (suc n) width pitch mode420 linebuf s =
    to_lines n width pitch mode420 linebuf (to_line width pitch mode420 linebuf s)

-- The result is the user's memory; the function itself returns 0.
pub soft_to_ycbcr_byword : Context → Mem → Mem → ℕ → ℕ → Mem → ℕ → ℕ → Mem
soft_to_ycbcr_byword context heap linebuf inydata incdata user outbuf lines =
    memcpy user outbuf
      (to_lines lines (chunks context.width) context.pitch context.mode420 linebuf (record {
        y = 0;
        ybuf = heap;
        cbuf = heap;
        inydata = inydata;
        incdata = incdata;
        row = record { out = heap; in_ybuffer = 0; in_cbuffer = 0; out_buffer = 0 };
      })).row.out
      0 (context.pitch * lines)
