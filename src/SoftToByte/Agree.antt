-- ===== src/SoftToByte/Agree.antt =====
-- soft_toYCbCr_bybyte gives the pixels that soft_toYCbCr_byword gives.
use libshjpeg.Base.{ℕ, ◌+◌, ◌*◌, ◌/◌, ◌≤◌, ◌<◌, ◌≡◌, sym, ◌∙◌, ap, arith}
use libshjpeg.Memory.{Mem, IsBytes, memcpy, memcpy-inside, memcpy-IsBytes}
use libshjpeg.Context.{Context}
use libshjpeg.SoftTo.{soft_to_ycbcr_byword}
use libshjpeg.SoftTo.Words.{HasPixel}
use libshjpeg.SoftTo.Image.{chroma_line, FitsSurface, soft_to_ycbcr_byword-pixels}
use libshjpeg.SoftToByte.{halfwidth, soft_to_ycbcr_bybyte}
use libshjpeg.SoftToByte.Row.{chroma_line-le, to_rows-pixels, at_first}

plus_zero : (n : ℕ) → n ≡ 0 + n
plus_zero n = omega arith

module _ (context : Context) (heap linebuf : Mem) (inydata incdata : ℕ) (user : Mem)
    (outbuf lines : ℕ) (heap_bytes : IsBytes heap) (linebuf_bytes : IsBytes linebuf)
    (fits : FitsSurface context lines) (few : lines ≤ 1024) where
  line_room : (y : ℕ) → y < lines → context.pitch * y + context.pitch ≤ context.pitch * lines
  line_room y h = grind (arith, fits)

  zero_plus : (n : ℕ) → context.pitch * (0 + n) ≡ context.pitch * n
  zero_plus n = ap (λ (t : ℕ). context.pitch * t) (omega arith)

  soft_to_ycbcr_bybyte-pixels :
      (y x : ℕ)
      → y < lines
      → x < context.width
      → HasPixel
          (soft_to_ycbcr_bybyte context heap linebuf inydata incdata user outbuf lines)
          (outbuf + (context.pitch * y + 3 * x))
          (linebuf (inydata + 4096 * y + x))
          (linebuf (incdata + 4096 * chroma_line context.mode420 y + x / 2 * 2))
          (linebuf (incdata + 4096 * chroma_line context.mode420 y + (x / 2 * 2 + 1)))
  unfolding soft_to_ycbcr_bybyte
  soft_to_ycbcr_bybyte-pixels y x hy hx =
      let i = context.pitch * y + 3 * x in
      let e0 : 0 + i ≡ i = omega arith in
      let e1 : outbuf + i + 1 ≡ outbuf + (i + 1) = omega arith in
      let e2 : outbuf + i + 2 ≡ outbuf + (i + 2) = omega arith in
      let e3 : 0 + (i + 1) ≡ i + 1 = omega arith in
      let e4 : 0 + (i + 2) ≡ i + 2 = omega arith in
      let w = halfwidth context.width in
      let ybuf = memcpy heap 0 linebuf inydata (4096 * lines) in
      let cbuf = memcpy heap 0 linebuf incdata (4096 * lines) in
      let yb = memcpy-IsBytes heap 0 linebuf inydata (4096 * lines) heap_bytes linebuf_bytes in
      let cb = memcpy-IsBytes heap 0 linebuf incdata (4096 * lines) heap_bytes linebuf_bytes in
      let w_fits : 2 * w ≤ 4096 = omega (arith, fits.width_fits) in
      let cl = chroma_line context.mode420 y in
      let le = chroma_line-le context.mode420 y in
      let px =
        to_rows-pixels ybuf cbuf yb cb w context.pitch context.mode420 w_fits lines 0 _ y x
          (omega arith) (omega (arith, fits.addressable, fits.width_fits, zero_plus lines))
          (at_first ybuf cbuf yb cb w context.pitch context.mode420 w_fits heap) (omega arith)
          (omega arith) (omega (arith, hx)) (omega (arith, hx, fits.packed_line)) in
      let inside : i + 3 ≤ context.pitch * lines =
        omega (arith, line_room y hy, fits.packed_line) in
      let copied_y = memcpy-inside heap 0 linebuf inydata (4096 * lines) in
      let copied_c = memcpy-inside heap 0 linebuf incdata (4096 * lines) in
      let luma : ybuf (4096 * y + x) ≡ linebuf (inydata + 4096 * y + x) =
        ap ybuf (plus_zero (4096 * y + x))
        ∙ copied_y (4096 * y + x) (omega (arith, fits.width_fits))
        ∙ ap linebuf (omega arith) in
      let cb0 : cbuf (4096 * cl + x / 2 * 2) ≡ linebuf (incdata + 4096 * cl + x / 2 * 2) =
        ap cbuf (plus_zero (4096 * cl + x / 2 * 2))
        ∙ copied_c (4096 * cl + x / 2 * 2) (omega (arith, fits.width_fits, le))
        ∙ ap linebuf (omega arith) in
      let cr0 : cbuf (4096 * cl + (x / 2 * 2 + 1))
          ≡ linebuf (incdata + 4096 * cl + (x / 2 * 2 + 1)) =
        ap cbuf (plus_zero (4096 * cl + (x / 2 * 2 + 1)))
        ∙ copied_c (4096 * cl + (x / 2 * 2 + 1)) (omega (arith, fits.width_fits, le))
        ∙ ap linebuf (omega arith) in
      rw (e1, e2)
        (
          memcpy-inside user outbuf _ 0 _ i (omega arith) ∙ rw e0 (px.0 ∙ luma),
          memcpy-inside user outbuf _ 0 _ (i + 1) (omega arith) ∙ rw e3 (px.1 ∙ cb0),
          memcpy-inside user outbuf _ 0 _ (i + 2) (omega arith) ∙ rw e4 (px.2 ∙ cr0),
        )

  -- For a surface whose packed lines fit, and at most as many lines as a line buffer has, the byte
  -- converter and the word converter give each pixel of the user's surface the same three bytes.
  pub soft_to_ycbcr_bybyte-agrees :
      (y x : ℕ)
      → y < lines
      → x < context.width
      → let bybyte = soft_to_ycbcr_bybyte context heap linebuf inydata incdata user outbuf lines in
        let byword = soft_to_ycbcr_byword context heap linebuf inydata incdata user outbuf lines in
        let a = outbuf + (context.pitch * y + 3 * x) in
        (bybyte a ≡ byword a)
        × (bybyte (a + 1) ≡ byword (a + 1))
        × (bybyte (a + 2) ≡ byword (a + 2))
  soft_to_ycbcr_bybyte-agrees y x hy hx =
      let b = soft_to_ycbcr_bybyte-pixels y x hy hx in
      let w =
        soft_to_ycbcr_byword-pixels context heap linebuf inydata incdata user outbuf lines
          heap_bytes linebuf_bytes fits y x hy hx in
      (b.0 ∙ sym (w.0), b.1 ∙ sym (w.1), b.2 ∙ sym (w.2))
