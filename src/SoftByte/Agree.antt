-- ===== src/SoftByte/Agree.antt =====
-- soft_fromYCbCr_bybyte for an even width, and its agreement with the word converter.
use libshjpeg.Base.{ℕ, ◌+◌, ◌-◌, ◌*◌, ◌/◌, ◌%◌, ◌≤◌, ◌<◌, ◌≡◌, refl, sym, arith, ◌∙◌, ap}
use mathlib.Core.Path.{ap₂}
use libshjpeg.Memory.{Mem, IsBytes, memcpy, memcpy-inside, memcpy-outside}
use libshjpeg.Context.{Context}
use libshjpeg.Soft.{soft_from_ycbcr_byword}
use libshjpeg.Soft.From.{mean_chroma}
use libshjpeg.Soft.FromImage.{
  FitsLinebuf, soft_from_ycbcr_byword-luma, soft_from_ycbcr_byword-chroma,
}
use libshjpeg.SoftByte.{ByteRow, from_rows, soft_from_ycbcr_bybyte}
use libshjpeg.SoftByte.Rows.{from_rows-HasColumn}
use libshjpeg.SoftByte.Pairs.{double, double_twice}

module _ (context : Context) (heap heap' linebuf linebuf' : Mem) (outydata outcdata : ℕ)
    (user : Mem) (inbuf lines : ℕ) (heap_bytes : IsBytes heap) (heap'_bytes : IsBytes heap')
    (user_bytes : IsBytes user) (fits : FitsLinebuf context outydata outcdata lines)
    (few_lines : lines ≤ 1024) (even : context.width % 2 ≡ 0) where
  abbrev copied : Mem
  copied = memcpy heap 0 user inbuf (context.pitch * lines)

  copied-IsBytes : IsBytes copied
  unfolding memcpy
  copied-IsBytes a = ground (arith, heap_bytes a, user_bytes (inbuf + (a - 0)))

  abbrev first_row : ByteRow
  first_row = record {
    ybuf = heap;
    cbuf = heap;
    dst_ydata = 0;
    dst_cdata = 0;
    in_buffer = 0;
    accum_cb = 0;
    accum_cr = 0;
  }

  abbrev rows : ℕ → ByteRow
  rows width = from_rows lines width context.pitch copied first_row

  as_pairs : context.width ≡ double (context.width / 2)
  as_pairs = omega (arith, even, double_twice (context.width / 2))

  column :
      (y x : ℕ)
      → y < lines
      → x < context.width
      → ((rows context.width).ybuf (4096 * y + x) ≡ copied (context.pitch * y + 3 * x))
        × ((rows context.width).cbuf (4096 * y + x) ≡ mean_chroma copied (context.pitch * y) x)
  column y x hy hx =
      let c =
        from_rows-HasColumn copied copied-IsBytes (context.width / 2) context.pitch
          (omega (arith, fits.width_fits)) (omega (arith, fits.packed_line)) lines 0 first_row y x
          (record {
            y_at = omega arith;
            c_at = omega arith;
            in_at = omega arith;
            no_cb = refl;
            no_cr = refl;
          })
          (omega arith) (grind (arith, fits.addressable)) (omega arith) (omega arith)
          (omega (arith, even)) in
      (
        ap (λ (w : ℕ). (rows w).ybuf (4096 * y + x)) as_pairs ∙ c.luma,
        ap (λ (w : ℕ). (rows w).cbuf (4096 * y + x)) as_pairs ∙ c.chroma,
      )

  line_below : (y : ℕ) → y < lines → context.pitch * y + context.pitch ≤ context.pitch * lines
  line_below y h = grind (arith, fits)

  source :
      (y i : ℕ)
      → y < lines
      → i < context.pitch
      → copied (context.pitch * y + i) ≡ user (inbuf + (context.pitch * y + i))
  source y i hy hi =
      ap copied (omega arith)
      ∙ memcpy-inside heap 0 user inbuf (context.pitch * lines) (context.pitch * y + i)
          (omega (arith, line_below y hy))

  -- The byte converter and the word converter agree: for an even width, a packed surface whose
  -- lines fit, and at most as many lines as a line buffer has, both put the same luma and chroma
  -- bytes into each column of each line, whatever the line buffer and the fresh blocks held before.
  pub soft_from_ycbcr_bybyte-agrees :
      (y x : ℕ)
      → y < lines
      → x < context.width
      → let by_byte =
          soft_from_ycbcr_bybyte context heap linebuf outydata outcdata user inbuf lines in
        let by_word =
          soft_from_ycbcr_byword context heap' linebuf' outydata outcdata user inbuf lines in
        (by_byte (outydata + 4096 * y + x) ≡ by_word (outydata + 4096 * y + x))
        × (by_byte (outcdata + 4096 * y + x) ≡ by_word (outcdata + 4096 * y + x))
  unfolding soft_from_ycbcr_bybyte
  soft_from_ycbcr_bybyte-agrees y x hy hx =
      let c = column y x hy hx in
      let ey : outydata + 4096 * y + x ≡ outydata + (4096 * y + x) = omega arith in
      let ec : outcdata + 4096 * y + x ≡ outcdata + (4096 * y + x) = omega arith in
      let luma =
        soft_from_ycbcr_byword-luma context heap' linebuf' outydata outcdata user inbuf lines
          heap'_bytes user_bytes fits y x hy hx in
      let chroma =
        soft_from_ycbcr_byword-chroma context heap' linebuf' outydata outcdata user inbuf lines
          heap'_bytes user_bytes fits y x hy (omega (arith, even)) in
      (
        memcpy-outside _ outcdata _ 0 (4096 * lines) (outydata + 4096 * y + x)
              (omega (arith, fits.planes_apart, fits.width_fits))
            ∙ ap (memcpy linebuf outydata (rows context.width).ybuf 0 (4096 * lines)) ey
            ∙ memcpy-inside linebuf outydata (rows context.width).ybuf 0 (4096 * lines)
                (4096 * y + x) (omega (arith, fits.width_fits))
            ∙ ap (rows context.width).ybuf (omega arith)
            ∙ c.0
            ∙ source y (3 * x) hy (omega (arith, fits.packed_line))
            ∙ sym luma,
        ap (memcpy with_y outcdata (rows context.width).cbuf 0 (4096 * lines)) ec
            ∙ memcpy-inside with_y outcdata (rows context.width).cbuf 0 (4096 * lines)
                (4096 * y + x) (omega (arith, fits.width_fits))
            ∙ ap (rows context.width).cbuf (omega arith)
            ∙ c.1
            ∙ ap₂ (λ (a b : ℕ). (a + b) / 2) (sample (x % 2 + 1) (omega arith))
                (sample (x % 2 + 4) (omega arith))
            ∙ sym chroma,
      )
    where
      with_y : Mem
      with_y = memcpy linebuf outydata (rows context.width).ybuf 0 (4096 * lines)

      sample :
          (k : ℕ)
          → k < 6
          → copied (context.pitch * y + (x / 2 * 6 + k))
            ≡ user (inbuf + context.pitch * y + (x / 2 * 6 + k))
      sample k h =
          source y (x / 2 * 6 + k) hy (omega (arith, even, fits.packed_line))
          ∙ ap user (omega arith)
