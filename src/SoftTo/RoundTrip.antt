-- ===== src/SoftTo/RoundTrip.antt =====
-- A line buffer that is unpacked to 4:4:4 and packed again by the word converters comes back.
use libshjpeg.Base.{ℕ, zero, suc, ◌+◌, ◌*◌, ◌/◌, ◌%◌, ◌<◌, ◌≡◌, ap, arith, ◌∙◌, Bool, false}
use native.Mathlib.Decide.{ℕ_discrete}
use libshjpeg.Memory.{Mem, IsBytes, memcpy-IsBytes, store32-IsBytes}
use libshjpeg.Context.{Context}
use libshjpeg.Soft.{soft_from_ycbcr_byword}
use libshjpeg.Soft.From.{mean_chroma}
use libshjpeg.Soft.FromImage.{
  FitsLinebuf, soft_from_ycbcr_byword-luma, soft_from_ycbcr_byword-chroma,
}
use libshjpeg.SoftTo.{ToRow, ToLines, to_chunk, to_chunks, to_line, to_lines, soft_to_ycbcr_byword}
use libshjpeg.SoftTo.Image.{chroma_line, FitsSurface, soft_to_ycbcr_byword-pixels}

chroma_line-422 : (mode420 : Bool) (y : ℕ) → mode420 ≡ false → chroma_line mode420 y ≡ y
chroma_line-422 mode420 y e = rw e

to_chunks-IsBytes :
    (n : ℕ) (ybuf cbuf : Mem) (r : ToRow) → IsBytes r.out → IsBytes (to_chunks n ybuf cbuf r).out
unfolding to_chunks to_chunk
to_chunks-IsBytes zero ybuf cbuf r h = h
to_chunks-IsBytes (suc n) ybuf cbuf r h =
    to_chunks-IsBytes n ybuf cbuf (to_chunk ybuf cbuf r)
      (store32-IsBytes _ _ _ (store32-IsBytes _ _ _ (store32-IsBytes _ _ _ h)))

to_lines-IsBytes :
    (n w pitch : ℕ) (mode420 : Bool) (linebuf : Mem) (s : ToLines)
    → IsBytes s.row.out
    → IsBytes (to_lines n w pitch mode420 linebuf s).row.out
unfolding to_lines to_line
to_lines-IsBytes zero w pitch mode420 linebuf s h = h
to_lines-IsBytes (suc n) w pitch mode420 linebuf s h =
    to_lines-IsBytes n w pitch mode420 linebuf (to_line w pitch mode420 linebuf s)
      (to_chunks-IsBytes w _ _ s.row h)

module _ (context : Context) (heap heap' linebuf linebuf' : Mem) (ydata cdata ydata' cdata' : ℕ)
    (user : Mem) (surface lines : ℕ) (heap_bytes : IsBytes heap) (heap'_bytes : IsBytes heap')
    (linebuf_bytes : IsBytes linebuf) (user_bytes : IsBytes user)
    (mode422 : context.mode420 ≡ false) (fits : FitsLinebuf context ydata' cdata' lines) where
  surface_fits : FitsSurface context lines
  surface_fits = record {
    width_fits = fits.width_fits;
    packed_line = fits.packed_line;
    addressable = fits.addressable;
  }

  -- The surface in between.
  abbrev unpacked : Mem
  unpacked = soft_to_ycbcr_byword context heap linebuf ydata cdata user surface lines

  unpacked-IsBytes : IsBytes unpacked
  unfolding soft_to_ycbcr_byword
  unpacked-IsBytes =
      memcpy-IsBytes user surface _ 0 _ user_bytes
        (to_lines-IsBytes lines _ context.pitch context.mode420 linebuf _ heap_bytes)

  -- Component `k` of pixel `q`: Cb for 0, Cr for 1.
  pixel_chroma :
      (y q k : ℕ)
      → y < lines
      → q < context.width
      → k < 2
      → unpacked (surface + (context.pitch * y + 3 * q) + 1 + k)
        ≡ linebuf (cdata + 4096 * y + (q / 2 * 2 + k))
  pixel_chroma y q k hy hq hk =
      let px =
        soft_to_ycbcr_byword-pixels context heap linebuf ydata cdata user surface lines heap_bytes
          linebuf_bytes surface_fits y q hy hq in
      let line = chroma_line-422 context.mode420 y mode422 in
      elim (ℕ_discrete k 0) [
        | yes e ↦ ap unpacked (omega (arith, e)) ∙ (px.1 ∙ ap linebuf (omega (arith, line, e)))
        | no ne ↦ ap unpacked (omega (arith, ne)) ∙ (px.2 ∙ ap linebuf (omega (arith, line, ne)))
      ]

  -- In 4:2:2 mode, for a surface whose lines fit and a column whose pair lies in the line, unpacking
  -- a line buffer to packed 4:4:4 and packing it again gives the same luma and chroma bytes.
  pub from_to_roundtrip :
      (y x : ℕ)
      → y < lines
      → x / 2 * 2 + 1 < context.width
      → let packed =
          soft_from_ycbcr_byword context heap' linebuf' ydata' cdata' unpacked surface lines in
        (packed (ydata' + 4096 * y + x) ≡ linebuf (ydata + 4096 * y + x))
        × (packed (cdata' + 4096 * y + x) ≡ linebuf (cdata + 4096 * y + x))
  from_to_roundtrip y x hy hx = (
    soft_from_ycbcr_byword-luma context heap' linebuf' ydata' cdata' unpacked surface lines
          heap'_bytes unpacked-IsBytes fits y x hy (omega arith)
        ∙ (soft_to_ycbcr_byword-pixels context heap linebuf ydata cdata user surface lines
            heap_bytes linebuf_bytes surface_fits y x hy (omega arith)).0,
    soft_from_ycbcr_byword-chroma context heap' linebuf' ydata' cdata' unpacked surface lines
          heap'_bytes unpacked-IsBytes fits y x hy hx
        ∙ mean,
  )
    where
      sample :
          (q : ℕ)
          → q / 2 ≡ x / 2
          → q < context.width
          → unpacked (surface + (context.pitch * y + 3 * q) + 1 + x % 2)
            ≡ linebuf (cdata + 4096 * y + x)
      sample q e h = pixel_chroma y q (x % 2) hy h (omega arith) ∙ ap linebuf (omega (arith, e))

      left :
          unpacked (surface + context.pitch * y + (x / 2 * 6 + (x % 2 + 1)))
          ≡ linebuf (cdata + 4096 * y + x)
      left = ap unpacked (omega arith) ∙ sample (x / 2 * 2) (omega arith) (omega arith)

      right :
          unpacked (surface + context.pitch * y + (x / 2 * 6 + (x % 2 + 4)))
          ≡ linebuf (cdata + 4096 * y + x)
      right = ap unpacked (omega arith) ∙ sample (x / 2 * 2 + 1) (omega arith) (omega arith)

      mean : mean_chroma unpacked (surface + context.pitch * y) x ≡ linebuf (cdata + 4096 * y + x)
      mean = omega (arith, left, right)
