-- ===== src/SoftTo/Image.antt =====
-- soft_toYCbCr_byword: all lines, and the whole function.
use libshjpeg.Base.{
  ℕ, zero, suc, ◌+◌, ◌-◌, ◌*◌, ◌/◌, ◌%◌, ◌^◌, ◌≤◌, ◌<◌, ◌≡◌, refl, ap, arith, ◌∙◌, Bool, true,
  false, if◌then◌else◌, ◌==◌, not, ◌||◌,
}
use native.Mathlib.Decide.{ℕ_discrete}
use libshjpeg.Memory.{Mem, IsBytes, memcpy, memcpy-inside}
use libshjpeg.Context.{Context}
use libshjpeg.Soft.{chunks}
use libshjpeg.SoftTo.{ToLines, to_line, to_lines, soft_to_ycbcr_byword}
use libshjpeg.SoftTo.Words.{HasPixel}
use libshjpeg.SoftTo.Line.{to_chunks-below, to_chunks-pixels_at, to_chunks-pointer}

-- The chroma line that serves line `y`.
abbrev pub chroma_line : Bool → ℕ → ℕ
chroma_line mode420 y = if mode420 then y / 2 else y

chroma_line-suc :
    (mode420 : Bool) (y c base : ℕ)
    → c ≡ base + 4096 * chroma_line mode420 y
    → (if not mode420 || y % 2 == 1 then c + 4096 else c)
      ≡ base + 4096 * chroma_line mode420 (y + 1)
chroma_line-suc true y c base h = ground arith
chroma_line-suc false y c base h = ground arith

chroma_line-zero : (mode420 : Bool) (base : ℕ) → base ≡ base + 4096 * chroma_line mode420 0
chroma_line-zero true base = omega arith
chroma_line-zero false base = omega arith

module _ (linebuf : Mem) (bytes : IsBytes linebuf) (w pitch : ℕ) (mode420 : Bool)
    (inydata incdata : ℕ) where
  -- The state at the head of line `s.y`.
  record AtLine (s : ToLines) : Type 0 where
    y_at : s.inydata ≡ inydata + 4096 * s.y
    c_at : s.incdata ≡ incdata + 4096 * chroma_line mode420 s.y
    y_start : s.row.in_ybuffer ≡ 0
    c_start : s.row.in_cbuffer ≡ 0
    out_at : s.row.out_buffer ≡ pitch * s.y
    ybytes : IsBytes s.ybuf
    cbytes : IsBytes s.cbuf

  copied-IsBytes : (m : Mem) (s n : ℕ) → IsBytes m → IsBytes (memcpy m 0 linebuf s n)
  unfolding memcpy
  copied-IsBytes m s n h a = ground (arith, h a, bytes (s + (a - 0)))

  to_line-AtLine :
      (s : ToLines)
      → pitch * s.y + pitch + 12 * w < 2 ^ 32
      → AtLine s
      → AtLine (to_line w pitch mode420 linebuf s)
  unfolding to_line
  to_line-AtLine s room a =
      let yb = copied-IsBytes s.ybuf s.inydata (w * 4) a.ybytes in
      let cb = copied-IsBytes s.cbuf s.incdata (w * 4) a.cbytes in
      record {
        y_at = omega (arith, a.y_at);
        c_at = chroma_line-suc mode420 s.y s.incdata incdata a.c_at;
        y_start = refl;
        c_start = refl;
        out_at = omega (arith, to_chunks-pointer _ _ yb cb w s.row, a.out_at);
        ybytes = yb;
        cbytes = cb;
      }

  to_line-below :
      (s : ToLines) (b : ℕ)
      → AtLine s
      → b < pitch * s.y
      → (to_line w pitch mode420 linebuf s).row.out b ≡ s.row.out b
  unfolding to_line
  to_line-below s b a h =
      to_chunks-below _ _ (copied-IsBytes s.ybuf s.inydata (w * 4) a.ybytes)
        (copied-IsBytes s.cbuf s.incdata (w * 4) a.cbytes) w s.row b (omega (arith, a.out_at))

  to_line-pixels :
      (s : ToLines) (q : ℕ)
      → AtLine s
      → q < 4 * w
      → HasPixel
          (to_line w pitch mode420 linebuf s).row.out
          (pitch * s.y + 3 * q)
          (linebuf (inydata + 4096 * s.y + q))
          (linebuf (incdata + 4096 * chroma_line mode420 s.y + q / 2 * 2))
          (linebuf (incdata + 4096 * chroma_line mode420 s.y + (q / 2 * 2 + 1)))
  unfolding to_line
  to_line-pixels s q a h =
      let px =
        to_chunks-pixels_at _ _ (copied-IsBytes s.ybuf s.inydata (w * 4) a.ybytes)
          (copied-IsBytes s.cbuf s.incdata (w * 4) a.cbytes) w s.row (pitch * s.y) 0 0 q a.out_at
          a.y_start a.c_start h in
      (
        px.0 ∙ (memcpy-inside _ 0 _ _ _ q (omega arith) ∙ ap linebuf (omega (arith, a.y_at))),
        px.1
            ∙ (memcpy-inside _ 0 _ _ _ (q / 2 * 2) (omega arith)
                ∙ ap linebuf (omega (arith, a.c_at))),
        px.2
            ∙ (memcpy-inside _ 0 _ _ _ (q / 2 * 2 + 1) (omega arith)
                ∙ ap linebuf (omega (arith, a.c_at))),
      )

  -- A line that is done stays as it is: later lines start above it.
  to_lines-below :
      (n : ℕ) (s : ToLines) (b : ℕ)
      → pitch * (s.y + n) + 12 * w < 2 ^ 32
      → AtLine s
      → b < pitch * s.y
      → (to_lines n w pitch mode420 linebuf s).row.out b ≡ s.row.out b
  unfolding to_lines
  to_lines-below zero s b room a h = refl
  to_lines-below (suc n) s b room a h =
      to_lines-below n (to_line w pitch mode420 linebuf s) b (unfold to_line in omega arith)
        (to_line-AtLine s (grind arith) a) (unfold to_line in omega arith)
      ∙ to_line-below s b a h

  to_lines-pixels :
      (n : ℕ) (s : ToLines) (y q : ℕ)
      → pitch * (s.y + n) + 12 * w < 2 ^ 32
      → AtLine s
      → s.y ≤ y
      → y < s.y + n
      → q < 4 * w
      → 3 * q + 3 ≤ pitch
      → HasPixel
          (to_lines n w pitch mode420 linebuf s).row.out
          (pitch * y + 3 * q)
          (linebuf (inydata + 4096 * y + q))
          (linebuf (incdata + 4096 * chroma_line mode420 y + q / 2 * 2))
          (linebuf (incdata + 4096 * chroma_line mode420 y + (q / 2 * 2 + 1)))
  unfolding to_lines
  to_lines-pixels zero s y q room a lo hi hq hp = absurd (omega arith)
  to_lines-pixels (suc n) s y q room a lo hi hq hp = elim (ℕ_discrete s.y y) [
    | yes e ↦
        let next = to_line w pitch mode420 linebuf s in
        let a' = to_line-AtLine s (omega arith) a in
        let room' : pitch * (next.y + n) + 12 * w < 2 ^ 32 = unfold to_line in omega arith in
        let kept = λ (b : ℕ) (h : b < pitch * next.y). to_lines-below n next b room' a' h in
        let here = to_line-pixels s q a hq in
        rw (← e) (
          kept (pitch * s.y + 3 * q) (unfold to_line in omega arith) ∙ here.0,
          kept (pitch * s.y + 3 * q + 1) (unfold to_line in omega arith) ∙ here.1,
          kept (pitch * s.y + 3 * q + 2) (unfold to_line in omega arith) ∙ here.2,
        )
    | no ne ↦
        to_lines-pixels n (to_line w pitch mode420 linebuf s) y q (unfold to_line in omega arith)
          (to_line-AtLine s (omega arith) a) (unfold to_line in omega arith)
          (unfold to_line in omega arith) hq hp
  ]

-- What the caller of a conversion guarantees: sizes that fit the line buffer and the address space.
pub record FitsSurface (context : Context) (lines : ℕ) : Type 0 where
  pub width_fits : context.width ≤ 4096
  pub packed_line : 3 * context.width ≤ context.pitch
  pub addressable : context.pitch * lines + 16384 < 2 ^ 32

module _ (context : Context) (heap linebuf : Mem) (inydata incdata : ℕ) (user : Mem)
    (outbuf lines : ℕ) (heap_bytes : IsBytes heap) (linebuf_bytes : IsBytes linebuf)
    (fits : FitsSurface context lines) where
  line_below : (y : ℕ) → y < lines → context.pitch * y + context.pitch ≤ context.pitch * lines
  line_below y h = grind (arith, fits)

  -- For a surface whose packed lines fit, pixel `x` of line `y` of the user's surface gets its luma
  -- from column `x` of the line buffer's line `y`, and its Cb and Cr from the pair that the column
  -- belongs to, in the chroma line `y`, or `y / 2` in 4:2:0 mode.
  pub soft_to_ycbcr_byword-pixels :
      (y x : ℕ)
      → y < lines
      → x < context.width
      → HasPixel
          (soft_to_ycbcr_byword context heap linebuf inydata incdata user outbuf lines)
          (outbuf + (context.pitch * y + 3 * x))
          (linebuf (inydata + 4096 * y + x))
          (linebuf (incdata + 4096 * chroma_line context.mode420 y + x / 2 * 2))
          (linebuf (incdata + 4096 * chroma_line context.mode420 y + (x / 2 * 2 + 1)))
  unfolding soft_to_ycbcr_byword
  soft_to_ycbcr_byword-pixels y x hy hx =
      let i = context.pitch * y + 3 * x in
      let e0 : 0 + i ≡ i = omega arith in
      let e1 : outbuf + i + 1 ≡ outbuf + (i + 1) = omega arith in
      let e2 : outbuf + i + 2 ≡ outbuf + (i + 2) = omega arith in
      let e3 : 0 + (i + 1) ≡ i + 1 = omega arith in
      let e4 : 0 + (i + 2) ≡ i + 2 = omega arith in
      let px =
        to_lines-pixels linebuf linebuf_bytes (chunks context.width) context.pitch context.mode420
          inydata incdata lines start y x (omega (arith, fits.addressable, fits.width_fits))
          start-AtLine (omega arith) (omega arith) (omega (arith, hx))
          (omega (arith, hx, fits.packed_line)) in
      let inside : i + 3 ≤ context.pitch * lines =
        omega (arith, line_below y hy, fits.packed_line) in
      rw (e1, e2)
        (
          memcpy-inside user outbuf _ 0 _ i (omega arith) ∙ rw e0 (px.0),
          memcpy-inside user outbuf _ 0 _ (i + 1) (omega arith) ∙ rw e3 (px.1),
          memcpy-inside user outbuf _ 0 _ (i + 2) (omega arith) ∙ rw e4 (px.2),
        )
    where
      start : ToLines
      start = record {
        y = 0;
        ybuf = heap;
        cbuf = heap;
        inydata = inydata;
        incdata = incdata;
        row = record { out = heap; in_ybuffer = 0; in_cbuffer = 0; out_buffer = 0 };
      }

      start-AtLine :
          AtLine linebuf linebuf_bytes
            (chunks context.width)
            context.pitch
            context.mode420
            inydata
            incdata
            start
      start-AtLine = record {
        y_at = omega arith;
        c_at = chroma_line-zero context.mode420 incdata;
        y_start = refl;
        c_start = refl;
        out_at = omega arith;
        ybytes = heap_bytes;
        cbytes = heap_bytes;
      }
