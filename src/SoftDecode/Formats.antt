-- ===== src/SoftDecode/Formats.antt =====
-- decode_sw to each of the formats that it knows.
use libshjpeg.Base.{ℕ, ◌+◌, ◌-◌, ◌*◌, ◌/◌, ◌^◌, ◌≤◌, ◌<◌, ◌≡◌, refl, arith, ◌∙◌, ap, some, bit_and}
use libshjpeg.PixelFormat.{pf_nv12, pf_nv16, pf_rgb16, pf_rgb24, pf_rgb32}
use libshjpeg.Memory.{Mem, IsBytes, memcpy-inside, memcpy-outside}
use libshjpeg.Soft.From.{mean_chroma}
use libshjpeg.SoftDecode.{
  Rows, write_rgb_span, decode_sw_line, decode_sw_lines, decode_sw_rows, row_memory, decode_sw,
}
use libshjpeg.SoftDecode.Image.{round_up, decode_sw_rows-nv16}
use libshjpeg.SoftDecode.Nv12.{lines_nv12-inside}
use libshjpeg.SoftDecode.Pixels.{
  Pixel16, Pixel32, write_rgb16-outside, write_rgb32-outside, write_rgb16-inside,
  write_rgb32-inside,
}
use libshjpeg.SoftDecode.Rgb.{one_plane-byte}

-- The formats of decode_sw, with their codes and the bytes that a line needs.
pub data Format : Type 0 where
  nv12 nv16 rgb16 rgb24 rgb32 : Format

abbrev pub code : Format → ℕ
code nv12 = pf_nv12
code nv16 = pf_nv16
code rgb16 = pf_rgb16
code rgb24 = pf_rgb24
code rgb32 = pf_rgb32

abbrev pub line_size : Format → ℕ → ℕ
line_size nv12 width = (width + 1) / 2 * 2
line_size nv16 width = (width + 1) / 2 * 2
line_size rgb16 width = 2 * width
line_size rgb24 width = 3 * width
line_size rgb32 width = 4 * width

-- Pixel `x` of line `y` of the surface `m` is that of the scanline, in the format; `uv` is the
-- chroma plane. In NV12 two lines share the chroma of the first of them.
abbrev pub Shows : Format → (ℕ → Mem) → ℕ → ℕ → ℕ → Mem → ℕ → ℕ → Type 0
Shows nv12 scanline addr uv pitch m y x =
    (m (addr + pitch * y + x) ≡ scanline y (3 * x))
    × (m (uv + pitch * (y / 2) + x) ≡ mean_chroma (scanline (y / 2 * 2)) 0 x)
Shows nv16 scanline addr uv pitch m y x =
    (m (addr + pitch * y + x) ≡ scanline y (3 * x))
    × (m (uv + pitch * y + x) ≡ mean_chroma (scanline y) 0 x)
Shows rgb16 scanline addr uv pitch m y x = Pixel16 (scanline y) m (addr + pitch * y + 2 * x) x
Shows rgb24 scanline addr uv pitch m y x =
    (m (addr + pitch * y + (3 * x)) ≡ scanline y (3 * x))
    × (m (addr + pitch * y + (3 * x + 1)) ≡ scanline y (3 * x + 1))
    × (m (addr + pitch * y + (3 * x + 2)) ≡ scanline y (3 * x + 2))
Shows rgb32 scanline addr uv pitch m y x = Pixel32 (scanline y) m (addr + pitch * y + 4 * x) x

module _ (scanline : ℕ → Mem) (bytes : (y : ℕ) → IsBytes (scanline y)) (w pitch n : ℕ) (r : Rows)
    (y x uv : ℕ) (hy : y < n) (hx : x < w) where
  Shows-rgb16 :
      2 * w ≤ pitch
      → Shows rgb16 scanline r.addr uv pitch
          (decode_sw_lines scanline pf_rgb16 w pitch n 0 r).surface
          y
          x
  unfolding write_rgb_span decode_sw_line
  Shows-rgb16 fits =
      let a = r.addr + pitch * y in
      let byte = λ (j : ℕ) (b : ℕ) (e : b ≡ a + j) (hj : j < 2 * w).
        one_plane-byte scanline pf_rgb16 w pitch (2 * w) (λ y r. refl)
          (λ y a m b h. write_rgb16-outside (scanline y) (bytes y) w 0 a m b (omega arith)) fits n r
          y j b e hy hj in
      let pixel = λ (m : Mem).
        write_rgb16-inside (scanline y) (bytes y) w 0 a m x (omega arith) (omega arith) in
      let b0 = byte (2 * x) (a + 2 * x) refl (omega arith) in
      let b1 = byte (2 * x + 1) (a + 2 * x + 1) (omega arith) (omega arith) in
      (b0.1 ∙ (pixel (b0.0)).0, b1.1 ∙ (pixel (b1.0)).1)

  Shows-rgb32 :
      4 * w ≤ pitch
      → Shows rgb32 scanline r.addr uv pitch
          (decode_sw_lines scanline pf_rgb32 w pitch n 0 r).surface
          y
          x
  unfolding write_rgb_span decode_sw_line
  Shows-rgb32 fits =
      let a = r.addr + pitch * y in
      let byte = λ (j : ℕ) (b : ℕ) (e : b ≡ a + j) (hj : j < 4 * w).
        one_plane-byte scanline pf_rgb32 w pitch (4 * w) (λ y r. refl)
          (λ y a m b h. write_rgb32-outside (scanline y) (bytes y) w 0 a m b (omega arith)) fits n r
          y j b e hy hj in
      let pixel = λ (m : Mem).
        write_rgb32-inside (scanline y) (bytes y) w 0 a m x (omega arith) (omega arith) in
      let b0 = byte (4 * x) (a + 4 * x) refl (omega arith) in
      let b1 = byte (4 * x + 1) (a + 4 * x + 1) (omega arith) (omega arith) in
      let b2 = byte (4 * x + 2) (a + 4 * x + 2) (omega arith) (omega arith) in
      let b3 = byte (4 * x + 3) (a + 4 * x + 3) (omega arith) (omega arith) in
      (
        b0.1 ∙ (pixel (b0.0)).0,
        b1.1 ∙ (pixel (b1.0)).1,
        b2.1 ∙ (pixel (b2.0)).2,
        b3.1 ∙ (pixel (b3.0)).3,
      )

  Shows-rgb24 :
      3 * w ≤ pitch
      → Shows rgb24 scanline r.addr uv pitch
          (decode_sw_lines scanline pf_rgb24 w pitch n 0 r).surface
          y
          x
  unfolding write_rgb_span decode_sw_line
  Shows-rgb24 fits =
      let a = r.addr + pitch * y in
      let byte : (j : ℕ)
          → j < 3 * w
          → (decode_sw_lines scanline pf_rgb24 w pitch n 0 r).surface (a + j) ≡ scanline y j =
        λ j hj.
          let t =
            one_plane-byte scanline pf_rgb24 w pitch (3 * w) (λ y r. refl)
              (λ y a m b h. memcpy-outside m a (scanline y) 0 (w * 3) b (omega arith)) fits n r y j
              (a + j) refl hy hj in
          let src : 0 + j ≡ j = omega arith in
          t.1
          ∙ memcpy-inside (t.0) a (scanline y) 0 (w * 3) j (omega arith)
          ∙ ap (scanline y) src in
      (byte (3 * x) (omega arith), byte (3 * x + 1) (omega arith), byte (3 * x + 2) (omega arith))

  Shows-nv12 :
      w / 2 * 2 ≡ w
      → w ≤ pitch
      → r.addr + pitch * n ≤ r.addr_uv
      → Shows nv12 scanline r.addr r.addr_uv pitch
          (decode_sw_lines scanline pf_nv12 w pitch n 0 r).surface
          y
          x
  Shows-nv12 even fits apart =
      let m = (decode_sw_lines scanline pf_nv12 w pitch n 0 r).surface in
      let own = lines_nv12-inside scanline bytes w pitch even fits n 0 r y x apart hy hx in
      let shared =
        lines_nv12-inside scanline bytes w pitch even fits n 0 r (y / 2 * 2) x apart (omega arith)
          hx in
      let row : 0 + y ≡ y = omega arith in
      let first_row : 0 + y / 2 * 2 ≡ y / 2 * 2 = omega arith in
      let half : r.addr_uv + pitch * (y / 2) + x ≡ r.addr_uv + pitch * (y / 2 * 2 / 2) + x =
        ap (λ (t : ℕ). r.addr_uv + pitch * t + x) (omega arith) in
      (
        own.luma ∙ ap (λ (t : ℕ). scanline t (3 * x)) row,
        ap m half
            ∙ shared.chroma (omega arith)
            ∙ ap (λ (t : ℕ). mean_chroma (scanline t) 0 x) first_row,
      )

-- The same for the memory from the row buffer on.
decode_sw_rows-Shows :
    (format : Format) (scanline : ℕ → Mem) (output_height addr width height pitch : ℕ)
    (surface : Mem)
    → ((y : ℕ) → IsBytes (scanline y))
    → width + 1 < 2 ^ 32
    → line_size format width ≤ pitch
    → output_height ≤ height
    → (y x : ℕ) → y < output_height
    → x < width
    → (m : Mem) × (decode_sw_rows scanline output_height
          (code format)
          addr
          width
          height
          pitch
          surface
        ≡ some m)
      × Shows format scanline addr (addr + height * pitch) pitch m y x
unfolding decode_sw_rows
decode_sw_rows-Shows nv12 scanline output_height addr width height pitch surface bytes small fits
      h_fits y x hy hx =
    let w = bit_and (width + 1) (2 ^ 32 - 2) in
    let e = round_up width small in
    (
      _,
      refl,
      Shows-nv12 scanline bytes w pitch output_height
          (record { surface = surface; addr = addr; addr_uv = addr + height * pitch }) y x 0 hy
          (omega (arith, e)) (omega (arith, e)) (omega (arith, e)) (grind arith),
    )
decode_sw_rows-Shows nv16 scanline output_height addr width height pitch surface bytes small fits
      h_fits y x hy hx =
    let t =
      decode_sw_rows-nv16 scanline output_height addr width height pitch surface bytes small fits
        h_fits y x hy (omega arith) in
    (t.0, t.1, (t.2, t.3))
decode_sw_rows-Shows rgb16 scanline output_height addr width height pitch surface bytes small fits
      h_fits y x hy hx =
    (
      _,
      refl,
      Shows-rgb16 scanline bytes width pitch output_height
          (record { surface = surface; addr = addr; addr_uv = addr + height * pitch }) y x
          (addr + height * pitch) hy hx fits,
    )
decode_sw_rows-Shows rgb24 scanline output_height addr width height pitch surface bytes small fits
      h_fits y x hy hx =
    (
      _,
      refl,
      Shows-rgb24 scanline bytes width pitch output_height
          (record { surface = surface; addr = addr; addr_uv = addr + height * pitch }) y x
          (addr + height * pitch) hy hx fits,
    )
decode_sw_rows-Shows rgb32 scanline output_height addr width height pitch surface bytes small fits
      h_fits y x hy hx =
    (
      _,
      refl,
      Shows-rgb32 scanline bytes width pitch output_height
          (record { surface = surface; addr = addr; addr_uv = addr + height * pitch }) y x
          (addr + height * pitch) hy hx fits,
    )

row_memory-IsBytes :
    (output_width : ℕ) (row beyond : ℕ → Mem)
    → ((y : ℕ) → IsBytes (row y))
    → ((y : ℕ) → IsBytes (beyond y))
    → (y : ℕ) → IsBytes (row_memory output_width row beyond y)
row_memory-IsBytes output_width row beyond h k y a = ground (arith, h y a, k y a)

-- With a pitch that takes a line of the format, whose width two planes round up to pairs, and at
-- most as many scanlines as the surface has lines: decode_sw to each of the five formats gives a
-- surface that shows each pixel of the scanlines, with the high bits of its colours, or with the
-- mean chroma of its pair, in NV12 that of the first of two lines. The pixels behind the row buffer,
-- of a surface that is wider than the image, are those of the bytes that stand there.
pub decode_sw-Shows :
    (format : Format) (row beyond : ℕ → Mem)
    (output_width output_height addr width height pitch : ℕ) (surface : Mem)
    → ((y : ℕ) → IsBytes (row y))
    → ((y : ℕ) → IsBytes (beyond y))
    → width + 1 < 2 ^ 32
    → line_size format width ≤ pitch
    → output_height ≤ height
    → (y x : ℕ) → y < output_height
    → x < width
    → (m : Mem) × (decode_sw row beyond output_width output_height
          (code format)
          addr
          width
          height
          pitch
          surface
        ≡ some m)
      × Shows format (row_memory output_width row beyond) addr (addr + height * pitch) pitch m y x
unfolding decode_sw
decode_sw-Shows format row beyond output_width output_height addr width height pitch surface own
      behind =
    decode_sw_rows-Shows format (row_memory output_width row beyond) output_height addr width height
      pitch surface (row_memory-IsBytes output_width row beyond own behind)
