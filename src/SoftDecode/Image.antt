-- ===== src/SoftDecode/Image.antt =====
-- decode_sw to the formats with two planes.
use libshjpeg.Base.{
  ℕ, zero, suc, ◌+◌, ◌-◌, ◌*◌, ◌/◌, ◌^◌, ◌≤◌, ◌<◌, ◌≡◌, ◌⊎◌, refl, arith, ◌∙◌, ap, some, bit_and,
  bit_and_field,
}
use libshjpeg.PixelFormat.{pf_nv16}
use libshjpeg.Memory.{Mem, IsBytes}
use libshjpeg.Soft.From.{mean_chroma}
use libshjpeg.SoftDecode.{Rows, decode_sw_line, decode_sw_lines, decode_sw_rows}
use libshjpeg.SoftDecode.Line.{copy_line_nv16-bytes, copy_line_nv16-outside}

module _ (scanline : ℕ → Mem) (bytes : (y : ℕ) → IsBytes (scanline y)) (w pitch : ℕ)
    (even : w / 2 * 2 ≡ w) (w_fits : w ≤ pitch) where
  -- The lines still to come leave alone what stands before each pointer.
  lines_nv16-outside :
      (n y : ℕ) (r : Rows) (b : ℕ)
      → r.addr + pitch * n ≤ r.addr_uv
      → (b < r.addr) ⊎ ((r.addr + pitch * n ≤ b) × (b < r.addr_uv))
      → (decode_sw_lines scanline pf_nv16 w pitch n y r).surface b ≡ r.surface b
  unfolding decode_sw_lines decode_sw_line
  lines_nv16-outside zero y r b apart h = refl
  lines_nv16-outside (suc n) y r b apart h =
      lines_nv16-outside n (y + 1) (decode_sw_line scanline pf_nv16 w pitch y r) b (grind arith)
        (grind arith)
      ∙ copy_line_nv16-outside (scanline y) (bytes y) r.addr r.addr_uv w r.surface b (grind arith)
          (grind arith)

  -- Byte `j` of line `k` of both planes, from scanline `row`.
  record HasLine (m : Mem) (addr addr_uv row k j : ℕ) : Type 0 where
    luma : m (addr + pitch * k + j) ≡ scanline row (3 * j)
    chroma : m (addr_uv + pitch * k + j) ≡ mean_chroma (scanline row) 0 j

  lines_nv16-inside :
      (n y : ℕ) (r : Rows) (k j : ℕ)
      → r.addr + pitch * n ≤ r.addr_uv
      → k < n
      → j < w
      → HasLine
          (decode_sw_lines scanline pf_nv16 w pitch n y r).surface
          r.addr
          r.addr_uv
          (y + k)
          k
          j
  unfolding decode_sw_lines decode_sw_line
  lines_nv16-inside zero y r k j apart h hj = absurd (omega arith)
  lines_nv16-inside (suc n) y r zero j apart h hj =
      let b =
        copy_line_nv16-bytes (scanline y) (bytes y) r.addr r.addr_uv w r.surface j (grind arith)
          (omega (arith, even)) in
      let ea : r.addr + pitch * 0 + j ≡ r.addr + j = omega arith in
      let ec : r.addr_uv + pitch * 0 + j ≡ r.addr_uv + j = omega arith in
      let ey : y + 0 ≡ y = omega arith in
      rw (ey) (record {
        luma = rw ea (
            lines_nv16-outside n (y + 1) (decode_sw_line scanline pf_nv16 w pitch y r) (r.addr + j)
              (grind arith) (grind arith)
            ∙ b.0);
        chroma = rw ec (
            lines_nv16-outside n (y + 1) (decode_sw_line scanline pf_nv16 w pitch y r)
              (r.addr_uv + j) (grind arith) (grind arith)
            ∙ b.1);
      })
  lines_nv16-inside (suc n) y r (suc k) j apart h hj =
      let ey : y + suc k ≡ y + 1 + k = omega arith in
      let ea : r.addr + pitch * suc k + j ≡ r.addr + pitch + pitch * k + j = omega arith in
      let ec : r.addr_uv + pitch * suc k + j ≡ r.addr_uv + pitch + pitch * k + j = omega arith in
      let p =
        lines_nv16-inside n (y + 1) (decode_sw_line scanline pf_nv16 w pitch y r) k j (grind arith)
          (omega arith) hj in
      rw ey (record { luma = rw ea (p.luma); chroma = rw ec (p.chroma) })

-- `(width + 1) & ~1`.
pub round_up :
    (width : ℕ) → width + 1 < 2 ^ 32 → bit_and (width + 1) (2 ^ 32 - 2) ≡ (width + 1) / 2 * 2
round_up width h = omega (arith, bit_and_field 31 1 (width + 1))

-- With a pitch that takes the width rounded up to pairs, and at most as many scanlines as the
-- surface has lines, decode_sw to NV16 gives a surface whose luma plane has the first byte of each
-- pixel of the scanlines, and whose chroma plane, `height` lines further on, has for each pair of
-- pixels the means, rounded down, of its Cb and of its Cr bytes.
pub decode_sw_rows-nv16 :
    (scanline : ℕ → Mem) (output_height addr width height pitch : ℕ) (surface : Mem)
    → ((y : ℕ) → IsBytes (scanline y))
    → width + 1 < 2 ^ 32
    → (width + 1) / 2 * 2 ≤ pitch
    → output_height ≤ height
    → (y j : ℕ) → y < output_height
    → j < (width + 1) / 2 * 2
    → (m : Mem) × (decode_sw_rows scanline output_height pf_nv16 addr width height pitch surface
        ≡ some m)
      × (m (addr + pitch * y + j) ≡ scanline y (3 * j))
      × (m (addr + height * pitch + pitch * y + j) ≡ mean_chroma (scanline y) 0 j)
unfolding decode_sw_rows
decode_sw_rows-nv16 scanline output_height addr width height pitch surface bytes small w_fits h_fits
      y j hy hj =
    let w = bit_and (width + 1) (2 ^ 32 - 2) in
    let e = round_up width small in
    let p =
      lines_nv16-inside scanline bytes w pitch (omega (arith, e)) (omega (arith, e)) output_height 0
        (record { surface = surface; addr = addr; addr_uv = addr + height * pitch }) y j
        (grind arith) hy (omega (arith, e)) in
    let at_row : 0 + y ≡ y = omega arith in
    (
      _,
      refl,
      p.luma ∙ ap (λ (t : ℕ). scanline t (3 * j)) at_row,
      p.chroma ∙ ap (λ (t : ℕ). mean_chroma (scanline t) 0 j) at_row,
    )
