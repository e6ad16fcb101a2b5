-- ===== src/SoftDecode/Rgb.antt =====
-- decode_sw to the formats with one plane.
use libshjpeg.Base.{ℕ, zero, suc, ◌+◌, ◌*◌, ◌≤◌, ◌<◌, ◌≡◌, ◌⊎◌, refl, arith, ◌∙◌, ap, sym, subst}
use libshjpeg.Memory.{Mem}
use libshjpeg.SoftDecode.{Rows, write_rgb_span, decode_sw_line, decode_sw_lines}

-- A round that writes a line of the only plane.
abbrev pub one_plane : (ℕ → Mem) → ℕ → ℕ → ℕ → ℕ → Rows → Rows
one_plane scanline format w pitch y r = record {
  surface = write_rgb_span (scanline y) r.addr w format r.surface;
  addr = r.addr + pitch;
  addr_uv = r.addr_uv;
}

-- A format whose lines are `len` bytes long, with what one line shows of its scanline.
module _ (scanline : ℕ → Mem) (format w pitch len : ℕ)
    (line : (y : ℕ) (r : Rows)
      → decode_sw_line scanline format w pitch y r ≡ one_plane scanline format w pitch y r)
    (outside : (y a : ℕ) (m : Mem) (b : ℕ)
      → (b < a) ⊎ (a + len ≤ b)
      → write_rgb_span (scanline y) a w format m b ≡ m b)
    (len_fits : len ≤ pitch) where
  lines_rgb-outside :
      (n y : ℕ) (r : Rows) (b : ℕ)
      → (b < r.addr) ⊎ (r.addr + pitch * n ≤ b)
      → (decode_sw_lines scanline format w pitch n y r).surface b ≡ r.surface b
  unfolding decode_sw_lines
  lines_rgb-outside zero y r b h = refl
  lines_rgb-outside (suc n) y r b h =
      ap (λ (t : Rows). (decode_sw_lines scanline format w pitch n (y + 1) t).surface b) (line y r)
      ∙ lines_rgb-outside n (y + 1) (one_plane scanline format w pitch y r) b (grind arith)
      ∙ outside y r.addr r.surface b (grind arith)

  -- Byte `j` of line `k` is as the round of the line leaves it, whatever was there before it.
  lines_rgb-inside :
      (n y : ℕ) (r : Rows) (k j : ℕ)
      → k < n
      → j < len
      → (m : Mem) × ((decode_sw_lines scanline format w pitch n y r).surface
            (r.addr + pitch * k + j)
          ≡ write_rgb_span
              (scanline (y + k))
              (r.addr + pitch * k)
              w
              format
              m
              (r.addr + pitch * k + j))
  unfolding decode_sw_lines
  lines_rgb-inside zero y r k j h hj = absurd (omega arith)
  lines_rgb-inside (suc n) y r zero j h hj =
      let ey : y + 0 ≡ y = omega arith in
      let ea : r.addr + pitch * 0 ≡ r.addr = omega arith in
      (
        r.surface,
        rw (ey, ea)
            (ap
                (λ (t : Rows).
                  (decode_sw_lines scanline format w pitch n (y + 1) t).surface (r.addr + j))
                (line y r)
              ∙ lines_rgb-outside n (y + 1) (one_plane scanline format w pitch y r) (r.addr + j)
                  (grind arith)),
      )
  lines_rgb-inside (suc n) y r (suc k) j h hj =
      let ey : y + suc k ≡ y + 1 + k = omega arith in
      let ea : r.addr + pitch * suc k ≡ r.addr + pitch + pitch * k = omega arith in
      let t =
        lines_rgb-inside n (y + 1) (one_plane scanline format w pitch y r) k j (omega arith) hj in
      (
        t.0,
        rw (ey, ea)
            (ap
                (λ (t : Rows).
                  (decode_sw_lines scanline format w pitch n (y + 1) t).surface
                    (r.addr + pitch + pitch * k + j))
                (line y r)
              ∙ t.1),
      )

  -- The same for the byte at address `b`, from the first line on.
  pub one_plane-byte :
      (n : ℕ) (r : Rows) (y j b : ℕ)
      → b ≡ r.addr + pitch * y + j
      → y < n
      → j < len
      → (m : Mem) × ((decode_sw_lines scanline format w pitch n 0 r).surface b
          ≡ write_rgb_span (scanline y) (r.addr + pitch * y) w format m b)
  one_plane-byte n r y j b e h hj =
      let t = lines_rgb-inside n 0 r y j h hj in
      let row : 0 + y ≡ y = omega arith in
      let first =
        subst
          (λ (k : ℕ).
            (decode_sw_lines scanline format w pitch n 0 r).surface (r.addr + pitch * y + j)
            ≡ write_rgb_span (scanline k) (r.addr + pitch * y) w format (t.0)
                (r.addr + pitch * y + j))
          row (t.1) in
      (
        t.0,
        subst
            (λ (a : ℕ).
              (decode_sw_lines scanline format w pitch n 0 r).surface a
              ≡ write_rgb_span (scanline y) (r.addr + pitch * y) w format (t.0) a)
            (sym e) first,
      )
