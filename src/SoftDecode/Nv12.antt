-- ===== src/SoftDecode/Nv12.antt =====
-- decode_sw to NV12: every other scanline gives chroma.
use libshjpeg.Base.{
  ℕ, zero, suc, ◌+◌, ◌*◌, ◌/◌, ◌%◌, ◌≤◌, ◌<◌, ◌≡◌, ◌⊎◌, inl, inr, refl, arith, ◌∙◌, ap, sym, subst,
  ◌==◌, true, false,
}
use native.Mathlib.Decide.{ℕ_discrete}
use libshjpeg.PixelFormat.{pf_nv12}
use libshjpeg.Memory.{Mem, IsBytes}
use libshjpeg.Soft.From.{mean_chroma}
use libshjpeg.SoftDecode.{copy_line_y, copy_line_nv16, Rows, decode_sw_line, decode_sw_lines}
use libshjpeg.SoftDecode.Line.{copy_line_nv16-bytes, copy_line_nv16-outside}
use libshjpeg.SoftDecode.Luma.{copy_line_y-bytes, copy_line_y-outside}

module _ (scanline : ℕ → Mem) (bytes : (y : ℕ) → IsBytes (scanline y)) (w pitch : ℕ)
    (even : w / 2 * 2 ≡ w) (w_fits : w ≤ pitch) where
  -- A round for a scanline with chroma, and for one without.
  abbrev both_planes : ℕ → Rows → Rows
  both_planes y r = record {
    surface = copy_line_nv16 r.addr r.addr_uv (scanline y) w r.surface;
    addr = r.addr + pitch;
    addr_uv = r.addr_uv + pitch;
  }

  abbrev luma_only : ℕ → Rows → Rows
  luma_only y r = record {
    surface = copy_line_y r.addr (scanline y) w r.surface;
    addr = r.addr + pitch;
    addr_uv = r.addr_uv;
  }

  line_even :
      (y : ℕ) (r : Rows) → y % 2 ≡ 0 → decode_sw_line scanline pf_nv12 w pitch y r ≡ both_planes y r
  unfolding decode_sw_line
  line_even y r h = let e : ((y + 1) % 2 == 1) ≡ true = ground (arith, h) in rw e refl

  line_odd :
      (y : ℕ) (r : Rows) → y % 2 ≡ 1 → decode_sw_line scanline pf_nv12 w pitch y r ≡ luma_only y r
  unfolding decode_sw_line
  line_odd y r h = let e : ((y + 1) % 2 == 1) ≡ false = ground (arith, h) in rw e refl

  parity : (y : ℕ) → (y % 2 ≡ 0) ⊎ (y % 2 ≡ 1)
  parity y = elim (ℕ_discrete (y % 2) 0) [ yes e ↦ inl e | no ne ↦ inr (omega (arith, ne)) ]

  lines_nv12-outside :
      (n y : ℕ) (r : Rows) (b : ℕ)
      → r.addr + pitch * n ≤ r.addr_uv
      → (b < r.addr) ⊎ ((r.addr + pitch * n ≤ b) × (b < r.addr_uv))
      → (decode_sw_lines scanline pf_nv12 w pitch n y r).surface b ≡ r.surface b
  unfolding decode_sw_lines
  lines_nv12-outside zero y r b apart h = refl
  lines_nv12-outside (suc n) y r b apart h = elim (parity y) [
    | inl e ↦
        ap (λ (t : Rows). (decode_sw_lines scanline pf_nv12 w pitch n (y + 1) t).surface b)
          (line_even y r e)
        ∙ lines_nv12-outside n (y + 1) (both_planes y r) b (grind arith) (grind arith)
        ∙ copy_line_nv16-outside (scanline y) (bytes y) r.addr r.addr_uv w r.surface b (grind arith)
            (grind arith)
    | inr e ↦
        ap (λ (t : Rows). (decode_sw_lines scanline pf_nv12 w pitch n (y + 1) t).surface b)
          (line_odd y r e)
        ∙ lines_nv12-outside n (y + 1) (luma_only y r) b (grind arith) (grind arith)
        ∙ copy_line_y-outside (scanline y) (bytes y) r.addr w r.surface b (grind arith)
  ]

  -- Byte `j` of line `k` of the luma plane, and of the chroma line that the scanline gives.
  pub record HasLine (m : Mem) (addr addr_uv row k j : ℕ) : Type 0 where
    pub luma : m (addr + pitch * k + j) ≡ scanline row (3 * j)
    pub chroma : row % 2 ≡ 0 → m (addr_uv + pitch * (k / 2) + j) ≡ mean_chroma (scanline row) 0 j

  -- The line of a round, after the rounds that follow it.
  first_even :
      (n y : ℕ) (r : Rows) (j : ℕ)
      → r.addr + pitch * suc n ≤ r.addr_uv
      → j < w
      → y % 2 ≡ 0
      → HasLine
          (decode_sw_lines scanline pf_nv12 w pitch n (y + 1) (both_planes y r)).surface
          r.addr
          r.addr_uv
          y
          0
          j
  first_even n y r j apart hj e =
      let b =
        copy_line_nv16-bytes (scanline y) (bytes y) r.addr r.addr_uv w r.surface j (grind arith)
          (omega (arith, even)) in
      let ea : r.addr + pitch * 0 + j ≡ r.addr + j = omega arith in
      let ec : r.addr_uv + pitch * (0 / 2) + j ≡ r.addr_uv + j = omega arith in
      record {
        luma = rw ea (
            lines_nv12-outside n (y + 1) (both_planes y r) (r.addr + j) (grind arith) (grind arith)
            ∙ b.0);
        chroma = λ _. rw ec (
            lines_nv12-outside n (y + 1) (both_planes y r) (r.addr_uv + j) (grind arith)
              (grind arith)
            ∙ b.1);
      }

  first_odd :
      (n y : ℕ) (r : Rows) (j : ℕ)
      → r.addr + pitch * suc n ≤ r.addr_uv
      → j < w
      → y % 2 ≡ 1
      → HasLine
          (decode_sw_lines scanline pf_nv12 w pitch n (y + 1) (luma_only y r)).surface
          r.addr
          r.addr_uv
          y
          0
          j
  first_odd n y r j apart hj e =
      let b = copy_line_y-bytes (scanline y) (bytes y) r.addr w r.surface j (omega (arith, even)) in
      let ea : r.addr + pitch * 0 + j ≡ r.addr + j = omega arith in
      record {
        luma = rw ea (
            lines_nv12-outside n (y + 1) (luma_only y r) (r.addr + j) (grind arith) (grind arith)
            ∙ b);
        chroma = λ h. absurd (omega (arith, e, h));
      }

  -- A line that a later round gives, seen from the round before.
  next_line :
      (m : Mem) (addr addr_uv addr_uv' y k j : ℕ)
      → ((y % 2 ≡ 0) × (addr_uv' ≡ addr_uv + pitch)) ⊎ ((y % 2 ≡ 1) × (addr_uv' ≡ addr_uv))
      → HasLine m (addr + pitch) addr_uv' (y + 1 + k) k j
      → HasLine m addr addr_uv (y + suc k) (suc k) j
  next_line m addr addr_uv addr_uv' y k j u l =
      let ey : y + suc k ≡ y + 1 + k = omega arith in
      let ea : addr + pitch * suc k + j ≡ addr + pitch + pitch * k + j = omega arith in
      rw ey (record {
        luma = rw ea (l.luma);
        chroma = λ h.
            let half : addr_uv + pitch * (suc k / 2) ≡ addr_uv' + pitch * (k / 2) = elim u [
              | inl (e, eu) ↦
                  let up : suc k / 2 ≡ k / 2 + 1 = omega (arith, e, h) in rw (up, eu) (omega arith)
              | inr (e, eu) ↦
                  let same : suc k / 2 ≡ k / 2 = omega (arith, e, h) in rw (same, eu) refl
            ] in
            ap m (ap (λ (t : ℕ). t + j) half) ∙ l.chroma h;
      })

  pub lines_nv12-inside :
      (n y : ℕ) (r : Rows) (k j : ℕ)
      → r.addr + pitch * n ≤ r.addr_uv
      → k < n
      → j < w
      → HasLine
          (decode_sw_lines scanline pf_nv12 w pitch n y r).surface
          r.addr
          r.addr_uv
          (y + k)
          k
          j
  unfolding decode_sw_lines
  lines_nv12-inside zero y r k j apart h hj = absurd (omega arith)
  lines_nv12-inside (suc n) y r zero j apart h hj =
      let ey : y + 0 ≡ y = omega arith in
      let after = λ (t : Rows).
        HasLine (decode_sw_lines scanline pf_nv12 w pitch n (y + 1) t).surface r.addr r.addr_uv y 0
          j in
      elim (parity y) [
        | inl e ↦ rw ey (subst after (sym (line_even y r e)) (first_even n y r j apart hj e))
        | inr e ↦ rw ey (subst after (sym (line_odd y r e)) (first_odd n y r j apart hj e))
      ]
  lines_nv12-inside (suc n) y r (suc k) j apart h hj =
      let after = λ (t : Rows).
        HasLine (decode_sw_lines scanline pf_nv12 w pitch n (y + 1) t).surface r.addr r.addr_uv
          (y + suc k) (suc k) j in
      elim (parity y) [
        | inl e ↦ subst after (sym (line_even y r e)) (
            next_line _ r.addr r.addr_uv (r.addr_uv + pitch) y k j (inl (e, refl))
              (lines_nv12-inside n (y + 1) (both_planes y r) k j (grind arith) (omega arith) hj))
        | inr e ↦ subst after (sym (line_odd y r e)) (
            next_line _ r.addr r.addr_uv r.addr_uv y k j (inr (e, refl))
              (lines_nv12-inside n (y + 1) (luma_only y r) k j (grind arith) (omega arith) hj))
      ]
