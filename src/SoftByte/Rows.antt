-- ===== src/SoftByte/Rows.antt =====
-- soft_fromYCbCr_bybyte: the loop over the lines, for an even width.
use libshjpeg.Base.{ℕ, zero, suc, ◌+◌, ◌*◌, ◌/◌, ◌%◌, ◌^◌, ◌≤◌, ◌<◌, ◌≡◌, refl, arith, ◌∙◌, ap}
use mathlib.Core.Path.{ap₂}
use native.Mathlib.Decide.{ℕ_discrete}
use libshjpeg.Memory.{Mem, IsBytes}
use libshjpeg.Soft.From.{mean_chroma}
use libshjpeg.SoftByte.{ByteRow, from_pixels, last_pixel, from_row, from_rows}
use libshjpeg.SoftByte.Pairs.{
  double, double_twice, Between, from_pixels-before, pairs-Moved, pairs-PairAt,
}

module _ (input : Mem) (bytes : IsBytes input) (half pitch : ℕ) (w_fits : 2 * half ≤ 4096)
    (packed : 6 * half ≤ pitch) where
  -- The state at the head of line `y`.
  pub record AtRow (y : ℕ) (r : ByteRow) : Type 0 where
    pub y_at : r.dst_ydata ≡ 4096 * y
    pub c_at : r.dst_cdata ≡ 4096 * y
    pub in_at : r.in_buffer ≡ pitch * y
    pub no_cb : r.accum_cb ≡ 0
    pub no_cr : r.accum_cr ≡ 0

  start : (y : ℕ) (r : ByteRow) → AtRow y r → Between input bytes 0 r
  start y r a = record { even = refl; no_cb = a.no_cb; no_cr = a.no_cr }

  even_width : double half % 2 ≡ 0
  even_width = omega (arith, double_twice half)

  from_row-AtRow :
      (y : ℕ) (r : ByteRow)
      → AtRow y r
      → 4096 * y + 4096 < 2 ^ 32
      → pitch * y + pitch < 2 ^ 32
      → AtRow (y + 1) (from_row (double half) pitch input r)
  unfolding from_row last_pixel
  from_row-AtRow y r a hy hp =
      let m = pairs-Moved input bytes half 0 r (start y r a) in
      record {
        y_at = ground (arith, m, a, double_twice half, even_width);
        c_at = ground (arith, m, a, double_twice half, even_width);
        in_at = ground (arith, m, a, double_twice half, even_width);
        no_cb = ground (arith, m, even_width);
        no_cr = ground (arith, m, even_width);
      }

  -- Both planes below a line's start are kept, and column `j` of the line is converted.
  from_row-before :
      (y : ℕ) (r : ByteRow) (b : ℕ)
      → AtRow y r
      → b < 4096 * y
      → ((from_row (double half) pitch input r).ybuf b ≡ r.ybuf b)
        × ((from_row (double half) pitch input r).cbuf b ≡ r.cbuf b)
  unfolding from_row last_pixel
  from_row-before y r b a h =
      let p = from_pixels-before input bytes (double half) 0 r b in
      (
        ground (arith, p.0 (omega (arith, a.y_at)), even_width),
        ground (arith, p.1 (omega (arith, a.c_at)), even_width),
      )

  pub record HasColumn (r : ByteRow) (y j : ℕ) : Type 0 where
    pub luma : r.ybuf (4096 * y + j) ≡ input (pitch * y + 3 * j)
    pub chroma : r.cbuf (4096 * y + j) ≡ mean_chroma input (pitch * y) j

  from_row-HasColumn :
      (y : ℕ) (r : ByteRow) (j : ℕ)
      → AtRow y r
      → j < 2 * half
      → HasColumn (from_row (double half) pitch input r) y j
  unfolding from_row last_pixel
  from_row-HasColumn y r j a h =
      let p = pairs-PairAt input bytes half 0 r (j / 2) (start y r a) (omega arith) in
      let out = from_pixels (double half) 0 input r in
      elim (ℕ_discrete (j % 2) 0) [
        | yes e ↦ record {
          luma =
              unchanged_y (4096 * y + j)
              ∙ ap out.ybuf (omega (arith, e, a.y_at))
              ∙ p.y0
              ∙ ap input (omega (arith, e, a.in_at));
          chroma =
              unchanged_c (4096 * y + j)
              ∙ ap out.cbuf (omega (arith, e, a.c_at))
              ∙ p.cb
              ∙ ap₂ (λ (s t : ℕ). (s + t) / 2) (ap input (omega (arith, e, a.in_at)))
                  (ap input (omega (arith, e, a.in_at)));
        }
        | no ne ↦ record {
          luma =
              unchanged_y (4096 * y + j)
              ∙ ap out.ybuf (omega (arith, ne, a.y_at))
              ∙ p.y1
              ∙ ap input (omega (arith, ne, a.in_at));
          chroma =
              unchanged_c (4096 * y + j)
              ∙ ap out.cbuf (omega (arith, ne, a.c_at))
              ∙ p.cr
              ∙ ap₂ (λ (s t : ℕ). (s + t) / 2) (ap input (omega (arith, ne, a.in_at)))
                  (ap input (omega (arith, ne, a.in_at)));
        }
      ]
    where
      unchanged_y :
          (b : ℕ)
          → (last_pixel (double half) (from_pixels (double half) 0 input r)).ybuf b
            ≡ (from_pixels (double half) 0 input r).ybuf b
      unchanged_y b = unfold last_pixel in ground (arith, even_width)

      unchanged_c :
          (b : ℕ)
          → (last_pixel (double half) (from_pixels (double half) 0 input r)).cbuf b
            ≡ (from_pixels (double half) 0 input r).cbuf b
      unchanged_c b = unfold last_pixel in ground (arith, even_width)

  from_rows-before :
      (n y : ℕ) (r : ByteRow) (b : ℕ)
      → AtRow y r
      → 4096 * (y + n) < 2 ^ 32
      → pitch * (y + n) < 2 ^ 32
      → b < 4096 * y
      → ((from_rows n (double half) pitch input r).ybuf b ≡ r.ybuf b)
        × ((from_rows n (double half) pitch input r).cbuf b ≡ r.cbuf b)
  unfolding from_rows
  from_rows-before zero y r b a hy hp h = (refl, refl)
  from_rows-before (suc n) y r b a hy hp h =
      let q =
        from_rows-before n (y + 1) (from_row (double half) pitch input r) b
          (from_row-AtRow y r a (omega arith) (grind arith)) (omega arith) (grind arith)
          (omega arith) in
      let p = from_row-before y r b a h in (q.0 ∙ p.0, q.1 ∙ p.1)

  pub from_rows-HasColumn :
      (n y : ℕ) (r : ByteRow) (k j : ℕ)
      → AtRow y r
      → 4096 * (y + n) < 2 ^ 32
      → pitch * (y + n) < 2 ^ 32
      → y ≤ k
      → k < y + n
      → j < 2 * half
      → HasColumn (from_rows n (double half) pitch input r) k j
  unfolding from_rows
  from_rows-HasColumn zero y r k j a hy hp h h' hj = absurd (omega arith)
  from_rows-HasColumn (suc n) y r k j a hy hp h h' hj =
      let a' = from_row-AtRow y r a (omega arith) (grind arith) in
      elim (ℕ_discrete k y) [
        | yes e ↦
            let c = from_row-HasColumn y r j a hj in
            let q =
              from_rows-before n (y + 1) (from_row (double half) pitch input r) (4096 * y + j) a'
                (omega arith) (grind arith) (omega arith) in
            rw e (record { luma = q.0 ∙ c.luma; chroma = q.1 ∙ c.chroma })
        | no ne ↦
            from_rows-HasColumn n (y + 1) (from_row (double half) pitch input r) k j a'
              (omega arith) (grind arith) (omega (arith, ne)) (omega arith) hj
      ]
