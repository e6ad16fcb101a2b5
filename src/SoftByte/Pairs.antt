-- ===== src/SoftByte/Pairs.antt =====
-- soft_fromYCbCr_bybyte: the pairs of one line.
use libshjpeg.Base.{ℕ, zero, suc, ◌+◌, ◌*◌, ◌/◌, ◌%◌, ◌≤◌, ◌<◌, ◌≡◌, refl, arith, ◌∙◌, ap}
use mathlib.Core.Path.{ap₂}
use libshjpeg.Memory.{Mem, IsBytes, store8}
use libshjpeg.SoftByte.{ByteRow, from_pixel, from_pixels}

-- `n` pairs of pixels.
abbrev pub double : ℕ → ℕ
double zero = zero
double (suc n) = suc (suc (double n))

pub double_twice : (n : ℕ) → double n ≡ 2 * n
double_twice zero = refl
double_twice (suc n) = omega (arith, double_twice n)

module _ (input : Mem) (bytes : IsBytes input) where
  -- A state between two pairs.
  pub record Between (x : ℕ) (r : ByteRow) : Type 0 where
    pub even : x % 2 ≡ 0
    pub no_cb : r.accum_cb ≡ 0
    pub no_cr : r.accum_cr ≡ 0

  -- What a pair changes: `r'` is the state after two pixels.
  record Paired (r r' : ByteRow) : Type 0 where
    pub y_moves : r'.dst_ydata ≡ r.dst_ydata + 2
    pub c_moves : r'.dst_cdata ≡ r.dst_cdata + 2
    pub in_moves : r'.in_buffer ≡ r.in_buffer + 6
    pub y0 : r'.ybuf r.dst_ydata ≡ input r.in_buffer
    pub y1 : r'.ybuf (r.dst_ydata + 1) ≡ input (r.in_buffer + 3)
    pub cb : r'.cbuf r.dst_cdata ≡ (input (r.in_buffer + 1) + input (r.in_buffer + 4)) / 2
    pub cr : r'.cbuf (r.dst_cdata + 1) ≡ (input (r.in_buffer + 2) + input (r.in_buffer + 5)) / 2

  from_pair :
      (x : ℕ) (r : ByteRow)
      → Between x r
      → Between (x + 1 + 1) (from_pixel input (x + 1) (from_pixel input x r))
        × Paired r (from_pixel input (x + 1) (from_pixel input x r))
  unfolding from_pixel store8
  from_pair x r v =
      let e4 : input (r.in_buffer + 3 + 1) ≡ input (r.in_buffer + 4) = ap input (omega arith) in
      let e5 : input (r.in_buffer + 3 + 2) ≡ input (r.in_buffer + 5) = ap input (omega arith) in
      (
        record {
          even = omega (arith, v.even);
          no_cb = ground (arith, v);
          no_cr = ground (arith, v);
        },
        record {
          y_moves = ground (arith, v);
          c_moves = ground (arith, v);
          in_moves = ground (arith, v);
          y0 = ground (arith, v, bytes r.in_buffer);
          y1 = ground (arith, v, bytes (r.in_buffer + 3));
          cb = ground (arith, v, e4, bytes (r.in_buffer + 1), bytes (r.in_buffer + 4));
          cr = ground (arith, v, e5, bytes (r.in_buffer + 2), bytes (r.in_buffer + 5));
        },
      )

  -- One pixel writes at its pointers only.
  from_pixel-before :
      (x : ℕ) (r : ByteRow) (b : ℕ)
      → (b < r.dst_ydata → (from_pixel input x r).ybuf b ≡ r.ybuf b)
        × (b < r.dst_cdata → (from_pixel input x r).cbuf b ≡ r.cbuf b)
        × (r.dst_ydata ≤ (from_pixel input x r).dst_ydata)
        × (r.dst_cdata ≤ (from_pixel input x r).dst_cdata)
  unfolding from_pixel store8
  from_pixel-before x r b = (λ h. ground arith, λ h. ground arith, ground arith, ground arith)

  pub from_pixels-before :
      (n x : ℕ) (r : ByteRow) (b : ℕ)
      → (b < r.dst_ydata → (from_pixels n x input r).ybuf b ≡ r.ybuf b)
        × (b < r.dst_cdata → (from_pixels n x input r).cbuf b ≡ r.cbuf b)
  unfolding from_pixels
  from_pixels-before zero x r b = (λ h. refl, λ h. refl)
  from_pixels-before (suc n) x r b =
      let p = from_pixel-before x r b in
      let q = from_pixels-before n (x + 1) (from_pixel input x r) b in
      (λ h. q.0 (omega (arith, p.2)) ∙ p.0 h, λ h. q.1 (omega (arith, p.3)) ∙ p.1 h)

  -- The pointers and the sums after `n` pairs.
  pub record Moved (n : ℕ) (r r' : ByteRow) : Type 0 where
    pub y_moves : r'.dst_ydata ≡ r.dst_ydata + 2 * n
    pub c_moves : r'.dst_cdata ≡ r.dst_cdata + 2 * n
    pub in_moves : r'.in_buffer ≡ r.in_buffer + 6 * n
    pub no_cb : r'.accum_cb ≡ 0
    pub no_cr : r'.accum_cr ≡ 0

  pub pairs-Moved :
      (n x : ℕ) (r : ByteRow) → Between x r → Moved n r (from_pixels (double n) x input r)
  unfolding from_pixels
  pairs-Moved zero x r v = record {
    y_moves = omega arith;
    c_moves = omega arith;
    in_moves = omega arith;
    no_cb = v.no_cb;
    no_cr = v.no_cr;
  }
  pairs-Moved (suc n) x r v =
      let p = from_pair x r v in
      let m = pairs-Moved n (x + 1 + 1) (from_pixel input (x + 1) (from_pixel input x r)) (p.0) in
      record {
        y_moves = omega (arith, m.y_moves, p.1);
        c_moves = omega (arith, m.c_moves, p.1);
        in_moves = omega (arith, m.in_moves, p.1);
        no_cb = m.no_cb;
        no_cr = m.no_cr;
      }

  -- Pair `k` of the line, in the state `r'` after it.
  pub record PairAt (r r' : ByteRow) (k : ℕ) : Type 0 where
    pub y0 : r'.ybuf (r.dst_ydata + 2 * k) ≡ input (r.in_buffer + 6 * k)
    pub y1 : r'.ybuf (r.dst_ydata + 2 * k + 1) ≡ input (r.in_buffer + 6 * k + 3)
    pub cb :
        r'.cbuf (r.dst_cdata + 2 * k)
        ≡ (input (r.in_buffer + 6 * k + 1) + input (r.in_buffer + 6 * k + 4)) / 2
    pub cr :
        r'.cbuf (r.dst_cdata + 2 * k + 1)
        ≡ (input (r.in_buffer + 6 * k + 2) + input (r.in_buffer + 6 * k + 5)) / 2

  pub pairs-PairAt :
      (n x : ℕ) (r : ByteRow) (k : ℕ)
      → Between x r
      → k < n
      → PairAt r (from_pixels (double n) x input r) k
  unfolding from_pixels
  pairs-PairAt zero x r k v h = absurd (omega arith)
  pairs-PairAt (suc n) x r zero v h =
      let p = from_pair x r v in
      let r2 = from_pixel input (x + 1) (from_pixel input x r) in
      let ey : r.dst_ydata + 2 * 0 ≡ r.dst_ydata = omega arith in
      let ec : r.dst_cdata + 2 * 0 ≡ r.dst_cdata = omega arith in
      let q = p.1 in
      record {
        y0 = rw ey (
            (from_pixels-before (double n) (x + 1 + 1) r2 r.dst_ydata).0 (omega (arith, q.y_moves))
            ∙ q.y0
            ∙ ap input (omega arith));
        y1 = rw ey (
            (from_pixels-before (double n) (x + 1 + 1) r2 (r.dst_ydata + 1)).0
              (omega (arith, q.y_moves))
            ∙ q.y1
            ∙ ap input (omega arith));
        cb = rw ec (
            (from_pixels-before (double n) (x + 1 + 1) r2 r.dst_cdata).1 (omega (arith, q.c_moves))
            ∙ q.cb
            ∙ ap₂ (λ (a b : ℕ). (a + b) / 2) (ap input (omega arith)) (ap input (omega arith)));
        cr = rw ec (
            (from_pixels-before (double n) (x + 1 + 1) r2 (r.dst_cdata + 1)).1
              (omega (arith, q.c_moves))
            ∙ q.cr
            ∙ ap₂ (λ (a b : ℕ). (a + b) / 2) (ap input (omega arith)) (ap input (omega arith)));
      }
  pairs-PairAt (suc n) x r (suc k) v h =
      let p = from_pair x r v in
      let r2 = from_pixel input (x + 1) (from_pixel input x r) in
      let t = pairs-PairAt n (x + 1 + 1) r2 k (p.0) (omega arith) in
      let out = from_pixels (double n) (x + 1 + 1) input r2 in
      let q = p.1 in
      record {
        y0 = ap out.ybuf (omega (arith, q.y_moves)) ∙ t.y0 ∙ ap input (omega (arith, q.in_moves));
        y1 = ap out.ybuf (omega (arith, q.y_moves)) ∙ t.y1 ∙ ap input (omega (arith, q.in_moves));
        cb =
            ap out.cbuf (omega (arith, q.c_moves))
            ∙ t.cb
            ∙ ap₂ (λ (a b : ℕ). (a + b) / 2) (ap input (omega (arith, q.in_moves)))
                (ap input (omega (arith, q.in_moves)));
        cr =
            ap out.cbuf (omega (arith, q.c_moves))
            ∙ t.cr
            ∙ ap₂ (λ (a b : ℕ). (a + b) / 2) (ap input (omega (arith, q.in_moves)))
                (ap input (omega (arith, q.in_moves)));
      }
