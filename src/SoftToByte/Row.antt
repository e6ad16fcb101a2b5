-- ===== src/SoftToByte/Row.antt =====
-- soft_toYCbCr_bybyte: one line, and all lines.
use libshjpeg.Base.{
  ℕ, zero, suc, ◌+◌, ◌-◌, ◌*◌, ◌/◌, ◌%◌, ◌^◌, ◌≤◌, ◌<◌, ◌≡◌, refl, arith, ◌∙◌, ◌==◌, Bool, true,
  false, not, ◌||◌, if◌then◌else◌,
}
use native.Mathlib.Decide.{ℕ_discrete}
use libshjpeg.Memory.{Mem, IsBytes, store8}
use libshjpeg.SoftTo.Words.{HasPixel}
use libshjpeg.SoftTo.Image.{chroma_line}
use libshjpeg.SoftToByte.{ToByte, to_pair, to_pairs, to_row, to_rows}

chroma_row :
    (mode420 : Bool) (y onward back : ℕ)
    → onward ≡ 4096 * chroma_line mode420 y + 4096
    → back ≡ 4096 * chroma_line mode420 y
    → (if y % 2 == 1 || not mode420 then onward else back) ≡ 4096 * chroma_line mode420 (y + 1)
chroma_row true y onward back h k = ground arith
chroma_row false y onward back h k = ground arith

pub chroma_line-le : (mode420 : Bool) (y : ℕ) → chroma_line mode420 y ≤ y
chroma_line-le true y = omega arith
chroma_line-le false y = omega arith

module _ (ybuf cbuf : Mem) (ybytes : IsBytes ybuf) (cbytes : IsBytes cbuf) where
  abbrev pub HasColumn : Mem → ℕ → ℕ → ℕ → ℕ → Type 0
  HasColumn m a iy ic q =
      HasPixel m a (ybuf (iy + q)) (cbuf (ic + q / 2 * 2)) (cbuf (ic + (q / 2 * 2 + 1)))

  to_pair-pixels :
      (r : ToByte)
      → HasPixel
          (to_pair ybuf cbuf r).out
          r.out_buffer
          (ybuf r.src_ydata)
          (cbuf r.src_cdata)
          (cbuf (r.src_cdata + 1))
        × HasPixel
            (to_pair ybuf cbuf r).out
            (r.out_buffer + 3)
            (ybuf (r.src_ydata + 1))
            (cbuf r.src_cdata)
            (cbuf (r.src_cdata + 1))
  unfolding to_pair store8
  to_pair-pixels r =
      let y0 = ybytes r.src_ydata in
      let y1 = ybytes (r.src_ydata + 1) in
      let c0 = cbytes r.src_cdata in
      let c1 = cbytes (r.src_cdata + 1) in
      (
        (ground (arith, y0), ground (arith, c0), ground (arith, c1)),
        (ground (arith, y1), ground (arith, c0), ground (arith, c1)),
      )

  to_pair-below : (r : ToByte) (b : ℕ) → b < r.out_buffer → (to_pair ybuf cbuf r).out b ≡ r.out b
  unfolding to_pair store8
  to_pair-below r b h = ground arith

  to_pairs-below :
      (n : ℕ) (r : ToByte) (b : ℕ) → b < r.out_buffer → (to_pairs n ybuf cbuf r).out b ≡ r.out b
  unfolding to_pairs to_pair
  to_pairs-below zero r b h = refl
  to_pairs-below (suc n) r b h =
      to_pairs-below n (to_pair ybuf cbuf r) b (omega arith) ∙ to_pair-below r b h

  -- Where the pointers stand after `n` pairs.
  to_pairs-pointers :
      (n : ℕ) (r : ToByte)
      → ((to_pairs n ybuf cbuf r).out_buffer ≡ r.out_buffer + 6 * n)
        × ((to_pairs n ybuf cbuf r).src_ydata ≡ r.src_ydata + 2 * n)
        × ((to_pairs n ybuf cbuf r).src_cdata ≡ r.src_cdata + 2 * n)
        × ((to_pairs n ybuf cbuf r).rewind ≡ r.rewind)
  unfolding to_pairs to_pair
  to_pairs-pointers zero r = (omega arith, omega arith, omega arith, refl)
  to_pairs-pointers (suc n) r =
      let p = to_pairs-pointers n (to_pair ybuf cbuf r) in
      (omega (arith, p.0), omega (arith, p.1), omega (arith, p.2), p.3)

  head_pixel :
      (n : ℕ) (r : ToByte) (a y cb cr : ℕ)
      → a + 2 < r.out_buffer + 6
      → HasPixel (to_pair ybuf cbuf r).out a y cb cr
      → HasPixel (to_pairs (suc n) ybuf cbuf r).out a y cb cr
  unfolding to_pairs to_pair
  head_pixel n r a y cb cr h p =
      let kept = to_pairs-below n (to_pair ybuf cbuf r) in
      (
        kept a (omega arith) ∙ p.0,
        kept (a + 1) (omega arith) ∙ p.1,
        kept (a + 2) (omega arith) ∙ p.2,
      )

  to_pairs-pixels :
      (n : ℕ) (r : ToByte) (q : ℕ)
      → q < 2 * n
      → HasColumn (to_pairs n ybuf cbuf r).out (r.out_buffer + 3 * q) r.src_ydata r.src_cdata q
  unfolding to_pairs to_pair
  to_pairs-pixels zero r q h = absurd (omega arith)
  to_pairs-pixels (suc n) r zero h =
      let eo : r.out_buffer + 0 ≡ r.out_buffer = omega arith in
      let ey : r.src_ydata + 0 ≡ r.src_ydata = omega arith in
      let ec : r.src_cdata + 0 ≡ r.src_cdata = omega arith in
      rw (eo, ey, ec) (head_pixel n r r.out_buffer _ _ _ (omega arith) ((to_pair-pixels r).0))
  to_pairs-pixels (suc n) r (suc zero) h =
      let ec : r.src_cdata + 0 ≡ r.src_cdata = omega arith in
      rw ec (head_pixel n r (r.out_buffer + 3) _ _ _ (omega arith) ((to_pair-pixels r).1))
  to_pairs-pixels (suc n) r (suc (suc q)) h =
      let k = suc (suc q) in
      let eo : r.out_buffer + 3 * k ≡ r.out_buffer + 6 + 3 * q = omega arith in
      let ey : r.src_ydata + k ≡ r.src_ydata + 2 + q = omega arith in
      let eb : r.src_cdata + k / 2 * 2 ≡ r.src_cdata + 2 + q / 2 * 2 = omega arith in
      let er : r.src_cdata + (k / 2 * 2 + 1) ≡ r.src_cdata + 2 + (q / 2 * 2 + 1) = omega arith in
      rw (eo, ey, eb, er) (to_pairs-pixels n (to_pair ybuf cbuf r) q (omega arith))

  module _ (w pitch : ℕ) (mode420 : Bool) (w_fits : 2 * w ≤ 4096) where
    -- The state at the head of line `y`.
    pub record AtRow (y : ℕ) (r : ToByte) : Type 0 where
      y_at : r.src_ydata ≡ 4096 * y
      c_at : r.src_cdata ≡ 4096 * chroma_line mode420 y
      back_at : r.rewind ≡ 4096 * chroma_line mode420 y
      out_at : r.out_buffer ≡ pitch * y

    to_row-AtRow :
        (y : ℕ) (r : ToByte)
        → y < 1024
        → pitch * y + pitch + 6 * w < 2 ^ 32
        → AtRow y r
        → AtRow (y + 1) (to_row w pitch mode420 ybuf cbuf y r)
    unfolding to_row
    to_row-AtRow y r few room a =
        let p = to_pairs-pointers w r in
        let le = chroma_line-le mode420 y in
        let r1 = to_pairs w ybuf cbuf r in
        let onward : (r1.src_cdata + (4096 + 2 ^ 32 - w * 2) % 2 ^ 32) % 2 ^ 32
            ≡ 4096 * chroma_line mode420 y + 4096 =
          omega (arith, p.2, a.c_at, le) in
        let back : r1.rewind ≡ 4096 * chroma_line mode420 y = p.3 ∙ a.back_at in
        record {
          y_at = omega (arith, p.1, a.y_at);
          c_at = chroma_row mode420 y _ _ onward back;
          back_at = chroma_row mode420 y _ _ onward back;
          out_at = omega (arith, p.0, a.out_at);
        }

    to_row-below :
        (y : ℕ) (r : ToByte) (b : ℕ)
        → AtRow y r
        → b < pitch * y
        → (to_row w pitch mode420 ybuf cbuf y r).out b ≡ r.out b
    unfolding to_row
    to_row-below y r b a h = to_pairs-below w r b (omega (arith, a.out_at))

    to_row-pixels :
        (y : ℕ) (r : ToByte) (q : ℕ)
        → AtRow y r
        → q < 2 * w
        → HasColumn
            (to_row w pitch mode420 ybuf cbuf y r).out
            (pitch * y + 3 * q)
            (4096 * y)
            (4096 * chroma_line mode420 y)
            q
    unfolding to_row
    to_row-pixels y r q a h = rw (← a.out_at, ← a.y_at, ← a.c_at) (to_pairs-pixels w r q h)

    -- A line that is done stays as it is.
    to_rows-below :
        (n y : ℕ) (r : ToByte) (b : ℕ)
        → y + n ≤ 1024
        → pitch * (y + n) + 6 * w < 2 ^ 32
        → AtRow y r
        → b < pitch * y
        → (to_rows n w pitch mode420 ybuf cbuf y r).out b ≡ r.out b
    unfolding to_rows
    to_rows-below zero y r b few room a h = refl
    to_rows-below (suc n) y r b few room a h =
        to_rows-below n (y + 1) (to_row w pitch mode420 ybuf cbuf y r) b (omega arith) (grind arith)
          (to_row-AtRow y r (omega arith) (grind arith) a) (grind arith)
        ∙ to_row-below y r b a h

    pub to_rows-pixels :
        (n y0 : ℕ) (r : ToByte) (y q : ℕ)
        → y0 + n ≤ 1024
        → pitch * (y0 + n) + 6 * w < 2 ^ 32
        → AtRow y0 r
        → y0 ≤ y
        → y < y0 + n
        → q < 2 * w
        → 3 * q + 3 ≤ pitch
        → HasColumn
            (to_rows n w pitch mode420 ybuf cbuf y0 r).out
            (pitch * y + 3 * q)
            (4096 * y)
            (4096 * chroma_line mode420 y)
            q
    unfolding to_rows
    to_rows-pixels zero y0 r y q few room a lo hi hq hp = absurd (omega arith)
    to_rows-pixels (suc n) y0 r y q few room a lo hi hq hp = elim (ℕ_discrete y0 y) [
      | yes e ↦
          let next = to_row w pitch mode420 ybuf cbuf y0 r in
          let kept = λ (b : ℕ) (h : b < pitch * (y0 + 1)).
            to_rows-below n (y0 + 1) next b (omega arith) (grind arith)
              (to_row-AtRow y0 r (omega arith) (grind arith) a) h in
          let here = to_row-pixels y0 r q a hq in
          rw (← e) (
            kept (pitch * y0 + 3 * q) (grind arith) ∙ here.0,
            kept (pitch * y0 + 3 * q + 1) (grind arith) ∙ here.1,
            kept (pitch * y0 + 3 * q + 2) (grind arith) ∙ here.2,
          )
      | no ne ↦
          to_rows-pixels n (y0 + 1) (to_row w pitch mode420 ybuf cbuf y0 r) y q (omega arith)
            (grind arith) (to_row-AtRow y0 r (omega arith) (grind arith) a) (omega arith)
            (omega arith) hq hp
    ]

    pub at_first :
        (out : Mem)
        → AtRow 0 (record { out = out; src_ydata = 0; src_cdata = 0; out_buffer = 0; rewind = 0 })
    at_first out = record {
      y_at = omega arith;
      c_at = omega (arith, chroma_line-le mode420 0);
      back_at = omega (arith, chroma_line-le mode420 0);
      out_at = omega arith;
    }
