-- ===== src/SoftDecode/Line.antt =====
-- The copies of one line: which byte of the surface comes from which bytes of the row buffer.
use libshjpeg.Base.{
  ℕ, zero, suc, ◌+◌, ◌*◌, ◌/◌, ◌%◌, ◌^◌, ◌≤◌, ◌<◌, ◌≡◌, ◌⊎◌, refl, arith, ◌∙◌, ap, sym, bit_and,
  bit_or, bit_and_field, bit_or_below,
}
use native.Mathlib.Decide.{ℕ_discrete}
use libshjpeg.Memory.{Mem, IsBytes, store16, store16-outside, store16-bytes}
use mathlib.Core.Path.{ap₂}
use libshjpeg.Context.{Context}
use libshjpeg.Soft.{soft_from_ycbcr_byword}
use libshjpeg.Soft.From.{mean_chroma}
use libshjpeg.Soft.FromImage.{
  FitsLinebuf, soft_from_ycbcr_byword-luma, soft_from_ycbcr_byword-chroma,
}
use libshjpeg.SoftDecode.{y_word, cbcr_word, copy_pairs_nv16, copy_line_nv16}

module _ (src : Mem) (bytes : IsBytes src) where
  pub y_word-sum : (x : ℕ) → y_word src x ≡ src (6 * x + 3) * 2 ^ 8 + src (6 * x)
  y_word-sum x = bit_or_below 8 (src (6 * x + 3)) (src (6 * x)) (bytes (6 * x))

  cbcr_word-sum :
      (x : ℕ)
      → cbcr_word src x
        ≡ (src (6 * x + 2) + src (6 * x + 5)) / 2 * 2 ^ 8 + (src (6 * x + 1) + src (6 * x + 4)) / 2
  cbcr_word-sum x =
      let field = bit_and_field 8 8 ((src (6 * x + 2) + src (6 * x + 5)) * 2 ^ 7) in
      let e : bit_and ((src (6 * x + 2) + src (6 * x + 5)) * 2 ^ 7) 0xff00
          ≡ (src (6 * x + 2) + src (6 * x + 5)) / 2 * 2 ^ 8 =
        omega (arith, field, bytes (6 * x + 2), bytes (6 * x + 5)) in
      ap (λ (t : ℕ). bit_or t ((src (6 * x + 1) + src (6 * x + 4)) / 2)) e
      ∙ bit_or_below 8 ((src (6 * x + 2) + src (6 * x + 5)) / 2)
          ((src (6 * x + 1) + src (6 * x + 4)) / 2)
          (omega (arith, bytes (6 * x + 1), bytes (6 * x + 4)))

  -- What a line's loop over `n` pairs from pair `x` on leaves alone.
  copy_pairs_nv16-outside :
      (n x yy cbcr : ℕ) (m : Mem) (b : ℕ)
      → (b < yy + 2 * x) ⊎ (yy + 2 * (x + n) ≤ b)
      → (b < cbcr + 2 * x) ⊎ (cbcr + 2 * (x + n) ≤ b)
      → copy_pairs_nv16 n x yy cbcr src m b ≡ m b
  unfolding copy_pairs_nv16
  copy_pairs_nv16-outside zero x yy cbcr m b hy hc = refl
  copy_pairs_nv16-outside (suc n) x yy cbcr m b hy hc =
      copy_pairs_nv16-outside n (x + 1) yy cbcr _ b (omega arith) (omega arith)
      ∙ store16-outside _ (cbcr + 2 * x) (cbcr_word src x) b (omega arith)
      ∙ store16-outside m (yy + 2 * x) (y_word src x) b (omega arith)

  -- Pair `k` stands in the surface.
  record HasPair (m : Mem) (yy cbcr k : ℕ) : Type 0 where
    y0 : m (yy + 2 * k) ≡ src (6 * k)
    y1 : m (yy + 2 * k + 1) ≡ src (6 * k + 3)
    cb : m (cbcr + 2 * k) ≡ (src (6 * k + 1) + src (6 * k + 4)) / 2
    cr : m (cbcr + 2 * k + 1) ≡ (src (6 * k + 2) + src (6 * k + 5)) / 2

  -- The pair that a round writes.
  written :
      (x yy cbcr : ℕ) (m : Mem)
      → yy + 2 * x + 2 ≤ cbcr
      → HasPair
          (store16 (store16 m (yy + 2 * x) (y_word src x)) (cbcr + 2 * x) (cbcr_word src x))
          yy
          cbcr
          x
  written x yy cbcr m apart =
      let m1 = store16 m (yy + 2 * x) (y_word src x) in
      let y =
        store16-bytes m (yy + 2 * x) (src (6 * x)) (src (6 * x + 3)) (bytes (6 * x))
          (bytes (6 * x + 3)) in
      let c =
        store16-bytes m1 (cbcr + 2 * x) ((src (6 * x + 1) + src (6 * x + 4)) / 2)
          ((src (6 * x + 2) + src (6 * x + 5)) / 2)
          (omega (arith, bytes (6 * x + 1), bytes (6 * x + 4)))
          (omega (arith, bytes (6 * x + 2), bytes (6 * x + 5))) in
      let ey = ap (λ (t : ℕ). store16 m (yy + 2 * x) t (yy + 2 * x)) (y_word-sum x) in
      let ey1 = ap (λ (t : ℕ). store16 m (yy + 2 * x) t (yy + 2 * x + 1)) (y_word-sum x) in
      let ec = ap (λ (t : ℕ). store16 m1 (cbcr + 2 * x) t (cbcr + 2 * x)) (cbcr_word-sum x) in
      let ec1 = ap (λ (t : ℕ). store16 m1 (cbcr + 2 * x) t (cbcr + 2 * x + 1)) (cbcr_word-sum x) in
      record {
        y0 =
            store16-outside m1 (cbcr + 2 * x) (cbcr_word src x) (yy + 2 * x) (omega arith)
            ∙ ey
            ∙ y.0;
        y1 =
            store16-outside m1 (cbcr + 2 * x) (cbcr_word src x) (yy + 2 * x + 1) (omega arith)
            ∙ ey1
            ∙ y.1;
        cb = ec ∙ c.0;
        cr = ec1 ∙ c.1;
      }

  copy_pairs_nv16-inside :
      (n x yy cbcr : ℕ) (m : Mem) (k : ℕ)
      → yy + 2 * (x + n) ≤ cbcr
      → x ≤ k
      → k < x + n
      → HasPair (copy_pairs_nv16 n x yy cbcr src m) yy cbcr k
  unfolding copy_pairs_nv16
  copy_pairs_nv16-inside zero x yy cbcr m k apart h h' = absurd (omega arith)
  copy_pairs_nv16-inside (suc n) x yy cbcr m k apart h h' = elim (ℕ_discrete k x) [
    | yes e ↦
        let p = written x yy cbcr m (omega arith) in
        rw e (record {
          y0 =
              copy_pairs_nv16-outside n (x + 1) yy cbcr _ (yy + 2 * x) (omega arith) (omega arith)
              ∙ p.y0;
          y1 =
              copy_pairs_nv16-outside n (x + 1) yy cbcr _ (yy + 2 * x + 1) (omega arith)
                (omega arith)
              ∙ p.y1;
          cb =
              copy_pairs_nv16-outside n (x + 1) yy cbcr _ (cbcr + 2 * x) (omega arith) (omega arith)
              ∙ p.cb;
          cr =
              copy_pairs_nv16-outside n (x + 1) yy cbcr _ (cbcr + 2 * x + 1) (omega arith)
                (omega arith)
              ∙ p.cr;
        })
    | no ne ↦
        copy_pairs_nv16-inside n (x + 1) yy cbcr _ k (omega arith) (omega (arith, ne)) (omega arith)
  ]

  -- Byte `j` of both parts of a line, told like the word converter's result.
  pub copy_line_nv16-bytes :
      (yy cbcr width : ℕ) (m : Mem) (j : ℕ)
      → yy + width ≤ cbcr
      → j < width / 2 * 2
      → (copy_line_nv16 yy cbcr src width m (yy + j) ≡ src (3 * j))
        × (copy_line_nv16 yy cbcr src width m (cbcr + j) ≡ mean_chroma src 0 j)
  unfolding copy_line_nv16
  copy_line_nv16-bytes yy cbcr width m j apart h =
      let out = copy_pairs_nv16 (width / 2) 0 yy cbcr src m in
      let p =
        copy_pairs_nv16-inside (width / 2) 0 yy cbcr m (j / 2) (omega arith) (omega arith)
          (omega arith) in
      elim (ℕ_discrete (j % 2) 0) [
        | yes e ↦ (
          ap out (omega (arith, e)) ∙ p.y0 ∙ ap src (omega (arith, e)),
          ap out (omega (arith, e))
              ∙ p.cb
              ∙ ap₂ (λ (a b : ℕ). (a + b) / 2) (ap src (omega (arith, e)))
                  (ap src (omega (arith, e))),
        )
        | no ne ↦ (
          ap out (omega (arith, ne)) ∙ p.y1 ∙ ap src (omega (arith, ne)),
          ap out (omega (arith, ne))
              ∙ p.cr
              ∙ ap₂ (λ (a b : ℕ). (a + b) / 2) (ap src (omega (arith, ne)))
                  (ap src (omega (arith, ne))),
        )
      ]

  pub copy_line_nv16-outside :
      (yy cbcr width : ℕ) (m : Mem) (b : ℕ)
      → (b < yy) ⊎ (yy + width ≤ b)
      → (b < cbcr) ⊎ (cbcr + width ≤ b)
      → copy_line_nv16 yy cbcr src width m b ≡ m b
  unfolding copy_line_nv16
  copy_line_nv16-outside yy cbcr width m b hy hc =
      copy_pairs_nv16-outside (width / 2) 0 yy cbcr m b (omega arith) (omega arith)

-- The software decoder and the word converter agree: for a packed surface whose lines fit, copying
-- a row of it as a scanline gives, for each column whose pair lies in the line, the luma and chroma
-- bytes that the converter puts into the line buffer.
pub copy_line_nv16-agrees :
    (context : Context) (heap linebuf : Mem) (outydata outcdata : ℕ) (user : Mem) (inbuf lines : ℕ)
    → IsBytes heap
    → IsBytes user
    → FitsLinebuf context outydata outcdata lines
    → (yy cbcr : ℕ) (m : Mem) (y x : ℕ) → yy + context.width ≤ cbcr
    → y < lines
    → x / 2 * 2 + 1 < context.width
    → let row = λ (a : ℕ). user (inbuf + context.pitch * y + a) in
      let line = copy_line_nv16 yy cbcr row context.width m in
      let out = soft_from_ycbcr_byword context heap linebuf outydata outcdata user inbuf lines in
      (line (yy + x) ≡ out (outydata + 4096 * y + x))
      × (line (cbcr + x) ≡ out (outcdata + 4096 * y + x))
copy_line_nv16-agrees context heap linebuf outydata outcdata user inbuf lines hb ub fits yy cbcr m y
      x apart hy hx =
    let row : Mem = λ (a : ℕ). user (inbuf + context.pitch * y + a) in
    let b =
      copy_line_nv16-bytes row (λ a. ub (inbuf + context.pitch * y + a)) yy cbcr context.width m x
        apart (omega arith) in
    let luma =
      soft_from_ycbcr_byword-luma context heap linebuf outydata outcdata user inbuf lines hb ub fits
        y x hy (omega arith) in
    let chroma =
      soft_from_ycbcr_byword-chroma context heap linebuf outydata outcdata user inbuf lines hb ub
        fits y x hy hx in
    (
      b.0 ∙ ap user (omega arith) ∙ sym luma,
      b.1
          ∙ ap₂ (λ (a b : ℕ). (a + b) / 2) (ap user (omega arith)) (ap user (omega arith))
          ∙ sym chroma,
    )
