-- ===== src/SoftDecode/Luma.antt =====
-- The copy of the luma of one line.
use libshjpeg.Base.{ℕ, zero, suc, ◌+◌, ◌*◌, ◌/◌, ◌%◌, ◌≤◌, ◌<◌, ◌≡◌, ◌⊎◌, refl, arith, ◌∙◌, ap}
use native.Mathlib.Decide.{ℕ_discrete}
use libshjpeg.Memory.{Mem, IsBytes, store16, store16-outside, store16-bytes}
use libshjpeg.SoftDecode.{y_word, copy_pairs_y, copy_line_y}
use libshjpeg.SoftDecode.Line.{y_word-sum}

module _ (src : Mem) (bytes : IsBytes src) where
  copy_pairs_y-outside :
      (n x yy : ℕ) (m : Mem) (b : ℕ)
      → (b < yy + 2 * x) ⊎ (yy + 2 * (x + n) ≤ b)
      → copy_pairs_y n x yy src m b ≡ m b
  unfolding copy_pairs_y
  copy_pairs_y-outside zero x yy m b h = refl
  copy_pairs_y-outside (suc n) x yy m b h =
      copy_pairs_y-outside n (x + 1) yy _ b (omega arith)
      ∙ store16-outside m (yy + 2 * x) (y_word src x) b (omega arith)

  copy_pairs_y-inside :
      (n x yy : ℕ) (m : Mem) (k : ℕ)
      → x ≤ k
      → k < x + n
      → (copy_pairs_y n x yy src m (yy + 2 * k) ≡ src (6 * k))
        × (copy_pairs_y n x yy src m (yy + 2 * k + 1) ≡ src (6 * k + 3))
  unfolding copy_pairs_y
  copy_pairs_y-inside zero x yy m k h h' = absurd (omega arith)
  copy_pairs_y-inside (suc n) x yy m k h h' = elim (ℕ_discrete k x) [
    | yes e ↦
        let y =
          store16-bytes m (yy + 2 * x) (src (6 * x)) (src (6 * x + 3)) (bytes (6 * x))
            (bytes (6 * x + 3)) in
        rw e (
          copy_pairs_y-outside n (x + 1) yy _ (yy + 2 * x) (omega arith)
              ∙ ap (λ (t : ℕ). store16 m (yy + 2 * x) t (yy + 2 * x)) (y_word-sum src bytes x)
              ∙ y.0,
          copy_pairs_y-outside n (x + 1) yy _ (yy + 2 * x + 1) (omega arith)
              ∙ ap (λ (t : ℕ). store16 m (yy + 2 * x) t (yy + 2 * x + 1)) (y_word-sum src bytes x)
              ∙ y.1,
        )
    | no ne ↦ copy_pairs_y-inside n (x + 1) yy _ k (omega (arith, ne)) (omega arith)
  ]

  -- Byte `j` of a line of luma, and the bytes beside the line.
  pub copy_line_y-bytes :
      (yy width : ℕ) (m : Mem) (j : ℕ)
      → j < width / 2 * 2
      → copy_line_y yy src width m (yy + j) ≡ src (3 * j)
  unfolding copy_line_y
  copy_line_y-bytes yy width m j h =
      let out = copy_pairs_y (width / 2) 0 yy src m in
      let p = copy_pairs_y-inside (width / 2) 0 yy m (j / 2) (omega arith) (omega arith) in
      elim (ℕ_discrete (j % 2) 0) [
        | yes e ↦ ap out (omega (arith, e)) ∙ p.0 ∙ ap src (omega (arith, e))
        | no ne ↦ ap out (omega (arith, ne)) ∙ p.1 ∙ ap src (omega (arith, ne))
      ]

  pub copy_line_y-outside :
      (yy width : ℕ) (m : Mem) (b : ℕ)
      → (b < yy) ⊎ (yy + width ≤ b)
      → copy_line_y yy src width m b ≡ m b
  unfolding copy_line_y
  copy_line_y-outside yy width m b h = copy_pairs_y-outside (width / 2) 0 yy m b (omega arith)
