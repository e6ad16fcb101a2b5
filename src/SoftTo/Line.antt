-- ===== src/SoftTo/Line.antt =====
-- soft_toYCbCr_byword: one line.
use libshjpeg.Base.{ℕ, zero, suc, ◌+◌, ◌*◌, ◌/◌, ◌≤◌, ◌<◌, ◌≡◌, ◌⊎◌, inl, refl, arith, ◌∙◌}
use libshjpeg.Memory.{Mem, IsBytes, word, load32, store32-outside}
use libshjpeg.SoftTo.{ToRow, to_chunk, to_chunks, to_word0, to_word1, to_word2}
use libshjpeg.SoftTo.Words.{HasPixel, stored-pixels, to_word0-word, to_word1-word, to_word2-word}

module _ (ybuf cbuf : Mem) (ybytes : IsBytes ybuf) (cbytes : IsBytes cbuf) where
  -- The pixel that a line's planes hold at column `q`, found at address `a`.
  abbrev pub HasColumn : Mem → ℕ → ℕ → ℕ → ℕ → Type 0
  HasColumn m a iy ic q =
      HasPixel m a (ybuf (iy + q)) (cbuf (ic + q / 2 * 2)) (cbuf (ic + (q / 2 * 2 + 1)))

  to_words :
      (iy ic : ℕ)
      → (to_word0 (load32 ybuf iy) (load32 cbuf ic)
          ≡ word (ybuf iy) (cbuf ic) (cbuf (ic + 1)) (ybuf (iy + 1)))
        × (to_word1 (load32 ybuf iy) (load32 cbuf ic)
            ≡ word (cbuf ic) (cbuf (ic + 1)) (ybuf (iy + 2)) (cbuf (ic + 2)))
        × (to_word2 (load32 ybuf iy) (load32 cbuf ic)
            ≡ word (cbuf (ic + 3)) (ybuf (iy + 3)) (cbuf (ic + 2)) (cbuf (ic + 3)))
  unfolding load32
  to_words iy ic = (
    to_word0-word _ _ _ _ _ _ _ _ (ybytes _) (ybytes _) (ybytes _) (ybytes _) (cbytes _) (cbytes _)
        (cbytes _) (cbytes _),
    to_word1-word _ _ _ _ _ _ _ _ (ybytes _) (ybytes _) (ybytes _) (ybytes _) (cbytes _) (cbytes _)
        (cbytes _) (cbytes _),
    to_word2-word _ _ _ _ _ _ _ _ (ybytes _) (ybytes _) (ybytes _) (ybytes _) (cbytes _) (cbytes _)
        (cbytes _) (cbytes _),
  )

  to_chunk-pixels :
      (r : ToRow)
      → let out = (to_chunk ybuf cbuf r).out in
        let iy = r.in_ybuffer in
        let ic = r.in_cbuffer in
        let o = r.out_buffer in
        HasPixel out o (ybuf iy) (cbuf ic) (cbuf (ic + 1))
        × HasPixel out (o + 3) (ybuf (iy + 1)) (cbuf ic) (cbuf (ic + 1))
        × HasPixel out (o + 6) (ybuf (iy + 2)) (cbuf (ic + 2)) (cbuf (ic + 3))
        × HasPixel out (o + 9) (ybuf (iy + 3)) (cbuf (ic + 2)) (cbuf (ic + 3))
  unfolding to_chunk
  to_chunk-pixels r =
      let words = to_words r.in_ybuffer r.in_cbuffer in
      rw (words.0, words.1, words.2)
        (stored-pixels r.out r.out_buffer _ _ _ _ _ _ _ _ (ybytes _) (ybytes _) (ybytes _)
          (ybytes _) (cbytes _) (cbytes _) (cbytes _) (cbytes _))

  to_chunk-outside :
      (r : ToRow) (b : ℕ)
      → (b < r.out_buffer) ⊎ (r.out_buffer + 12 ≤ b)
      → (to_chunk ybuf cbuf r).out b ≡ r.out b
  unfolding to_chunk
  to_chunk-outside r b h =
      store32-outside _ _ _ _ (omega arith)
      ∙ (store32-outside _ _ _ _ (omega arith) ∙ store32-outside _ _ _ _ (omega arith))

  pub to_chunks-below :
      (n : ℕ) (r : ToRow) (b : ℕ) → b < r.out_buffer → (to_chunks n ybuf cbuf r).out b ≡ r.out b
  unfolding to_chunks to_chunk
  to_chunks-below zero r b h = refl
  to_chunks-below (suc n) r b h =
      to_chunks-below n (to_chunk ybuf cbuf r) b (omega arith) ∙ to_chunk-outside r b (inl h)

  pub to_chunks-pointer :
      (n : ℕ) (r : ToRow) → (to_chunks n ybuf cbuf r).out_buffer ≡ r.out_buffer + 12 * n
  unfolding to_chunks to_chunk
  to_chunks-pointer zero r = omega arith
  to_chunks-pointer (suc n) r = omega (arith, to_chunks-pointer n (to_chunk ybuf cbuf r))

  -- A pixel of the first chunk survives the later ones.
  head_pixel :
      (n : ℕ) (r : ToRow) (a y cb cr : ℕ)
      → a + 2 < r.out_buffer + 12
      → HasPixel (to_chunk ybuf cbuf r).out a y cb cr
      → HasPixel (to_chunks (suc n) ybuf cbuf r).out a y cb cr
  unfolding to_chunks to_chunk
  head_pixel n r a y cb cr h p =
      let kept = to_chunks-below n (to_chunk ybuf cbuf r) in
      (
        kept a (omega arith) ∙ p.0,
        kept (a + 1) (omega arith) ∙ p.1,
        kept (a + 2) (omega arith) ∙ p.2,
      )

  to_chunks-pixels :
      (n : ℕ) (r : ToRow) (q : ℕ)
      → q < 4 * n
      → HasColumn (to_chunks n ybuf cbuf r).out (r.out_buffer + 3 * q) r.in_ybuffer r.in_cbuffer q
  unfolding to_chunks to_chunk
  to_chunks-pixels zero r q h = absurd (omega arith)
  to_chunks-pixels (suc n) r zero h =
      let eo : r.out_buffer + 0 ≡ r.out_buffer = omega arith in
      let ey : r.in_ybuffer + 0 ≡ r.in_ybuffer = omega arith in
      let ec : r.in_cbuffer + 0 ≡ r.in_cbuffer = omega arith in
      rw (eo, ey, ec) (head_pixel n r r.out_buffer _ _ _ (omega arith) ((to_chunk-pixels r).0))
  to_chunks-pixels (suc n) r (suc zero) h =
      let ec : r.in_cbuffer + 0 ≡ r.in_cbuffer = omega arith in
      rw ec (head_pixel n r (r.out_buffer + 3) _ _ _ (omega arith) ((to_chunk-pixels r).1))
  to_chunks-pixels (suc n) r (suc (suc zero)) h =
      head_pixel n r (r.out_buffer + 6) _ _ _ (omega arith) ((to_chunk-pixels r).2)
  to_chunks-pixels (suc n) r (suc (suc (suc zero))) h =
      head_pixel n r (r.out_buffer + 9) _ _ _ (omega arith) ((to_chunk-pixels r).3)
  to_chunks-pixels (suc n) r (suc (suc (suc (suc q)))) h =
      let k = suc (suc (suc (suc q))) in
      let eo : r.out_buffer + 3 * k ≡ r.out_buffer + 12 + 3 * q = omega arith in
      let ey : r.in_ybuffer + k ≡ r.in_ybuffer + 4 + q = omega arith in
      let eb : r.in_cbuffer + k / 2 * 2 ≡ r.in_cbuffer + 4 + q / 2 * 2 = omega arith in
      let er : r.in_cbuffer + (k / 2 * 2 + 1) ≡ r.in_cbuffer + 4 + (q / 2 * 2 + 1) = omega arith in
      rw (eo, ey, eb, er) (to_chunks-pixels n (to_chunk ybuf cbuf r) q (omega arith))

  -- The same for pointers that are known by an equation.
  pub to_chunks-pixels_at :
      (n : ℕ) (r : ToRow) (o iy ic q : ℕ)
      → r.out_buffer ≡ o
      → r.in_ybuffer ≡ iy
      → r.in_cbuffer ≡ ic
      → q < 4 * n
      → HasColumn (to_chunks n ybuf cbuf r).out (o + 3 * q) iy ic q
  to_chunks-pixels_at n r o iy ic q eo ey ec h = rw (← eo, ← ey, ← ec) (to_chunks-pixels n r q h)
