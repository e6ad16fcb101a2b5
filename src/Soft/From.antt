-- ===== src/Soft/From.antt =====
-- soft_fromYCbCr_byword, loop by loop.
use libshjpeg.Base.{ℕ, zero, suc, ◌+◌, ◌*◌, ◌/◌, ◌%◌, ◌<◌, ◌≡◌, inl, refl, arith, ◌∙◌}
use libshjpeg.Memory.{Mem, IsBytes, word, load32, store32-outside, store32-word}
use libshjpeg.Soft.{FromRow, from_chunk, from_chunks, from_yword, from_cword}
use libshjpeg.Soft.Words.{from_yword-word, from_cword-word}

-- Byte `j` of a chroma line: the mean of the two Cb (even `j`) or Cr (odd `j`) samples of pixel
-- pair `j / 2` of the packed line that starts at `base`.
abbrev pub mean_chroma : Mem → ℕ → ℕ → ℕ
mean_chroma input base j =
    (input (base + (j / 2 * 6 + (j % 2 + 1))) + input (base + (j / 2 * 6 + (j % 2 + 4)))) / 2

module _ (input : Mem) (bytes : IsBytes input) where
  chunk_words :
      (i : ℕ)
      → (from_yword (load32 input i) (load32 input (i + 4)) (load32 input (i + 8))
          ≡ word (input i) (input (i + 3)) (input (i + 6)) (input (i + 9)))
        × (from_cword (load32 input i) (load32 input (i + 4)) (load32 input (i + 8))
            ≡ word
                (mean_chroma input i 0)
                (mean_chroma input i 1)
                (mean_chroma input i 2)
                (mean_chroma input i 3))
  unfolding load32
  chunk_words i =
      let e5 : i + 4 + 1 ≡ i + 5 = omega arith in
      let e6 : i + 4 + 2 ≡ i + 6 = omega arith in
      let e7 : i + 4 + 3 ≡ i + 7 = omega arith in
      let e9 : i + 8 + 1 ≡ i + 9 = omega arith in
      let e10 : i + 8 + 2 ≡ i + 10 = omega arith in
      let e11 : i + 8 + 3 ≡ i + 11 = omega arith in
      rw (e5, e6, e7, e9, e10, e11)
        (
          from_yword-word _ _ _ _ _ _ _ _ _ _ _ _ (bytes _) (bytes _) (bytes _) (bytes _) (bytes _)
              (bytes _) (bytes _) (bytes _) (bytes _) (bytes _) (bytes _) (bytes _),
          from_cword-word _ _ _ _ _ _ _ _ _ _ _ _ (bytes _) (bytes _) (bytes _) (bytes _) (bytes _)
              (bytes _) (bytes _) (bytes _) (bytes _) (bytes _) (bytes _) (bytes _),
        )

  mean_chroma-lt : (base j : ℕ) → mean_chroma input base j < 256
  mean_chroma-lt base j =
      omega
        (arith, bytes (base + (j / 2 * 6 + (j % 2 + 1))), bytes (base + (j / 2 * 6 + (j % 2 + 4))))

  from_chunk-luma :
      (r : FromRow)
      → ((from_chunk input r).ybuf r.out_ybuffer ≡ input r.in_buffer)
        × ((from_chunk input r).ybuf (r.out_ybuffer + 1) ≡ input (r.in_buffer + 3))
        × ((from_chunk input r).ybuf (r.out_ybuffer + 2) ≡ input (r.in_buffer + 6))
        × ((from_chunk input r).ybuf (r.out_ybuffer + 3) ≡ input (r.in_buffer + 9))
  unfolding from_chunk
  from_chunk-luma r =
      rw ((chunk_words r.in_buffer).0)
        (store32-word r.ybuf r.out_ybuffer _ _ _ _ (bytes _) (bytes _) (bytes _) (bytes _))

  from_chunk-chroma :
      (r : FromRow)
      → ((from_chunk input r).cbuf r.out_cbuffer ≡ mean_chroma input r.in_buffer 0)
        × ((from_chunk input r).cbuf (r.out_cbuffer + 1) ≡ mean_chroma input r.in_buffer 1)
        × ((from_chunk input r).cbuf (r.out_cbuffer + 2) ≡ mean_chroma input r.in_buffer 2)
        × ((from_chunk input r).cbuf (r.out_cbuffer + 3) ≡ mean_chroma input r.in_buffer 3)
  unfolding from_chunk
  from_chunk-chroma r = rw ((chunk_words r.in_buffer).1) (
      store32-word r.cbuf r.out_cbuffer _ _ _ _ (mean_chroma-lt r.in_buffer 0)
        (mean_chroma-lt r.in_buffer 1) (mean_chroma-lt r.in_buffer 2)
        (mean_chroma-lt r.in_buffer 3))

  -- A later chunk writes above an earlier one.
  from_chunks-below :
      (n : ℕ) (r : FromRow) (b : ℕ)
      → (b < r.out_ybuffer → (from_chunks n input r).ybuf b ≡ r.ybuf b)
        × (b < r.out_cbuffer → (from_chunks n input r).cbuf b ≡ r.cbuf b)
  unfolding from_chunks from_chunk
  from_chunks-below zero r b = (λ h. refl, λ h. refl)
  from_chunks-below (suc n) r b = (
    λ h.
        (from_chunks-below n (from_chunk input r) b).0 (omega arith)
        ∙ store32-outside _ _ _ _ (inl h),
    λ h.
        (from_chunks-below n (from_chunk input r) b).1 (omega arith)
        ∙ store32-outside _ _ _ _ (inl h),
  )

  pub from_chunks-pointers :
      (n : ℕ) (r : FromRow) → (from_chunks n input r).in_buffer ≡ r.in_buffer + 12 * n
  unfolding from_chunks from_chunk
  from_chunks-pointers zero r = omega arith
  from_chunks-pointers (suc n) r = omega (arith, from_chunks-pointers n (from_chunk input r))

  from_chunks-luma_head :
      (n : ℕ) (r : FromRow) (k : ℕ)
      → k < 4
      → (from_chunks (suc n) input r).ybuf (r.out_ybuffer + k)
        ≡ (from_chunk input r).ybuf (r.out_ybuffer + k)
  unfolding from_chunks from_chunk
  from_chunks-luma_head n r k h =
      (from_chunks-below n (from_chunk input r) (r.out_ybuffer + k)).0 (omega arith)

  from_chunks-chroma_head :
      (n : ℕ) (r : FromRow) (k : ℕ)
      → k < 4
      → (from_chunks (suc n) input r).cbuf (r.out_cbuffer + k)
        ≡ (from_chunk input r).cbuf (r.out_cbuffer + k)
  unfolding from_chunks from_chunk
  from_chunks-chroma_head n r k h =
      (from_chunks-below n (from_chunk input r) (r.out_cbuffer + k)).1 (omega arith)

  -- A line's luma bytes are every third byte of the packed line.
  pub from_chunks-luma :
      (n : ℕ) (r : FromRow) (j : ℕ)
      → j < 4 * n
      → (from_chunks n input r).ybuf (r.out_ybuffer + j) ≡ input (r.in_buffer + 3 * j)
  unfolding from_chunks from_chunk
  from_chunks-luma zero r j h = absurd (omega arith)
  from_chunks-luma (suc n) r zero h =
      let e1 : r.out_ybuffer + 0 ≡ r.out_ybuffer = omega arith in
      let e2 : r.in_buffer + 0 ≡ r.in_buffer = omega arith in
      from_chunks-luma_head n r 0 (omega arith) ∙ rw (e1, e2) ((from_chunk-luma r).0)
  from_chunks-luma (suc n) r (suc zero) h =
      from_chunks-luma_head n r 1 (omega arith) ∙ (from_chunk-luma r).1
  from_chunks-luma (suc n) r (suc (suc zero)) h =
      from_chunks-luma_head n r 2 (omega arith) ∙ (from_chunk-luma r).2
  from_chunks-luma (suc n) r (suc (suc (suc zero))) h =
      from_chunks-luma_head n r 3 (omega arith) ∙ (from_chunk-luma r).3
  from_chunks-luma (suc n) r (suc (suc (suc (suc j)))) h =
      let e1 : r.out_ybuffer + suc (suc (suc (suc j))) ≡ r.out_ybuffer + 4 + j = omega arith in
      let e2 : r.in_buffer + 3 * suc (suc (suc (suc j))) ≡ r.in_buffer + 12 + 3 * j = omega arith in
      rw (e1, e2) (from_chunks-luma n (from_chunk input r) j (omega arith))

  mean_chroma-chunk :
      (base j : ℕ)
      → mean_chroma input base (suc (suc (suc (suc j)))) ≡ mean_chroma input (base + 12) j
  mean_chroma-chunk base j =
      let k = suc (suc (suc (suc j))) in
      let e1 : base + (k / 2 * 6 + (k % 2 + 1)) ≡ base + 12 + (j / 2 * 6 + (j % 2 + 1)) =
        omega arith in
      let e2 : base + (k / 2 * 6 + (k % 2 + 4)) ≡ base + 12 + (j / 2 * 6 + (j % 2 + 4)) =
        omega arith in
      rw (e1, e2)

  -- A line's chroma bytes are the means over the pixel pairs.
  pub from_chunks-chroma :
      (n : ℕ) (r : FromRow) (j : ℕ)
      → j < 4 * n
      → (from_chunks n input r).cbuf (r.out_cbuffer + j) ≡ mean_chroma input r.in_buffer j
  unfolding from_chunks from_chunk
  from_chunks-chroma zero r j h = absurd (omega arith)
  from_chunks-chroma (suc n) r zero h =
      let e1 : r.out_cbuffer + 0 ≡ r.out_cbuffer = omega arith in
      from_chunks-chroma_head n r 0 (omega arith) ∙ rw e1 ((from_chunk-chroma r).0)
  from_chunks-chroma (suc n) r (suc zero) h =
      from_chunks-chroma_head n r 1 (omega arith) ∙ (from_chunk-chroma r).1
  from_chunks-chroma (suc n) r (suc (suc zero)) h =
      from_chunks-chroma_head n r 2 (omega arith) ∙ (from_chunk-chroma r).2
  from_chunks-chroma (suc n) r (suc (suc (suc zero))) h =
      from_chunks-chroma_head n r 3 (omega arith) ∙ (from_chunk-chroma r).3
  from_chunks-chroma (suc n) r (suc (suc (suc (suc j)))) h =
      let e1 : r.out_cbuffer + suc (suc (suc (suc j))) ≡ r.out_cbuffer + 4 + j = omega arith in
      rw (e1, mean_chroma-chunk r.in_buffer j)
        (from_chunks-chroma n (from_chunk input r) j (omega arith))

  -- The same for pointers that are known by an equation.
  pub from_chunks-luma_at :
      (n : ℕ) (r : FromRow) (o i j : ℕ)
      → r.out_ybuffer ≡ o
      → r.in_buffer ≡ i
      → j < 4 * n
      → (from_chunks n input r).ybuf (o + j) ≡ input (i + 3 * j)
  from_chunks-luma_at n r o i j eo ei h = rw (← eo, ← ei) (from_chunks-luma n r j h)

  pub from_chunks-chroma_at :
      (n : ℕ) (r : FromRow) (o i j : ℕ)
      → r.out_cbuffer ≡ o
      → r.in_buffer ≡ i
      → j < 4 * n
      → (from_chunks n input r).cbuf (o + j) ≡ mean_chroma input i j
  from_chunks-chroma_at n r o i j eo ei h = rw (← eo, ← ei) (from_chunks-chroma n r j h)
