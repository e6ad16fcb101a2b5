-- ===== src/SoftTo/Words.antt =====
-- The three output words, byte by byte, and the bytes that a chunk stores.
use libshjpeg.Base.{ℕ, ◌+◌, ◌*◌, ◌^◌, ◌<◌, ◌≡◌, arith, bit_or_above, bit_and_ones, bit_and_field}
use libshjpeg.Memory.{Mem, word, shl32, store32}
use libshjpeg.Soft.Words.{mask_byte0, mask_byte1, mask_byte2, mask_byte3}
use libshjpeg.SoftTo.{to_word0, to_word1, to_word2}

module _ (y0 y1 y2 y3 b0 r0 b1 r1 : ℕ) (hy0 : y0 < 256) (hy1 : y1 < 256) (hy2 : y2 < 256)
    (hy3 : y3 < 256) (hb0 : b0 < 256) (hr0 : r0 < 256) (hb1 : b1 < 256) (hr1 : r1 < 256) where
  pub to_word0-word : to_word0 (word y0 y1 y2 y3) (word b0 r0 b1 r1) ≡ word y0 b0 r0 y1
  unfolding to_word0 shl32
  to_word0-word =
      rw (mask_byte0 y0 y1 y2 y3 hy0 hy1 hy2 hy3, mask_byte1 y0 y1 y2 y3 hy0 hy1 hy2 hy3)
        (unfold word in
          ground (
            arith,
            bit_and_ones 16 (b0 + r0 * 2 ^ 8 + b1 * 2 ^ 16 + r1 * 2 ^ 24),
            bit_or_above 8 (b0 + r0 * 2 ^ 8) y0 (omega arith),
            bit_or_above 24 y1 ((b0 + r0 * 2 ^ 8) * 2 ^ 8 + y0) (omega arith),
          ))

  pub to_word1-word : to_word1 (word y0 y1 y2 y3) (word b0 r0 b1 r1) ≡ word b0 r0 y2 b1
  unfolding to_word1 shl32
  to_word1-word =
      rw (mask_byte2 y0 y1 y2 y3 hy0 hy1 hy2 hy3, mask_byte2 b0 r0 b1 r1 hb0 hr0 hb1 hr1)
        (unfold word in
          ground (
            arith,
            bit_and_ones 16 (b0 + r0 * 2 ^ 8 + b1 * 2 ^ 16 + r1 * 2 ^ 24),
            bit_or_above 16 y2 (b0 + r0 * 2 ^ 8) (omega arith),
            bit_or_above 24 b1 (y2 * 2 ^ 16 + (b0 + r0 * 2 ^ 8)) (omega arith),
          ))

  pub to_word2-word : to_word2 (word y0 y1 y2 y3) (word b0 r0 b1 r1) ≡ word r1 y3 b1 r1
  unfolding to_word2
  to_word2-word =
      rw (mask_byte3 y0 y1 y2 y3 hy0 hy1 hy2 hy3, mask_byte3 b0 r0 b1 r1 hb0 hr0 hb1 hr1)
        (unfold word in
          ground (
            arith,
            bit_and_field 16 16 (b0 + r0 * 2 ^ 8 + b1 * 2 ^ 16 + r1 * 2 ^ 24),
            bit_or_above 8 y3 r1 (omega arith),
            bit_or_above 16 (b1 + r1 * 2 ^ 8) (y3 * 2 ^ 8 + r1) (omega arith),
          ))

-- The three bytes of a packed pixel.
abbrev pub HasPixel : Mem → ℕ → ℕ → ℕ → ℕ → Type 0
HasPixel m a y cb cr = (m a ≡ y) × (m (a + 1) ≡ cb) × (m (a + 2) ≡ cr)

module _ (m : Mem) (o y0 y1 y2 y3 b0 r0 b1 r1 : ℕ) (hy0 : y0 < 256) (hy1 : y1 < 256)
    (hy2 : y2 < 256) (hy3 : y3 < 256) (hb0 : b0 < 256) (hr0 : r0 < 256) (hb1 : b1 < 256)
    (hr1 : r1 < 256) where
  abbrev stored : Mem
  stored =
      store32 (store32 (store32 m o (word y0 b0 r0 y1)) (o + 4) (word b0 r0 y2 b1)) (o + 8)
        (word r1 y3 b1 r1)

  pub stored-pixels :
      HasPixel stored o y0 b0 r0
      × HasPixel stored (o + 3) y1 b0 r0
      × HasPixel stored (o + 6) y2 b1 r1
      × HasPixel stored (o + 9) y3 b1 r1
  unfolding store32 word
  stored-pixels = (
    (ground arith, ground arith, ground arith),
    (ground arith, ground arith, ground arith),
    (ground arith, ground arith, ground arith),
    (ground arith, ground arith, ground arith),
  )
