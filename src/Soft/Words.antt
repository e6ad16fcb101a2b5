-- ===== src/Soft/Words.antt =====
-- The word formulas of the converters, byte by byte.
use libshjpeg.Base.{
  ℕ, ◌+◌, ◌*◌, ◌/◌, ◌%◌, ◌^◌, ◌<◌, ◌≡◌, arith, bit_and, bit_or, bit_and_ones, bit_and_field,
  bit_or_above,
}
use libshjpeg.Memory.{word, shl32}
use libshjpeg.Soft.{from_yword, from_cword}

-- The four byte masks.
module _ (b0 b1 b2 b3 : ℕ) (h0 : b0 < 256) (h1 : b1 < 256) (h2 : b2 < 256) (h3 : b3 < 256) where
  pub mask_byte0 : bit_and (word b0 b1 b2 b3) 0x000000ff ≡ b0
  unfolding word
  mask_byte0 = omega (arith, bit_and_ones 8 (b0 + b1 * 2 ^ 8 + b2 * 2 ^ 16 + b3 * 2 ^ 24))

  pub mask_byte1 : bit_and (word b0 b1 b2 b3) 0x0000ff00 ≡ b1 * 2 ^ 8
  unfolding word
  mask_byte1 = omega (arith, bit_and_field 8 8 (b0 + b1 * 2 ^ 8 + b2 * 2 ^ 16 + b3 * 2 ^ 24))

  pub mask_byte2 : bit_and (word b0 b1 b2 b3) 0x00ff0000 ≡ b2 * 2 ^ 16
  unfolding word
  mask_byte2 = omega (arith, bit_and_field 8 16 (b0 + b1 * 2 ^ 8 + b2 * 2 ^ 16 + b3 * 2 ^ 24))

  pub mask_byte3 : bit_and (word b0 b1 b2 b3) 0xff000000 ≡ b3 * 2 ^ 24
  unfolding word
  mask_byte3 = omega (arith, bit_and_field 8 24 (b0 + b1 * 2 ^ 8 + b2 * 2 ^ 16 + b3 * 2 ^ 24))

  -- Four bytes at their places, joined from below.
  pub join_bytes :
      bit_or (bit_or (bit_or b0 (b1 * 2 ^ 8)) (b2 * 2 ^ 16)) (b3 * 2 ^ 24) ≡ word b0 b1 b2 b3
  unfolding word
  join_bytes = ground (
    arith,
    bit_or_above 8 b1 b0 (omega arith),
    bit_or_above 16 b2 (b1 * 2 ^ 8 + b0) (omega arith),
    bit_or_above 24 b3 (b2 * 2 ^ 16 + (b1 * 2 ^ 8 + b0)) (omega arith),
  )

  pub join_halves :
      bit_or (bit_or b0 (b1 * 2 ^ 8)) (shl32 (bit_or b2 (b3 * 2 ^ 8)) 16) ≡ word b0 b1 b2 b3
  unfolding word shl32
  join_halves = ground (
    arith,
    bit_or_above 8 b1 b0 (omega arith),
    bit_or_above 8 b3 b2 (omega arith),
    bit_or_above 16 (b3 * 2 ^ 8 + b2) (b1 * 2 ^ 8 + b0) (omega arith),
  )

module _ (a0 a1 a2 a3 b0 b1 b2 b3 c0 c1 c2 c3 : ℕ) (ha0 : a0 < 256) (ha1 : a1 < 256)
    (ha2 : a2 < 256) (ha3 : a3 < 256) (hb0 : b0 < 256) (hb1 : b1 < 256) (hb2 : b2 < 256)
    (hb3 : b3 < 256) (hc0 : c0 < 256) (hc1 : c1 < 256) (hc2 : c2 < 256) (hc3 : c3 < 256) where
  pub from_yword-word :
      from_yword (word a0 a1 a2 a3) (word b0 b1 b2 b3) (word c0 c1 c2 c3) ≡ word a0 a3 b2 c1
  unfolding from_yword shl32
  from_yword-word = ground (
    arith,
    mask_byte0 a0 a1 a2 a3 ha0 ha1 ha2 ha3,
    mask_byte3 a0 a1 a2 a3 ha0 ha1 ha2 ha3,
    mask_byte2 b0 b1 b2 b3 hb0 hb1 hb2 hb3,
    mask_byte1 c0 c1 c2 c3 hc0 hc1 hc2 hc3,
    join_bytes a0 a3 b2 c1 ha0 ha3 hb2 hc1,
  )

  pub from_cword-word :
      from_cword (word a0 a1 a2 a3) (word b0 b1 b2 b3) (word c0 c1 c2 c3)
      ≡ word ((a1 + b0) / 2) ((a2 + b1) / 2) ((b3 + c2) / 2) ((c0 + c3) / 2)
  unfolding from_cword
  from_cword-word =
      let e1 : (a1 * 2 ^ 8 / 2 ^ 8 + b0) % 2 ^ 16 / 2 ≡ (a1 + b0) / 2 = omega arith in
      let e2 : (a2 * 2 ^ 16 / 2 ^ 16 + b1 * 2 ^ 8 / 2 ^ 8) % 2 ^ 16 / 2 ≡ (a2 + b1) / 2 =
        omega arith in
      let e3 : (b3 * 2 ^ 24 / 2 ^ 24 + c2 * 2 ^ 16 / 2 ^ 16) % 2 ^ 16 / 2 ≡ (b3 + c2) / 2 =
        omega arith in
      let e4 : (c0 + c3 * 2 ^ 24 / 2 ^ 24) % 2 ^ 16 / 2 ≡ (c0 + c3) / 2 = omega arith in
      rw
        (
          mask_byte1 a0 a1 a2 a3 ha0 ha1 ha2 ha3,
          mask_byte2 a0 a1 a2 a3 ha0 ha1 ha2 ha3,
          mask_byte0 b0 b1 b2 b3 hb0 hb1 hb2 hb3,
          mask_byte1 b0 b1 b2 b3 hb0 hb1 hb2 hb3,
          mask_byte3 b0 b1 b2 b3 hb0 hb1 hb2 hb3,
          mask_byte0 c0 c1 c2 c3 hc0 hc1 hc2 hc3,
          mask_byte2 c0 c1 c2 c3 hc0 hc1 hc2 hc3,
          mask_byte3 c0 c1 c2 c3 hc0 hc1 hc2 hc3,
          e1,
          e2,
          e3,
          e4,
        )
        (join_halves ((a1 + b0) / 2) ((a2 + b1) / 2) ((b3 + c2) / 2) ((c0 + c3) / 2) (omega arith)
          (omega arith) (omega arith) (omega arith))
