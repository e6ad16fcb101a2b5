-- ===== src/PixelFormat/Laws.antt =====
-- The accessors of a packed pixel format give back what was packed.
use libshjpeg.Base.{
  ℕ, ◌+◌, ◌*◌, ◌/◌, ◌^◌, ◌<◌, ◌≡◌, refl, arith, bit_and, bit_and_ones, bit_and_field, bit_or_below,
}
use libshjpeg.PixelFormat.{
  pixelformat, pitch_multiply, bits_per_pixel, plane_multiply, pf_rgb16, pf_rgb24, pf_rgb32,
  pf_nv12, pf_nv16, pf_grayscale, pf_ycbcr,
}

module _ (id pitch bpp mul : ℕ) (id_fits : id < 128) (pitch_fits : pitch < 256)
    (bpp_fits : bpp < 256) (mul_fits : mul < 256) where
  pixelformat-sum : pixelformat id pitch bpp mul ≡ id * 2 ^ 24 + pitch * 2 ^ 16 + bpp * 2 ^ 8 + mul
  unfolding pixelformat
  pixelformat-sum = ground (
    arith,
    bit_and_ones 16 id,
    bit_and_ones 8 pitch,
    bit_and_ones 8 bpp,
    bit_and_ones 8 mul,
    bit_or_below 24 id (pitch * 2 ^ 16) (omega arith),
    bit_or_below 16 (id * 2 ^ 8 + pitch) (bpp * 2 ^ 8) (omega arith),
    bit_or_below 8 (id * 2 ^ 16 + pitch * 2 ^ 8 + bpp) mul (omega arith),
  )

  -- For an identifier below 128 and byte-sized fields, the three accessors read back from a packed
  -- pixel format the pitch multiplier, the bits per pixel, and, at every height, the plane
  -- multiplier times the height in half planes.
  pub accessors-pixelformat :
      (height : ℕ)
      → (pitch_multiply (pixelformat id pitch bpp mul) ≡ pitch)
        × (bits_per_pixel (pixelformat id pitch bpp mul) ≡ bpp)
        × (plane_multiply (pixelformat id pitch bpp mul) height ≡ mul * height / 2)
  unfolding pitch_multiply bits_per_pixel plane_multiply
  accessors-pixelformat height =
      let packed : ℕ = pixelformat id pitch bpp mul in
      let e : bit_and packed 0xff ≡ mul = omega (arith, pixelformat-sum, bit_and_ones 8 packed) in
      (
        omega (arith, pixelformat-sum, bit_and_field 8 16 packed),
        omega (arith, pixelformat-sum, bit_and_field 8 8 packed),
        rw e refl,
      )

formats_packed :
    (pixelformat 1 2 16 2 ≡ pf_rgb16)
    × (pixelformat 2 3 24 2 ≡ pf_rgb24)
    × (pixelformat 3 4 32 2 ≡ pf_rgb32)
    × (pixelformat 4 1 12 3 ≡ pf_nv12)
    × (pixelformat 5 1 16 4 ≡ pf_nv16)
    × (pixelformat 6 1 12 3 ≡ pf_grayscale)
    × (pixelformat 7 3 24 2 ≡ pf_ycbcr)
unfolding pixelformat
formats_packed = (refl, refl, refl, refl, refl, refl, refl)
