-- ===== src/SoftDecode/Pixels.antt =====
-- The bytes of the pixels that write_rgb_span writes.
use libshjpeg.Base.{
  ℕ, zero, suc, ◌+◌, ◌*◌, ◌/◌, ◌%◌, ◌^◌, ◌≤◌, ◌<◌, ◌≡◌, ◌⊎◌, refl, arith, ◌∙◌, ap, bit_and, bit_or,
  bit_and_field, bit_or_below,
}
use mathlib.Core.Path.{ap₂}
use native.Mathlib.Decide.{ℕ_discrete}
use libshjpeg.Memory.{
  Mem, IsBytes, word, store16, store32, store16-outside, store16-bytes, store32-outside,
  store32-word,
}
use libshjpeg.SoftDecode.{pixel_rgb16, pixel_rgb32, write_rgb16, write_rgb32}

-- The two bytes of a pixel of 16 bits: five bits of red, six of green, five of blue.
abbrev pub low_byte : ℕ → ℕ → ℕ
low_byte g b = g / 4 % 8 * 32 + b / 8

abbrev pub high_byte : ℕ → ℕ → ℕ
high_byte r g = r / 8 * 8 + g / 32

pixel_rgb16-sum :
    (r g b : ℕ)
    → r < 256
    → g < 256
    → b < 256
    → pixel_rgb16 r g b ≡ high_byte r g * 2 ^ 8 + low_byte g b
pixel_rgb16-sum r g b hr hg hb =
    let er : bit_and r 0xf8 * 2 ^ 8 ≡ r / 8 * 2 ^ 11 = omega (arith, bit_and_field 5 3 r, hr) in
    let eg : bit_and g 0xfc * 2 ^ 3 ≡ g / 4 * 2 ^ 5 = omega (arith, bit_and_field 6 2 g, hg) in
    let eb : bit_and b 0xf8 / 2 ^ 3 ≡ b / 8 = omega (arith, bit_and_field 5 3 b, hb) in
    let top : bit_or (r / 8 * 2 ^ 11) (g / 4 * 2 ^ 5) ≡ (r / 8 * 2 ^ 6 + g / 4) * 2 ^ 5 =
      omega (arith, bit_or_below 11 (r / 8) (g / 4 * 2 ^ 5) (omega arith)) in
    ap₂ bit_or (ap₂ bit_or er eg ∙ top) eb
    ∙ bit_or_below 5 (r / 8 * 2 ^ 6 + g / 4) (b / 8) (omega arith)
    ∙ omega arith

pixel_rgb32-word : (r g b : ℕ) → g < 256 → b < 256 → pixel_rgb32 r g b ≡ word b g r 0
unfolding word
pixel_rgb32-word r g b hg hb =
    let top : bit_or (r * 2 ^ 16) (g * 2 ^ 8) ≡ (r * 2 ^ 8 + g) * 2 ^ 8 =
      omega (arith, bit_or_below 16 r (g * 2 ^ 8) (omega arith)) in
    ap (λ (t : ℕ). bit_or t b) top ∙ bit_or_below 8 (r * 2 ^ 8 + g) b hb ∙ omega arith

-- Pixel `x` of 16 bits at address `a`, and of 32 bits.
abbrev pub Pixel16 : Mem → Mem → ℕ → ℕ → Type 0
Pixel16 src m a x =
    (m a ≡ low_byte (src (x * 3 + 1)) (src (x * 3 + 2)))
    × (m (a + 1) ≡ high_byte (src (x * 3 + 0)) (src (x * 3 + 1)))

abbrev pub Pixel32 : Mem → Mem → ℕ → ℕ → Type 0
Pixel32 src m a x =
    (m a ≡ src (x * 3 + 2))
    × (m (a + 1) ≡ src (x * 3 + 1))
    × (m (a + 2) ≡ src (x * 3 + 0))
    × (m (a + 3) ≡ 0)

module _ (src : Mem) (bytes : IsBytes src) where
  pub write_rgb16-outside :
      (n i dst : ℕ) (m : Mem) (b : ℕ)
      → (b < dst + 2 * i) ⊎ (dst + 2 * (i + n) ≤ b)
      → write_rgb16 n i src dst m b ≡ m b
  unfolding write_rgb16
  write_rgb16-outside zero i dst m b h = refl
  write_rgb16-outside (suc n) i dst m b h =
      write_rgb16-outside n (i + 1) dst _ b (omega arith)
      ∙ store16-outside m (dst + 2 * i) _ b (omega arith)

  pub write_rgb32-outside :
      (n i dst : ℕ) (m : Mem) (b : ℕ)
      → (b < dst + 4 * i) ⊎ (dst + 4 * (i + n) ≤ b)
      → write_rgb32 n i src dst m b ≡ m b
  unfolding write_rgb32
  write_rgb32-outside zero i dst m b h = refl
  write_rgb32-outside (suc n) i dst m b h =
      write_rgb32-outside n (i + 1) dst _ b (omega arith)
      ∙ store32-outside m (dst + 4 * i) _ b (omega arith)

  stored16 :
      (m : Mem) (a x : ℕ)
      → Pixel16 src
          (store16 m a (pixel_rgb16 (src (x * 3 + 0)) (src (x * 3 + 1)) (src (x * 3 + 2))))
          a
          x
  stored16 m a x =
      let r = src (x * 3 + 0) in
      let g = src (x * 3 + 1) in
      let b = src (x * 3 + 2) in
      let hr : r < 256 = bytes (x * 3 + 0) in
      let hg : g < 256 = bytes (x * 3 + 1) in
      let hb : b < 256 = bytes (x * 3 + 2) in
      let e = pixel_rgb16-sum r g b hr hg hb in
      let p = store16-bytes m a (low_byte g b) (high_byte r g) (omega arith) (omega arith) in
      (ap (λ (t : ℕ). store16 m a t a) e ∙ p.0, ap (λ (t : ℕ). store16 m a t (a + 1)) e ∙ p.1)

  stored32 :
      (m : Mem) (a x : ℕ)
      → Pixel32 src
          (store32 m a (pixel_rgb32 (src (x * 3 + 0)) (src (x * 3 + 1)) (src (x * 3 + 2))))
          a
          x
  stored32 m a x =
      let r = src (x * 3 + 0) in
      let g = src (x * 3 + 1) in
      let b = src (x * 3 + 2) in
      let e = pixel_rgb32-word r g b (bytes (x * 3 + 1)) (bytes (x * 3 + 2)) in
      let p =
        store32-word m a b g r 0 (bytes (x * 3 + 2)) (bytes (x * 3 + 1)) (bytes (x * 3 + 0))
          (omega arith) in
      (
        ap (λ (t : ℕ). store32 m a t a) e ∙ p.0,
        ap (λ (t : ℕ). store32 m a t (a + 1)) e ∙ p.1,
        ap (λ (t : ℕ). store32 m a t (a + 2)) e ∙ p.2,
        ap (λ (t : ℕ). store32 m a t (a + 3)) e ∙ p.3,
      )

  pub write_rgb16-inside :
      (n i dst : ℕ) (m : Mem) (x : ℕ)
      → i ≤ x
      → x < i + n
      → Pixel16 src (write_rgb16 n i src dst m) (dst + 2 * x) x
  unfolding write_rgb16
  write_rgb16-inside zero i dst m x h h' = absurd (omega arith)
  write_rgb16-inside (suc n) i dst m x h h' = elim (ℕ_discrete x i) [
    | yes e ↦
        let p = stored16 m (dst + 2 * i) i in
        rw e (
          write_rgb16-outside n (i + 1) dst _ (dst + 2 * i) (omega arith) ∙ p.0,
          write_rgb16-outside n (i + 1) dst _ (dst + 2 * i + 1) (omega arith) ∙ p.1,
        )
    | no ne ↦ write_rgb16-inside n (i + 1) dst _ x (omega (arith, ne)) (omega arith)
  ]

  pub write_rgb32-inside :
      (n i dst : ℕ) (m : Mem) (x : ℕ)
      → i ≤ x
      → x < i + n
      → Pixel32 src (write_rgb32 n i src dst m) (dst + 4 * x) x
  unfolding write_rgb32
  write_rgb32-inside zero i dst m x h h' = absurd (omega arith)
  write_rgb32-inside (suc n) i dst m x h h' = elim (ℕ_discrete x i) [
    | yes e ↦
        let p = stored32 m (dst + 4 * i) i in
        rw e (
          write_rgb32-outside n (i + 1) dst _ (dst + 4 * i) (omega arith) ∙ p.0,
          write_rgb32-outside n (i + 1) dst _ (dst + 4 * i + 1) (omega arith) ∙ p.1,
          write_rgb32-outside n (i + 1) dst _ (dst + 4 * i + 2) (omega arith) ∙ p.2,
          write_rgb32-outside n (i + 1) dst _ (dst + 4 * i + 3) (omega arith) ∙ p.3,
        )
    | no ne ↦ write_rgb32-inside n (i + 1) dst _ x (omega (arith, ne)) (omega arith)
  ]
