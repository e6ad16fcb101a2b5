-- ===== src/Soft/FromImage.antt =====
-- soft_fromYCbCr_byword: the loop over the lines, and the whole function.
use libshjpeg.Base.{
  ℕ, zero, suc, ◌+◌, ◌-◌, ◌*◌, ◌/◌, ◌%◌, ◌^◌, ◌≤◌, ◌<◌, ◌≡◌, ◌⊎◌, inl, inr, refl, ap, arith, ◌∙◌,
}
use mathlib.Core.Path.{ap₂}
use libshjpeg.Memory.{Mem, IsBytes, memcpy, memcpy-inside, memcpy-outside}
use libshjpeg.Context.{Context}
use libshjpeg.Soft.{
  FromLines, from_chunks, from_line, from_lines, chunks, local_copy, soft_from_ycbcr_byword,
}
use libshjpeg.Soft.From.{
  mean_chroma, from_chunks-luma_at, from_chunks-chroma_at, from_chunks-pointers,
}

module _ (input : Mem) (bytes : IsBytes input) (w pitch : ℕ) (w_fits : 4 * w ≤ 4096) where
  -- The two byte ranges that a run over `n` lines leaves alone.
  abbrev IsAside : ℕ → FromLines → ℕ → Type 0
  IsAside n s b = (b < s.outydata) ⊎ ((s.outydata + 4096 * n ≤ b) × (b < s.outcdata))

  from_line-aside :
      (s : FromLines) (b : ℕ)
      → (b < s.outydata) ⊎ (s.outydata + 4 * w ≤ b)
      → (b < s.outcdata) ⊎ (s.outcdata + 4 * w ≤ b)
      → (from_line w pitch input s).linebuf b ≡ s.linebuf b
  unfolding from_line
  from_line-aside s b hy hc =
      memcpy-outside _ _ _ _ _ _ (omega arith) ∙ memcpy-outside _ _ _ _ _ _ (omega arith)

  from_lines-aside :
      (n : ℕ) (s : FromLines) (b : ℕ)
      → s.outydata + 4096 * n ≤ s.outcdata
      → IsAside n s b
      → (from_lines n w pitch input s).linebuf b ≡ s.linebuf b
  unfolding from_lines from_line
  from_lines-aside zero s b apart h = refl
  from_lines-aside (suc n) s b apart h =
      from_lines-aside n (from_line w pitch input s) b (omega arith) (omega arith)
      ∙ from_line-aside s b (omega arith) (omega arith)

  -- The state at the head of the outer loop, `i` bytes into the packed input.
  record AtLine (i : ℕ) (s : FromLines) : Type 0 where
    y_start : s.row.out_ybuffer ≡ 0
    c_start : s.row.out_cbuffer ≡ 0
    at_input : s.row.in_buffer ≡ i

  from_line-AtLine :
      (i : ℕ) (s : FromLines)
      → i + pitch + 12 * w < 2 ^ 32
      → AtLine i s
      → AtLine (i + pitch) (from_line w pitch input s)
  unfolding from_line
  from_line-AtLine i s room a = record {
    y_start = refl;
    c_start = refl;
    at_input = omega (arith, from_chunks-pointers input bytes w s.row, a.at_input);
  }

  from_line-pixels :
      (i : ℕ) (s : FromLines) (x : ℕ)
      → AtLine i s
      → s.outydata + 4096 ≤ s.outcdata
      → x < 4 * w
      → ((from_line w pitch input s).linebuf (s.outydata + x) ≡ input (i + 3 * x))
        × ((from_line w pitch input s).linebuf (s.outcdata + x) ≡ mean_chroma input i x)
  unfolding from_line
  from_line-pixels i s x a apart h = (
    memcpy-outside _ _ _ _ _ _ (omega arith) ∙ (memcpy-inside _ _ _ _ _ _ (omega arith) ∙ luma),
    memcpy-inside _ _ _ _ _ _ (omega arith) ∙ chroma,
  )
    where
      luma : (from_chunks w input s.row).ybuf (0 + x) ≡ input (i + 3 * x)
      luma = from_chunks-luma_at input bytes w s.row 0 i x a.y_start a.at_input h

      chroma : (from_chunks w input s.row).cbuf (0 + x) ≡ mean_chroma input i x
      chroma = from_chunks-chroma_at input bytes w s.row 0 i x a.c_start a.at_input h

  from_lines-pixels :
      (n i : ℕ) (s : FromLines) (y x : ℕ)
      → AtLine i s
      → i + pitch * n + 12 * w < 2 ^ 32
      → s.outydata + 4096 * n ≤ s.outcdata
      → y < n
      → x < 4 * w
      → ((from_lines n w pitch input s).linebuf (s.outydata + 4096 * y + x)
          ≡ input (i + pitch * y + 3 * x))
        × ((from_lines n w pitch input s).linebuf (s.outcdata + 4096 * y + x)
            ≡ mean_chroma input (i + pitch * y) x)
  unfolding from_lines from_line
  from_lines-pixels zero i s y x a room apart hy hx = absurd (omega arith)
  from_lines-pixels (suc n) i s zero x a room apart hy hx =
      let ey : s.outydata + 0 + x ≡ s.outydata + x = omega arith in
      let ec : s.outcdata + 0 + x ≡ s.outcdata + x = omega arith in
      let ei : i + pitch * 0 ≡ i = omega arith in
      let here = from_line-pixels i s x a (omega arith) hx in
      let next = from_line w pitch input s in
      rw (ey, ec, ei)
        (
          from_lines-aside n next (s.outydata + x) (omega arith) (inl (omega arith)) ∙ here.0,
          from_lines-aside n next (s.outcdata + x) (omega arith) (inr (omega arith, omega arith))
              ∙ here.1,
        )
  from_lines-pixels (suc n) i s (suc y) x a room apart hy hx =
      let ey : s.outydata + 4096 * suc y + x ≡ s.outydata + 4096 + 4096 * y + x = omega arith in
      let ec : s.outcdata + 4096 * suc y + x ≡ s.outcdata + 4096 + 4096 * y + x = omega arith in
      let ei : i + pitch * suc y ≡ i + pitch + pitch * y = omega arith in
      rw (ey, ec, ei)
        (from_lines-pixels n (i + pitch) (from_line w pitch input s) y x
          (from_line-AtLine i s (omega arith) a) (omega arith) (omega arith) (omega arith) hx)

-- What the caller of a conversion guarantees: sizes that fit the line buffer and the address space.
pub record FitsLinebuf (context : Context) (outydata outcdata lines : ℕ) : Type 0 where
  pub width_fits : context.width ≤ 4096
  pub packed_line : 3 * context.width ≤ context.pitch
  pub addressable : context.pitch * lines + 16384 < 2 ^ 32
  pub planes_apart : outydata + 4096 * lines ≤ outcdata

module _ (context : Context) (heap linebuf : Mem) (outydata outcdata : ℕ) (user : Mem)
    (inbuf lines : ℕ) (heap_bytes : IsBytes heap) (user_bytes : IsBytes user)
    (fits : FitsLinebuf context outydata outcdata lines) where
  local_copy-IsBytes : (n : ℕ) → IsBytes (local_copy heap user inbuf n)
  unfolding local_copy memcpy
  local_copy-IsBytes n a = ground (arith, heap_bytes a, user_bytes (inbuf + (a - 0)))

  local_copy-inside : (n a : ℕ) → a < n → local_copy heap user inbuf n a ≡ user (inbuf + a)
  unfolding local_copy memcpy
  local_copy-inside n a h = ground arith

  line_below : (y : ℕ) → y < lines → context.pitch * y + context.pitch ≤ context.pitch * lines
  line_below y h = grind (arith, fits)

  abbrev input : Mem
  input = local_copy heap user inbuf (context.pitch * lines)

  image_bytes :
      (y x : ℕ)
      → y < lines
      → x < context.width
      → let out = soft_from_ycbcr_byword context heap linebuf outydata outcdata user inbuf lines in
        (out (outydata + 4096 * y + x) ≡ input (0 + context.pitch * y + 3 * x))
        × (out (outcdata + 4096 * y + x) ≡ mean_chroma input (0 + context.pitch * y) x)
  unfolding soft_from_ycbcr_byword
  image_bytes y x hy hx =
      from_lines-pixels input (local_copy-IsBytes (context.pitch * lines)) (chunks context.width)
        context.pitch (omega (arith, fits.width_fits)) lines 0 _ y x
        (record { y_start = refl; c_start = refl; at_input = refl })
        (omega (arith, fits.addressable, fits.width_fits)) fits.planes_apart hy (omega (arith, hx))

  -- For a packed surface whose lines fit, the luma byte of line `y`, column `x` of the line buffer
  -- is the first byte of pixel `x` of that line of the surface.
  pub soft_from_ycbcr_byword-luma :
      (y x : ℕ)
      → y < lines
      → x < context.width
      → soft_from_ycbcr_byword context heap linebuf outydata outcdata user inbuf lines
          (outydata + 4096 * y + x)
        ≡ user (inbuf + (context.pitch * y + 3 * x))
  soft_from_ycbcr_byword-luma y x hy hx =
      let e : 0 + context.pitch * y + 3 * x ≡ context.pitch * y + 3 * x = omega arith in
      (image_bytes y x hy hx).0
      ∙ (ap input e
          ∙ local_copy-inside (context.pitch * lines) (context.pitch * y + 3 * x)
              (omega (arith, line_below y hy, fits.packed_line)))

  -- For a packed surface whose lines fit, and a column whose pixel pair lies inside the line, byte
  -- `x` of the chroma line `y` of the line buffer is the mean, rounded down, of the Cb (even `x`)
  -- or Cr (odd `x`) bytes of the two pixels of the pair.
  pub soft_from_ycbcr_byword-chroma :
      (y x : ℕ)
      → y < lines
      → x / 2 * 2 + 1 < context.width
      → soft_from_ycbcr_byword context heap linebuf outydata outcdata user inbuf lines
          (outcdata + 4096 * y + x)
        ≡ mean_chroma user (inbuf + context.pitch * y) x
  soft_from_ycbcr_byword-chroma y x hy hx =
      (image_bytes y x hy (omega arith)).1
      ∙ ap₂ (λ a b. (a + b) / 2) (sample (x % 2 + 1) (omega arith))
          (sample (x % 2 + 4) (omega arith))
    where
      sample :
          (k : ℕ)
          → k < 6
          → input (0 + context.pitch * y + (x / 2 * 6 + k))
            ≡ user (inbuf + context.pitch * y + (x / 2 * 6 + k))
      sample k h =
          let e : 0 + context.pitch * y + (x / 2 * 6 + k) ≡ context.pitch * y + (x / 2 * 6 + k) =
            omega arith in
          let e' : inbuf + (context.pitch * y + (x / 2 * 6 + k))
              ≡ inbuf + context.pitch * y + (x / 2 * 6 + k) =
            omega arith in
          ap input e
          ∙ (local_copy-inside (context.pitch * lines) (context.pitch * y + (x / 2 * 6 + k))
                (omega (arith, line_below y hy, fits.packed_line))
              ∙ ap user e')
