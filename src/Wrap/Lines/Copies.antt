-- ===== src/Wrap/Lines/Copies.antt =====
-- The copies of lines, in and out of the buffer.
use libshjpeg.Base.{
  ℕ, zero, suc, ◌+◌, ◌*◌, ◌^◌, ◌≤◌, ◌<◌, ◌≡◌, ◌⊎◌, inl, refl, sym, ◌∙◌, arith, ap, subst,
}
use libshjpeg.Memory.{Mem, memcpy, memcpy-inside, memcpy-outside}
use libshjpeg.Wrap.Calls.{Wrapper}
use libshjpeg.Wrap.Lines.{Lines, line_count, read_lines, write_lines}

-- At a scanline of the image, the count is at most the lines asked for and the lines left.
pub line_count-le :
    (height scanline max_lines : ℕ)
    → scanline ≤ height
    → height < 2 ^ 31
    → max_lines < 2 ^ 31
    → (line_count height scanline max_lines ≤ max_lines)
      × (scanline + line_count height scanline max_lines ≤ height)
unfolding line_count
line_count-le height scanline max_lines h small few = (ground arith, ground arith)

zero_more : (y : ℕ) → y + 0 ≡ y
zero_more y = omega arith

one_on : (y i : ℕ) → y + suc i ≡ y + 1 + i
one_on y i = omega arith

line_step : (y p : ℕ) → (y + 1) * p ≡ y * p + p
line_step y p = grind arith

line_below : (y n p : ℕ) → y * p + p ≤ (y + suc n) * p
line_below y n p = grind arith

line_same : (y n p : ℕ) → (y + suc n) * p ≡ (y + 1 + n) * p
line_same y n p = ap (λ (t : ℕ). t * p) (omega arith)

-- Rows of the client that do not share a byte.
abbrev pub Apart : ℕ → ℕ → (ℕ → ℕ) → Type 0
Apart n len rows = (i j : ℕ) → i < j → j < n → (rows i + len ≤ rows j) ⊎ (rows j + len ≤ rows i)

module _ (w : Wrapper) (components : ℕ) where
  -- Where line `y` of the image stands in the buffer.
  abbrev pub line_addr : ℕ → ℕ
  line_addr y = w.virt_addr + y * w.context.pitch

  pub write_lines-scanline :
      (n linecnt : ℕ) (client : Mem) (rows : ℕ → ℕ) (l : Lines)
      → (write_lines n linecnt w components client rows l).scanline ≡ l.scanline + n
  unfolding write_lines
  write_lines-scanline zero linecnt client rows l = omega arith
  write_lines-scanline (suc n) linecnt client rows l =
      write_lines-scanline n (linecnt + 1) client rows _ ∙ omega arith

  pub read_lines-scanline :
      (n linecnt : ℕ) (buffer : Mem) (rows : ℕ → ℕ) (l : Lines)
      → (read_lines n linecnt w components buffer rows l).scanline ≡ l.scanline + n
  unfolding read_lines
  read_lines-scanline zero linecnt buffer rows l = omega arith
  read_lines-scanline (suc n) linecnt buffer rows l =
      read_lines-scanline n (linecnt + 1) buffer rows _ ∙ omega arith

  -- Writing touches only the lines written.
  pub write_lines-outside :
      (n linecnt : ℕ) (client : Mem) (rows : ℕ → ℕ) (l : Lines) (b : ℕ)
      → w.context.width * components ≤ w.context.pitch
      → (b < line_addr l.scanline) ⊎ (line_addr (l.scanline + n) ≤ b)
      → (write_lines n linecnt w components client rows l).memory b ≡ l.memory b
  unfolding write_lines
  write_lines-outside zero linecnt client rows l b fits h = refl
  write_lines-outside (suc n) linecnt client rows l b fits h =
      let facts = line_step l.scanline w.context.pitch in
      write_lines-outside n (linecnt + 1) client rows _ b fits
        (omega (arith, h, facts, line_same l.scanline n w.context.pitch))
      ∙ memcpy-outside l.memory (line_addr l.scanline) client (rows linecnt)
          (w.context.width * components) b
          (omega (arith, h, line_below l.scanline n w.context.pitch))

  -- Line `i` of a write.
  pub write_lines-inside :
      (n linecnt : ℕ) (client : Mem) (rows : ℕ → ℕ) (l : Lines) (i x : ℕ)
      → w.context.width * components ≤ w.context.pitch
      → i < n
      → x < w.context.width * components
      → (write_lines n linecnt w components client rows l).memory (line_addr (l.scanline + i) + x)
        ≡ client (rows (linecnt + i) + x)
  unfolding write_lines
  write_lines-inside zero linecnt client rows l i x fits h hx = absurd (omega arith)
  write_lines-inside (suc n) linecnt client rows l zero x fits h hx =
      let d = line_addr l.scanline in
      write_lines-outside n (linecnt + 1) client rows _ (line_addr (l.scanline + 0) + x) fits (
        inl (
          omega (
            arith,
            ap (λ (t : ℕ). t * w.context.pitch) (zero_more l.scanline),
            line_step l.scanline w.context.pitch,
          )))
      ∙ ap (memcpy l.memory d client (rows linecnt) (w.context.width * components))
          (ap (λ (t : ℕ). line_addr t + x) (zero_more l.scanline))
      ∙ memcpy-inside l.memory d client (rows linecnt) (w.context.width * components) x hx
      ∙ ap (λ (t : ℕ). client (rows t + x)) (sym (zero_more linecnt))
  write_lines-inside (suc n) linecnt client rows l (suc i) x fits h hx =
      ap
        (λ (t : ℕ).
          (write_lines (suc n) linecnt w components client rows l).memory (line_addr t + x))
        (one_on l.scanline i)
      ∙ write_lines-inside n (linecnt + 1) client rows _ i x fits (omega arith) hx
      ∙ ap (λ (t : ℕ). client (rows t + x)) (sym (one_on linecnt i))

  -- Reading touches only the client's rows.
  pub read_lines-outside :
      (n linecnt : ℕ) (buffer : Mem) (rows : ℕ → ℕ) (l : Lines) (b : ℕ)
      → ((i : ℕ)
          → i < n
          → (b < rows (linecnt + i)) ⊎ (rows (linecnt + i) + w.context.width * components ≤ b))
      → (read_lines n linecnt w components buffer rows l).memory b ≡ l.memory b
  unfolding read_lines
  read_lines-outside zero linecnt buffer rows l b h = refl
  read_lines-outside (suc n) linecnt buffer rows l b h =
      read_lines-outside n (linecnt + 1) buffer rows _ b (λ i hi.
        subst (λ (t : ℕ). (b < rows t) ⊎ (rows t + w.context.width * components ≤ b))
          (one_on linecnt i) (h (suc i) (omega (arith, hi))))
      ∙ memcpy-outside l.memory (rows linecnt) buffer (line_addr l.scanline)
          (w.context.width * components) b
          (subst (λ (t : ℕ). (b < rows t) ⊎ (rows t + w.context.width * components ≤ b))
            (zero_more linecnt) (h 0 (omega arith)))

  pub read_lines-inside :
      (n linecnt : ℕ) (buffer : Mem) (rows : ℕ → ℕ) (l : Lines) (i x : ℕ)
      → Apart (linecnt + n) (w.context.width * components) rows
      → i < n
      → x < w.context.width * components
      → (read_lines n linecnt w components buffer rows l).memory (rows (linecnt + i) + x)
        ≡ buffer (line_addr (l.scanline + i) + x)
  unfolding read_lines
  read_lines-inside zero linecnt buffer rows l i x apart h hx = absurd (omega arith)
  read_lines-inside (suc n) linecnt buffer rows l zero x apart h hx =
      let d = rows linecnt in
      ap (λ (t : ℕ). (read_lines (suc n) linecnt w components buffer rows l).memory (rows t + x))
        (zero_more linecnt)
      ∙ read_lines-outside n (linecnt + 1) buffer rows _ (d + x) (λ i hi.
        omega (arith, hx, apart linecnt (linecnt + 1 + i) (omega arith) (omega (arith, hi))))
      ∙ memcpy-inside l.memory d buffer (line_addr l.scanline) (w.context.width * components) x hx
      ∙ ap (λ (t : ℕ). buffer (line_addr t + x)) (sym (zero_more l.scanline))
  read_lines-inside (suc n) linecnt buffer rows l (suc i) x apart h hx =
      ap (λ (t : ℕ). (read_lines (suc n) linecnt w components buffer rows l).memory (rows t + x))
        (one_on linecnt i)
      ∙ read_lines-inside n (linecnt + 1) buffer rows _ i x
          (λ j k hj hk. apart j k hj (omega (arith, hk))) (omega arith) hx
      ∙ ap (λ (t : ℕ). buffer (line_addr t + x)) (sym (one_on l.scanline i))
