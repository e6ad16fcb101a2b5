-- ===== src/Wrap/Lines/Whole.antt =====
-- Calls for scanlines: how many lines, which bytes, and that the buffer is not left.
use libshjpeg.Base.{ℕ, ◌+◌, ◌*◌, ◌^◌, ◌≤◌, ◌<◌, ◌≡◌, ◌⊎◌, refl, ◌∙◌, arith, ap, true, some}
use libshjpeg.Memory.{Mem}
use libshjpeg.Wrap.Calls.{Wrapper}
use libshjpeg.Wrap.Lines.{
  Lines, copied, line_count, read_lines, shjpeg_read_scanlines, write_lines, shjpeg_write_scanlines,
}
use libshjpeg.Wrap.Lines.Copies.{line_count-le, Apart, write_lines-inside, read_lines-inside}

-- An object in JPU mode whose next scanline is one of the image, or its end.
pub record InImage (w : Wrapper) (components : ℕ) (l : Lines) : Type 0 where
  pub mode : w.jpumode ≡ true
  pub fits : w.context.width * components ≤ w.context.pitch
  pub line : l.scanline ≤ w.context.height
  pub small : w.context.height < 2 ^ 31

-- `n` lines of `asked` are moved, and fewer only at the end of the image.
pub record Moved (w : Wrapper) (asked n : ℕ) (l l' : Lines) : Type 0 where
  pub at_most : n ≤ asked
  pub onward : l'.scanline ≡ l.scanline + n
  pub in_image : l'.scanline ≤ w.context.height
  pub ended : (n ≡ asked) ⊎ (l'.scanline ≡ w.context.height)

-- The lines of the buffer from the next scanline on stand in the client's rows.
pub record ReadLines (w : Wrapper) (components asked : ℕ) (buffer : Mem) (rows : ℕ → ℕ) (n : ℕ)
    (l l' : Lines) : Type 0 where
  pub moved : Moved w asked n l l'
  pub content :
      (i x : ℕ)
      → i < n
      → x < w.context.width * components
      → l'.memory (rows i + x) ≡ buffer (w.virt_addr + (l.scanline + i) * w.context.pitch + x)
  pub outside :
      (b : ℕ)
      → ((i : ℕ) → i < n → (b < rows i) ⊎ (rows i + w.context.width * components ≤ b))
      → l'.memory b ≡ l.memory b

-- The client's rows stand in the buffer, and nothing else is changed, inside the buffer or out of
-- it.
pub record WroteLines (w : Wrapper) (components asked : ℕ) (client : Mem) (rows : ℕ → ℕ) (n : ℕ)
    (l l' : Lines) : Type 0 where
  pub moved : Moved w asked n l l'
  pub content :
      (i x : ℕ)
      → i < n
      → x < w.context.width * components
      → l'.memory (w.virt_addr + (l.scanline + i) * w.context.pitch + x) ≡ client (rows i + x)
  pub other_lines :
      (b : ℕ)
      → (b < w.virt_addr + l.scanline * w.context.pitch)
        ⊎ (w.virt_addr + l'.scanline * w.context.pitch ≤ b)
      → l'.memory b ≡ l.memory b
  pub in_buffer :
      (b : ℕ)
      → (b < w.virt_addr) ⊎ (w.virt_addr + w.context.height * w.context.pitch ≤ b)
      → l'.memory b ≡ l.memory b

module _ (w : Wrapper) (components asked : ℕ) (l : Lines) (at : InImage w components l)
    (few : asked < 2 ^ 31) where
  -- Lines that are written to the buffer and then read from it again, to rows that do not overlap,
  -- are the lines that were written, as many as there are of them.
  pub write-read_scanlines :
      (client : Mem) (rows : ℕ → ℕ) (memory : Mem) (rows' : ℕ → ℕ)
      → Apart asked (w.context.width * components) rows'
      → (n : ℕ) × (l' : Lines) × (k : Lines) × (shjpeg_write_scanlines
            (some w)
            components
            client
            rows
            asked
            l
          ≡ copied n l')
        × (shjpeg_read_scanlines
              (some w)
              components
              l'.memory
              rows'
              asked
              (record { memory = memory; scanline = l.scanline })
            ≡ copied n k)
        × ((i x : ℕ)
            → i < n
            → x < w.context.width * components
            → k.memory (rows' i + x) ≡ client (rows i + x))
  unfolding shjpeg_write_scanlines shjpeg_read_scanlines
  write-read_scanlines client rows memory rows' apart =
      let n = line_count w.context.height l.scanline asked in
      let l' = write_lines n 0 w components client rows l in
      let from : Lines = record { memory = memory; scanline = l.scanline } in
      let k = read_lines n 0 w components l'.memory rows' from in
      let le = line_count-le w.context.height l.scanline asked at.line at.small few in
      (
        n,
        l',
        k,
        rw at.mode refl,
        rw at.mode refl,
        λ i x hi hx.
            ap (λ (t : ℕ). k.memory (rows' t + x)) (omega arith)
            ∙ read_lines-inside w components n 0 l'.memory rows' from i x
                (λ j m hj hm. apart j m hj (omega (arith, hm, le))) hi hx
            ∙ write_lines-inside w components n 0 client rows l i x at.fits hi hx
            ∙ ap (λ (t : ℕ). client (rows t + x)) (omega arith),
      )
