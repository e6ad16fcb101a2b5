-- ===== src/Wrap/Output/Order.antt =====
-- Which writes keep the coded data in order.
use libshjpeg.Base.{
  ℕ, zero, suc, ◌+◌, ◌-◌, ◌≤◌, ◌<◌, ◌≡◌, inl, inr, refl, ◌∙◌, arith, ap, subst, ltb, false,
  Bool-cases, some,
}
use libshjpeg.Memory.{Mem, memcpy, memcpy-inside}
use libshjpeg.Wrap.Output.{
  Sink, Output, empty_output_buffer, write_full, write_last, jpeg_dest_write,
}
use libshjpeg.Wrap.Output.Holds.{Holds, Settled, Wrote, Holds-Wrote, copied, write_full-Holds}

module _ (sink : Sink) (output : ℕ → ℕ) (coded : Mem) where
  abbrev Ends : ℕ → ℕ → ℕ → ℕ → Output → Type 0
  Ends fuel total dataptr datacnt dest =
      (dest' : Output) × (jpeg_dest_write fuel sink coded dataptr datacnt dest ≡ some dest')
      × Wrote sink output total datacnt dest'

  Ends-step :
      (fuel total dataptr datacnt : ℕ) (dest : Output)
      → Holds sink output total dest
      → Settled sink dest
      → ((i : ℕ) → i < datacnt → coded (dataptr + i) ≡ output (total + i))
      → (dest.free_in_buffer < datacnt
          → Ends fuel
              (total + dest.free_in_buffer)
              (dataptr + dest.free_in_buffer)
              (datacnt - dest.free_in_buffer)
              (write_full sink coded dataptr dest))
      → Ends (suc fuel) total dataptr datacnt dest
  unfolding jpeg_dest_write write_last
  Ends-step fuel total dataptr datacnt dest h s bytes later =
      elim (Bool-cases (ltb dest.free_in_buffer datacnt)) [
        | inl e ↦
            let t = later (ground (arith, e)) in
            (
              t.0,
              rw e (t.1),
              record {
                holds =
                    subst (λ (n : ℕ). Holds sink output n (t.0)) (ground (arith, e)) (t.2.holds);
                settled = λ k ek. t.2.settled k (ground (arith, e, ek));
              },
            )
        | inr e ↦ (
          write_last coded dataptr datacnt dest,
          rw e refl,
          Holds-Wrote sink output total datacnt (write_last coded dataptr datacnt dest)
              (copied sink output coded total dataptr datacnt dest h s (ground (arith, e)) bytes)
              s.at_start,
        )
      ]

  fresh-Ends :
      (fuel total dataptr datacnt : ℕ) (dest : Output)
      → Holds sink output total dest
      → Settled sink dest
      → ((i : ℕ) → i < datacnt → coded (dataptr + i) ≡ output (total + i))
      → 1 ≤ dest.free_in_buffer
      → 1 ≤ sink.size
      → datacnt < fuel
      → Ends fuel total dataptr datacnt dest
  unfolding write_full empty_output_buffer
  fresh-Ends zero total dataptr datacnt dest h s bytes room some_size enough = absurd (omega arith)
  fresh-Ends (suc fuel) total dataptr datacnt dest h s bytes room some_size enough =
      Ends-step fuel total dataptr datacnt dest h s bytes (λ more.
        let w =
          write_full-Holds sink output coded total dataptr dest h s
            (λ i hi. bytes i (omega (arith, hi, more))) in
        fresh-Ends fuel (total + dest.free_in_buffer) (dataptr + dest.free_in_buffer)
          (datacnt - dest.free_in_buffer) (write_full sink coded dataptr dest) (w.0) (w.1)
          (λ i hi.
            ap coded (omega arith)
            ∙ bytes (dest.free_in_buffer + i) (omega (arith, hi))
            ∙ ap output (omega arith))
          (omega arith) some_size (omega (arith, more)))

  -- Where the buffer has room for a byte at all, and is empty or full before it: a write of datacnt
  -- bytes ends within datacnt + 2 rounds, and the destination then has taken these bytes after the
  -- others, each once and in order.
  pub jpeg_dest_write-Wrote :
      (fuel total dataptr datacnt : ℕ) (dest : Output)
      → Holds sink output total dest
      → Settled sink dest
      → ((i : ℕ) → i < datacnt → coded (dataptr + i) ≡ output (total + i))
      → 1 ≤ sink.size
      → datacnt + 1 < fuel
      → (dest' : Output) × (jpeg_dest_write fuel sink coded dataptr datacnt dest ≡ some dest')
        × Wrote sink output total datacnt dest'
  unfolding write_full empty_output_buffer
  jpeg_dest_write-Wrote zero total dataptr datacnt dest h s bytes some_size enough =
      absurd (omega arith)
  jpeg_dest_write-Wrote (suc fuel) total dataptr datacnt dest h s bytes some_size enough =
      Ends-step fuel total dataptr datacnt dest h s bytes (λ more.
        let w =
          write_full-Holds sink output coded total dataptr dest h s
            (λ i hi. bytes i (omega (arith, hi, more))) in
        fresh-Ends fuel (total + dest.free_in_buffer) (dataptr + dest.free_in_buffer)
          (datacnt - dest.free_in_buffer) (write_full sink coded dataptr dest) (w.0) (w.1)
          (λ i hi.
            ap coded (omega arith)
            ∙ bytes (dest.free_in_buffer + i) (omega (arith, hi))
            ∙ ap output (omega arith))
          (omega arith) some_size (omega (arith, more)))

-- Two writes that fit into the buffer together: the second one's bytes take the place of the first
-- one's at the start of the buffer, although the room left is counted for both.
pub jpeg_dest_write-overwrites :
    (sink : Sink) (first second : Mem) (fuel p q m n : ℕ) (dest : Output)
    → dest.next_output_byte ≡ sink.addr
    → m + n ≤ dest.free_in_buffer
    → (dest1 : Output) × (dest2 : Output) × (jpeg_dest_write (suc fuel) sink first p m dest
        ≡ some dest1)
      × (jpeg_dest_write (suc fuel) sink second q n dest1 ≡ some dest2)
      × ((i : ℕ) → i < n → dest2.memory (sink.addr + i) ≡ second (q + i))
      × (dest2.count ≡ dest.count)
      × (dest2.free_in_buffer + (m + n) ≡ dest.free_in_buffer)
unfolding jpeg_dest_write write_last
jpeg_dest_write-overwrites sink first second fuel p q m n dest at fits =
    let dest1 = write_last first p m dest in
    let fits1 : ltb dest.free_in_buffer m ≡ false = ground arith in
    let fits2 : ltb dest1.free_in_buffer n ≡ false = ground arith in
    (
      dest1,
      write_last second q n dest1,
      rw fits1 refl,
      rw fits2 refl,
      λ i h.
          ap (memcpy dest1.memory dest1.next_output_byte second q n) (omega arith)
          ∙ memcpy-inside dest1.memory dest1.next_output_byte second q n i h,
      refl,
      omega arith,
    )
