-- ===== src/Wrap/Output/Holds.antt =====
-- What the destination holds, and how the copies into the buffer keep it.
use libshjpeg.Base.{
  ℕ, ◌+◌, ◌-◌, ◌*◌, ◌≤◌, ◌<◌, ◌≡◌, ◌⊎◌, inl, inr, refl, sym, ◌∙◌, arith, ap, subst, ltb, ◌==◌, Bool,
  if◌then◌else◌, Bool-cases,
}
use libshjpeg.Memory.{Mem, memcpy, memcpy-inside, memcpy-outside}
use libshjpeg.Wrap.Output.{Sink, Output, empty_output_buffer, write_full, write_last}

-- The destination has taken the first `total` bytes of `output`, in order: those in the buffers
-- given away, and those at the start of the buffer at hand.
pub record Holds (sink : Sink) (output : ℕ → ℕ) (total : ℕ) (dest : Output) : Type 0 where
  pub filled : dest.count * sink.size + sink.size ≡ total + dest.free_in_buffer
  pub within : dest.free_in_buffer ≤ sink.size
  pub gone :
      (j i : ℕ)
      → j < dest.count
      → i < sink.size
      → dest.emptied j (sink.addr + i) ≡ output (j * sink.size + i)
  pub kept :
      (i : ℕ)
      → i < sink.size - dest.free_in_buffer
      → dest.memory (sink.addr + i) ≡ output (dest.count * sink.size + i)

-- The buffer is empty or full, and its pointer at its start.
pub record Settled (sink : Sink) (dest : Output) : Type 0 where
  pub at_start : dest.next_output_byte ≡ sink.addr
  pub fresh_or_full : (dest.free_in_buffer ≡ sink.size) ⊎ (dest.free_in_buffer ≡ 0)

pub one_more : (n size : ℕ) → (n + 1) * size ≡ n * size + size
one_more n size = grind arith

pub mul_mono : (a b size : ℕ) → a ≤ b → a * size ≤ b * size
mul_mono a b size h = grind arith

whole_buffers :
    (count k size free : ℕ)
    → count * size + size ≡ k * size + free
    → free ≤ size
    → (free ≡ size) ⊎ (free ≡ 0)
whole_buffers count k size free e h = elim (Bool-cases (ltb count k)) [
  | inl more ↦
      inr (
        omega
          (arith, e, h, one_more count size, mul_mono (count + 1) k size (ground (arith, more))))
  | inr less ↦ inl (omega (arith, e, h, mul_mono k count size (ground (arith, less))))
]

-- The destination after a write of `datacnt` bytes. It can be written to again where the bytes so
-- far are a number of whole buffers.
pub record Wrote (sink : Sink) (output : ℕ → ℕ) (total datacnt : ℕ) (dest : Output) : Type 0 where
  pub holds : Holds sink output (total + datacnt) dest
  pub settled : (k : ℕ) → total + datacnt ≡ k * sink.size → Settled sink dest

pub Holds-Wrote :
    (sink : Sink) (output : ℕ → ℕ) (total datacnt : ℕ) (dest : Output)
    → Holds sink output (total + datacnt) dest
    → dest.next_output_byte ≡ sink.addr
    → Wrote sink output total datacnt dest
Holds-Wrote sink output total datacnt dest h at = record {
  holds = h;
  settled = λ k e. record {
    at_start = at;
    fresh_or_full =
        whole_buffers dest.count k sink.size dest.free_in_buffer (omega (arith, h.filled, e))
          h.within;
  };
}

module _ (sink : Sink) (output : ℕ → ℕ) (coded : Mem) where
  -- A copy of `len` bytes to the start of a settled buffer that takes them.
  pub copied :
      (total dataptr len : ℕ) (dest : Output)
      → Holds sink output total dest
      → Settled sink dest
      → len ≤ dest.free_in_buffer
      → ((i : ℕ) → i < len → coded (dataptr + i) ≡ output (total + i))
      → Holds sink output (total + len) (write_last coded dataptr len dest)
  unfolding write_last
  copied total dataptr len dest h s le bytes = record {
    filled = omega (arith, h.filled);
    within = omega (arith, h.within);
    gone = h.gone;
    kept = λ i hi. elim s.fresh_or_full [
      | inl e ↦
          ap (memcpy dest.memory dest.next_output_byte coded dataptr len)
            (omega (arith, s.at_start))
          ∙ memcpy-inside dest.memory dest.next_output_byte coded dataptr len i
              (omega (arith, hi, e, h.within))
          ∙ bytes i (omega (arith, hi, e, h.within))
          ∙ ap output (omega (arith, h.filled, e))
      | inr e ↦
          memcpy-outside dest.memory dest.next_output_byte coded dataptr len (sink.addr + i)
            (omega (arith, s.at_start, e))
          ∙ h.kept i (omega (arith, hi, e))
    ];
  }

  emptied-Holds :
      (total : ℕ) (dest : Output)
      → Holds sink output total dest
      → dest.free_in_buffer ≡ 0
      → Holds sink output total (empty_output_buffer sink dest)
  unfolding empty_output_buffer
  emptied-Holds total dest h full = record {
    filled = omega (arith, h.filled, one_more dest.count sink.size);
    within = omega arith;
    gone = λ j i hj hi. elim (Bool-cases (j == dest.count)) [
      | inl e ↦
          let last : j ≡ dest.count = ground (arith, e) in
          subst
            (λ (t : Bool).
              (if t then dest.memory else dest.emptied j) (sink.addr + i)
              ≡ output (j * sink.size + i))
            (sym e)
            (h.kept i (omega (arith, hi, full))
              ∙ ap (λ (n : ℕ). output (n * sink.size + i)) (sym last))
      | inr e ↦
          subst
            (λ (t : Bool).
              (if t then dest.memory else dest.emptied j) (sink.addr + i)
              ≡ output (j * sink.size + i))
            (sym e) (h.gone j i (ground (arith, e, hj)) hi)
    ];
    kept = λ i hi. absurd (omega (arith, hi));
  }

  pub write_full-Holds :
      (total dataptr : ℕ) (dest : Output)
      → Holds sink output total dest
      → Settled sink dest
      → ((i : ℕ) → i < dest.free_in_buffer → coded (dataptr + i) ≡ output (total + i))
      → Holds sink output (total + dest.free_in_buffer) (write_full sink coded dataptr dest)
        × Settled sink (write_full sink coded dataptr dest)
  unfolding write_full write_last empty_output_buffer
  write_full-Holds total dataptr dest h s bytes = (
    emptied-Holds (total + dest.free_in_buffer) (write_last coded dataptr dest.free_in_buffer dest)
        (copied total dataptr dest.free_in_buffer dest h s (omega arith) bytes) (omega arith),
    record { at_start = refl; fresh_or_full = inl refl },
  )
