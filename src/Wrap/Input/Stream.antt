-- ===== src/Wrap/Input/Stream.antt =====
-- The client's input as one stream of bytes, and the end of a read of it.
use libshjpeg.Base.{
  ℕ, suc, ◌+◌, ◌-◌, ◌≤◌, ◌<◌, ◌≡◌, ◌⊎◌, inl, inr, refl, sym, ◌∙◌, arith, ap, subst, ltb, Bool-cases,
}
use libshjpeg.Memory.{Mem, memcpy, memcpy-inside, memcpy-outside}
use libshjpeg.Wrap.Input.{jpeg_eoi, Feed, Input, fill_buffer, Reading, take_part}

-- The fills are the consecutive pieces of `input`; piece `n` begins at `start n`.
pub record Feeds (feed : Feed) (input start : ℕ → ℕ) : Type 0 where
  pub next : (n : ℕ) → start (n + 1) ≡ start n + feed.len n
  pub piece : (n i : ℕ) → i < feed.len n → feed.contents n (feed.addr n + i) ≡ input (start n + i)

-- The source stands at position `pos` of the stream.
pub record StandsAt (input start : ℕ → ℕ) (pos : ℕ) (src : Input) : Type 0 where
  pub filled : pos + src.bytes_in_buffer ≡ start src.fills
  pub rest :
      (i : ℕ) → i < src.bytes_in_buffer → src.memory (src.next_input_byte + i) ≡ input (pos + i)

-- What a read of `n` bytes at position `pos` that ends at `pos'` leaves at `dataptr`, and its count.
pub record Delivered (feed : Feed) (input : ℕ → ℕ) (n dataptr : ℕ) (out : Mem) (pos : ℕ)
    (out' : Mem) (count pos' : ℕ) : Type 0 where
  pub within : count ≤ n
  pub onward : pos ≤ pos'
  pub outside : (b : ℕ) → (b < dataptr) ⊎ (dataptr + n ≤ b) → out' b ≡ out b
  pub content : (i : ℕ) → pos + i < pos' → out' (dataptr + i) ≡ input (pos + i)
  pub moved :
      (pos' ≡ pos + count)
      ⊎ ((suc pos' ≡ pos + count)
          × (count ≡ n)
          × (suc pos ≤ pos')
          × (out' (dataptr + count - 1) ≡ 0xff)
          × (input (pos' - 1) ≡ 0xff)
          × (input pos' ≡ jpeg_eoi))
  pub short :
      count < n → ((k : ℕ) × (feed.len k ≡ 0)) ⊎ ((suc pos ≤ pos') × (input (pos' - 1) ≡ jpeg_eoi))

module _ {feed : Feed} {input start : ℕ → ℕ} (feeds : Feeds feed input start) where
  pub fill_buffer-StandsAt :
      {pos : ℕ} {src : Input}
      → StandsAt input start pos src
      → StandsAt input start (pos + src.bytes_in_buffer) (fill_buffer feed src)
  unfolding fill_buffer
  fill_buffer-StandsAt {pos} {src} s = record {
    filled = omega (arith, s.filled, feeds.next src.fills);
    rest = λ i h. feeds.piece src.fills i h ∙ ap input (omega (arith, s.filled));
  }

  -- The end of a read by a copy of the first `datacnt` bytes.
  pub part :
      {pos : ℕ} (r : Reading)
      → StandsAt input start pos r.src
      → r.datacnt ≤ r.src.bytes_in_buffer
      → StandsAt input start (pos + r.datacnt) (take_part r).src
        × ((i : ℕ) → i < r.datacnt → (take_part r).out (r.dataptr + i) ≡ input (pos + i))
        × ((b : ℕ) → (b < r.dataptr) ⊎ (r.dataptr + r.datacnt ≤ b) → (take_part r).out b ≡ r.out b)
  unfolding take_part
  part {pos} r s h = (
    record {
      filled = omega (arith, s.filled);
      rest = λ i hi.
          ap r.src.memory (omega arith)
          ∙ s.rest (r.datacnt + i) (omega (arith, hi))
          ∙ ap input (omega arith);
    },
    λ i hi.
        memcpy-inside r.out r.dataptr r.src.memory r.src.next_input_byte r.datacnt i hi
        ∙ s.rest i (omega arith),
    λ b hb. memcpy-outside r.out r.dataptr r.src.memory r.src.next_input_byte r.datacnt b hb,
  )

  -- The loop's result: what it has delivered of the bytes wanted, and where it stands.
  abbrev pub Ends : ℕ → Reading → Reading → Type 0
  Ends pos r r' =
      (count : ℕ) × (pos' : ℕ) × (r'.n_bytes + r.datacnt ≡ r.n_bytes + count)
      × StandsAt input start pos' r'.src
      × Delivered feed input r.datacnt r.dataptr r.out pos r'.out count pos'

  -- A copy of the first `n` bytes of the buffer of `r`, after which the read is over.
  pub ended :
      {pos : ℕ} (r r1 : Reading)
      → StandsAt input start pos r.src
      → r1.src ≡ r.src
      → r1.out ≡ r.out
      → r1.dataptr ≡ r.dataptr
      → r1.datacnt ≤ r.datacnt
      → r1.datacnt ≤ r.src.bytes_in_buffer
      → r1.n_bytes + r.datacnt ≡ r.n_bytes + r1.datacnt
      → (r1.datacnt < r.datacnt
          → ((k : ℕ) × (feed.len k ≡ 0))
            ⊎ ((1 ≤ r1.datacnt) × (input (pos + r1.datacnt - 1) ≡ jpeg_eoi)))
      → Ends pos r (take_part r1)
  unfolding take_part
  ended {pos} r r1 s es eo ed le h n short =
      let s1 = subst (λ (x : Input). StandsAt input start pos x) (sym es) s in
      let p = part r1 s1 (subst (λ (x : Input). r1.datacnt ≤ x.bytes_in_buffer) (sym es) h) in
      (
        r1.datacnt,
        pos + r1.datacnt,
        n,
        p.0,
        record {
          within = le;
          onward = omega arith;
          outside = λ b hb. p.2 b (omega (arith, hb, ed)) ∙ ap (λ (m : Mem). m b) eo;
          content = λ i hi.
              ap (λ (a : ℕ). (take_part r1).out (a + i)) (sym ed) ∙ p.1 i (omega (arith, hi));
          moved = inl refl;
          short = λ h'. elim (short h') [ inl e ↦ inl e | inr e ↦ inr (omega (arith, e.0), e.1) ];
        },
      )

  -- A copy of the next `len` bytes before a read of the others.
  pub Delivered-after :
      (len n dataptr pos : ℕ) (out mem : Mem) (from : ℕ) (out' : Mem) (count pos' : ℕ)
      → len ≤ n
      → ((i : ℕ) → i < len → mem (from + i) ≡ input (pos + i))
      → Delivered feed input
          (n - len)
          (dataptr + len)
          (memcpy out dataptr mem from len)
          (pos + len)
          out'
          count
          pos'
      → Delivered feed input n dataptr out pos out' (len + count) pos'
  Delivered-after len n dataptr pos out mem from out' count pos' h bytes d = record {
    within = omega (arith, d.within);
    onward = omega (arith, d.onward);
    outside = λ b hb.
        d.outside b (omega (arith, hb))
        ∙ memcpy-outside out dataptr mem from len b (omega (arith, hb));
    content = λ i hi. elim (Bool-cases (ltb i len)) [
      | inl e ↦
          d.outside (dataptr + i) (ground (arith, e))
          ∙ memcpy-inside out dataptr mem from len i (ground (arith, e))
          ∙ bytes i (ground (arith, e))
      | inr e ↦
          let far : len ≤ i = ground (arith, e) in
          ap out' (omega arith) ∙ d.content (i - len) (omega (arith, hi)) ∙ ap input (omega arith)
    ];
    moved = elim d.moved [
      | inl e ↦ inl (omega (arith, e))
      | inr e ↦ inr (
        omega (arith, e.0),
        omega (arith, e.1),
        omega (arith, e.2),
        ap out' (omega (arith, e.0)) ∙ e.3,
        e.4,
        e.5,
      )
    ];
    short = λ hs. elim (d.short (omega (arith, hs))) [
      | inl e ↦ inl e
      | inr e ↦ inr (omega (arith, e.0), e.1)
    ];
  }

  -- A copy of all `n` bytes.
  pub Delivered-full :
      (n dataptr pos : ℕ) (out mem : Mem) (from : ℕ)
      → ((i : ℕ) → i < n → mem (from + i) ≡ input (pos + i))
      → Delivered feed input n dataptr out pos (memcpy out dataptr mem from n) n (pos + n)
  Delivered-full n dataptr pos out mem from bytes = record {
    within = omega arith;
    onward = omega arith;
    outside = λ b hb. memcpy-outside out dataptr mem from n b hb;
    content = λ i hi.
        memcpy-inside out dataptr mem from n i (omega (arith, hi)) ∙ bytes i (omega (arith, hi));
    moved = inl refl;
    short = λ h. absurd (omega (arith, h));
  }
