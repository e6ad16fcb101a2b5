-- ===== src/Wrap/Cache/Current.antt =====
-- The second part of a read by jpeg_src_read_header: what libjpeg has taken of the buffer at hand,
-- and behind it the source.
use libshjpeg.Base.{
  ℕ, ◌+◌, ◌-◌, ◌≤◌, ◌<◌, ◌≡◌, inl, inr, refl, sym, ◌∙◌, arith, ap, subst, ltb, ◌==◌, Bool, true,
  false, if◌then◌else◌, Bool-cases, Option, some,
}
use mathlib.Core.Option
use libshjpeg.Memory.{Mem, memcpy}
use libshjpeg.Wrap.Input.{Feed, Input, Reading, jpeg_src_read}
use libshjpeg.Wrap.Cache.{Cache, Reader, Answer, current_done, read_current}
use libshjpeg.Wrap.Input.Stream.{Feeds, StandsAt, Delivered, Delivered-after, Delivered-full}
use libshjpeg.Wrap.Input.Deliver.{jpeg_src_read-Delivered}
use libshjpeg.Wrap.Cache.Header.{Pending, ReadsFrom, Reads}

module _ {feed : Feed} {input start : ℕ → ℕ} (feeds : Feeds feed input start) where
  -- A read that has delivered `n - left` bytes and brings the rest, `left` bytes wanted.
  abbrev pub Answers : Option Answer → ℕ → ℕ → Mem → ℕ → ℕ → Type 0
  Answers result n left out dataptr pos =
      (a : Answer) × (result ≡ some a)
      × ((count : ℕ) × (pos' : ℕ) × (a.n_bytes ≡ n - left + count)
          × Reads input start pos' a.reader
          × Delivered feed input left dataptr out pos a.out count pos')

  -- The source is read on from position `pos`.
  reads_on :
      (fuel n left : ℕ) (out : Mem) (dataptr pos copied : ℕ) (out1 : Mem) (src : Input) (c : Cache)
      → StandsAt input start (pos + copied) src
      → left - copied < fuel
      → copied ≤ left
      → left ≤ n
      → ((mem : Mem) × (from : ℕ) × (out1 ≡ memcpy out dataptr mem from copied)
          × ((i : ℕ) → i < copied → mem (from + i) ≡ input (pos + i)))
      → Answers
          (Option.map
            (λ (d : Reading). record {
              reader = record { src = d.src; cache = current_done c; direct = true };
              out = d.out;
              n_bytes = n - (left - copied) + d.n_bytes;
            })
            (jpeg_src_read fuel feed (left - copied) out1 (dataptr + copied) src))
          n
          left
          out
          dataptr
          pos
  reads_on fuel n left out dataptr pos copied out1 src c s enough le le' (mem, from, e, bytes) =
      let t =
        jpeg_src_read-Delivered feeds fuel (left - copied) out1 (dataptr + copied) (pos + copied)
          src s enough in
      (
        record {
          reader = record { src = (t.0).src; cache = current_done c; direct = true };
          out = (t.0).out;
          n_bytes = n - (left - copied) + (t.0).n_bytes;
        },
        rw (t.1) refl,
        (
          copied + (t.0).n_bytes,
          t.2.0,
          omega arith,
          t.2.1,
          Delivered-after feeds copied left dataptr pos out mem from (t.0).out (t.0).n_bytes (t.2.0)
              le bytes
              (subst
                (λ (m : Mem).
                  Delivered feed input (left - copied) (dataptr + copied) m (pos + copied) (t.0).out
                    (t.0).n_bytes (t.2.0))
                e (t.2.2)),
        ),
      )

  -- The wanted bytes are a part of those that libjpeg has taken of the buffer.
  abbrev part_of_buffer : ℕ → ℕ → Mem → ℕ → Reader → Answer
  part_of_buffer n k out dataptr r = record {
    reader = record r {
      cache = record r.cache {
        last_buffer_size = r.cache.last_buffer_size - k;
        current_read = r.cache.current_read + k;
      };
    };
    out = memcpy out dataptr r.src.memory r.cache.current_read k;
    n_bytes = n;
  }

  part_of_buffer-Answers :
      (n left : ℕ) (out : Mem) (dataptr pos : ℕ) (r : Reader)
      → Pending input start pos r.src r.cache
      → r.cache.total_buffer_size ≡ 0
      → r.direct ≡ false
      → left ≤ n
      → left < r.cache.last_buffer_size - r.src.bytes_in_buffer
      → Answers (some (part_of_buffer n left out dataptr r)) n left out dataptr pos
  part_of_buffer-Answers n left out dataptr pos r p none_left by_header le more = (
    part_of_buffer n left out dataptr r,
    refl,
    (
      left,
      pos + left,
      omega arith,
      subst
          (λ (b : Bool).
            ReadsFrom b input start (pos + left) r.src
              (part_of_buffer n left out dataptr r).reader.cache)
          (sym by_header)
          (record {
            within = omega arith;
            block_bytes = λ i h. absurd (omega (arith, h));
            current_bytes = λ i h.
                ap r.src.memory (omega arith)
                ∙ p.current_bytes (left + i) (omega (arith, h))
                ∙ ap input (omega arith);
            stands = subst (λ (a : ℕ). StandsAt input start a r.src) (omega arith) p.stands;
          }),
      Delivered-full feeds left dataptr pos out r.src.memory r.cache.current_read
          (λ i h. p.current_bytes i (omega (arith, h)) ∙ ap input (omega arith)),
    ),
  )

  pub read_current-Answers :
      (fuel n left : ℕ) (out : Mem) (dataptr pos : ℕ) (r : Reader)
      → Pending input start pos r.src r.cache
      → r.cache.total_buffer_size ≡ 0
      → r.direct ≡ false
      → left ≤ n
      → left < fuel
      → Answers (read_current fuel feed n left out dataptr r) n left out dataptr pos
  unfolding read_current
  read_current-Answers fuel n left out dataptr pos r p none_left by_header le enough =
      let c = r.cache in
      let copied = c.last_buffer_size - r.src.bytes_in_buffer in
      let k = if ltb copied left then copied else left in
      let k_left : k ≤ left = ground arith in
      let k_copied : k ≤ copied = ground arith in
      elim (Bool-cases (c.last_buffer_size - k == r.src.bytes_in_buffer)) [
        | inl e ↦
            let all : c.last_buffer_size - k ≡ r.src.bytes_in_buffer = ground (arith, e) in
            rw e (
              reads_on fuel n left out dataptr pos k
                (memcpy out dataptr r.src.memory c.current_read k) r.src c
                (subst (λ (a : ℕ). StandsAt input start a r.src) (omega (arith, p.within)) p.stands)
                (omega arith) k_left le
                (
                  r.src.memory,
                  c.current_read,
                  refl,
                  λ i h. p.current_bytes i (omega (arith, h)) ∙ ap input (omega arith),
                ))
        | inr e ↦
            let more : k < copied = ground (arith, e) in
            let whole : left ≡ k = ground arith in
            rw e (
              subst
                (λ (j : ℕ).
                  Answers (some (part_of_buffer n j out dataptr r)) n left out dataptr pos)
                whole
                (part_of_buffer-Answers n left out dataptr pos r p none_left by_header le
                  (omega arith)))
      ]
