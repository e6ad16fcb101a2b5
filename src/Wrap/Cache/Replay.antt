-- ===== src/Wrap/Cache/Replay.antt =====
-- Reading what libjpeg has read with the header again, and going on with the source.
use libshjpeg.Base.{
  ℕ, ◌+◌, ◌-◌, ◌≤◌, ◌<◌, ◌≡◌, inl, inr, refl, sym, ◌∙◌, arith, ap, subst, ltb, ◌==◌, Bool, true,
  false, if◌then◌else◌, Bool-cases, some,
}
use libshjpeg.Memory.{Mem, memcpy}
use libshjpeg.Wrap.Input.{Feed}
use libshjpeg.Wrap.Cache.{Reader, Answer, read_current, jpeg_src_read_header, sops_read}
use libshjpeg.Wrap.Input.Stream.{Feeds, StandsAt, Delivered, Delivered-after, Delivered-full}
use libshjpeg.Wrap.Input.Deliver.{jpeg_src_read-Delivered}
use libshjpeg.Wrap.Cache.Header.{Pending, ReadsFrom, Reads}
use libshjpeg.Wrap.Cache.Current.{Answers, read_current-Answers}

module _ {feed : Feed} {input start : ℕ → ℕ} (feeds : Feeds feed input start) where
  -- The wanted bytes are a part of the cache.
  abbrev part_of_block : ℕ → ℕ → Mem → ℕ → Reader → Answer
  part_of_block n k out dataptr r = record {
    reader = record r {
      cache = record r.cache {
        total_buffer_size = r.cache.total_buffer_size - k;
        cache_read = r.cache.cache_read + k;
      };
    };
    out = memcpy out dataptr r.cache.block r.cache.cache_read k;
    n_bytes = n;
  }

  part_of_block-Answers :
      (n : ℕ) (out : Mem) (dataptr pos : ℕ) (r : Reader)
      → Pending input start pos r.src r.cache
      → r.direct ≡ false
      → n < r.cache.total_buffer_size
      → Answers feeds (some (part_of_block n n out dataptr r)) n n out dataptr pos
  part_of_block-Answers n out dataptr pos r p by_header more = (
    part_of_block n n out dataptr r,
    refl,
    (
      n,
      pos + n,
      omega arith,
      subst
          (λ (b : Bool).
            ReadsFrom b input start (pos + n) r.src (part_of_block n n out dataptr r).reader.cache)
          (sym by_header)
          (record {
            within = p.within;
            block_bytes = λ i h.
                ap r.cache.block (omega arith)
                ∙ p.block_bytes (n + i) (omega (arith, h))
                ∙ ap input (omega arith);
            current_bytes = λ i h. p.current_bytes i h ∙ ap input (omega arith);
            stands = subst (λ (a : ℕ). StandsAt input start a r.src) (omega arith) p.stands;
          }),
      Delivered-full feeds n dataptr pos out r.cache.block r.cache.cache_read
          (λ i h. p.block_bytes i (omega (arith, h))),
    ),
  )

  -- The cache is used up, and the read goes on behind it.
  block_done-Answers :
      (fuel n k : ℕ) (out : Mem) (dataptr pos : ℕ) (r : Reader)
      → Pending input start pos r.src r.cache
      → r.direct ≡ false
      → n < fuel
      → k ≤ n
      → k ≡ r.cache.total_buffer_size
      → Answers feeds
          (read_current fuel feed n
            (n - k)
            (memcpy out dataptr r.cache.block r.cache.cache_read k)
            (dataptr + k)
            (record r {
              cache = record r.cache { total_buffer_size = 0; has_block = false; cache_read = 0 };
            }))
          n
          n
          out
          dataptr
          pos
  block_done-Answers fuel n k out dataptr pos r p by_header enough le all =
      let c' = record r.cache { total_buffer_size = 0; has_block = false; cache_read = 0 } in
      let t =
        read_current-Answers feeds fuel n (n - k)
          (memcpy out dataptr r.cache.block r.cache.cache_read k) (dataptr + k) (pos + k)
          (record r { cache = c' })
          (record {
            within = p.within;
            block_bytes = λ i h. absurd (omega (arith, h));
            current_bytes = λ i h. p.current_bytes i h ∙ ap input (omega arith);
            stands = subst (λ (a : ℕ). StandsAt input start a r.src) (omega arith) p.stands;
          })
          refl by_header (omega arith) (omega arith) in
      (
        t.0,
        t.1,
        (
          k + t.2.0,
          t.2.1,
          omega (arith, t.2.2),
          t.2.3,
          Delivered-after feeds k n dataptr pos out r.cache.block r.cache.cache_read (t.0).out
              (t.2.0) (t.2.1) le (λ i h. p.block_bytes i (omega (arith, h))) (t.2.4),
        ),
      )

  -- A read by jpeg_src_read_header.
  cached-Answers :
      (fuel n : ℕ) (out : Mem) (dataptr pos : ℕ) (r : Reader)
      → Pending input start pos r.src r.cache
      → r.direct ≡ false
      → n < fuel
      → Answers feeds (jpeg_src_read_header fuel feed n out dataptr r) n n out dataptr pos
  unfolding jpeg_src_read_header
  cached-Answers fuel n out dataptr pos r p by_header enough =
      let total = r.cache.total_buffer_size in
      let k = if ltb total n then total else n in
      let k_n : k ≤ n = ground arith in
      let k_total : k ≤ total = ground arith in
      elim (Bool-cases (total == 0)) [
        | inl e ↦ rw e (
            read_current-Answers feeds fuel n n out dataptr pos r p (ground (arith, e)) by_header
              (omega arith) enough)
        | inr e ↦ elim (Bool-cases (total - k == 0)) [
          | inl e1 ↦
              rw (e, e1)
                (block_done-Answers fuel n k out dataptr pos r p by_header enough k_n
                  (ground (arith, e1)))
          | inr e1 ↦
              let more : k < total = ground (arith, e1) in
              let whole : n ≡ k = ground arith in
              rw (e, e1)
                (subst
                  (λ (j : ℕ).
                    Answers feeds (some (part_of_block n j out dataptr r)) n n out dataptr pos)
                  whole (part_of_block-Answers n out dataptr pos r p by_header (omega arith)))
        ]
      ]

  -- A read operation, in either of its two states.
  by_state :
      (b : Bool) (fuel n : ℕ) (out : Mem) (dataptr pos : ℕ) (r : Reader)
      → r.direct ≡ b
      → ReadsFrom b input start pos r.src r.cache
      → n < fuel
      → Answers feeds (sops_read fuel feed n out dataptr r) n n out dataptr pos
  unfolding sops_read
  by_state false fuel n out dataptr pos r e p enough =
      simp e (cached-Answers fuel n out dataptr pos r p e enough)
  by_state true fuel n out dataptr pos r e s enough =
      let t = jpeg_src_read-Delivered feeds fuel n out dataptr pos r.src s enough in
      (
        record { reader = record r { src = (t.0).src }; out = (t.0).out; n_bytes = (t.0).n_bytes },
        simp (e, t.1),
        (
          (t.0).n_bytes,
          t.2.0,
          omega arith,
          subst (λ (d : Bool). ReadsFrom d input start (t.2.0) (t.0).src r.cache) (sym e) (t.2.1),
          t.2.2,
        ),
      )

  -- The read operation that the wrapper gives to the decoder is a reader of one stream: from
  -- position `pos`, be it in the cache, in the part of the buffer that libjpeg has taken, or behind
  -- it, a read of `n` bytes ends within `n + 1` rounds, brings the bytes of the stream from `pos`
  -- on as `Delivered` says, and leaves a reader at the position after them.
  pub sops_read-Delivered :
      (fuel n : ℕ) (out : Mem) (dataptr pos : ℕ) (r : Reader)
      → Reads input start pos r
      → n < fuel
      → (a : Answer) × (sops_read fuel feed n out dataptr r ≡ some a)
        × ((pos' : ℕ) × Reads input start pos' a.reader
            × Delivered feed input n dataptr out pos a.out a.n_bytes pos')
  sops_read-Delivered fuel n out dataptr pos r p enough =
      let t = by_state r.direct fuel n out dataptr pos r refl p enough in
      let e : t.2.0 ≡ (t.0).n_bytes = omega (arith, t.2.2) in
      (
        t.0,
        t.1,
        (
          t.2.1,
          t.2.3,
          subst (λ (count : ℕ). Delivered feed input n dataptr out pos (t.0).out count (t.2.1)) e
              (t.2.4),
        ),
      )
