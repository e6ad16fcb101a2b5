-- ===== src/Wrap/Cache/Header.antt =====
-- Reading a header through the cache keeps every byte that libjpeg has been given.
use libshjpeg.Base.{
  ℕ, ◌+◌, ◌-◌, ◌≤◌, ◌<◌, ◌≡◌, ◌⊎◌, inl, inr, refl, sym, ◌∙◌, arith, ap, subst, ltb, Bool, true,
  false, if◌then◌else◌, Bool-cases,
}
use libshjpeg.Memory.{Mem, memcpy, memcpy-inside, memcpy-outside}
use libshjpeg.Wrap.Input.{Feed, Input, fill_buffer}
use libshjpeg.Wrap.Cache.{
  Cache, Reader, cache_current, cache_input_buffer, read_header_init, read_header_end,
}
use libshjpeg.Wrap.Input.Stream.{Feeds, StandsAt}

-- What libjpeg does to the source while it reads a header: it takes bytes of the buffer, and asks
-- for the next buffer.
pub data HeaderRead (feed : Feed) (r : Reader) : Reader → Type 0 where
  begun : HeaderRead feed r r
  taken :
      {r' : Reader} (n : ℕ)
      → HeaderRead feed r r'
      → n ≤ r'.src.bytes_in_buffer
      → HeaderRead feed r (record r' {
        src = record r'.src {
          next_input_byte = r'.src.next_input_byte + n;
          bytes_in_buffer = r'.src.bytes_in_buffer - n;
        };
      })
  refilled :
      {r' : Reader} (heap : Mem)
      → HeaderRead feed r r'
      → HeaderRead feed r (cache_input_buffer feed heap r')

-- All bytes so far: first the cache, then the buffer at hand.
pub record Cached (input start : ℕ → ℕ) (src : Input) (c : Cache) : Type 0 where
  pub here : (c.has_current ≡ true) ⊎ (c.last_buffer_size ≡ 0)
  pub there : (c.has_block ≡ true) ⊎ (c.total_buffer_size ≡ 0)
  pub begins : (c.total_buffer_size ≡ 0) ⊎ (c.cache_read ≡ 0)
  pub read_from : c.current_read ≡ c.current_start
  pub whole : c.total_buffer_size + c.last_buffer_size ≡ start src.fills
  pub left : src.next_input_byte + src.bytes_in_buffer ≡ c.current_start + c.last_buffer_size
  pub within : src.bytes_in_buffer ≤ c.last_buffer_size
  pub block_bytes : (i : ℕ) → i < c.total_buffer_size → c.block i ≡ input i
  pub current_bytes :
      (i : ℕ)
      → i < c.last_buffer_size
      → src.memory (c.current_start + i) ≡ input (c.total_buffer_size + i)

-- What is still to be read again, and where the source stands after it.
pub record Pending (input start : ℕ → ℕ) (pos : ℕ) (src : Input) (c : Cache) : Type 0 where
  pub within : src.bytes_in_buffer ≤ c.last_buffer_size
  pub block_bytes : (i : ℕ) → i < c.total_buffer_size → c.block (c.cache_read + i) ≡ input (pos + i)
  pub current_bytes :
      (i : ℕ)
      → i < c.last_buffer_size - src.bytes_in_buffer
      → src.memory (c.current_read + i) ≡ input (pos + c.total_buffer_size + i)
  pub stands :
      StandsAt input start
        (pos + c.total_buffer_size + (c.last_buffer_size - src.bytes_in_buffer))
        src

abbrev pub ReadsFrom : Bool → (ℕ → ℕ) → (ℕ → ℕ) → ℕ → Input → Cache → Type 0
ReadsFrom true input start pos src c = StandsAt input start pos src
ReadsFrom false input start pos src c = Pending input start pos src c

-- The reader's next byte is the one at `pos`.
abbrev pub Reads : (ℕ → ℕ) → (ℕ → ℕ) → ℕ → Reader → Type 0
Reads input start pos r = ReadsFrom r.direct input start pos r.src r.cache

module _ {feed : Feed} {input start : ℕ → ℕ} (feeds : Feeds feed input start) where
  init-Cached :
      (present : Bool) (r : Reader)
      → StandsAt input start 0 r.src
      → (present ≡ true) ⊎ (r.src.bytes_in_buffer ≡ 0)
      → Cached input start (read_header_init present r).src (read_header_init present r).cache
  unfolding read_header_init
  init-Cached present r s p = record {
    here = p;
    there = inr refl;
    begins = inl refl;
    read_from = refl;
    whole = s.filled;
    left = refl;
    within = omega arith;
    block_bytes = λ i h. absurd (omega (arith, h));
    current_bytes = s.rest;
  }

  taken-Cached :
      (n : ℕ) (src : Input) (c : Cache)
      → Cached input start src c
      → n ≤ src.bytes_in_buffer
      → Cached input start
          (record src {
            next_input_byte = src.next_input_byte + n;
            bytes_in_buffer = src.bytes_in_buffer - n;
          })
          c
  taken-Cached n src c k h = record {
    here = k.here;
    there = k.there;
    begins = k.begins;
    read_from = k.read_from;
    whole = k.whole;
    left = omega (arith, k.left);
    within = omega (arith, k.within);
    block_bytes = k.block_bytes;
    current_bytes = k.current_bytes;
  }

  -- The block of `total` bytes with the buffer at hand behind it.
  block-after :
      (heap kept : Mem) (src : Input) (c : Cache)
      → Cached input start src c
      → ((i : ℕ) → i < c.total_buffer_size → kept i ≡ input i)
      → (i : ℕ) → i < c.total_buffer_size + c.last_buffer_size
      → memcpy kept c.total_buffer_size src.memory c.current_start c.last_buffer_size i ≡ input i
  block-after heap kept src c k kept_bytes i h = elim (Bool-cases (ltb i c.total_buffer_size)) [
    | inl e ↦
        memcpy-outside kept c.total_buffer_size src.memory c.current_start c.last_buffer_size i
          (ground (arith, e))
        ∙ kept_bytes i (ground (arith, e))
    | inr e ↦
        let far : c.total_buffer_size ≤ i = ground (arith, e) in
        ap (memcpy kept c.total_buffer_size src.memory c.current_start c.last_buffer_size)
          (omega arith)
        ∙ memcpy-inside kept c.total_buffer_size src.memory c.current_start c.last_buffer_size
            (i - c.total_buffer_size) (omega arith)
        ∙ k.current_bytes (i - c.total_buffer_size) (omega arith)
        ∙ ap input (omega arith)
  ]

  kept_bytes :
      (heap : Mem) (src : Input) (c : Cache)
      → Cached input start src c
      → (i : ℕ) → i < c.total_buffer_size
      → (if c.has_block then memcpy heap 0 c.block 0 c.total_buffer_size else heap) i ≡ input i
  kept_bytes heap src c k i h = elim k.there [
    | inl e ↦
        subst
          (λ (t : Bool).
            (if t then memcpy heap 0 c.block 0 c.total_buffer_size else heap) i ≡ input i)
          (sym e)
          (ap (memcpy heap 0 c.block 0 c.total_buffer_size) (omega arith)
            ∙ memcpy-inside heap 0 c.block 0 c.total_buffer_size i h
            ∙ ap c.block (omega arith)
            ∙ k.block_bytes i h)
    | inr e ↦ absurd (omega (arith, e))
  ]

  -- What the first part of cache_input_buffer leaves.
  record Moved (src : Input) (c c' : Cache) : Type 0 where
    there : (c'.has_block ≡ true) ⊎ (c'.total_buffer_size ≡ 0)
    begins : (c'.total_buffer_size ≡ 0) ⊎ (c'.cache_read ≡ 0)
    total : c'.total_buffer_size ≡ c.total_buffer_size + c.last_buffer_size
    block_bytes : (i : ℕ) → i < c'.total_buffer_size → c'.block i ≡ input i

  cache_current-Moved :
      (heap : Mem) (src : Input) (c : Cache)
      → Cached input start src c
      → Moved src c (cache_current heap src c)
  unfolding cache_current
  cache_current-Moved heap src c k = elim (Bool-cases c.has_current) [
    | inl e ↦ rw e (record {
      there = inl refl;
      begins = inr refl;
      total = refl;
      block_bytes =
          block-after heap
            (if c.has_block then memcpy heap 0 c.block 0 c.total_buffer_size else heap) src c k
            (kept_bytes heap src c k);
    })
    | inr e ↦
        let empty : c.last_buffer_size ≡ 0 = ground (arith, e, k.here) in
        rw e (record {
          there = k.there;
          begins = k.begins;
          total = omega arith;
          block_bytes = k.block_bytes;
        })
  ]

  refilled-Cached :
      (heap : Mem) (r : Reader)
      → Cached input start r.src r.cache
      → Cached input start
          (cache_input_buffer feed heap r).src
          (cache_input_buffer feed heap r).cache
  unfolding cache_input_buffer fill_buffer
  refilled-Cached heap r k =
      let m = cache_current-Moved heap r.src r.cache k in
      record {
        here = inl refl;
        there = m.there;
        begins = m.begins;
        read_from = refl;
        whole = omega (arith, m.total, k.whole, feeds.next r.src.fills);
        left = refl;
        within = omega arith;
        block_bytes = m.block_bytes;
        current_bytes =
            λ i h. feeds.piece r.src.fills i h ∙ ap input (omega (arith, m.total, k.whole));
      }

  HeaderRead-Cached :
      {r r' : Reader}
      → HeaderRead feed r r'
      → Cached input start r.src r.cache
      → Cached input start r'.src r'.cache
  HeaderRead-Cached begun k = k
  HeaderRead-Cached (taken {r'} n h le) k =
      taken-Cached n r'.src r'.cache (HeaderRead-Cached h k) le
  HeaderRead-Cached (refilled {r'} heap h) k = refilled-Cached heap r' (HeaderRead-Cached h k)

  Cached-Pending :
      (src : Input) (c : Cache) → Cached input start src c → Pending input start 0 src c
  Cached-Pending src c k = record {
    within = k.within;
    block_bytes = λ i h. elim k.begins [
      | inl e ↦ absurd (omega (arith, e))
      | inr e ↦ ap c.block (omega (arith, e)) ∙ k.block_bytes i h ∙ ap input (omega arith)
    ];
    current_bytes = λ i h.
        ap (λ (a : ℕ). src.memory (a + i)) k.read_from
        ∙ k.current_bytes i (omega (arith, h))
        ∙ ap input (omega arith);
    stands = record {
      filled = omega (arith, k.whole, k.within);
      rest = λ i h.
          ap src.memory (omega (arith, k.left, k.within))
          ∙ k.current_bytes (c.last_buffer_size - src.bytes_in_buffer + i)
              (omega (arith, h, k.within))
          ∙ ap input (omega arith);
    };
  }

  -- From a source at its first byte whose buffer is empty or there: whatever libjpeg takes while it
  -- reads the header, and however often it asks for more, the reader afterwards begins again at the
  -- first byte that the source had.
  pub header-Reads :
      (present : Bool) (r r' : Reader)
      → StandsAt input start 0 r.src
      → (present ≡ true) ⊎ (r.src.bytes_in_buffer ≡ 0)
      → HeaderRead feed (read_header_init present r) r'
      → Reads input start 0 (read_header_end r')
  unfolding read_header_end
  header-Reads present r r' s p h =
      Cached-Pending r'.src r'.cache (HeaderRead-Cached h (init-Cached present r s p))
