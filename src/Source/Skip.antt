-- ===== src/Source/Skip.antt =====
-- Skipping input: it ends, and moves on by the bytes asked for.
use libshjpeg.Base.{
  ℕ, zero, suc, ◌+◌, ◌-◌, ◌≤◌, ◌<◌, ◌≡◌, refl, arith, ap, ltb, ◌==◌, not, ◌||◌, if◌then◌else◌,
  Bool-cases, inl, inr, some,
}
use libshjpeg.Source.{Stream, Source, fill_input_buffer, skip_input_data}

-- The bytes that the n-th call for more input makes available.
abbrev pub fill_len : Stream → ℕ → ℕ
fill_len stream n =
    if not stream.has_read || ((stream.read n).failed || (stream.read n).len == 0)
    then 2
    else (stream.read n).len

-- The bytes of `k` calls from the n-th on.
abbrev pub delivered : Stream → ℕ → ℕ → ℕ
delivered stream n zero = 0
delivered stream n (suc k) = fill_len stream n + delivered stream (n + 1) k

fill_input_buffer-len :
    (stream : Stream) (src : Source)
    → ((fill_input_buffer stream src).bytes_in_buffer ≡ fill_len stream src.fills)
      × ((fill_input_buffer stream src).fills ≡ src.fills + 1)
      × (1 ≤ fill_len stream src.fills)
unfolding fill_input_buffer
fill_input_buffer-len stream src = (ground arith, ground arith, ground arith)

-- The source after `k` more calls for input, of which nothing is taken.
abbrev pub refilled : ℕ → Stream → Source → Source
refilled zero stream src = src
refilled (suc k) stream src = refilled k stream (fill_input_buffer stream src)

-- A skip that ends after `fills` more calls for input: it stands in the buffer of the last of them, and
-- the rest of that buffer, from the next byte to its end, is still to be read.
pub record Skipped (stream : Stream) (num_bytes : ℕ) (src src' : Source) : Type 0 where
  pub fills : ℕ
  pub asked : src'.fills ≡ src.fills + fills
  pub exact :
      src.bytes_in_buffer + delivered stream src.fills fills ≡ num_bytes + src'.bytes_in_buffer
  pub last_buffer : src'.buffer ≡ (refilled fills stream src).buffer
  pub to_end :
      src'.next_input_byte + src'.bytes_in_buffer
      ≡ (refilled fills stream src).next_input_byte + (refilled fills stream src).bytes_in_buffer

Skipped-after :
    (stream : Stream) (num_bytes : ℕ) (src src' : Source)
    → src.bytes_in_buffer < num_bytes
    → Skipped stream (num_bytes - src.bytes_in_buffer) (fill_input_buffer stream src) src'
    → Skipped stream num_bytes src src'
Skipped-after stream num_bytes src src' h s =
    let f = fill_input_buffer-len stream src in
    let e : delivered stream (fill_input_buffer stream src).fills s.fills
        ≡ delivered stream (src.fills + 1) s.fills =
      ap (λ (n : ℕ). delivered stream n s.fills) (f.1) in
    record {
      fills = suc s.fills;
      asked = omega (arith, s.asked, f);
      exact = omega (arith, s.exact, f, e);
      last_buffer = s.last_buffer;
      to_end = s.to_end;
    }

abbrev Ends : ℕ → Stream → ℕ → Source → Type 0
Ends fuel stream num_bytes src =
    (src' : Source) × (skip_input_data fuel stream num_bytes src ≡ some src')
    × Skipped stream num_bytes src src'

Ends-step :
    (fuel : ℕ) (stream : Stream) (num_bytes : ℕ) (src : Source)
    → (src.bytes_in_buffer < num_bytes
        → Ends fuel stream (num_bytes - src.bytes_in_buffer) (fill_input_buffer stream src))
    → Ends (suc fuel) stream num_bytes src
unfolding skip_input_data
Ends-step fuel stream num_bytes src later = elim (Bool-cases (ltb src.bytes_in_buffer num_bytes)) [
  | inl e ↦
      let r = later (ground arith) in
      (r.0, rw e (r.1), Skipped-after stream num_bytes src (r.0) (ground arith) (r.2))
  | inr e ↦ (
    record src {
      next_input_byte = src.next_input_byte + num_bytes;
      bytes_in_buffer = src.bytes_in_buffer - num_bytes;
    },
    rw e refl,
    record {
      fills = 0;
      asked = omega arith;
      exact = ground arith;
      last_buffer = refl;
      to_end = ground (arith, e);
    },
  )
]

-- Once the buffer is not empty, each round makes progress.
Ends-filled :
    (fuel : ℕ) (stream : Stream) (num_bytes : ℕ) (src : Source)
    → 1 ≤ src.bytes_in_buffer
    → num_bytes < fuel
    → Ends fuel stream num_bytes src
Ends-filled zero stream num_bytes src filled h = absurd (omega arith)
Ends-filled (suc fuel) stream num_bytes src filled h = Ends-step fuel stream num_bytes src (λ more.
    Ends-filled fuel stream (num_bytes - src.bytes_in_buffer) (fill_input_buffer stream src)
      (omega (arith, fill_input_buffer-len stream src)) (omega (arith, more)))

-- Skipping `num_bytes` of any stream ends within `num_bytes + 2` rounds, also where the stream fails
-- or is at its end or the buffer is empty. It consumes exactly `num_bytes` bytes of the buffer and of
-- what it reads, and then stands in the last buffer read, at the first byte that it has not consumed.
pub skip_input_data-Skipped :
    (fuel : ℕ) (stream : Stream) (num_bytes : ℕ) (src : Source)
    → num_bytes + 1 < fuel
    → (src' : Source) × (skip_input_data fuel stream num_bytes src ≡ some src')
      × Skipped stream num_bytes src src'
skip_input_data-Skipped zero stream num_bytes src h = absurd (omega arith)
skip_input_data-Skipped (suc fuel) stream num_bytes src h =
    Ends-step fuel stream num_bytes src (λ more.
      Ends-filled fuel stream (num_bytes - src.bytes_in_buffer) (fill_input_buffer stream src)
        (omega (arith, fill_input_buffer-len stream src)) (omega (arith, more)))
