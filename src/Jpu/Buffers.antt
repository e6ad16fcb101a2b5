-- ===== src/Jpu/Buffers.antt =====
-- src/shjpeg_jpu.c: which of the two reload buffers is valid for the driver, and which is the
-- caller's.
use libshjpeg.Base.{
  ℕ, ◌+◌, ◌%◌, ◌<◌, ◌≡◌, ◌⊎◌, inl, inr, refl, arith, Bool, false, not, ◌&&◌, Bool-cases, List, [],
  ◌∷◌, bit_or, bit_xor, bit_or_halves, bit_or-zero, ◌==◌, ◌-◌, ◌/◌, ◌^◌,
}
use libshjpeg.Context.{Context}
use libshjpeg.Jpu.State.{
  Machine, Internal, is_positive, has, Event, timeout, irq, flag_encode, start, end, clear_bit,
}
use libshjpeg.Jpu.Convert.{shjpeg_convert}
use libshjpeg.Jpu.Interrupts.{
  start_jpu_line, process_jpu_ints, process_irq, next_event, wait_and_process_jpu, finish_buffer,
}
use libshjpeg.Jpu.Loops.{
  wait_if_pending, encode_start, encode_convert, encode_round, decode_start, decode_convert,
  decode_round, Outcome, returned, failed, blocked, out_of_fuel, decode_last, jpu_decode,
  jpu_encode,
}
use libshjpeg.Jpu.Run.{
  shjpeg_jpu_run, jpu_run_loop, jpu_run_init, jpu_run_start, jpu_run_resume, jpu_run_result,
  jpu_run_finish,
}
use libshjpeg.Jpu.Cases.{Holds, Ends, rounds-Ends, run_cases, other_than_start}
use libshjpeg.Jpu.Frames.{shjpeg_convert-SameJpu}

-- There are two reload buffers: a set of them is a number below 4.
pub record BufferInv (m : Machine) : Type 0 where
  pub valid : m.internal.jpeg_buffers < 4
  pub current : m.internal.jpeg_buffer < 2
  pub callers : m.jpeg.buffers < 4

-- A set of reload buffers, one by one.
below_four : (b : ℕ) → b < 4 → (b ≡ 0) ⊎ ((b ≡ 1) ⊎ ((b ≡ 2) ⊎ (b ≡ 3)))
below_four b h = omega arith

below_two : (k : ℕ) → k < 2 → (k ≡ 0) ⊎ (k ≡ 1)
below_two k h = omega arith

pub by_four : (P : ℕ → Type 0) → P 0 → P 1 → P 2 → P 3 → (b : ℕ) → b < 4 → P b
by_four P p0 p1 p2 p3 b h = elim (below_four b h) [
  | inl e ↦ rw e p0
  | inr (inl e) ↦ rw e p1
  | inr (inr (inl e)) ↦ rw e p2
  | inr (inr (inr e)) ↦ rw e p3
]

clear_bit-lt : (b k : ℕ) → b < 4 → k < 2 → clear_bit b k < 4
unfolding clear_bit
clear_bit-lt b k h h' = elim (below_two k h') [
  | inl e ↦ rw e (
      by_four (λ (x : ℕ). clear_bit x 0 < 4) (omega arith) (omega arith) (omega arith) (omega arith)
        b h)
  | inr e ↦ rw e (
      by_four (λ (x : ℕ). clear_bit x 1 < 4) (omega arith) (omega arith) (omega arith) (omega arith)
        b h)
]

-- The complement within two bits.
complement : (b : ℕ) → b < 4 → bit_xor b 3 ≡ 3 - b
complement = by_four (λ b. bit_xor b 3 ≡ 3 - b) refl refl refl refl

bit_or-lt : (a b : ℕ) → a < 4 → b < 4 → bit_or a b < 4
bit_or-lt a b h h' =
    let a0 : a / 2 / 2 ≡ 0 = omega arith in
    let b0 : b / 2 / 2 ≡ 0 = omega arith in
    let top : bit_or (a / 2 / 2) (b / 2 / 2) ≡ 0 = rw (a0, b0) (bit_or-zero 0) in
    omega (arith, bit_or_halves a b, bit_or_halves (a / 2) (b / 2), top)

finish_buffer-lt :
    (d : Internal)
    → d.jpeg_buffers < 4
    → d.jpeg_buffer < 2
    → ((finish_buffer d).jpeg_buffers < 4) × ((finish_buffer d).jpeg_buffer < 2)
finish_buffer-lt d h h' = (clear_bit-lt d.jpeg_buffers d.jpeg_buffer h h', omega arith)

process_jpu_ints-lt :
    (ints jcderr : ℕ) (d : Internal) (done : Bool)
    → d.jpeg_buffers < 4
    → d.jpeg_buffer < 2
    → ((process_jpu_ints ints jcderr d done).0.jpeg_buffers < 4)
      × ((process_jpu_ints ints jcderr d done).0.jpeg_buffer < 2)
unfolding process_jpu_ints
process_jpu_ints-lt ints jcderr d done h h' =
    let once = clear_bit-lt d.jpeg_buffers d.jpeg_buffer h h' in
    let twice =
      clear_bit-lt (clear_bit d.jpeg_buffers d.jpeg_buffer) ((d.jpeg_buffer + 1) % 2) once
        (omega arith) in
    (ground arith, ground arith)

process_irq-BufferInv :
    (ints jcderr : ℕ) (m : Machine) (done : Bool)
    → BufferInv m
    → Holds BufferInv (process_irq ints jcderr m done)
unfolding process_irq
process_irq-BufferInv ints jcderr m done v =
    ground (arith, process_jpu_ints-lt ints jcderr m.internal done v.valid v.current)

BufferInv-same :
    {m m' : Machine}
    → m'.internal ≡ m.internal
    → m'.jpeg.buffers ≡ m.jpeg.buffers
    → BufferInv m
    → BufferInv m'
BufferInv-same e e' v = ground arith

next_event-BufferInv :
    (events : List Event) (m : Machine) (done : Bool)
    → BufferInv m
    → Holds BufferInv (next_event events m done)
next_event-BufferInv [] m done v = v
next_event-BufferInv (timeout ∷ events) m done v = BufferInv-same refl refl v
next_event-BufferInv (irq ints jcderr ∷ events) m done v =
    process_irq-BufferInv ints jcderr (record m { events = events }) done
      (BufferInv-same refl refl v)

wait_if_pending-BufferInv : (m : Machine) → BufferInv m → Holds BufferInv (wait_if_pending m)
unfolding wait_if_pending wait_and_process_jpu
wait_if_pending-BufferInv m v =
    elim (Bool-cases (not m.internal.jpeg_end && is_positive m.internal.jpu_line_bufs_pending)) [
      | inl e ↦ rw e (next_event-BufferInv m.events m false v)
      | inr e ↦ rw e v
    ]

shjpeg_convert-BufferInv :
    (context : Context) (m : Machine) → BufferInv m → BufferInv (shjpeg_convert context m)
shjpeg_convert-BufferInv context m v = ground (arith, shjpeg_convert-SameJpu context m)

encode_round-BufferInv :
    (context : Context) (m : Machine) → BufferInv m → Holds BufferInv (encode_round context m)
unfolding encode_round encode_convert encode_start start_jpu_line
encode_round-BufferInv context m v =
    wait_if_pending-BufferInv _ (ground (arith, shjpeg_convert-SameJpu context (encode_start m)))

decode_convert-BufferInv :
    (context : Context) (m : Machine) → BufferInv m → BufferInv (decode_convert context m)
unfolding decode_convert
decode_convert-BufferInv context m v = ground (arith, shjpeg_convert-SameJpu context m)

decode_start-BufferInv : (m : Machine) → BufferInv m → BufferInv (decode_start m)
unfolding decode_start start_jpu_line
decode_start-BufferInv m v = ground arith

decode_round-BufferInv :
    (context : Context) (m : Machine) → BufferInv m → Holds BufferInv (decode_round context m)
unfolding decode_round
decode_round-BufferInv context m v =
    wait_if_pending-BufferInv _ (decode_convert-BufferInv context _ (decode_start-BufferInv m v))

decode_last-BufferInv :
    (context : Context) (o : Outcome) → Ends BufferInv o → Ends BufferInv (decode_last context o)
decode_last-BufferInv context (returned m) v = elim (Bool-cases (m.internal.jpeg_error == 0)) [
  | inl p ↦ rw p (decode_convert-BufferInv context m v)
  | inr p ↦ rw p v
]
decode_last-BufferInv context (failed m) v = v
decode_last-BufferInv context (blocked m) v = v
decode_last-BufferInv context (out_of_fuel m) v = v

jpu_run_start-BufferInv :
    (context : Context) (m : Machine) → m.jpeg.buffers < 4 → BufferInv (jpu_run_start context m)
unfolding jpu_run_start jpu_run_init
jpu_run_start-BufferInv context m h =
    ground (arith, shjpeg_convert-SameJpu context (jpu_run_init m))

jpu_run_resume-BufferInv : (m : Machine) → BufferInv m → BufferInv (jpu_run_resume m)
unfolding jpu_run_resume
jpu_run_resume-BufferInv m v = record {
  valid = bit_or-lt m.internal.jpeg_buffers m.jpeg.buffers v.valid v.callers;
  current = v.current;
  callers = v.callers;
}

-- Where a run returns and the coding goes on, each reload buffer is either valid for the driver or
-- the caller's to load or to empty, and no buffer is both.
pub record Shared (m : Machine) : Type 0 where
  pub buffers : BufferInv m
  pub divided : (m.jpeg.state ≡ end) ⊎ (m.jpeg.buffers + m.internal.jpeg_buffers ≡ 3)

abbrev pub Divided : Outcome → Type 0
Divided (returned m) = Shared m
Divided (failed m) = BufferInv m
Divided (blocked m) = BufferInv m
Divided (out_of_fuel m) = BufferInv m

jpu_run_result-Shared : (m : Machine) → BufferInv m → Shared (jpu_run_result m)
unfolding jpu_run_result
jpu_run_result-Shared m v =
    let c = complement m.internal.jpeg_buffers v.valid in
    let power : 2 ^ m.internal.jpeg_buffer < 4 = elim (below_two m.internal.jpeg_buffer v.current) [
      | inl e ↦ rw e (omega arith)
      | inr e ↦ rw e (omega arith)
    ] in
    let last =
      bit_or-lt (bit_xor m.internal.jpeg_buffers 3) (2 ^ m.internal.jpeg_buffer) (omega (arith, c))
        power in
    record { buffers = ground (arith, c, last, v); divided = ground (arith, c, v) }

Divided-finish : (o : Outcome) → Ends BufferInv o → Divided (jpu_run_finish o)
Divided-finish (returned m) v = jpu_run_result-Shared m v
Divided-finish (failed m) v = v
Divided-finish (blocked m) v = v
Divided-finish (out_of_fuel m) v = v

jpu_run_loop-Divided :
    (fuel : ℕ) (context : Context) (m : Machine)
    → BufferInv m
    → Divided (jpu_run_loop fuel context m)
unfolding jpu_run_loop jpu_encode jpu_decode
jpu_run_loop-Divided fuel context m v = elim (Bool-cases (has m.jpeg.flags flag_encode)) [
  | inl e ↦ rw e (
      Divided-finish _ (
        rounds-Ends BufferInv (encode_round context) (encode_round-BufferInv context) fuel _
          (BufferInv-same refl refl v)))
  | inr e ↦ rw e (
      Divided-finish _ (
        decode_last-BufferInv context _ (
          rounds-Ends BufferInv (decode_round context) (decode_round-BufferInv context) fuel _
            (BufferInv-same refl refl v))))
]

-- Both for encoders and decoders, a run called in the START state with a set of reload buffers, or
-- with the sets in bounds, keeps them in bounds; and where it returns without being at its end,
-- each of the two reload buffers is either valid for the driver or handed to the caller, and none
-- is both.
pub shjpeg_jpu_run-Divided :
    (fuel : ℕ) (context : Context) (m : Machine)
    → ((m.jpeg.state ≡ start) × (m.jpeg.buffers < 4)) ⊎ BufferInv m
    → Divided (shjpeg_jpu_run fuel context m)
shjpeg_jpu_run-Divided fuel context m h =
    run_cases Divided fuel context m
      (λ s. jpu_run_loop-Divided fuel context _ (jpu_run_start-BufferInv context m bound))
      (λ s.
        jpu_run_loop-Divided fuel context _
          (jpu_run_resume-BufferInv m (other_than_start (λ p. p.0) h (inl s))))
      (λ s. other_than_start (λ p. p.0) h (inr s))
  where
    bound : m.jpeg.buffers < 4
    bound = elim h [ inl p ↦ p.1 | inr v ↦ v.callers ]
