-- ===== src/Jpu/Total.antt =====
-- With finitely many interrupts to come, the driver's loops end: enough fuel is never used up.
use libshjpeg.Base.{
  ℕ, suc, ◌+◌, ◌*◌, ◌<◌, ◌≡◌, ◌⊎◌, inl, inr, refl, arith, true, false, not, ◌&&◌, if◌then◌else◌,
  Bool-cases, List, [], ◌∷◌, ltb, ◌==◌,
}
use libshjpeg.Context.{Context}
use libshjpeg.Jpu.State.{
  Machine, is_positive, has, Event, timeout, irq, flag_convert, flag_softconvert,
}
use libshjpeg.Jpu.Interrupts.{
  start_jpu_line, process_jpu_ints, process_irq, Waited, processed, timed_out, starved, next_event,
  wait_and_process_jpu,
}
use libshjpeg.Jpu.Loops.{
  wait_if_pending, encode_start, encode_convert, encode_round, decode_start, decode_convert,
  decode_round, rounds,
}
use libshjpeg.Jpu.Cases.{is_natural, Progress, IsOver, rounds-IsOver}
use libshjpeg.Jpu.Encoder.{
  EncodeInv, encode_start-EncodeInv, encode_convert-EncodeInv, EncodeInv-internal,
}
use libshjpeg.Jpu.Frames.{shjpeg_convert-SameJpu, shjpeg_convert-counts}

abbrev pub length {ℓ} : {A : Type ℓ} → List A → ℕ
length [] = 0
length (x ∷ xs) = suc (length xs)

-- What a decoder needs in order to wait in each round.
pub record Waits (m : Machine) : Type 0 where
  pub natural : is_natural m.internal.jpu_line_bufs_pending ≡ true
  pub running : m.internal.jpeg_end ≡ false

abbrev pub events_left : Machine → ℕ
events_left m = length m.events

process_irq-Waits :
    (ints jcderr : ℕ) (m : Machine)
    → Waits m
    → is_positive m.internal.jpu_line_bufs_pending ≡ true
    → Progress Waits events_left (suc (events_left m)) (process_irq ints jcderr m false)
unfolding process_irq process_jpu_ints
process_irq-Waits ints jcderr m v h = ground arith

next_event-Waits :
    (events : List Event) (m : Machine)
    → Waits m
    → is_positive m.internal.jpu_line_bufs_pending ≡ true
    → Progress Waits events_left (length events) (next_event events m false)
next_event-Waits [] m v h = tt
next_event-Waits (timeout ∷ events) m v h = tt
next_event-Waits (irq ints jcderr ∷ events) m v h =
    process_irq-Waits ints jcderr (record m { events = events })
      (record { natural = v.natural; running = v.running }) h

decode_before :
    (context : Context) (m : Machine)
    → Waits m
    → let m' = decode_convert context (decode_start m) in
      Waits m' × (is_positive m'.internal.jpu_line_bufs_pending ≡ true) × (m'.events ≡ m.events)
unfolding decode_convert decode_start start_jpu_line
decode_before context m v = (
  record {
    natural = ground (arith, shjpeg_convert-SameJpu context (decode_start m));
    running = ground (arith, shjpeg_convert-SameJpu context (decode_start m));
  },
  ground (arith, shjpeg_convert-SameJpu context (decode_start m)),
  ground (arith, shjpeg_convert-SameJpu context (decode_start m)),
)

decode_round-Progress :
    (context : Context) (m : Machine)
    → Waits m
    → Progress Waits events_left (events_left m) (decode_round context m)
unfolding decode_round wait_if_pending wait_and_process_jpu
decode_round-Progress context m v =
    let c = decode_before context m v in waits (decode_convert context (decode_start m)) c.0 c.1 c.2
  where
    waits :
        (m' : Machine)
        → Waits m'
        → is_positive m'.internal.jpu_line_bufs_pending ≡ true
        → m'.events ≡ m.events
        → Progress Waits events_left (events_left m) (wait_if_pending m')
    waits m' w p e =
        let both : (not m'.internal.jpeg_end && is_positive m'.internal.jpu_line_bufs_pending)
            ≡ true =
          ground arith in
        rw (both, ← e) (next_event-Waits m'.events m' w p)

-- A decoder's loop, with more rounds allowed than there are interrupts to come, ends.
pub decode_rounds-IsOver :
    (fuel : ℕ) (context : Context) (m : Machine)
    → Waits m
    → events_left m < fuel
    → IsOver (rounds (decode_round context) fuel m)
decode_rounds-IsOver fuel context m v h =
    rounds-IsOver Waits events_left (decode_round context) (decode_round-Progress context) fuel m v
      h

-- What an encoder needs: its conversions make progress.
pub record Feeds (m : Machine) : Type 0 where
  pub protocol : EncodeInv m
  pub running : m.internal.jpeg_end ≡ false
  pub advances :
      (has m.jpeg.flags flag_convert ≡ true) ⊎ (has m.jpeg.flags flag_softconvert ≡ false)

-- A round without a wait is followed by one with a wait.
abbrev pub rounds_left : Machine → ℕ
rounds_left m =
    2 * length m.events
    + (if m.internal.jpu_line_bufs_done == m.internal.vio_line_bufs_done then 1 else 0)

process_irq-Feeds :
    (ints jcderr : ℕ) (m : Machine)
    → Feeds m
    → is_positive m.internal.jpu_line_bufs_pending ≡ true
    → Progress Feeds rounds_left (2 * length m.events + 2) (process_irq ints jcderr m false)
unfolding process_irq process_jpu_ints
process_irq-Feeds ints jcderr m v h = ground arith

next_event-Feeds :
    (events : List Event) (m : Machine)
    → Feeds m
    → is_positive m.internal.jpu_line_bufs_pending ≡ true
    → Progress Feeds rounds_left (2 * length events) (next_event events m false)
next_event-Feeds [] m v h = tt
next_event-Feeds (timeout ∷ events) m v h = tt
next_event-Feeds (irq ints jcderr ∷ events) m v h =
    let e : 2 * length events + 2 ≡ 2 * suc (length events) = omega arith in
    rw (← e) (
      process_irq-Feeds ints jcderr (record m { events = events })
        (record {
          protocol = EncodeInv-internal refl v.protocol;
          running = v.running;
          advances = v.advances;
        })
        h)

-- After the conversion of a round, a line buffer waits to be encoded or is being encoded.
record Fed (m m' : Machine) : Type 0 where
  feeds : Feeds m'
  converted : ltb m'.internal.jpu_line_bufs_done m'.internal.vio_line_bufs_done ≡ true
  same_events : m'.events ≡ m.events
  starts :
      (is_positive m'.internal.jpu_line_bufs_pending ≡ true)
      ⊎ ((m.internal.jpu_line_bufs_done == m.internal.vio_line_bufs_done) ≡ true)

encode_before :
    (context : Context) (m : Machine) → Feeds m → Fed m (encode_convert context (encode_start m))
unfolding encode_convert encode_start start_jpu_line
encode_before context m v = record {
  feeds = record {
    protocol = encode_convert-EncodeInv context _ (encode_start-EncodeInv m v.protocol);
    running = ground (arith, shjpeg_convert-SameJpu context (encode_start m));
    advances = ground (arith, shjpeg_convert-SameJpu context (encode_start m));
  };
  converted = ground (
    arith,
    shjpeg_convert-SameJpu context (encode_start m),
    shjpeg_convert-counts context (encode_start m),
  );
  same_events = ground (arith, shjpeg_convert-SameJpu context (encode_start m));
  starts = ground (arith, shjpeg_convert-SameJpu context (encode_start m));
}

wait_if_pending-Progress :
    (m m' : Machine) → Fed m m' → Progress Feeds rounds_left (rounds_left m) (wait_if_pending m')
unfolding wait_if_pending wait_and_process_jpu
wait_if_pending-Progress m m' f =
    elim (Bool-cases (is_positive m'.internal.jpu_line_bufs_pending)) [
      | inl p ↦
          let both : (not m'.internal.jpeg_end && is_positive m'.internal.jpu_line_bufs_pending)
              ≡ true =
            ground (arith, f.feeds) in
          rw both (weaken (next_event m'.events m' false) (next_event-Feeds m'.events m' f.feeds p))
      | inr p ↦
          let none : (not m'.internal.jpeg_end && is_positive m'.internal.jpu_line_bufs_pending)
              ≡ false =
            ground arith in
          rw none (f.feeds, ground (arith, f))
    ]
  where
    weaken :
        (w : Waited)
        → Progress Feeds rounds_left (2 * length m'.events) w
        → Progress Feeds rounds_left (rounds_left m) w
    weaken (processed n true) q = tt
    weaken (processed n false) q = (q.0, ground (arith, f.same_events, q.1))
    weaken (timed_out n) q = tt
    weaken (starved n) q = tt

encode_round-Progress :
    (context : Context) (m : Machine)
    → Feeds m
    → Progress Feeds rounds_left (rounds_left m) (encode_round context m)
unfolding encode_round
encode_round-Progress context m v = wait_if_pending-Progress m _ (encode_before context m v)

pub encode_rounds-IsOver :
    (fuel : ℕ) (context : Context) (m : Machine)
    → Feeds m
    → rounds_left m < fuel
    → IsOver (rounds (encode_round context) fuel m)
encode_rounds-IsOver fuel context m v h =
    rounds-IsOver Feeds rounds_left (encode_round context) (encode_round-Progress context) fuel m v
      h
