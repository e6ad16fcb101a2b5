-- ===== src/Jpu/Decoder.antt =====
-- The line buffer protocol of a decoder, round by round and run by run.
use libshjpeg.Base.{
  ℕ, ◌+◌, ◌%◌, ◌≤◌, ◌≡◌, ◌⊎◌, inl, inr, refl, arith, Bool, true, false, not, ◌&&◌, Bool-cases, List,
  [], ◌∷◌, ◌==◌,
}
use libshjpeg.Context.{Context}
use libshjpeg.Jpu.State.{
  Machine, is_positive, has, Event, timeout, irq, flag_convert, flag_encode, start,
}
use libshjpeg.Jpu.Interrupts.{
  start_jpu_line, process_jpu_ints, process_irq, next_event, wait_and_process_jpu,
}
use libshjpeg.Jpu.Loops.{
  wait_if_pending, decode_start, decode_convert, decode_round, Outcome, returned, failed, blocked,
  out_of_fuel, decode_last, jpu_decode,
}
use libshjpeg.Jpu.Run.{
  shjpeg_jpu_run, jpu_run_loop, jpu_run_init, jpu_run_start, jpu_run_resume, jpu_run_result,
}
use libshjpeg.Jpu.Cases.{
  amount, is_natural, Holds, Ends, rounds-Ends, Ends-finish, run_cases, other_than_start,
}
use libshjpeg.Jpu.Frames.{shjpeg_convert-SameJpu, shjpeg_convert-counts, shjpeg_convert-linebuf}

-- The invariant of a decoder that uses the VIO: the converter follows the JPU by at most one line
-- buffer, each side works on the buffer of its count's parity, and at most two are with the JPU.
pub record DecodeInv (m : Machine) : Type 0 where
  pub natural : is_natural m.internal.jpu_line_bufs_pending ≡ true
  pub at_most_two : amount m.internal.jpu_line_bufs_pending ≤ 2
  pub behind : m.internal.vio_line_bufs_done ≤ m.internal.jpu_line_bufs_done
  pub near : m.internal.jpu_line_bufs_done ≤ m.internal.vio_line_bufs_done + 1
  pub jpu_side : m.internal.jpeg_linebuf ≡ m.internal.jpu_line_bufs_done % 2
  pub vio_side : m.internal.vio_linebuf ≡ m.internal.vio_line_bufs_done % 2
  pub uses_vio : has m.jpeg.flags flag_convert ≡ true

decode_start-DecodeInv : (m : Machine) → DecodeInv m → DecodeInv (decode_start m)
unfolding decode_start start_jpu_line
decode_start-DecodeInv m v = ground arith

-- After the conversion of a round the converter has caught up.
decode_convert-DecodeInv :
    (context : Context) (m : Machine)
    → DecodeInv m
    → DecodeInv (decode_convert context m)
      × ((decode_convert context m).internal.jpu_line_bufs_done
          ≡ (decode_convert context m).internal.vio_line_bufs_done)
unfolding decode_convert
decode_convert-DecodeInv context m v = ground (
  arith,
  shjpeg_convert-SameJpu context m,
  shjpeg_convert-counts context m,
  shjpeg_convert-linebuf context m,
)

process_irq-DecodeInv :
    (ints jcderr : ℕ) (m : Machine) (done : Bool)
    → DecodeInv m
    → m.internal.jpu_line_bufs_done ≡ m.internal.vio_line_bufs_done
    → is_positive m.internal.jpu_line_bufs_pending ≡ true
    → Holds DecodeInv (process_irq ints jcderr m done)
unfolding process_irq process_jpu_ints
process_irq-DecodeInv ints jcderr m done v e h = ground arith

-- Only the driver's state and the flags count.
pub DecodeInv-internal :
    {m m' : Machine}
    → m'.internal ≡ m.internal
    → m'.jpeg.flags ≡ m.jpeg.flags
    → DecodeInv m
    → DecodeInv m'
DecodeInv-internal e e' v = ground arith

next_event-DecodeInv :
    (events : List Event) (m : Machine) (done : Bool)
    → DecodeInv m
    → m.internal.jpu_line_bufs_done ≡ m.internal.vio_line_bufs_done
    → is_positive m.internal.jpu_line_bufs_pending ≡ true
    → Holds DecodeInv (next_event events m done)
next_event-DecodeInv [] m done v e h = v
next_event-DecodeInv (timeout ∷ events) m done v e h = DecodeInv-internal refl refl v
next_event-DecodeInv (irq ints jcderr ∷ events) m done v e h =
    process_irq-DecodeInv ints jcderr (record m { events = events }) done
      (DecodeInv-internal refl refl v) e h

decode_round-DecodeInv :
    (context : Context) (m : Machine) → DecodeInv m → Holds DecodeInv (decode_round context m)
unfolding decode_round wait_if_pending wait_and_process_jpu
decode_round-DecodeInv context m v =
    let c = decode_convert-DecodeInv context _ (decode_start-DecodeInv m v) in
    waits (decode_convert context (decode_start m)) c.0 c.1
  where
    waits :
        (m' : Machine)
        → DecodeInv m'
        → m'.internal.jpu_line_bufs_done ≡ m'.internal.vio_line_bufs_done
        → Holds DecodeInv (wait_if_pending m')
    waits m' w e =
        elim (Bool-cases
          (not m'.internal.jpeg_end && is_positive m'.internal.jpu_line_bufs_pending)) [
            | inl p ↦ rw p (next_event-DecodeInv m'.events m' false w e (ground arith))
            | inr p ↦ rw p w
          ]

decode_last-DecodeInv :
    (context : Context) (o : Outcome) → Ends DecodeInv o → Ends DecodeInv (decode_last context o)
decode_last-DecodeInv context (returned m) v = elim (Bool-cases (m.internal.jpeg_error == 0)) [
  | inl p ↦ rw p ((decode_convert-DecodeInv context m v).0)
  | inr p ↦ rw p v
]
decode_last-DecodeInv context (failed m) v = v
decode_last-DecodeInv context (blocked m) v = v
decode_last-DecodeInv context (out_of_fuel m) v = v

jpu_run_result-DecodeInv : (m : Machine) → DecodeInv m → DecodeInv (jpu_run_result m)
unfolding jpu_run_result
jpu_run_result-DecodeInv m v = ground arith

jpu_run_loop-DecodeInv :
    (fuel : ℕ) (context : Context) (m : Machine)
    → has m.jpeg.flags flag_encode ≡ false
    → DecodeInv m
    → Ends DecodeInv (jpu_run_loop fuel context m)
unfolding jpu_run_loop jpu_decode
jpu_run_loop-DecodeInv fuel context m e v = rw e (
    Ends-finish DecodeInv jpu_run_result-DecodeInv _ (
      decode_last-DecodeInv context _ (
        rounds-Ends DecodeInv (decode_round context) (decode_round-DecodeInv context) fuel _
          (DecodeInv-internal refl refl v))))

jpu_run_start-DecodeInv :
    (context : Context) (m : Machine)
    → has m.jpeg.flags flag_encode ≡ false
    → has m.jpeg.flags flag_convert ≡ true
    → DecodeInv (jpu_run_start context m)
unfolding jpu_run_start jpu_run_init
jpu_run_start-DecodeInv context m e c = rw e (record {
  natural = refl;
  at_most_two = omega arith;
  behind = omega arith;
  near = omega arith;
  jpu_side = refl;
  vio_side = refl;
  uses_vio = c;
})

jpu_run_start-flags :
    (context : Context) (m : Machine) → (jpu_run_start context m).jpeg.flags ≡ m.jpeg.flags
unfolding jpu_run_start jpu_run_init
jpu_run_start-flags context m = ground (arith, shjpeg_convert-SameJpu context (jpu_run_init m))

-- Whenever a run of a decoder that converts through the VIO is called, in the START state or with
-- the invariant in place, the invariant holds of the state in which it ends, whatever the interrupts
-- and the number of rounds: the VIO has converted all line buffers that the JPU has finished but at
-- most the last one, and each side stands at the line buffer of its count's parity.
pub shjpeg_jpu_run-DecodeInv :
    (fuel : ℕ) (context : Context) (m : Machine)
    → has m.jpeg.flags flag_encode ≡ false
    → has m.jpeg.flags flag_convert ≡ true
    → (m.jpeg.state ≡ start) ⊎ DecodeInv m
    → Ends DecodeInv (shjpeg_jpu_run fuel context m)
shjpeg_jpu_run-DecodeInv fuel context m e c h =
    run_cases (Ends DecodeInv) fuel context m
      (λ s.
        jpu_run_loop-DecodeInv fuel context _ (rw jpu_run_start-flags e)
          (jpu_run_start-DecodeInv context m e c))
      (λ s.
        jpu_run_loop-DecodeInv fuel context _ (unfold jpu_run_resume in e)
          (resumed (other_than_start (λ p. p) h (inl s))))
      (λ s. other_than_start (λ p. p) h (inr s))
  where
    resumed : DecodeInv m → DecodeInv (jpu_run_resume m)
    resumed v = unfold jpu_run_resume in ground arith
