-- ===== src/Jpu/Encoder.antt =====
-- The line buffer protocol of an encoder, round by round and run by run.
use libshjpeg.Base.{
  ℕ, ◌+◌, ◌%◌, ◌≤◌, ◌≡◌, ◌⊎◌, inl, inr, refl, arith, Bool, true, false, not, ◌&&◌, Bool-cases, List,
  [], ◌∷◌,
}
use libshjpeg.Context.{Context}
use libshjpeg.Jpu.State.{Machine, is_positive, has, Event, timeout, irq, flag_encode, start}
use libshjpeg.Jpu.Convert.{shjpeg_convert}
use libshjpeg.Jpu.Interrupts.{
  start_jpu_line, process_jpu_ints, process_irq, next_event, wait_and_process_jpu,
}
use libshjpeg.Jpu.Loops.{wait_if_pending, encode_start, encode_convert, encode_round}
use libshjpeg.Jpu.Run.{
  shjpeg_jpu_run, jpu_run_loop, jpu_run_init, jpu_run_start, jpu_run_resume, jpu_run_result,
}
use libshjpeg.Jpu.Loops.{jpu_encode}
use libshjpeg.Jpu.Cases.{
  amount, is_natural, Holds, Ends, rounds-Ends, Ends-finish, run_cases, other_than_start,
}
use libshjpeg.Jpu.Frames.{shjpeg_convert-SameJpu, shjpeg_convert-counts}

-- The invariant of an encoder: no line buffer is given to the JPU before it is converted, at most
-- one is converted ahead, and at most one is with the JPU.
pub record EncodeInv (m : Machine) : Type 0 where
  pub natural : is_natural m.internal.jpu_line_bufs_pending ≡ true
  pub at_most_one : amount m.internal.jpu_line_bufs_pending ≤ 1
  pub converted_first :
      m.internal.jpu_line_bufs_done + amount m.internal.jpu_line_bufs_pending
      ≤ m.internal.vio_line_bufs_done
  pub alternates : m.internal.jpeg_linebuf ≡ m.internal.jpu_line_bufs_done % 2
  pub one_ahead : m.internal.vio_line_bufs_done ≤ m.internal.jpu_line_bufs_done + 1

pub encode_start-EncodeInv : (m : Machine) → EncodeInv m → EncodeInv (encode_start m)
unfolding encode_start start_jpu_line
encode_start-EncodeInv m v = ground arith

pub encode_convert-EncodeInv :
    (context : Context) (m : Machine) → EncodeInv m → EncodeInv (encode_convert context m)
unfolding encode_convert
encode_convert-EncodeInv context m v =
    ground (arith, shjpeg_convert-SameJpu context m, shjpeg_convert-counts context m)

process_irq-EncodeInv :
    (ints jcderr : ℕ) (m : Machine) (done : Bool)
    → EncodeInv m
    → is_positive m.internal.jpu_line_bufs_pending ≡ true
    → Holds EncodeInv (process_irq ints jcderr m done)
unfolding process_irq process_jpu_ints
process_irq-EncodeInv ints jcderr m done v h = ground arith

next_event-EncodeInv :
    (events : List Event) (m : Machine) (done : Bool)
    → EncodeInv m
    → is_positive m.internal.jpu_line_bufs_pending ≡ true
    → Holds EncodeInv (next_event events m done)
next_event-EncodeInv [] m done v h = v
next_event-EncodeInv (timeout ∷ events) m done v h = record {
  natural = v.natural;
  at_most_one = v.at_most_one;
  converted_first = v.converted_first;
  alternates = v.alternates;
  one_ahead = v.one_ahead;
}
next_event-EncodeInv (irq ints jcderr ∷ events) m done v h =
    process_irq-EncodeInv ints jcderr (record m { events = events }) done
      (record {
        natural = v.natural;
        at_most_one = v.at_most_one;
        converted_first = v.converted_first;
        alternates = v.alternates;
        one_ahead = v.one_ahead;
      })
      h

wait_if_pending-EncodeInv : (m : Machine) → EncodeInv m → Holds EncodeInv (wait_if_pending m)
unfolding wait_if_pending wait_and_process_jpu
wait_if_pending-EncodeInv m v =
    elim (Bool-cases (not m.internal.jpeg_end && is_positive m.internal.jpu_line_bufs_pending)) [
      | inl e ↦ rw e (next_event-EncodeInv m.events m false v (ground arith))
      | inr e ↦ rw e v
    ]

pub encode_round-EncodeInv :
    (context : Context) (m : Machine) → EncodeInv m → Holds EncodeInv (encode_round context m)
unfolding encode_round
encode_round-EncodeInv context m v =
    wait_if_pending-EncodeInv _ (encode_convert-EncodeInv context _ (encode_start-EncodeInv m v))

-- Only the fields of the protocol count.
pub EncodeInv-internal : {m m' : Machine} → m'.internal ≡ m.internal → EncodeInv m → EncodeInv m'
EncodeInv-internal e v = ground arith

jpu_run_result-EncodeInv : (m : Machine) → EncodeInv m → EncodeInv (jpu_run_result m)
unfolding jpu_run_result
jpu_run_result-EncodeInv m v = ground arith

jpu_run_resume-EncodeInv : (m : Machine) → EncodeInv m → EncodeInv (jpu_run_resume m)
unfolding jpu_run_resume
jpu_run_resume-EncodeInv m v = ground arith

shjpeg_convert-EncodeInv :
    (context : Context) (m : Machine)
    → m.internal.jpu_line_bufs_done ≡ m.internal.vio_line_bufs_done
    → EncodeInv m
    → EncodeInv (shjpeg_convert context m)
shjpeg_convert-EncodeInv context m e v =
    ground (arith, shjpeg_convert-SameJpu context m, shjpeg_convert-counts context m)

pub jpu_run_start-EncodeInv :
    (context : Context) (m : Machine)
    → has m.jpeg.flags flag_encode ≡ true
    → EncodeInv (jpu_run_start context m)
unfolding jpu_run_start jpu_run_init
jpu_run_start-EncodeInv context m e = rw e (
    shjpeg_convert-EncodeInv context _ refl (record {
      natural = refl;
      at_most_one = omega arith;
      converted_first = omega arith;
      alternates = refl;
      one_ahead = omega arith;
    }))

pub jpu_run_start-flags :
    (context : Context) (m : Machine) → (jpu_run_start context m).jpeg.flags ≡ m.jpeg.flags
unfolding jpu_run_start jpu_run_init
jpu_run_start-flags context m = ground (arith, shjpeg_convert-SameJpu context (jpu_run_init m))

jpu_run_loop-EncodeInv :
    (fuel : ℕ) (context : Context) (m : Machine)
    → has m.jpeg.flags flag_encode ≡ true
    → EncodeInv m
    → Ends EncodeInv (jpu_run_loop fuel context m)
unfolding jpu_run_loop jpu_encode
jpu_run_loop-EncodeInv fuel context m e v = rw e (
    Ends-finish EncodeInv jpu_run_result-EncodeInv _ (
      rounds-Ends EncodeInv (encode_round context) (encode_round-EncodeInv context) fuel _
        (EncodeInv-internal refl v)))

-- Whenever an encoder's run is called, in the START state or with the invariant in place, the
-- invariant holds of the state in which it ends, be it a return, a timeout or a wait for an
-- interrupt that does not come, after any number of rounds and under any interrupts: the JPU is
-- never given a line buffer that is not converted, at most one is with the JPU, and at most one is
-- converted ahead.
pub shjpeg_jpu_run-EncodeInv :
    (fuel : ℕ) (context : Context) (m : Machine)
    → has m.jpeg.flags flag_encode ≡ true
    → (m.jpeg.state ≡ start) ⊎ EncodeInv m
    → Ends EncodeInv (shjpeg_jpu_run fuel context m)
shjpeg_jpu_run-EncodeInv fuel context m e h =
    run_cases (Ends EncodeInv) fuel context m
      (λ s.
        jpu_run_loop-EncodeInv fuel context _ (rw jpu_run_start-flags e)
          (jpu_run_start-EncodeInv context m e))
      (λ s.
        jpu_run_loop-EncodeInv fuel context _ (unfold jpu_run_resume in e)
          (jpu_run_resume-EncodeInv m (other_than_start (λ p. p) h (inl s))))
      (λ s. other_than_start (λ p. p) h (inr s))
