-- ===== src/Jpu/Finishes.antt =====
-- src/shjpeg_jpu.c: a run ends when the interrupts to come are finitely many.
use libshjpeg.Base.{ℕ, ◌+◌, ◌*◌, ◌<◌, ◌≡◌, ◌⊎◌, inl, inr, refl, arith, true, false, Bool-cases}
use libshjpeg.Context.{Context}
use libshjpeg.Jpu.State.{Machine, has, flag_convert, flag_softconvert, flag_encode, start}
use libshjpeg.Jpu.Loops.{
  Outcome, returned, failed, blocked, out_of_fuel, decode_last, jpu_decode, jpu_encode,
}
use libshjpeg.Jpu.Run.{
  shjpeg_jpu_run, jpu_run_loop, jpu_run_init, jpu_run_start, jpu_run_resume, jpu_run_finish,
}
use libshjpeg.Jpu.Cases.{is_natural, IsOver, run_cases, other_than_start}
use libshjpeg.Jpu.Encoder.{
  EncodeInv, EncodeInv-internal, jpu_run_start-EncodeInv, jpu_run_start-flags,
}
use libshjpeg.Jpu.Total.{length, decode_rounds-IsOver, encode_rounds-IsOver}
use libshjpeg.Jpu.Frames.{shjpeg_convert-SameJpu}

-- A run in progress: not at its end, with the invariant of its direction.
pub record InProgress (m : Machine) : Type 0 where
  pub natural : is_natural m.internal.jpu_line_bufs_pending ≡ true
  pub running : m.internal.jpeg_end ≡ false
  pub encoder : (has m.jpeg.flags flag_encode ≡ false) ⊎ EncodeInv m

-- An encoder's conversions always make progress; a software conversion stops at the last line.
pub record Advances (m : Machine) : Type 0 where
  pub encoder :
      (has m.jpeg.flags flag_encode ≡ false)
      ⊎ ((has m.jpeg.flags flag_convert ≡ true) ⊎ (has m.jpeg.flags flag_softconvert ≡ false))

IsOver-decode_last : (context : Context) (o : Outcome) → IsOver o → IsOver (decode_last context o)
IsOver-decode_last context (returned m) h = tt
IsOver-decode_last context (failed m) h = tt
IsOver-decode_last context (blocked m) h = tt
IsOver-decode_last context (out_of_fuel m) h = h

IsOver-jpu_run_finish : (o : Outcome) → IsOver o → IsOver (jpu_run_finish o)
IsOver-jpu_run_finish (returned m) h = tt
IsOver-jpu_run_finish (failed m) h = tt
IsOver-jpu_run_finish (blocked m) h = tt
IsOver-jpu_run_finish (out_of_fuel m) h = h

jpu_run_loop-IsOver :
    (fuel : ℕ) (context : Context) (m : Machine)
    → Advances m
    → InProgress m
    → 2 * length m.events + 1 < fuel
    → IsOver (jpu_run_loop fuel context m)
unfolding jpu_run_loop jpu_decode jpu_encode
jpu_run_loop-IsOver fuel context m a v h = elim (Bool-cases (has m.jpeg.flags flag_encode)) [
  | inl e ↦ rw e (
      IsOver-jpu_run_finish _ (
        encode_rounds-IsOver fuel context _
          (record {
            protocol = EncodeInv-internal {m = m} refl (ground (arith, v.encoder));
            running = v.running;
            advances = ground (arith, a.encoder);
          })
          (ground arith)))
  | inr e ↦ rw e (
      IsOver-jpu_run_finish _ (
        IsOver-decode_last context _ (
          decode_rounds-IsOver fuel context _ (record { natural = v.natural; running = v.running })
            (ground arith))))
]

jpu_run_start-InProgress : (context : Context) (m : Machine) → InProgress (jpu_run_start context m)
jpu_run_start-InProgress context m = elim (Bool-cases (has m.jpeg.flags flag_encode)) [
  | inl e ↦
      let inv = jpu_run_start-EncodeInv context m e in
      record {
        natural = inv.natural;
        running =
            unfold jpu_run_start in
            (unfold jpu_run_init in
              (ground (arith, shjpeg_convert-SameJpu context (jpu_run_init m))));
        encoder = inr inv;
      }
  | inr e ↦ record {
    natural = unfold jpu_run_start in (unfold jpu_run_init in rw e refl);
    running = unfold jpu_run_start in (unfold jpu_run_init in rw e refl);
    encoder = inl (rw jpu_run_start-flags e);
  }
]

pub jpu_run_start-events :
    (context : Context) (m : Machine) → (jpu_run_start context m).events ≡ m.events
unfolding jpu_run_start jpu_run_init
jpu_run_start-events context m = ground (arith, shjpeg_convert-SameJpu context (jpu_run_init m))

-- A run that is called in the START state, or in progress, ends within two rounds for each
-- interrupt or timeout to come and two more: it returns, fails, or waits for an interrupt that does
-- not come. An encoder must convert through the VIO or not at all.
pub shjpeg_jpu_run-IsOver :
    (fuel : ℕ) (context : Context) (m : Machine)
    → Advances m
    → (m.jpeg.state ≡ start) ⊎ InProgress m
    → 2 * length m.events + 1 < fuel
    → IsOver (shjpeg_jpu_run fuel context m)
shjpeg_jpu_run-IsOver fuel context m a h enough =
    run_cases IsOver fuel context m
      (λ s.
        jpu_run_loop-IsOver fuel context _ (record { encoder = rw jpu_run_start-flags a.encoder })
          (jpu_run_start-InProgress context m) (rw jpu_run_start-events enough))
      (λ s.
        jpu_run_loop-IsOver fuel context _ (unfold jpu_run_resume in record { encoder = a.encoder })
          (resumed (other_than_start (λ p. p) h (inl s))) (unfold jpu_run_resume in enough))
      (λ s. tt)
  where
    resumed : InProgress m → InProgress (jpu_run_resume m)
    resumed v = unfold jpu_run_resume in ground arith
