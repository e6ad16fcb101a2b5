-- ===== src/Jpu/Spin.antt =====
-- src/shjpeg_jpu.c: the encoder's loop when a software conversion has no line left.
use libshjpeg.Base.{
  ℕ, zero, suc, ◌+◌, ◌≤◌, ◌<◌, ◌≡◌, refl, arith, subst, ◌∙◌, true, false, List, ◌∷◌, ◌==◌, ltb,
  ◌&&◌,
}
use libshjpeg.Context.{Context}
use libshjpeg.Soft.{linebuffer_height}
use libshjpeg.Regs.{jints_ins11_linebuf0}
use libshjpeg.Jpu.State.{
  Machine, Event, irq, is_zero, has, flag_convert, flag_encode, flag_softconvert, start, pos,
}
use libshjpeg.Jpu.Convert.{shjpeg_convert, shjpeg_sw_convert}
use libshjpeg.Jpu.Interrupts.{
  process_jpu_ints, process_irq, start_jpu_line, Waited, processed, timed_out, starved,
  wait_and_process_jpu,
}
use libshjpeg.Jpu.Loops.{
  wait_if_pending, encode_start, encode_convert, encode_round, rounds, Outcome, returned, failed,
  blocked, out_of_fuel, jpu_encode,
}
use libshjpeg.Jpu.Run.{shjpeg_jpu_run, jpu_run_loop, jpu_run_init, jpu_run_start, jpu_run_finish}
use libshjpeg.Jpu.Cases.{IsOver}
use libshjpeg.Jpu.Encoder.{jpu_run_start-flags}
use libshjpeg.Jpu.Finishes.{jpu_run_start-events}

-- An encoder with nothing to convert, nothing converted and nothing with the JPU.
record Idle (context : Context) (m : Machine) : Type 0 where
  soft : has m.jpeg.flags flag_softconvert ≡ true
  no_vio : has m.jpeg.flags flag_convert ≡ false
  all_lines : context.height ≤ m.jpeg.soft_line
  caught_up : m.internal.jpu_line_bufs_done ≡ m.internal.vio_line_bufs_done
  nothing_pending : m.internal.jpu_line_bufs_pending ≡ pos 0

encode_round-Idle :
    (context : Context) (m : Machine) → Idle context m → encode_round context m ≡ processed m false
unfolding encode_round encode_start encode_convert wait_if_pending shjpeg_convert shjpeg_sw_convert
encode_round-Idle context m i = ground arith

rounds-Idle :
    (fuel : ℕ) (context : Context) (m : Machine)
    → Idle context m
    → rounds (encode_round context) fuel m ≡ out_of_fuel m
unfolding rounds
rounds-Idle zero context m i = refl
rounds-Idle (suc fuel) context m i =
    rw (encode_round-Idle context m i, rounds) (rounds-Idle fuel context m i)

-- The request of an encoder that converts a surface of at most one line buffer in software.
pub record SoftRequest (context : Context) (m : Machine) : Type 0 where
  pub encode : has m.jpeg.flags flag_encode ≡ true
  pub soft : has m.jpeg.flags flag_softconvert ≡ true
  pub no_vio : has m.jpeg.flags flag_convert ≡ false
  pub lines : 0 < context.height
  pub one_buffer : context.height ≤ linebuffer_height
  pub at_start : m.jpeg.state ≡ start
  pub first_line : m.jpeg.soft_line ≡ 0

-- The line buffer is with the JPU, and its interrupt is the next event.
record AtLinebuf (context : Context) (m : Machine) : Type 0 where
  soft : has m.jpeg.flags flag_softconvert ≡ true
  no_vio : has m.jpeg.flags flag_convert ≡ false
  all_lines : context.height ≤ m.jpeg.soft_line
  converted : m.internal.vio_line_bufs_done ≡ 1
  not_yet : m.internal.jpu_line_bufs_done ≡ 0
  nothing_pending : m.internal.jpu_line_bufs_pending ≡ pos 0
  running : m.internal.jpeg_end ≡ false

jpu_run_start-AtLinebuf :
    (context : Context) (m : Machine)
    → SoftRequest context m
    → AtLinebuf context (jpu_run_start context m)
unfolding jpu_run_start jpu_run_init shjpeg_convert shjpeg_sw_convert
jpu_run_start-AtLinebuf context m r = ground (arith, r)

abbrev GoesIdle : Context → Waited → Type 0
GoesIdle context (processed m true) = ⊥
GoesIdle context (processed m false) = Idle context m
GoesIdle context (timed_out m) = ⊥
GoesIdle context (starved m) = ⊥

process_irq-linebuf0 :
    (context : Context) (m : Machine) (jcderr : ℕ)
    → has m.jpeg.flags flag_softconvert ≡ true
    → has m.jpeg.flags flag_convert ≡ false
    → context.height ≤ m.jpeg.soft_line
    → m.internal.vio_line_bufs_done ≡ m.internal.jpu_line_bufs_done + 1
    → m.internal.jpu_line_bufs_pending ≡ pos 1
    → GoesIdle context (process_irq jints_ins11_linebuf0 jcderr m false)
unfolding process_irq process_jpu_ints has
process_irq-linebuf0 context m jcderr s c l v p = record {
  soft = s;
  no_vio = c;
  all_lines = l;
  caught_up = ground arith;
  nothing_pending = ground arith;
}

first_round :
    (context : Context) (m : Machine) (jcderr : ℕ) (rest : List Event)
    → AtLinebuf context m
    → m.events ≡ irq jints_ins11_linebuf0 jcderr ∷ rest
    → GoesIdle context (encode_round context m)
unfolding encode_round encode_start encode_convert wait_if_pending wait_and_process_jpu
    start_jpu_line
first_round context m jcderr rest a e =
    let started : (ltb m.internal.jpu_line_bufs_done m.internal.vio_line_bufs_done
          && is_zero m.internal.jpu_line_bufs_pending)
        ≡ true =
      ground (arith, a) in
    let behind : (m.internal.jpu_line_bufs_done == m.internal.vio_line_bufs_done) ≡ false =
      ground (arith, a) in
    rw (started, behind)
      (rw (a.nothing_pending, a.running)
        (rw e (
          process_irq-linebuf0 context _ jcderr a.soft a.no_vio a.all_lines (ground (arith, a))
            (ground (arith, a)))))

rounds-GoesIdle :
    (fuel : ℕ) (context : Context) (m : Machine)
    → GoesIdle context (encode_round context m)
    → ¬ IsOver (jpu_run_finish (rounds (encode_round context) fuel m))
unfolding rounds
rounds-GoesIdle zero context m g over = over
rounds-GoesIdle (suc fuel) context m g over = goes (encode_round context m) g over
  where
    goes :
        (w : Waited)
        → GoesIdle context w
        → ¬ IsOver (
            jpu_run_finish (elim w [
              | processed m' done ↦ elim done [
                | true ↦ returned m'
                | false ↦ rounds (encode_round context) fuel m'
              ]
              | timed_out m' ↦ failed m'
              | starved m' ↦ blocked m'
            ]))
    goes (processed m' true) i o = i
    goes (processed m' false) i o =
        subst (λ (x : Outcome). IsOver (jpu_run_finish x)) (rounds-Idle fuel context m' i) o
    goes (timed_out m') i o = i
    goes (starved m') i o = i

-- An encoder whose surface is one line buffer, converted in software, never leaves its loop when the
-- first interrupt is that of line buffer 0 without the end of the transfer, whatever interrupts
-- follow: it is not over after any number of rounds.
pub shjpeg_jpu_run-spins :
    (fuel : ℕ) (context : Context) (m : Machine) (jcderr : ℕ) (rest : List Event)
    → SoftRequest context m
    → m.events ≡ irq jints_ins11_linebuf0 jcderr ∷ rest
    → ¬ IsOver (shjpeg_jpu_run fuel context m)
unfolding shjpeg_jpu_run jpu_run_loop jpu_encode
shjpeg_jpu_run-spins fuel context m jcderr rest r e =
    let flags : has (jpu_run_start context m).jpeg.flags flag_encode ≡ true =
      rw jpu_run_start-flags r.encode in
    let a = jpu_run_start-AtLinebuf context m r in
    rw (r.at_start, shjpeg_jpu_run)
      (rw flags (
        rounds-GoesIdle fuel context _ (
          first_round context _ jcderr rest
            (record {
              soft = a.soft;
              no_vio = a.no_vio;
              all_lines = a.all_lines;
              converted = a.converted;
              not_yet = a.not_yet;
              nothing_pending = a.nothing_pending;
              running = a.running;
            })
            (jpu_run_start-events context m ∙ e))))
