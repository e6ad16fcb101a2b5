-- ===== src/Jpu/Interrupts.antt =====
-- src/shjpeg_jpu.c: what an interrupt of the JPU does to the driver's state.
use libshjpeg.Base.{
  ℕ, ◌+◌, ◌-◌, ◌%◌, ◌^◌, ◌==◌, bit_and, bit_or, Bool, true, if◌then◌else◌, List, [], ◌∷◌,
}
use libshjpeg.Regs.{
  jccmd, jints, jccmd_end, jccmd_lcmd1, jccmd_lcmd2, jints_mask, jints_ins3_header,
  jints_ins5_error, jints_ins10_xfer_done, jints_ins11_linebuf0, jints_ins12_linebuf1,
  jints_ins13_loaded, jints_ins14_reload,
}
use libshjpeg.Jpu.State.{
  Machine, Internal, Event, timeout, irq, inc, dec, has, clear_bit, jpu_setreg32,
}

unfoldable pub start_jpu_line : Machine → Machine
start_jpu_line m =
    let m1 = jpu_setreg32 jccmd (bit_or jccmd_lcmd1 jccmd_lcmd2) m in
    record m1 {
      internal = record m.internal { jpu_line_bufs_pending = inc m.internal.jpu_line_bufs_pending };
    }

-- A line buffer is done: the JPU goes on to the other one.
abbrev pub finish_line_buffer : Internal → Internal
finish_line_buffer d = record d {
  jpeg_linebuf = (d.jpeg_linebuf + 1) % 2;
  jpu_line_bufs_pending = dec d.jpu_line_bufs_pending;
  jpu_line_bufs_done = d.jpu_line_bufs_done + 1;
}

-- A reload buffer is filled or used up: it is no longer valid, and the other one is next.
abbrev pub finish_buffer : Internal → Internal
finish_buffer d = record d {
  jpeg_buffers = clear_bit d.jpeg_buffers d.jpeg_buffer;
  jpeg_buffer = (d.jpeg_buffer + 1) % 2;
}

-- The new state, and whether the run is over. The header and done interrupts are only logged.
unfoldable pub process_jpu_ints : ℕ → ℕ → Internal → Bool → Internal × Bool
process_jpu_ints ints jcderr d done =
    let error = has ints jints_ins5_error in
    let xfer_done = has ints jints_ins10_xfer_done in
    let loaded = has ints jints_ins13_loaded in
    let reload = has ints jints_ins14_reload in
    let d1 = if error then record d { jpeg_error = jcderr } else d in
    let d2 = if xfer_done then record d1 { jpeg_end = true } else d1 in
    let ints' = if xfer_done then bit_or ints jints_ins12_linebuf1 else ints in
    let d3 =
      if has ints' (bit_or jints_ins11_linebuf0 jints_ins12_linebuf1)
      then finish_line_buffer d2
      else d2 in
    let d4 = if loaded then finish_buffer d3 else d3 in
    let d5 = if reload then finish_buffer d4 else d4 in
    (
      d5,
      if error
          then true
          else if xfer_done
          then true
          else if loaded
          then true
          else if reload
          then true
          else done,
    )

-- `processed` is a return of 0, `timed_out` one of -1. `starved` is not a return: no event comes.
pub data Waited : Type 0 where
  processed : Machine → Bool → Waited
  timed_out starved : Machine → Waited

-- An interrupt is acknowledged, processed, and followed by an END command where the run is over.
unfoldable pub process_irq : ℕ → ℕ → Machine → Bool → Waited
process_irq ints jcderr m done =
    let m1 = jpu_setreg32 jints (bit_and (2 ^ 32 - 1 - ints) jints_mask) m in
    let (d, done') =
      if ints == 0 then (m.internal, done) else process_jpu_ints ints jcderr m.internal done in
    let m2 = record m1 { internal = d } in
    let over =
      has ints (bit_or (bit_or jints_ins3_header jints_ins5_error) jints_ins10_xfer_done) in
    processed (if over then jpu_setreg32 jccmd jccmd_end m2 else m2) done'

abbrev pub next_event : List Event → Machine → Bool → Waited
next_event [] m done = starved m
next_event (timeout ∷ events) m done = timed_out (record m { events = events })
next_event (irq ints jcderr ∷ events) m done =
    process_irq ints jcderr (record m { events = events }) done

unfoldable pub wait_and_process_jpu : Machine → Bool → Waited
wait_and_process_jpu m done = next_event m.events m done
