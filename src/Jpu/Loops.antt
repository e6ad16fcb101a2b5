-- ===== src/Jpu/Loops.antt =====
-- src/shjpeg_jpu.c: jpu_encode and jpu_decode.
use libshjpeg.Base.{ℕ, zero, suc, ltb, ◌==◌, true, false, not, ◌&&◌, if◌then◌else◌}
use libshjpeg.Context.{Context}
use libshjpeg.Regs.{jccmd, jccmd_read_restart, jccmd_write_restart}
use libshjpeg.Jpu.State.{Machine, is_zero, is_positive, jpu_setreg32}
use libshjpeg.Jpu.Convert.{shjpeg_convert}
use libshjpeg.Jpu.Interrupts.{
  start_jpu_line, Waited, processed, timed_out, starved, wait_and_process_jpu,
}

-- The wait at the end of a round; a round that does not wait leaves `done` unset.
unfoldable pub wait_if_pending : Machine → Waited
wait_if_pending m =
    if not m.internal.jpeg_end && is_positive m.internal.jpu_line_bufs_pending
    then wait_and_process_jpu m false
    else processed m false

unfoldable pub encode_start : Machine → Machine
encode_start m =
    if ltb m.internal.jpu_line_bufs_done m.internal.vio_line_bufs_done
      && is_zero m.internal.jpu_line_bufs_pending
    then start_jpu_line m
    else m

unfoldable pub encode_convert : Context → Machine → Machine
encode_convert context m =
    if m.internal.jpu_line_bufs_done == m.internal.vio_line_bufs_done
    then shjpeg_convert context m
    else m

-- One round of the loop of `jpu_encode`.
unfoldable pub encode_round : Context → Machine → Waited
encode_round context m = wait_if_pending (encode_convert context (encode_start m))

unfoldable pub decode_start : Machine → Machine
decode_start m =
    if not m.internal.jpeg_end && is_zero m.internal.jpu_line_bufs_pending
    then start_jpu_line m
    else m

unfoldable pub decode_convert : Context → Machine → Machine
decode_convert context m =
    if ltb m.internal.vio_line_bufs_done m.internal.jpu_line_bufs_done
    then shjpeg_convert context m
    else m

-- One round of the loop of `jpu_decode`.
unfoldable pub decode_round : Context → Machine → Waited
decode_round context m = wait_if_pending (decode_convert context (decode_start m))

-- `returned` is a return of 0, `failed` one of -1; `blocked` waits for an event that does not come.
pub data Outcome : Type 0 where
  returned failed blocked out_of_fuel : Machine → Outcome

-- `while (!done)`, over the rounds of either direction.
unfoldable pub rounds : (Machine → Waited) → ℕ → Machine → Outcome
rounds round zero m = out_of_fuel m
rounds round (suc fuel) m = elim (round m) [
  | processed m' done ↦ elim done [ true ↦ returned m' | false ↦ rounds round fuel m' ]
  | timed_out m' ↦ failed m'
  | starved m' ↦ blocked m'
]

unfoldable pub jpu_encode : ℕ → Context → Machine → Outcome
jpu_encode fuel context m =
    rounds (encode_round context) fuel (jpu_setreg32 jccmd jccmd_write_restart m)

-- After the loop a last line buffer is converted.
abbrev pub decode_last : Context → Outcome → Outcome
decode_last context (returned m) =
    returned (if m.internal.jpeg_error == 0 then decode_convert context m else m)
decode_last context (failed m) = failed m
decode_last context (blocked m) = blocked m
decode_last context (out_of_fuel m) = out_of_fuel m

unfoldable pub jpu_decode : ℕ → Context → Machine → Outcome
jpu_decode fuel context m =
    decode_last context
      (rounds (decode_round context) fuel (jpu_setreg32 jccmd jccmd_read_restart m))
