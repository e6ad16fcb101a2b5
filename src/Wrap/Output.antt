-- ===== src/Wrap/Output.antt =====
-- src/libjpeg_wrap/jpeg_io.c, jpeg_dest_write: how coded data goes to the destination manager that
-- the client gave to libjpeg. Its empty_output_buffer is libjpeg's: it takes the whole buffer,
-- whatever the two fields say, and begins it again.
pub mod Holds
pub mod Order
use libshjpeg.Base.{ℕ, zero, suc, ◌+◌, ◌-◌, ltb, ◌==◌, if◌then◌else◌, Option, none, some}
use libshjpeg.Memory.{Mem, memcpy}

-- The client's buffer.
pub record Sink : Type 0 where
  pub addr : ℕ
  pub size : ℕ

-- The destination manager, with the buffers that it has given away: the first `count` of `emptied`.
pub record Output : Type 0 where
  pub memory : Mem
  pub next_output_byte : ℕ
  pub free_in_buffer : ℕ
  pub count : ℕ
  pub emptied : ℕ → Mem

unfoldable pub init_destination : Sink → Mem → Output
init_destination sink memory = record {
  memory = memory;
  next_output_byte = sink.addr;
  free_in_buffer = sink.size;
  count = 0;
  emptied = λ n. memory;
}

unfoldable pub empty_output_buffer : Sink → Output → Output
empty_output_buffer sink dest = record {
  memory = dest.memory;
  next_output_byte = sink.addr;
  free_in_buffer = sink.size;
  count = dest.count + 1;
  emptied = λ n. if n == dest.count then dest.memory else dest.emptied n;
}

-- The stream's first and last operation; `term_destination` is the client's.
abbrev pub jpeg_dest_init : Sink → Output → Output
jpeg_dest_init sink dest = init_destination sink dest.memory

abbrev pub jpeg_dest_finalize : (Output → Output) → Output → Output
jpeg_dest_finalize term_destination dest = term_destination dest

-- One round of the loop: the rest of the buffer is filled, and the buffer given away.
unfoldable pub write_full : Sink → Mem → ℕ → Output → Output
write_full sink coded dataptr dest = empty_output_buffer sink (record dest {
  memory = memcpy dest.memory dest.next_output_byte coded dataptr dest.free_in_buffer;
})

-- The copy after the loop.
unfoldable pub write_last : Mem → ℕ → ℕ → Output → Output
write_last coded dataptr datacnt dest = record dest {
  memory = memcpy dest.memory dest.next_output_byte coded dataptr datacnt;
  free_in_buffer = dest.free_in_buffer - datacnt;
}

-- The loop, on fuel; `coded` is the JPU's memory. The function itself returns TRUE.
unfoldable pub jpeg_dest_write : ℕ → Sink → Mem → ℕ → ℕ → Output → Option Output
jpeg_dest_write zero sink coded dataptr datacnt dest = none
jpeg_dest_write (suc fuel) sink coded dataptr datacnt dest =
    let rest =
      jpeg_dest_write fuel sink coded (dataptr + dest.free_in_buffer)
        (datacnt - dest.free_in_buffer) (write_full sink coded dataptr dest) in
    if ltb dest.free_in_buffer datacnt then rest else some (write_last coded dataptr datacnt dest)
