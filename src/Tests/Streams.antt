-- ===== src/Tests/Streams.antt =====
-- The wrapper's streams: a source that gives four bytes at a time, and a buffer of four bytes.
use libshjpeg.Base.{ℕ, ◌+◌, ◌-◌, ◌*◌, ◌≡◌, inl, refl, arith, true, false, some}
use libshjpeg.Wrap.Input.{Feed, fill_buffer}
use libshjpeg.Wrap.Cache.{
  Reader, Answer, cache_input_buffer, read_header_init, read_header_end, sops_read,
}
use libshjpeg.Wrap.Input.Stream.{Feeds, StandsAt, Delivered}
use libshjpeg.Wrap.Cache.Header.{HeaderRead, begun, taken, refilled, Reads, header-Reads}
use libshjpeg.Wrap.Cache.Replay.{sops_read-Delivered}
use libshjpeg.Wrap.Output.{Sink, Output, init_destination, jpeg_dest_write}
use libshjpeg.Wrap.Output.Holds.{Holds, Settled, Wrote}
use libshjpeg.Wrap.Output.Order.{jpeg_dest_write-Wrote}

-- The bytes 0, 1, 2 and so on, the n-th four of them at address 100.
abbrev fours : Feed
fours = record { contents = λ n a. a - 100 + 4 * n; addr = λ n. 100; len = λ n. 4 }

abbrev numbers : ℕ → ℕ
numbers i = i

abbrev four_times : ℕ → ℕ
four_times n = 4 * n

fours-Feeds : Feeds fours numbers four_times
fours-Feeds = record { next = λ n. omega arith; piece = λ n i h. omega arith }

-- The first four bytes are in the buffer.
abbrev reader : Reader
reader = record {
  src = record { memory = λ a. a - 100; next_input_byte = 100; bytes_in_buffer = 4; fills = 1 };
  cache = record {
    block = λ a. 0;
    has_block = false;
    has_current = false;
    current_start = 0;
    last_buffer_size = 0;
    total_buffer_size = 0;
    cache_read = 0;
    current_read = 0;
  };
  direct = true;
}

reader-StandsAt : StandsAt numbers four_times 0 reader.src
reader-StandsAt = record { filled = omega arith; rest = λ i h. omega arith }

abbrev take_bytes : ℕ → Reader → Reader
take_bytes n r = record r {
  src = record r.src {
    next_input_byte = r.src.next_input_byte + n;
    bytes_in_buffer = r.src.bytes_in_buffer - n;
  };
}

-- libjpeg takes the four bytes, asks for more, and takes two.
abbrev after_header : Reader
after_header =
    take_bytes 2 (cache_input_buffer fours (λ a. 0) (take_bytes 4 (read_header_init true reader)))

header_read : HeaderRead fours (read_header_init true reader) after_header
unfolding read_header_init cache_input_buffer fill_buffer
header_read = taken 2 (refilled (λ a. 0) (taken 4 begun (omega arith))) (omega arith)

header-Reads_example : Reads numbers four_times 0 (read_header_end after_header)
header-Reads_example =
    header-Reads fours-Feeds true reader after_header reader-StandsAt (inl refl) header_read

-- Ten bytes: four from the cache, two that libjpeg has taken, and four from the source.
sops_read-Delivered_example :
    (a : Answer) × (sops_read 12 fours 10 (λ b. 0) 500 (read_header_end after_header) ≡ some a)
    × ((pos' : ℕ) × Reads numbers four_times pos' a.reader
        × Delivered fours numbers 10 500 (λ b. 0) 0 a.out a.n_bytes pos')
sops_read-Delivered_example =
    sops_read-Delivered fours-Feeds 12 10 (λ b. 0) 500 0 (read_header_end after_header)
      (header-Reads fours-Feeds true reader after_header reader-StandsAt (inl refl) header_read)
      (omega arith)

abbrev small_sink : Sink
small_sink = record { addr = 700; size = 4 }

abbrev fresh : Output
fresh = init_destination small_sink (λ a. 0)

fresh-Holds : Holds small_sink numbers 0 fresh
unfolding init_destination
fresh-Holds = record {
  filled = omega arith;
  within = omega arith;
  gone = λ j i h k. absurd (omega (arith, h));
  kept = λ i h. absurd (omega (arith, h));
}

fresh-Settled : Settled small_sink fresh
unfolding init_destination
fresh-Settled = record { at_start = refl; fresh_or_full = inl refl }

jpeg_dest_write-Wrote_example :
    (dest' : Output) × (jpeg_dest_write 12 small_sink numbers 0 10 fresh ≡ some dest')
    × Wrote small_sink numbers 0 10 dest'
jpeg_dest_write-Wrote_example =
    jpeg_dest_write-Wrote small_sink numbers numbers 12 0 0 10 fresh fresh-Holds fresh-Settled
      (λ i h. refl) (omega arith) (omega arith)
