-- ===== src/Tests/Coding.antt =====
-- The encoder and the decoder with a stream that answers all calls in full.
use libshjpeg.Base.{◌≡◌, ◌⊎◌, inl, refl, arith, ◌==◌, true, false, if◌then◌else◌, List, [], ◌∷◌}
use libshjpeg.PixelFormat.{pf_nv16, pf_ycbcr}
use libshjpeg.Regs.{jcqtbl0, jcqtbl1, jchtbd0, jchtbd1, jchtba0, jchtba1}
use libshjpeg.Jpu.State.{Event, irq, has}
use libshjpeg.Jpu.Huffman.{
  IsHuffman, IsQuantization, read_table, with_tables, with_tables-IsHuffman,
}
use libshjpeg.Device.{Layout, World, Session}
use libshjpeg.Decode.{Target, Reloading, reload_buffer, reload_buffers}
use libshjpeg.Decode.Run.{decode_hw, shjpeg_decode_run}
use libshjpeg.Decode.Reload.{Reloaded, wants, reload_buffers-Reloaded}
use libshjpeg.Decode.Outcomes.{Returns, Clean, decode_hw-releases}
use libshjpeg.Decode.Choice.{Fits, Honest, shjpeg_decode_run-Honest}
use libshjpeg.Encode.{Writing, write_buffers, encode_hw, shjpeg_encode}
use libshjpeg.Encode.Stream.{TakesAll, Streamed, shjpeg_encode-Streamed, write_buffers-drains}
use libshjpeg.Encode.Release.{encode_hw-releases}
use libshjpeg.Tests.Jpu.{image, request}

abbrev layout : Layout
layout = record { jpeg_phys = 0x40000000; jpeg_lb1 = 0x40100000; jpeg_lb2 = 0x40900000 }

abbrev world : World
world = record {
  lock = true;
  unlock = true;
  map_frame = true;
  read = λ n. record { failed = false; len = if n == 0 then 65536 else 100 };
  write = λ n len. len;
  coded = λ n. 70000;
  libjpeg = true;
}

abbrev target : Target
target = record { format = pf_nv16; phys = 0x41000000; width = 64; height = 48; pitch = 64 }

-- A session before these interrupts.
abbrev session : List Event → Session
session events = record {
  context = image;
  machine = request 0 events;
  locked = false;
  mapped = false;
  calls = [];
  count = 0;
}

abbrev at_end : List Event
at_end = irq 0x440 0 ∷ []

decode_hw-releases_example :
    Returns
      (λ t ret. Clean world t ret ⊎ ((t.mapped ≡ false) × (true ≡ false) × (ret ≡ true)))
      (decode_hw 3 4 world layout target (session at_end))
decode_hw-releases_example = decode_hw-releases 3 4 world layout target (session at_end) refl refl

shjpeg_decode_run-Honest_example :
    Returns
      (λ t ret. (ret ≡ true) ⊎ (Fits target image × Honest world target (session at_end) t))
      (shjpeg_decode_run 3 4 world layout true true target (session at_end))
shjpeg_decode_run-Honest_example =
    shjpeg_decode_run-Honest 3 4 world layout true true target (session at_end)

-- The driver asks for both buffers, with the reload flag set.
abbrev asking : Reloading
asking = record { session = record (session at_end) { machine = request 1 at_end }; ret = false }

reload_buffers-Reloaded_example :
    Reloaded world
      (wants 2 asking)
      (wants 1 (reload_buffer world 2 asking))
      asking
      (reload_buffers world asking)
reload_buffers-Reloaded_example = reload_buffers-Reloaded world asking (omega arith)

world-TakesAll : TakesAll world
world-TakesAll = record { takes = λ n len. refl; grows = λ n. omega arith }

shjpeg_encode-Streamed_example :
    Returns
      (λ t ret. Streamed world t)
      (shjpeg_encode 3 4 world layout true true true target (session at_end))
shjpeg_encode-Streamed_example =
    shjpeg_encode-Streamed 3 4 world layout true true true target (session at_end) world-TakesAll
      refl

abbrev last_buffer : Writing
last_buffer = record { session = session at_end; written = 65536 }

write_buffers-drains_example : (write_buffers world last_buffer).written ≡ 70000
unfolding has
write_buffers-drains_example =
    write_buffers-drains world last_buffer world-TakesAll (inl refl) refl (omega arith)
      (omega arith)

encode_hw-releases_example :
    Returns
      (λ t ret.
        Clean world t ret
        ⊎ ((t.mapped ≡ false) × ((pf_nv16 == pf_ycbcr) ≡ true) × (true ≡ false) × (ret ≡ true)))
      (encode_hw 3 4 world layout target (session at_end))
encode_hw-releases_example = encode_hw-releases 3 4 world layout target (session at_end) refl refl

with_tables-IsHuffman_example :
    let m = with_tables (request 0 []) in
    IsQuantization (read_table jcqtbl0 0 16 m)
    × IsQuantization (read_table jcqtbl1 0 16 m)
    × IsHuffman 12 (read_table jchtbd0 0 7 m)
    × IsHuffman 12 (read_table jchtbd1 0 7 m)
    × IsHuffman 162 (read_table jchtba0 0 45 m)
    × IsHuffman 162 (read_table jchtba1 0 45 m)
with_tables-IsHuffman_example = with_tables-IsHuffman (request 0 [])
