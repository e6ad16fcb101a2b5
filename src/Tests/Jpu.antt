-- ===== src/Tests/Jpu.antt =====
-- The driver of the JPU on an encoder and a decoder of one line buffer each.
use libshjpeg.Base.{ℕ, ◌*◌, inl, inr, refl, arith, true, false, List, [], ◌∷◌}
use libshjpeg.Context.{Context, allowed}
use libshjpeg.PixelFormat.{pf_nv16}
use libshjpeg.Jpu.State.{Machine, Internal, Event, irq, has, start, pos}
use libshjpeg.Jpu.Interrupts.{process_jpu_ints}
use libshjpeg.Jpu.Run.{shjpeg_jpu_run}
use libshjpeg.Jpu.Cases.{Ends, IsOver}
use libshjpeg.Jpu.Encoder.{EncodeInv, shjpeg_jpu_run-EncodeInv}
use libshjpeg.Jpu.Decoder.{DecodeInv, shjpeg_jpu_run-DecodeInv}
use libshjpeg.Jpu.Finishes.{Advances, shjpeg_jpu_run-IsOver}
use libshjpeg.Jpu.Spin.{SoftRequest, shjpeg_jpu_run-spins}
use libshjpeg.Jpu.Ints.{Processed, process_jpu_ints-Processed}
use libshjpeg.Jpu.Buffers.{Divided, shjpeg_jpu_run-Divided}

abbrev pub image : Context
image = record {
  width = 64;
  height = 48;
  mode420 = false;
  mode444 = false;
  sops = record { init = false; read = true; write = true; finalize = false };
  libjpeg_disabled = allowed;
  libjpeg_used = false;
  pitch = 64;
  format = pf_nv16;
}

abbrev fresh_state : Internal
fresh_state = record {
  jpeg_buffers = 0;
  jpeg_buffer = 0;
  jpeg_error = 0;
  jpeg_encode = false;
  jpeg_end = false;
  jpeg_linebuf = 0;
  jpu_line_bufs_pending = pos 1;
  jpu_line_bufs_done = 0;
  vio_linebuf = 0;
  vio_line_bufs_done = 0;
}

-- A request in the START state with these flags, before these interrupts.
abbrev pub request : ℕ → List Event → Machine
request flags events = record {
  internal = fresh_state;
  jpeg = record {
    state = start;
    flags = flags;
    buffers = 3;
    error = 0;
    height = 48;
    sa_y = 0x1000;
    sa_c = 0x9000;
    sa_inc = 64 * 1024;
    soft_offset = 0;
    soft_line = 0;
  };
  regs = λ a. 0;
  events = events;
  trace = [];
  size_y = λ f w h. w;
}

-- Line buffer 0, and the header and the end of the transfer.
abbrev pub two_interrupts : List Event
two_interrupts = irq 0x800 0 ∷ irq 0x440 0 ∷ []

shjpeg_jpu_run-EncodeInv_example :
    Ends EncodeInv (shjpeg_jpu_run 8 image (request 6 two_interrupts))
unfolding has
shjpeg_jpu_run-EncodeInv_example =
    shjpeg_jpu_run-EncodeInv 8 image (request 6 two_interrupts) refl (inl refl)

shjpeg_jpu_run-DecodeInv_example :
    Ends DecodeInv (shjpeg_jpu_run 8 image (request 2 two_interrupts))
unfolding has
shjpeg_jpu_run-DecodeInv_example =
    shjpeg_jpu_run-DecodeInv 8 image (request 2 two_interrupts) refl refl (inl refl)

encoder-Advances : Advances (request 6 two_interrupts)
unfolding has
encoder-Advances = record { encoder = inr (inl refl) }

shjpeg_jpu_run-IsOver_example : IsOver (shjpeg_jpu_run 6 image (request 6 two_interrupts))
shjpeg_jpu_run-IsOver_example =
    shjpeg_jpu_run-IsOver 6 image (request 6 two_interrupts) encoder-Advances (inl refl)
      (omega arith)

soft-SoftRequest : SoftRequest image (request 12 two_interrupts)
unfolding has
soft-SoftRequest = record {
  encode = refl;
  soft = refl;
  no_vio = refl;
  lines = omega arith;
  one_buffer = omega arith;
  at_start = refl;
  first_line = refl;
}

shjpeg_jpu_run-spins_example : ¬ IsOver (shjpeg_jpu_run 9 image (request 12 two_interrupts))
shjpeg_jpu_run-spins_example =
    shjpeg_jpu_run-spins 9 image (request 12 two_interrupts) 0 (irq 0x440 0 ∷ []) soft-SoftRequest
      refl

process_jpu_ints-Processed_example :
    Processed 0x2c20 7 fresh_state false
      (process_jpu_ints 0x2c20 7 fresh_state false).0
      (process_jpu_ints 0x2c20 7 fresh_state false).1
process_jpu_ints-Processed_example =
    process_jpu_ints-Processed 0x2c20 7 fresh_state false (omega arith) (omega arith)

shjpeg_jpu_run-Divided_example : Divided (shjpeg_jpu_run 8 image (request 2 (irq 0x2000 0 ∷ [])))
shjpeg_jpu_run-Divided_example =
    shjpeg_jpu_run-Divided 8 image (request 2 (irq 0x2000 0 ∷ [])) (inl (refl, omega arith))
