-- ===== src/Tests/Calls.antt =====
-- The wrapper's calls on objects that decode and encode.
use libshjpeg.Base.{◌+◌, ◌≡◌, ◌⊎◌, refl, arith, Bool, true, false, some, none, List, [], ◌∷◌}
use libshjpeg.Jpu.State.{Event, irq}
use libshjpeg.Device.{Session, finished, init_call}
use libshjpeg.Lifecycle.{Answers, untouched, shjpeg_init}
use libshjpeg.Source.{Frame}
use libshjpeg.Wrap.Support.{Decompress, Compress, jcs_rgb, jcs_ycbcr, is_jpu_supported_decompress}
use libshjpeg.Wrap.Calls.{
  Wrapper, State, Outside, Outcome, returned, error_exit, unfinished, live, unset, freed,
  new_wrapper, sized, src_ops, dest_ops, ops_set, taken, shjpeg_create_decompress,
  shjpeg_start_decompress, shjpeg_finish_decompress, shjpeg_destroy, shjpeg_finish_compress,
  shjpeg_abort, decode_image, session,
}
use libshjpeg.Wrap.Calls.Started.{OnReturn, Hardware, Software, shjpeg_start_decompress-Started}
use libshjpeg.Wrap.Calls.Leaks.{
  Decodes, begun, one_more, Decodes-leaks, image_wrapper, image_state, failed_start-destroy,
}
use libshjpeg.Wrap.Calls.Sequences.{Ready, Reach, unknown, decompressor, decoding}
use libshjpeg.Wrap.Calls.Ready.{Reach-Ready}
use libshjpeg.Wrap.Calls.Twice.{gives, takes, finish_compress-abort_twice}
use libshjpeg.Tests.Jpu.{request}

-- All devices are there; the stream gives all bytes.
abbrev answers : Answers
answers = record {
  vio_opens = true;
  uiomux_opens = true;
  has_mmio = true;
  has_mem = true;
  jpeg_size = 0x2000000;
  gives = record { reload = true; line1 = true; line2 = true };
}

abbrev outside : Bool → List Event → Outside
outside lock events = record {
  allocated = true;
  answers = answers;
  buffer = 0x41000000;
  phys = 0x41000000;
  fuel = 3;
  rounds = 4;
  world = record {
    lock = lock;
    unlock = true;
    map_frame = true;
    read = λ n. record { failed = false; len = 100 };
    write = λ n len. len;
    coded = λ n. 100;
    libjpeg = true;
  };
  layout = record { jpeg_phys = 0x40000000; jpeg_lb1 = 0x40100000; jpeg_lb2 = 0x40900000 };
  machine = request 0 events;
  hook_returns = true;
  lib_version = 62;
}

abbrev at_end : List Event
at_end = irq 0x440 0 ∷ []

-- An image of 64 by 48 pixels in 4:2:0.
abbrev frame : Frame
frame = record {
  output_width = 64;
  output_height = 48;
  h0 = 2;
  v0 = 2;
  h1 = 1;
  v1 = 1;
  h2 = 1;
  v2 = 1;
}

abbrev decompress : Decompress
decompress = record {
  has_src = true;
  output_components = 3;
  out_color_components = 3;
  out_color_space = jcs_rgb;
  jpeg_color_space = jcs_ycbcr;
  frame = frame;
}

-- An object that is new.
abbrev new_object : State
new_object = record { ctx = some new_wrapper; library = untouched; actions = [] }

shjpeg_start_decompress-Started_example :
    OnReturn
      (λ b s'.
        Hardware (outside true at_end) decompress new_object b s'
        ⊎ Software (outside true at_end) new_object new_wrapper b s')
      (shjpeg_start_decompress (outside true at_end) decompress new_object)
shjpeg_start_decompress-Started_example =
    shjpeg_start_decompress-Started (outside true at_end) decompress new_object new_wrapper refl

abbrev state_of : Outcome → State
state_of (returned b s) = s
state_of (error_exit m s) = s
state_of (unfinished s) = s

abbrev wrapper_of : State → Wrapper
wrapper_of s = elim s.ctx [ none ↦ new_wrapper | some w ↦ w ]

abbrev start_image : State → State
start_image s = state_of (shjpeg_start_decompress (outside true at_end) decompress s)

abbrev finish_image : State → State
finish_image s = state_of (shjpeg_finish_decompress (outside true []) s)

abbrev first_started : State
first_started = start_image new_object

abbrev first_done : State
first_done = finish_image first_started

abbrev second_started : State
second_started = start_image first_done

abbrev second_done : State
second_done = finish_image second_started

-- The JPU cannot be locked, and another object holds a context.
abbrev second_object : State
second_object = record new_object { library = record untouched { ref_count = 1 } }

abbrev not_locked_wrapper : Wrapper
not_locked_wrapper = image_wrapper (outside false []) decompress new_wrapper

abbrev not_locked_session : Session
not_locked_session = record (session (outside false []) not_locked_wrapper.context) {
  calls = init_call ∷ [];
}

abbrev not_locked_state : State
not_locked_state = image_state (outside false []) decompress new_wrapper second_object

-- An object that is not known yet, the same one created, and in JPU mode.
abbrev unknown_object : State
unknown_object = record new_object { ctx = none }

abbrev created : State
created = state_of (shjpeg_create_decompress (outside true []) 62 unknown_object)

abbrev in_jpu : State
in_jpu = start_image created

-- Two images that are decoded, a decoding that fails, and a start that succeeds.
decoder_runs :
    Decodes new_object 2 second_done
    × (is_jpu_supported_decompress decompress ≡ true)
    × ((shjpeg_init true answers second_object.library).1 ≡ true)
    × (decode_image (outside false []) decompress not_locked_wrapper not_locked_state
        ≡ finished not_locked_session true)
    × Reach in_jpu
unfolding shjpeg_create_decompress shjpeg_start_decompress libshjpeg.Wrap.Calls.start_decompress
    libshjpeg.Wrap.Support.is_jpu_supported_decompress libshjpeg.Wrap.Calls.with_buffer
    libshjpeg.Lifecycle.shjpeg_init libshjpeg.Lifecycle.uio_init
    libshjpeg.Decode.Run.shjpeg_decode_run libshjpeg.PixelFormat.pitch_multiply
    libshjpeg.Decode.Run.decode_hw libshjpeg.Decode.Run.decode_program libshjpeg.Decode.decode_loop
    libshjpeg.Jpu.Run.shjpeg_jpu_run libshjpeg.Decode.decode_vio libshjpeg.Decode.decode_linebuf
    libshjpeg.Decode.decode_setup libshjpeg.Jpu.Run.jpu_run_loop libshjpeg.Jpu.State.has
    libshjpeg.Jpu.Run.jpu_run_start libshjpeg.Decode.Run.decode_sw_fails
    libshjpeg.Decode.decode_frame libshjpeg.Decode.decode_soft libshjpeg.Decode.reload_buffer
    libshjpeg.Decode.reload_buffers libshjpeg.Jpu.Convert.shjpeg_convert
    libshjpeg.Jpu.Convert.shjpeg_sw_convert libshjpeg.Jpu.Convert.start_vio
    libshjpeg.Jpu.Convert.start_vio_encode libshjpeg.Jpu.Convert.wait_and_process_vio
    libshjpeg.Jpu.Interrupts.process_irq libshjpeg.Jpu.Interrupts.process_jpu_ints
    libshjpeg.Jpu.Interrupts.start_jpu_line libshjpeg.Jpu.Interrupts.wait_and_process_jpu
    libshjpeg.Jpu.Loops.decode_convert libshjpeg.Jpu.Loops.decode_round
    libshjpeg.Jpu.Loops.decode_start libshjpeg.Jpu.Loops.jpu_decode libshjpeg.Jpu.Loops.rounds
    libshjpeg.Jpu.Loops.wait_if_pending libshjpeg.Jpu.Run.jpu_run_init
    libshjpeg.Jpu.Run.jpu_run_result libshjpeg.Jpu.Run.jpu_run_resume
    libshjpeg.Jpu.Run.shjpeg_jpu_reset libshjpeg.Jpu.State.clear_bit libshjpeg.Lifecycle.malloc_size
    libshjpeg.Lifecycle.shjpeg_shutdown libshjpeg.Lifecycle.uio_shutdown
    libshjpeg.PixelFormat.plane_multiply libshjpeg.Wrap.Calls.finish_decompress
    shjpeg_finish_decompress
decoder_runs = (
  one_more (outside true at_end) (outside true []) decompress (wrapper_of second_started)
      second_started second_done
      (one_more (outside true at_end) (outside true []) decompress (wrapper_of first_started)
        first_started first_done begun refl refl refl refl)
      refl refl refl refl,
  refl,
  refl,
  refl,
  decoding (outside true at_end) decompress
      (decompressor (outside true []) 62 (unknown unknown_object refl) refl) refl refl,
)

Reach-Ready_example : Ready in_jpu
Reach-Ready_example = Reach-Ready (decoder_runs.4)

-- One of the two contexts is still held after the object has been destroyed.
Decodes-leaks_example : (shjpeg_destroy true second_done).library.ref_count + 1 ≡ 2
Decodes-leaks_example =
    Decodes-leaks new_object second_done 2 new_wrapper refl refl (decoder_runs.0) (omega arith)

failed_start-destroy_example :
    (s' : State) × (w' : Wrapper) × (shjpeg_start_decompress
        (outside false [])
        decompress
        second_object
      ≡ returned true s')
    × (s'.ctx ≡ some w')
    × (w'.handle ≡ freed)
    × ((shjpeg_destroy true s').library.ref_count + 1 ≡ 1)
failed_start-destroy_example =
    failed_start-destroy (outside false []) decompress second_object new_wrapper not_locked_session
      refl (decoder_runs.1) (decoder_runs.2) refl (decoder_runs.3) (omega arith)

-- A compression in JPU mode.
abbrev encoder : Wrapper
encoder = record {
  handle = live;
  context = record (sized 64 48 3) { sops = ops_set dest_ops };
  virt_addr = 0x41000000;
  bufsize = 9216;
  jpumode = true;
  ops = dest_ops;
}

abbrev encoding : State
encoding = record {
  ctx = some encoder;
  library = record untouched { ref_count = 1 };
  actions = taken 0x41000000 9216 ∷ [];
}

abbrev compress : Compress
compress = record {
  has_dest = true;
  in_color_space = jcs_rgb;
  image_width = 64;
  image_height = 48;
  input_components = 3;
}

abbrev encoded : State
encoded = state_of (shjpeg_finish_compress (outside true at_end) compress encoding)

encodes : shjpeg_finish_compress (outside true at_end) compress encoding ≡ returned true encoded
unfolding shjpeg_finish_compress libshjpeg.Wrap.Calls.finish_compress libshjpeg.Encode.shjpeg_encode
    libshjpeg.Encode.encode_hw libshjpeg.Encode.encode_run libshjpeg.Encode.encode_loop
    libshjpeg.Jpu.Run.shjpeg_jpu_run libshjpeg.Jpu.Tables.shjpeg_jpu_init_huffman_table
    libshjpeg.Jpu.Tables.shjpeg_jpu_init_quantization_table libshjpeg.Encode.encode_linebuf
    libshjpeg.Encode.encode_setup libshjpeg.Jpu.Run.jpu_run_loop libshjpeg.Jpu.State.has
    libshjpeg.Jpu.Run.jpu_run_start libshjpeg.Jpu.Convert.shjpeg_convert
    libshjpeg.Jpu.Run.jpu_run_init libshjpeg.Jpu.Loops.jpu_encode libshjpeg.Jpu.Loops.rounds
    libshjpeg.Encode.encode_frame libshjpeg.Encode.encode_soft libshjpeg.Encode.write_buffer
    libshjpeg.Encode.write_buffers libshjpeg.Jpu.Convert.shjpeg_sw_convert
    libshjpeg.Jpu.Convert.start_vio libshjpeg.Jpu.Convert.start_vio_encode
    libshjpeg.Jpu.Convert.wait_and_process_vio libshjpeg.Jpu.Interrupts.process_irq
    libshjpeg.Jpu.Interrupts.process_jpu_ints libshjpeg.Jpu.Interrupts.start_jpu_line
    libshjpeg.Jpu.Interrupts.wait_and_process_jpu libshjpeg.Jpu.Loops.encode_convert
    libshjpeg.Jpu.Loops.encode_round libshjpeg.Jpu.Loops.encode_start
    libshjpeg.Jpu.Loops.wait_if_pending libshjpeg.Jpu.Run.jpu_run_result
    libshjpeg.Jpu.Run.jpu_run_resume libshjpeg.Jpu.Run.shjpeg_jpu_reset
    libshjpeg.Jpu.State.clear_bit
encodes = refl

finish_compress-abort_twice_example :
    (gives 0x41000000 9216 (shjpeg_abort false encoded).actions
      ≡ gives 0x41000000 9216 encoding.actions + 2)
    × (takes 0x41000000 9216 (shjpeg_abort false encoded).actions
        ≡ takes 0x41000000 9216 encoding.actions)
finish_compress-abort_twice_example =
    finish_compress-abort_twice (outside true at_end) compress encoding encoded encoder refl refl
      (omega arith) encodes
