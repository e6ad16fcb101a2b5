-- ===== src/Wrap/Calls.antt =====
-- src/libjpeg_wrap/override.c: the calls that the wrapper puts in front of libjpeg. They work on the
-- context of one object, on the library's devices, and on the driver; what libjpeg does is recorded
-- as an action, the last one first.
mod Objects
pub use Objects.*
pub mod Started
pub mod Leaks
pub mod Twice
pub mod Sequences
pub mod Ready
use libshjpeg.Base.{
  ℕ, ◌*◌, ◌==◌, Bool, true, false, not, if◌then◌else◌, Option, none, some, List, [], ◌∷◌,
}
use libshjpeg.Context.{Context, Sops, Fallback, allowed, disabled}
use libshjpeg.Jpu.State.{Machine}
use libshjpeg.Device.{Layout, World, Session, Coded, finished, waits, exhausted, trapped}
use libshjpeg.Decode.{Target}
use libshjpeg.Decode.Run.{shjpeg_decode_run}
use libshjpeg.Encode.{shjpeg_encode}
use libshjpeg.Source.{is_420}
use libshjpeg.Lifecycle.{Answers, Library, shjpeg_init, shjpeg_shutdown, malloc_size}
use libshjpeg.Wrap.Support.{
  Decompress, Compress, get_shjpeg_pixelformat, is_jpu_supported_decompress,
  is_jpu_supported_compress,
}

-- shjpeg_init, and the buffer of the image; then `go_on`, or libjpeg.
unfoldable pub with_buffer :
    Hook → Outside → ℕ → Context → Wrapper → State → (Wrapper → State → Outcome) → Outcome
with_buffer h o format context w s go_on =
    let r = shjpeg_init o.allocated o.answers s.library in
    let s1 = record s { library = r.0 } in
    if not (r.1)
    then by_libjpeg h o (put (record w { handle = unset }) s1)
    else let size = malloc_size format context.height context.pitch in
      let w1 = record w {
        handle = live;
        context = context;
        virt_addr = o.buffer;
        bufsize = size;
      } in
      let s2 = put w1 (act (taken o.buffer size) s1) in
      if o.buffer == 0 then by_libjpeg h o s2 else go_on w1 s2

abbrev pub session : Outside → Context → Session
session o context = record {
  context = context;
  machine = o.machine;
  locked = false;
  mapped = false;
  calls = [];
  count = 0;
}

-- The surface is the whole buffer.
abbrev pub surface : Outside → ℕ → Context → Target
surface o format context = record {
  format = format;
  phys = o.phys;
  width = context.width;
  height = context.height;
  pitch = context.pitch;
}

-- After shjpeg_decode_run: JPU mode, or the context is given up.
abbrev pub decode_done : Outside → Wrapper → State → Coded → Outcome
decode_done o w s (finished t ret) =
    if ret
    then by_libjpeg jpeg_start_decompress o (
        put (record w { handle = freed })
          (act (shut_down w.handle)
            (act (destroy_inside w.handle) (record s { library = shjpeg_shutdown s.library }))))
    else returned true (put (record w { jpumode = true; context = t.context }) s)
decode_done o w s (waits t) = unfinished s
decode_done o w s (exhausted t) = unfinished s
decode_done o w s (trapped t) = unfinished s

abbrev pub decode_image : Outside → Decompress → Wrapper → State → Coded
decode_image o cinfo w s =
    shjpeg_decode_run o.fuel o.rounds o.world o.layout (not (s.library.ref_count == 0))
      (not (w.virt_addr == 0)) (surface o (get_shjpeg_pixelformat cinfo.out_color_space) w.context)
      (session o w.context)

abbrev pub decode_buffer : Outside → Decompress → Wrapper → State → Outcome
decode_buffer o cinfo w s =
    let ops = source_ops w.ops in
    let context = record w.context {
      mode444 = false;
      mode420 = is_420 cinfo.frame;
      libjpeg_disabled = disabled;
      sops = ops_set ops;
    } in
    let w1 = record w { context = context; ops = ops } in
    decode_done o w1 s (decode_image o cinfo w1 s)

-- The calls on an object whose context is found.
unfoldable pub start_decompress : Outside → Decompress → Wrapper → State → Outcome
start_decompress o cinfo w s =
    if not (is_jpu_supported_decompress cinfo)
    then by_libjpeg jpeg_start_decompress o s
    else with_buffer jpeg_start_decompress o (get_shjpeg_pixelformat cinfo.out_color_space)
        (sized cinfo.frame.output_width cinfo.frame.output_height cinfo.out_color_components) w
        (act (hook jpeg_calc_output_dimensions) s) (decode_buffer o cinfo)

-- create_cinfo_context for the object: the context that it has, or one filled with zeros.
abbrev pub new_wrapper : Wrapper
new_wrapper = record {
  handle = unset;
  context = sized 0 0 0;
  virt_addr = 0;
  bufsize = 0;
  jpumode = false;
  ops = no_ops;
}

abbrev pub found_or_new : Option Wrapper → Wrapper
found_or_new none = new_wrapper
found_or_new (some w) = w

abbrev pub create : Hook → Outside → ℕ → State → Outcome
create h o version s =
    if not (version == o.lib_version)
    then error_exit bad_version s
    else returned true (put (found_or_new s.ctx) (act (hook h) s))

unfoldable pub shjpeg_create_decompress : Outside → ℕ → State → Outcome
shjpeg_create_decompress o version s = create jpeg_create_decompress o version s

unfoldable pub shjpeg_create_compress : Outside → ℕ → State → Outcome
shjpeg_create_compress o version s = create jpeg_create_compress o version s

-- A context that is not found is an error.
abbrev pub on_context : (Wrapper → State → Outcome) → State → Option Wrapper → Outcome
on_context call s none = error_exit invalid_context s
on_context call s (some w) = call w s

-- The source's own buffering while libjpeg reads is in `Input`.
unfoldable pub shjpeg_read_header : Outside → State → Outcome
shjpeg_read_header o s =
    on_context
      (λ w t.
        returned o.hook_returns
          (put (record w { ops = header_ops }) (act (hook jpeg_read_header) t)))
      s s.ctx

unfoldable pub shjpeg_start_decompress : Outside → Decompress → State → Outcome
shjpeg_start_decompress o cinfo s = on_context (start_decompress o cinfo) s s.ctx

-- `sops->finalize`, where it is set.
abbrev pub finalize : Context → State → State
finalize context s = if context.sops.finalize then act finalized s else s

unfoldable pub finish_decompress : Outside → Wrapper → State → Outcome
finish_decompress o w s =
    if not w.jpumode
    then by_libjpeg jpeg_finish_decompress o s
    else let s1 = finalize w.context (act (given_back w.virt_addr w.bufsize) s) in
      returned true (
        act (hook jpeg_abort_decompress)
          (put (record w { virt_addr = 0; bufsize = 0; jpumode = false }) s1))

unfoldable pub shjpeg_finish_decompress : Outside → State → Outcome
shjpeg_finish_decompress o s = on_context (finish_decompress o) s s.ctx

abbrev pub encode_buffer : Wrapper → State → Outcome
encode_buffer w s = returned true (
    put
      (record w {
        context = record w.context { libjpeg_disabled = disabled; sops = ops_set dest_ops };
        ops = dest_ops;
        jpumode = true;
      })
      s)

unfoldable pub start_compress : Outside → Compress → Bool → Wrapper → State → Outcome
start_compress o cinfo write_all_tables w s =
    if not (is_jpu_supported_compress cinfo write_all_tables)
    then by_libjpeg jpeg_start_compress o s
    else with_buffer jpeg_start_compress o (get_shjpeg_pixelformat cinfo.in_color_space)
        (sized cinfo.image_width cinfo.image_height cinfo.input_components) w s encode_buffer

unfoldable pub shjpeg_start_compress : Outside → Compress → Bool → State → Outcome
shjpeg_start_compress o cinfo write_all_tables s =
    on_context (start_compress o cinfo write_all_tables) s s.ctx

-- After shjpeg_encode: the buffer is given back, or the error exit is taken.
abbrev pub encode_done : Wrapper → State → Coded → Outcome
encode_done w s (finished t ret) =
    if ret
    then error_exit compress_err s
    else returned true (
        put (record w { jpumode = false; context = t.context })
          (finalize t.context (act (given_back w.virt_addr w.bufsize) s)))
encode_done w s (waits t) = unfinished s
encode_done w s (exhausted t) = unfinished s
encode_done w s (trapped t) = unfinished s

unfoldable pub finish_compress : Outside → Compress → Wrapper → State → Outcome
finish_compress o cinfo w s =
    if not w.jpumode
    then by_libjpeg jpeg_finish_compress o s
    else encode_done w s (
        shjpeg_encode o.fuel o.rounds o.world o.layout true (not (s.library.ref_count == 0))
          (not (w.virt_addr == 0))
          (surface o (get_shjpeg_pixelformat cinfo.in_color_space) w.context) (session o w.context))

unfoldable pub shjpeg_finish_compress : Outside → Compress → State → Outcome
shjpeg_finish_compress o cinfo s = on_context (finish_compress o cinfo) s s.ctx

-- shjpeg_free of the buffer, where its size is not zero.
abbrev pub give_back : Wrapper → State → State
give_back w s = if w.bufsize == 0 then s else act (given_back w.virt_addr w.bufsize) s

abbrev pub abort_on : Bool → Option Wrapper → State → State
abort_on is_decompressor none s = s
abort_on is_decompressor (some w) s =
    let s1 = if is_decompressor then act (abort_inside w.handle) s else s in
    put (if w.bufsize == 0 then w else record w { virt_addr = 0; bufsize = 0 }) (give_back w s1)

unfoldable pub shjpeg_abort : Bool → State → State
shjpeg_abort is_decompressor s = act (hook jpeg_abort) (abort_on is_decompressor s.ctx s)

-- The context pointer is not NULL.
abbrev pub destroy_context : Bool → Wrapper → State → State
destroy_context is_decompressor w s =
    let s1 = if is_decompressor then act (destroy_inside w.handle) s else s in
    let s2 = give_back w s1 in
    act (shut_down w.handle) (record s2 { library = shjpeg_shutdown s2.library })

abbrev pub destroy_on : Bool → Wrapper → Handle → State → State
destroy_on is_decompressor w unset s = s
destroy_on is_decompressor w live s = destroy_context is_decompressor w s
destroy_on is_decompressor w freed s = destroy_context is_decompressor w s

abbrev pub destroy_found : Bool → Option Wrapper → State → State
destroy_found is_decompressor none s = s
destroy_found is_decompressor (some w) s =
    destroy_on is_decompressor w w.handle (record s { ctx = none })

unfoldable pub shjpeg_destroy : Bool → State → State
shjpeg_destroy is_decompressor s = act (hook jpeg_destroy) (destroy_found is_decompressor s.ctx s)
