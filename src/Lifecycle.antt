-- ===== src/Lifecycle.antt =====
-- src/shjpeg_common.c: the reference count, the devices and the memory. The mutex makes each
-- operation one step. What uiomux_malloc returns is not checked by the code: an initialisation succeeds
-- with the blocks that it is given.
pub mod Holders
use libshjpeg.Base.{
  ℕ, ◌+◌, ◌-◌, ◌*◌, ◌%◌, ◌^◌, ◌==◌, Bool, true, false, not, if◌then◌else◌, List, [], ◌∷◌, Option,
  none, some,
}
use libshjpeg.PixelFormat.{plane_multiply}
use libshjpeg.Soft.{linebuffer_pitch, linebuffer_height}
use libshjpeg.Device.{reload_size}

-- The blocks that uiomux_malloc gives to uio_init: for the reload buffers and for the line buffers.
pub record Blocks : Type 0 where
  pub reload : Bool
  pub line1 : Bool
  pub line2 : Bool

-- The answers of libshvio and uiomux to uio_init.
pub record Answers : Type 0 where
  pub vio_opens : Bool
  pub uiomux_opens : Bool
  pub has_mmio : Bool
  pub has_mem : Bool
  pub jpeg_size : ℕ
  pub gives : Blocks

-- The calls that tell UIOMux about the reload buffers' memory; the flag is whether the address given
-- is NULL.
pub data Registration : Type 0 where
  register unregister : Bool → Registration

-- The part of `data` that outlives a call: zero at first. The three flags in the middle are the
-- blocks taken from uiomux_malloc and not given back; the address of the first is `jpeg_virt`.
pub record Library : Type 0 where
  pub ref_count : ℕ
  pub vio : Bool
  pub uiomux : Bool
  pub jpeg_virt : Bool
  pub jpeg_lb1 : Bool
  pub jpeg_lb2 : Bool
  pub jpeg_size : ℕ
  pub registrations : List Registration

abbrev pub untouched : Library
untouched = record {
  ref_count = 0;
  vio = false;
  uiomux = false;
  jpeg_virt = false;
  jpeg_lb1 = false;
  jpeg_lb2 = false;
  jpeg_size = 0;
  registrations = [];
}

-- The addresses of the line buffers stay in `data`, and their blocks are no longer taken.
unfoldable pub uio_shutdown : Library → Library
uio_shutdown l = record l {
  vio = false;
  uiomux = false;
  jpeg_virt = false;
  jpeg_lb1 = false;
  jpeg_lb2 = false;
}

-- uiomux_unregister on `jpeg_virt`.
abbrev pub unregister_memory : Library → Library
unregister_memory l = record l { registrations = unregister (not l.jpeg_virt) ∷ l.registrations }

-- The new state, and whether the return is 0.
unfoldable pub uio_init : Answers → Library → Library × Bool
uio_init a l =
    if not a.vio_opens
    then (record l { vio = false }, false)
    else let l1 = record l { vio = true } in
      if not a.uiomux_opens
      then (record l1 { uiomux = false }, false)
      else let l2 = record l1 { uiomux = true } in
        if not a.has_mmio
        then (unregister_memory (uio_shutdown l2), false)
        else if not a.has_mem
        then (unregister_memory (uio_shutdown l2), false)
        else (
          record l2 {
            jpeg_virt = a.gives.reload;
            jpeg_lb1 = a.gives.line1;
            jpeg_lb2 = a.gives.line2;
            jpeg_size = a.jpeg_size;
            registrations = register (not a.gives.reload) ∷ l.registrations;
          },
          true,
        )

-- `allocated` is whether malloc gives memory for the context; the flag of the result is whether a
-- context is returned.
unfoldable pub shjpeg_init : Bool → Answers → Library → Library × Bool
shjpeg_init allocated a l =
    if not allocated
    then (l, false)
    else if not (l.ref_count == 0)
    then (record l { ref_count = l.ref_count + 1 }, true)
    else let r = uio_init a l in
      if not (r.1) then (r.0, false) else (record (r.0) { ref_count = 1 }, true)

unfoldable pub shjpeg_shutdown : Library → Library
shjpeg_shutdown l =
    if l.ref_count == 0
    then l
    else let l1 = record l { ref_count = l.ref_count - 1 } in
      if not (l1.ref_count == 0) then l1 else unregister_memory (uio_shutdown l1)

-- The size that shjpeg_malloc asks for, as an `int`.
unfoldable pub malloc_size : ℕ → ℕ → ℕ → ℕ
malloc_size format height pitch = pitch * plane_multiply format height

abbrev pub jpu_size : ℕ
jpu_size = linebuffer_pitch * linebuffer_height * 2 * 2 + reload_size * 2

-- The offset of the frame buffer in the contiguous memory, and its size in `unsigned long`.
unfoldable pub shjpeg_get_frame_buffer : Library → Option (ℕ × ℕ)
shjpeg_get_frame_buffer l =
    if l.ref_count == 0 then none else some (jpu_size, (l.jpeg_size + 2 ^ 32 - jpu_size) % 2 ^ 32)
