-- ===== src/Jpu/State.antt =====
-- The state of the JPU driver: the state machine part of `shjpeg_internal_t`
-- (src/shjpeg_internal.h), the request `shjpeg_jpu_t` (src/shjpeg_jpu.h), and the hardware as the
-- driver sees it. Counters do not overflow an `int`; `unsigned long` has 32 bits.
use libshjpeg.Base.{
  ℕ, zero, suc, ◌+◌, ◌-◌, ◌^◌, bit_and, ◌==◌, Bool, false, not, List, ◌∷◌, if◌then◌else◌,
}

-- An `int` that the driver counts up and down.
pub data ℤ : Type 0 where
  pos : ℕ → ℤ
  negsuc : ℕ → ℤ

abbrev pub inc : ℤ → ℤ
inc (pos n) = pos (n + 1)
inc (negsuc zero) = pos 0
inc (negsuc (suc n)) = negsuc n

abbrev pub dec : ℤ → ℤ
dec (pos zero) = negsuc 0
dec (pos (suc n)) = pos n
dec (negsuc n) = negsuc (n + 1)

abbrev pub is_zero : ℤ → Bool
is_zero (pos n) = n == 0
is_zero (negsuc n) = false

abbrev pub is_positive : ℤ → Bool
is_positive (pos n) = not (n == 0)
is_positive (negsuc n) = false

-- `word & bits` as a condition.
unfoldable pub has : ℕ → ℕ → Bool
has word bits = not (bit_and word bits == 0)

-- `word & ~(1 << bit)` on 32 bits.
unfoldable pub clear_bit : ℕ → ℕ → ℕ
clear_bit word bit = bit_and word (2 ^ 32 - 1 - 2 ^ bit)

-- What waiting for the JPU gives: a timeout or error of `uiomux_sleep_timeout`, or an interrupt with
-- the contents of JINTS and JCDERR.
pub data Event : Type 0 where
  timeout : Event
  irq : ℕ → ℕ → Event

-- The formats of libshvio that the driver names.
pub data VioFormat : Type 0 where
  ren_unknown ren_nv12 ren_nv16 ren_rgb565 ren_rgb24 ren_rgb32 : VioFormat

-- A surface of the VIO, `struct ren_vid_surface`; the driver fills the plane addresses in to get
-- past the set-up, and sets the ones that count by `vio_set_src` and `vio_set_dst`.
pub record Surface : Type 0 where
  pub w : ℕ
  pub h : ℕ
  pub format : VioFormat
  pub pitch : ℕ

-- What the driver does to the hardware and the libraries, in order.
pub data Effect : Type 0 where
  setreg : ℕ → ℕ → Effect
  vio_color_conversion : ℕ → ℕ → Effect
  vio_setup : Surface → Surface → Effect
  vio_set_src : ℕ → ℕ → Effect
  vio_set_dst : ℕ → ℕ → Effect
  vio_start vio_wait : Effect
  vio_start_bundle : ℕ → Effect
  -- a software conversion: line buffer, offset into the user's surface, number of lines.
  soft_from soft_to : ℕ → ℕ → ℕ → Effect

pub record Internal : Type 0 where
  pub jpeg_buffers : ℕ
  pub jpeg_buffer : ℕ
  pub jpeg_error : ℕ
  pub jpeg_encode : Bool
  pub jpeg_end : Bool
  pub jpeg_linebuf : ℕ
  pub jpu_line_bufs_pending : ℤ
  pub jpu_line_bufs_done : ℕ
  pub vio_linebuf : ℕ
  pub vio_line_bufs_done : ℕ

pub data JpuState : Type 0 where
  start run end : JpuState

-- `shjpeg_jpu_flags_t`.
abbrev pub flag_reload : ℕ
flag_reload = 1

abbrev pub flag_convert : ℕ
flag_convert = 2

abbrev pub flag_encode : ℕ
flag_encode = 4

abbrev pub flag_softconvert : ℕ
flag_softconvert = 8

pub record Jpeg : Type 0 where
  pub state : JpuState
  pub flags : ℕ
  pub buffers : ℕ
  pub error : ℕ
  pub height : ℕ
  pub sa_y : ℕ
  pub sa_c : ℕ
  pub sa_inc : ℕ
  pub soft_offset : ℕ
  pub soft_line : ℕ

-- `regs` is what a register reads as; `events` are the interrupts to come; the head of `trace` is
-- the last effect; `size_y` is the macro of libshvio that gives the bytes of a row of pixels in a
-- format.
pub record Machine : Type 0 where
  pub internal : Internal
  pub jpeg : Jpeg
  pub regs : ℕ → ℕ
  pub events : List Event
  pub trace : List Effect
  pub size_y : VioFormat → ℕ → ℕ → ℕ

abbrev pub effect : Effect → Machine → Machine
effect e m = record m { trace = e ∷ m.trace }

-- `shjpeg_jpu_setreg32`. A configuration register reads back what was written.
abbrev pub jpu_setreg32 : ℕ → ℕ → Machine → Machine
jpu_setreg32 address value m = record m {
  regs = λ a. if a == address then value else m.regs a;
  trace = setreg address value ∷ m.trace;
}
