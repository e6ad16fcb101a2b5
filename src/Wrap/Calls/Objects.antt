-- ===== src/Wrap/Calls/Objects.antt =====
-- src/libjpeg_wrap/override.c: the context of one of libjpeg's objects, what is done to the
-- outside, and how a call ends.
use libshjpeg.Base.{ℕ, ◌*◌, Bool, true, false, Option, some, List, ◌∷◌}
use libshjpeg.Context.{Context, Sops, allowed}
use libshjpeg.Jpu.State.{Machine}
use libshjpeg.Device.{Layout, World}
use libshjpeg.Lifecycle.{Answers, Library}

-- What the context pointer points to: it is NULL, or a context that is there, or one that
-- shjpeg_shutdown has freed.
pub data Handle : Type 0 where
  unset live freed : Handle

-- The stream operations of a context of the wrapper; at first none is set.
pub data Ops : Type 0 where
  no_ops src_ops header_ops dest_ops : Ops

-- The functions of libjpeg behind the wrapper.
pub data Hook : Type 0 where
  jpeg_calc_output_dimensions jpeg_start_decompress jpeg_read_scanlines jpeg_finish_decompress :
      Hook
  jpeg_abort_decompress jpeg_start_compress jpeg_write_scanlines jpeg_finish_compress : Hook
  jpeg_abort jpeg_destroy jpeg_read_header jpeg_create_decompress jpeg_create_compress : Hook

-- A call of libjpeg on the client's object; one on the decompressor inside a shjpeg context; memory
-- that is taken or given back, with its address and size; a shutdown; the end of a stream.
pub data Action : Type 0 where
  hook : Hook → Action
  abort_inside destroy_inside : Handle → Action
  taken given_back : ℕ → ℕ → Action
  shut_down : Handle → Action
  finalized : Action

-- The rest of `cinfo_context_t`, with the fields of the context that it points to.
pub record Wrapper : Type 0 where
  pub handle : Handle
  pub context : Context
  pub virt_addr : ℕ
  pub bufsize : ℕ
  pub jpumode : Bool
  pub ops : Ops

pub record State : Type 0 where
  pub ctx : Option Wrapper
  pub library : Library
  pub actions : List Action

-- The answers from outside to one call: those to shjpeg_init, the address that uiomux_malloc gives
-- and its physical address, what the driver needs, what libjpeg's function returns, and the version
-- of libjpeg that the wrapper is built with.
pub record Outside : Type 0 where
  pub allocated : Bool
  pub answers : Answers
  pub buffer : ℕ
  pub phys : ℕ
  pub fuel : ℕ
  pub rounds : ℕ
  pub world : World
  pub layout : Layout
  pub machine : Machine
  pub hook_returns : Bool
  pub lib_version : ℕ

pub data Message : Type 0 where
  invalid_context compress_err bad_version : Message

-- A return, with true also where there is no result; libjpeg's error exit, which does not return; a
-- wait in the driver that does not end.
pub data Outcome : Type 0 where
  returned : Bool → State → Outcome
  error_exit : Message → State → Outcome
  unfinished : State → Outcome

abbrev pub act : Action → State → State
act a s = record s { actions = a ∷ s.actions }

abbrev pub put : Wrapper → State → State
put w s = record s { ctx = some w }

-- The operation is left to libjpeg.
abbrev pub by_libjpeg : Hook → Outside → State → Outcome
by_libjpeg h o s = returned o.hook_returns (act (hook h) s)

-- Which operations of a stream are set.
abbrev pub ops_set : Ops → Sops
ops_set no_ops = record { init = false; read = false; write = false; finalize = false }
ops_set src_ops = record { init = true; read = true; write = false; finalize = true }
ops_set header_ops = record { init = true; read = true; write = false; finalize = true }
ops_set dest_ops = record { init = true; read = false; write = true; finalize = true }

-- The source's operations, where none are set yet.
abbrev pub source_ops : Ops → Ops
source_ops no_ops = src_ops
source_ops src_ops = src_ops
source_ops header_ops = header_ops
source_ops dest_ops = dest_ops

-- A context as shjpeg_init leaves it, with a size.
abbrev pub sized : ℕ → ℕ → ℕ → Context
sized width height components = record {
  width = width;
  height = height;
  mode420 = false;
  mode444 = false;
  sops = ops_set no_ops;
  libjpeg_disabled = allowed;
  libjpeg_used = false;
  pitch = width * components;
  format = 0;
}
