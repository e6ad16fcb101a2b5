-- ===== src/Hooks.antt =====
-- src/libjpeg_wrap/init.c: the two tables of functions that stand behind libjpeg's interface. The
-- names of the interface are generated for a version of libjpeg, so they are a parameter; dlopen
-- and dlsym are inputs. The first field of a table, which no name reaches, is left out.
pub mod Tables
use libshjpeg.Base.{Bool, true, false, if◌then◌else◌, Option, none, some, List, [], ◌∷◌}
use Prim.Native.String.{String}
use text.Mathlib.Text.{◌==◌ as str_eq}

-- What a pointer of a table points to: nothing, libjpeg's function of a name, the function that
-- says that the call is not implemented, or the wrapper's function.
pub data Slot : Type 0 where
  null unimplemented : Slot
  symbol wrapped : String → Slot

abbrev pub Hooks : Type 0
Hooks = List (String × Slot)

-- A field of a table; a table without it has no pointer to give.
pub get_hook : String → Hooks → Slot
get_hook name [] = null
get_hook name ((field, slot) ∷ hooks) = if str_eq field name then slot else get_hook name hooks

-- The assignment to a field.
pub set_hook : String → Slot → Hooks → Hooks
set_hook name slot [] = []
set_hook name slot ((field, old) ∷ hooks) =
    if str_eq field name
    then (field, slot) ∷ set_hook name slot hooks
    else (field, old) ∷ set_hook name slot hooks

pub set_hooks : Hooks → Hooks → Hooks
set_hooks [] hooks = hooks
set_hooks ((name, slot) ∷ assignments) hooks = set_hooks assignments (set_hook name slot hooks)

-- What dlsym gives for a name.
abbrev pub dlsym : (String → Bool) → String → Slot
dlsym found name = if found name then symbol name else null

-- The loop over the names, in libjpeg's table and in the one with the JPU.
pub load_libjpeg : (String → Bool) → List String → Hooks
load_libjpeg found [] = []
load_libjpeg found (name ∷ names) =
    (name, if found name then symbol name else unimplemented) ∷ load_libjpeg found names

pub load_withjpu : (String → Bool) → List String → Hooks
load_withjpu found [] = []
load_withjpu found (name ∷ names) = (name, dlsym found name) ∷ load_withjpu found names

-- The assignments of set_withjpu_overrides.
unfoldable pub withjpu_overrides : Hooks → Hooks
withjpu_overrides libjpeg_hooks =
    ("jpeg_start_compress", wrapped "shjpeg_start_compress")
    ∷ ("jpeg_start_decompress", wrapped "shjpeg_start_decompress")
    ∷ ("jpeg_read_header", wrapped "shjpeg_read_header")
    ∷ ("jpeg_CreateDecompress", wrapped "shjpeg_CreateDecompress")
    ∷ ("jpeg_CreateCompress", wrapped "shjpeg_CreateCompress")
    ∷ ("jpeg_abort_compress", get_hook "jpeg_abort_compress" libjpeg_hooks)
    ∷ ("jpeg_destroy_compress", get_hook "jpeg_destroy_compress" libjpeg_hooks)
    ∷ ("jpeg_abort_decompress", get_hook "jpeg_abort_decompress" libjpeg_hooks)
    ∷ ("jpeg_destroy_decompress", get_hook "jpeg_destroy_decompress" libjpeg_hooks)
    ∷ ("jpeg_destroy", wrapped "shjpeg_destroy")
    ∷ ("jpeg_abort", wrapped "shjpeg_abort")
    ∷ ("jpeg_std_error", wrapped "shjpeg_std_error")
    ∷ ("jpeg_read_scanlines", wrapped "shjpeg_read_scanlines")
    ∷ ("jpeg_read_scanlines", wrapped "shjpeg_read_scanlines")
    ∷ ("jpeg_write_scanlines", wrapped "shjpeg_write_scanlines")
    ∷ ("jpeg_finish_compress", wrapped "shjpeg_finish_compress")
    ∷ ("jpeg_finish_decompress", wrapped "shjpeg_finish_decompress")
    ∷ []

unfoldable pub set_withjpu_overrides : Hooks → Hooks → Hooks
set_withjpu_overrides libjpeg_hooks overrides =
    set_hooks (withjpu_overrides libjpeg_hooks) overrides

pub record Loaded : Type 0 where
  pub libjpeg_hooks : Hooks
  pub active_hooks : Hooks

-- `versioned` and `plain` are whether libjpeg is found under the name with its version and under the
-- plain name; none is the exit of the process.
unfoldable pub init_lib : Bool → Bool → (String → Bool) → List String → Option Loaded
init_lib versioned plain found hook_names =
    let libjpeg_hooks = load_libjpeg found hook_names in
    let loaded : Loaded = record {
      libjpeg_hooks = libjpeg_hooks;
      active_hooks = set_withjpu_overrides libjpeg_hooks (load_withjpu found hook_names);
    } in
    if versioned then some loaded else if plain then some loaded else none
