-- ===== src/Source/Header.antt =====
-- The modes that a header sets.
use libshjpeg.Base.{◌/◌, ◌≡◌, ◌⊎◌, Bool, true, false}
use libshjpeg.Context.{Context}
use libshjpeg.Source.{Frame}

-- Both chroma components have half of the first one's sampling factors, or all of them.
pub record Half (f : Frame) : Type 0 where
  pub h1 : f.h1 ≡ f.h0 / 2
  pub v1 : f.v1 ≡ f.v0 / 2
  pub h2 : f.h2 ≡ f.h0 / 2
  pub v2 : f.v2 ≡ f.v0 / 2

pub record Full (f : Frame) : Type 0 where
  pub h1 : f.h1 ≡ f.h0
  pub v1 : f.v1 ≡ f.v0
  pub h2 : f.h2 ≡ f.h0
  pub v2 : f.v2 ≡ f.v0

-- The mode is set, and the property holds; or neither.
abbrev Tells : Bool → Type 0 → Type 0
Tells mode P = ((mode ≡ true) × P) ⊎ ((mode ≡ false) × ¬ P)

-- What a header that is read leaves in the context.
pub record Described (frame : Frame) (before after : Context) : Type 0 where
  pub width_set : after.width ≡ frame.output_width
  pub height_set : after.height ≡ frame.output_height
  pub one_mode : (after.mode420 ≡ false) ⊎ (after.mode444 ≡ false)
  pub chroma_420 : Tells after.mode420 (Half frame)
  pub chroma_444 : Tells after.mode444 (Full frame)
  pub same_sops : after.sops ≡ before.sops
  pub same_fallback : after.libjpeg_disabled ≡ before.libjpeg_disabled
