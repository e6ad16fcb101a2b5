-- ===== src/Context.antt =====
-- include/shjpeg/shjpeg_types.h: the context that a user hands to the library.
use libshjpeg.Base.{ℕ, Bool}

-- Which stream callbacks the user has set. What a callback answers is an input of the operation
-- that calls it.
pub record Sops : Type 0 where
  pub init : Bool
  pub read : Bool
  pub write : Bool
  pub finalize : Bool

-- Sizes are not negative. `libjpeg_disabled` is kept as its sign, see `Fallback`.
pub data Fallback : Type 0 where
  -- below zero: only libjpeg is used.
  software_only : Fallback
  -- zero: hardware first, then libjpeg.
  allowed : Fallback
  -- above zero: no fallback to libjpeg.
  disabled : Fallback

pub record Context : Type 0 where
  pub width : ℕ
  pub height : ℕ
  pub mode420 : Bool
  pub mode444 : Bool
  pub sops : Sops
  pub libjpeg_disabled : Fallback
  pub libjpeg_used : Bool
  pub pitch : ℕ
  pub format : ℕ
