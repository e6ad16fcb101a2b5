-- ===== src/Decode/Choice.antt =====
-- The outcomes of shjpeg_decode_run: who decodes, the hardware or libjpeg.
use libshjpeg.Base.{
  ℕ, ◌*◌, ◌≤◌, ◌≡◌, ◌⊎◌, inl, inr, refl, arith, ltb, ◌==◌, Bool, true, false, not, ◌&&◌, ◌||◌,
  if◌then◌else◌, Bool-cases,
}
use libshjpeg.Context.{Context}
use libshjpeg.PixelFormat.{pitch_multiply, pf_ycbcr}
use libshjpeg.Jpu.Vio.{shjpeg_vio_color}
use libshjpeg.Device.{Layout, World, Session, Coded, finished, waits, exhausted, trapped}
use libshjpeg.Decode.{Target, is_unknown, frame_mode, sops_read}
use libshjpeg.Decode.Run.{
  free_frame, unlock_jpu, decode_program, decode_hw, sops_init, decode_sw_fails, allows_hardware,
  allows_software, use_libjpeg, decode_fallback, is_supported, shjpeg_decode_run,
}
use libshjpeg.Decode.Ended.{Decoded, Succeeds, decode_hw-Succeeds}
use libshjpeg.Decode.Outcomes.{Returns, Keeps, decode_loop-Keeps, if-Returns, known-Returns}

-- The settings that the choice of the decoder reads and records.
record SameChoice (s t : Session) : Type 0 where
  used : t.context.libjpeg_used ≡ s.context.libjpeg_used
  fallback : t.context.libjpeg_disabled ≡ s.context.libjpeg_disabled

abbrev Chosen : Session → Session → Bool → Type 0
Chosen s t ret = SameChoice s t

unlock_jpu-Chosen :
    (world : World) (s : Session) (c : Coded)
    → Returns (Chosen s) c
    → Returns (Chosen s) (unlock_jpu world c)
unlock_jpu-Chosen world s (finished t ret) h = record { used = h.used; fallback = h.fallback }
unlock_jpu-Chosen world s (waits t) h = tt
unlock_jpu-Chosen world s (exhausted t) h = tt
unlock_jpu-Chosen world s (trapped t) h = tt

free_frame-Chosen :
    (s start : Session) (c : Coded)
    → SameChoice s start
    → Returns (λ t ret. Keeps start t) c
    → Returns (Chosen s) (free_frame c)
free_frame-Chosen s start (finished t ret) h k = record {
  used = rw k.context h.used;
  fallback = rw k.context h.fallback;
}
free_frame-Chosen s start (waits t) h k = tt
free_frame-Chosen s start (exhausted t) h k = tt
free_frame-Chosen s start (trapped t) h k = tt

decode_program-Chosen :
    (fuel rounds : ℕ) (world : World) (layout : Layout) (target : Target) (len : ℕ) (s : Session)
    → Returns (Chosen s) (decode_program fuel rounds world layout target len s)
unfolding decode_program
decode_program-Chosen fuel rounds world layout target len s = unlock_jpu-Chosen world s _ (
    if-Returns (Chosen s) (frame_mode s.context target.format) _ _
      (free_frame-Chosen s _ _ (record { used = refl; fallback = refl })
        (decode_loop-Keeps fuel rounds world _))
      (if-Returns (Chosen s) (target.format == pf_ycbcr) _ _
        (if-Returns (Chosen s) world.map_frame _ (finished _ false)
          (free_frame-Chosen s _ _ (record { used = refl; fallback = refl })
            (decode_loop-Keeps fuel rounds world _))
          (record { used = refl; fallback = refl }))
        (free_frame-Chosen s _ _ (record { used = refl; fallback = refl })
          (decode_loop-Keeps fuel rounds world _))))

decode_hw-Chosen :
    (fuel rounds : ℕ) (world : World) (layout : Layout) (target : Target) (s : Session)
    → Returns (Chosen s) (decode_hw fuel rounds world layout target s)
unfolding decode_hw
decode_hw-Chosen fuel rounds world layout target s =
    if-Returns (Chosen s)
      (is_unknown (shjpeg_vio_color target.format) && not (target.format == pf_ycbcr))
      (finished s true) _ same
      (if-Returns (Chosen s) (s.machine.size_y (shjpeg_vio_color target.format) 1 0 == 0)
        (trapped s) _ tt
        (if-Returns (Chosen s) (not world.lock) (finished s true) _ same (
          if-Returns (Chosen s) (not s.context.sops.read) _ _
            (record { used = refl; fallback = refl })
            (if-Returns (Chosen s) (world.read s.count).failed _ _
              (record { used = refl; fallback = refl })
              (from_start _ (
                decode_program-Chosen fuel rounds world layout target (world.read s.count).len
                  (sops_read 0 (record s { locked = true }))))))))
  where
    same : SameChoice s s
    same = record { used = refl; fallback = refl }

    from_start :
        (c : Coded)
        → Returns (Chosen (sops_read 0 (record s { locked = true }))) c
        → Returns (Chosen s) c
    from_start (finished t ret) h = record { used = h.used; fallback = h.fallback }
    from_start (waits t) h = tt
    from_start (exhausted t) h = tt
    from_start (trapped t) h = tt

-- Who decoded, for a return without an error.
pub record Honest (world : World) (target : Target) (before after : Session) : Type 0 where
  pub decoder :
      ((after.context.libjpeg_used ≡ true)
        × (allows_software before.context.libjpeg_disabled ≡ true)
        × (world.libjpeg ≡ true)
        × ((target.format == pf_ycbcr) ≡ false))
      ⊎ ((after.context.libjpeg_used ≡ false)
          × (allows_hardware before.context.libjpeg_disabled ≡ true)
          × (before.context.mode444 ≡ false)
          × Decoded world target.format after)

decode_fallback-Honest :
    (world : World) (target : Target) (s : Session) (c : Coded)
    → Returns (Chosen (sops_init (use_libjpeg false s))) c
    → Returns (Succeeds world target.format) c
    → allows_hardware s.context.libjpeg_disabled ≡ true
    → s.context.mode444 ≡ false
    → Returns
        (λ t ret. (ret ≡ true) ⊎ Honest world target s t)
        (decode_fallback world target.format c)
unfolding decode_sw_fails
decode_fallback-Honest world target s (finished t ret) h d a m = ground (arith, h)
decode_fallback-Honest world target s (waits t) h d a m = tt
decode_fallback-Honest world target s (exhausted t) h d a m = tt
decode_fallback-Honest world target s (trapped t) h d a m = tt

libjpeg-Honest :
    (world : World) (target : Target) (s : Session)
    → Returns
        (λ t ret. (ret ≡ true) ⊎ Honest world target s t)
        (decode_fallback world target.format (finished (use_libjpeg false s) true))
unfolding decode_sw_fails
libjpeg-Honest world target s = ground arith

-- A surface that takes the image.
pub record Fits (target : Target) (context : Context) : Type 0 where
  pub width_fits : context.width ≤ target.width
  pub height_fits : context.height ≤ target.height
  pub pitch_fits : context.width * pitch_multiply target.format ≤ target.pitch
  pub supported : is_supported target.format ≡ true

Honest-chosen :
    (fuel rounds : ℕ) (world : World) (layout : Layout) (target : Target) (s : Session)
    → Returns
        (λ t ret. (ret ≡ true) ⊎ Honest world target s t)
        (decode_fallback world target.format (
          if not s.context.mode444 && allows_hardware s.context.libjpeg_disabled
          then decode_hw fuel rounds world layout target (sops_init (use_libjpeg false s))
          else finished (use_libjpeg false s) true))
Honest-chosen fuel rounds world layout target s =
    elim (Bool-cases (not s.context.mode444 && allows_hardware s.context.libjpeg_disabled)) [
      | inl e ↦ rw e (
          decode_fallback-Honest world target s _
            (decode_hw-Chosen fuel rounds world layout target (sops_init (use_libjpeg false s)))
            (decode_hw-Succeeds fuel rounds world layout target (sops_init (use_libjpeg false s)))
            (ground arith) (ground arith))
      | inr e ↦ rw e (libjpeg-Honest world target s)
    ]

-- When shjpeg_decode_run returns without an error, the surface takes the image and has a supported
-- format, and either `libjpeg_used` is true, and libjpeg was allowed, succeeded and was not asked for
-- YCbCr; or it is false, the hardware was allowed and not given a 4:4:4 image, and the JPU has reached
-- the end of the image without an error, or, for YCbCr, the frame buffer could not be mapped.
pub shjpeg_decode_run-Honest :
    (fuel rounds : ℕ) (world : World) (layout : Layout) (initialized virt : Bool) (target : Target)
    (s : Session)
    → Returns
        (λ t ret. (ret ≡ true) ⊎ (Fits target s.context × Honest world target s t))
        (shjpeg_decode_run fuel rounds world layout initialized virt target s)
unfolding shjpeg_decode_run
shjpeg_decode_run-Honest fuel rounds world layout initialized virt target s =
    if-Returns P (not initialized) (finished s true) _ (inl refl) (
      known-Returns P
        (ltb target.width s.context.width
          || (ltb target.height s.context.height
              || ltb target.pitch (s.context.width * pitch_multiply target.format)))
        (finished s true) _ (λ e. inl refl)
        (λ small. if-Returns P (not virt) (finished s true) _ (inl refl) (
          if-Returns P (target.phys == 0) (finished s true) _ (inl refl) (
            known-Returns P (not (is_supported target.format)) (finished s true) _ (λ e. inl refl)
              (λ known.
                with_fits
                  (record {
                    width_fits = ground arith;
                    height_fits = ground arith;
                    pitch_fits = ground arith;
                    supported = ground arith;
                  })
                  _ (Honest-chosen fuel rounds world layout target s))))))
  where
    P : Session → Bool → Type 0
    P t ret = (ret ≡ true) ⊎ (Fits target s.context × Honest world target s t)

    with_fits :
        Fits target s.context
        → (c : Coded) → Returns (λ t ret. (ret ≡ true) ⊎ Honest world target s t) c
        → Returns P c
    with_fits f (finished t ret) (inl e) = inl e
    with_fits f (finished t ret) (inr h) = inr (f, h)
    with_fits f (waits t) h = tt
    with_fits f (exhausted t) h = tt
    with_fits f (trapped t) h = tt
