-- ===== src/Decode/Ended.antt =====
-- The end of the decoding loop: what a return of decode_hw without an error says of the JPU.
use libshjpeg.Base.{
  ℕ, zero, suc, ◌≡◌, ◌⊎◌, inl, inr, refl, ◌==◌, Bool, true, false, not, ◌&&◌, if◌then◌else◌,
  Bool-cases,
}
use libshjpeg.PixelFormat.{pf_ycbcr}
use libshjpeg.Jpu.Vio.{shjpeg_vio_color}
use libshjpeg.Jpu.State.{Machine}
use libshjpeg.Jpu.Loops.{Outcome, returned, failed, blocked, out_of_fuel}
use libshjpeg.Jpu.Run.{shjpeg_jpu_run}
use libshjpeg.Device.{Layout, World, Session, Coded, finished, waits, exhausted, trapped}
use libshjpeg.Decode.{
  Target, is_unknown, frame_mode, sops_read, Reloading, decode_loop, reload_buffers, is_end,
}
use libshjpeg.Decode.Run.{free_frame, unlock_jpu, decode_program, decode_hw}
use libshjpeg.Decode.Outcomes.{Returns, if-Returns, known-Returns}

-- The JPU has reached the end of the image, and no error is recorded.
abbrev pub Ended : Machine → Type 0
Ended m = (is_end m.jpeg.state ≡ true) × ((m.jpeg.error == 0) ≡ true)

-- The image has been decoded, or it is for YCbCr and the frame buffer could not be mapped.
abbrev pub Decoded : World → ℕ → Session → Type 0
Decoded world format t =
    Ended t.machine ⊎ (((format == pf_ycbcr) ≡ true) × (world.map_frame ≡ false))

abbrev AtEnd : Session → Bool → Type 0
AtEnd t ret = (ret ≡ true) ⊎ Ended t.machine

abbrev pub Succeeds : World → ℕ → Session → Bool → Type 0
Succeeds world format t ret = (ret ≡ true) ⊎ Decoded world format t

at_end :
    (ret : Bool) (s : Session) (m : Machine)
    → is_end m.jpeg.state ≡ true
    → AtEnd (record s { machine = m }) (if not (m.jpeg.error == 0) then true else ret)
at_end ret s m e = elim (Bool-cases (m.jpeg.error == 0)) [
  | inl h ↦ inr (e, h)
  | inr h ↦ rw h (inl refl)
]

decode_loop-AtEnd :
    (fuel rounds : ℕ) (world : World) (r : Reloading)
    → Returns AtEnd (decode_loop fuel rounds world r)
unfolding decode_loop
decode_loop-AtEnd zero rounds world r = tt
decode_loop-AtEnd (suc fuel) rounds world r =
    after (shjpeg_jpu_run rounds r.session.context r.session.machine)
      (decode_loop-AtEnd fuel rounds world)
  where
    after :
        (o : Outcome)
        → ((next : Reloading) → Returns AtEnd (decode_loop fuel rounds world next))
        → Returns AtEnd (elim o [
          | returned m ↦
              let s = record r.session { machine = m } in
              if is_end m.jpeg.state
              then finished s (if not (m.jpeg.error == 0) then true else r.ret)
              else decode_loop fuel rounds world
                  (reload_buffers world (record { session = s; ret = r.ret }))
          | failed m ↦ finished (record r.session { machine = m }) true
          | blocked m ↦ waits (record r.session { machine = m })
          | out_of_fuel m ↦ exhausted (record r.session { machine = m })
        ])
    after (returned m) later =
        known-Returns AtEnd (is_end m.jpeg.state) _ _ (at_end r.ret r.session m) (λ e. later _)
    after (failed m) later = inl refl
    after (blocked m) later = tt
    after (out_of_fuel m) later = tt

free_frame-Succeeds :
    (world : World) (format : ℕ) (c : Coded)
    → Returns AtEnd c
    → Returns (Succeeds world format) (free_frame c)
free_frame-Succeeds world format (finished t ret) (inl e) = inl e
free_frame-Succeeds world format (finished t ret) (inr e) = inr (inl e)
free_frame-Succeeds world format (waits t) h = tt
free_frame-Succeeds world format (exhausted t) h = tt
free_frame-Succeeds world format (trapped t) h = tt

unlock_jpu-Succeeds :
    (world : World) (format : ℕ) (c : Coded)
    → Returns (Succeeds world format) c
    → Returns (Succeeds world format) (unlock_jpu world c)
unlock_jpu-Succeeds world format (finished t ret) h = elim (Bool-cases world.unlock) [
  | inl e ↦ rw e h
  | inr e ↦ rw e (inl refl)
]
unlock_jpu-Succeeds world format (waits t) h = tt
unlock_jpu-Succeeds world format (exhausted t) h = tt
unlock_jpu-Succeeds world format (trapped t) h = tt

decode_program-Succeeds :
    (fuel rounds : ℕ) (world : World) (layout : Layout) (target : Target) (len : ℕ) (s : Session)
    → Returns (Succeeds world target.format) (decode_program fuel rounds world layout target len s)
unfolding decode_program
decode_program-Succeeds fuel rounds world layout target len s = unlock_jpu-Succeeds world _ _ (
    if-Returns P (frame_mode s.context target.format) _ _ (looped _) (
      known-Returns P (target.format == pf_ycbcr) _ _
        (λ soft.
          known-Returns P world.map_frame _ _ (λ e. looped _)
            (λ unmapped. inr (inr (soft, unmapped))))
        (λ e. looped _)))
  where
    P : Session → Bool → Type 0
    P = Succeeds world target.format

    looped : (r : Reloading) → Returns P (free_frame (decode_loop fuel rounds world r))
    looped r = free_frame-Succeeds world _ _ (decode_loop-AtEnd fuel rounds world r)

pub decode_hw-Succeeds :
    (fuel rounds : ℕ) (world : World) (layout : Layout) (target : Target) (s : Session)
    → Returns (Succeeds world target.format) (decode_hw fuel rounds world layout target s)
unfolding decode_hw
decode_hw-Succeeds fuel rounds world layout target s =
    if-Returns P (is_unknown (shjpeg_vio_color target.format) && not (target.format == pf_ycbcr))
      (finished s true) _ (inl refl)
      (if-Returns P (s.machine.size_y (shjpeg_vio_color target.format) 1 0 == 0) (trapped s) _ tt (
        if-Returns P (not world.lock) (finished s true) _ (inl refl) (
          if-Returns P (not s.context.sops.read) _ _ (inl refl) (
            if-Returns P (world.read s.count).failed _ _ (inl refl) (
              decode_program-Succeeds fuel rounds world layout target (world.read s.count).len
                (sops_read 0 (record s { locked = true })))))))
  where
    P : Session → Bool → Type 0
    P = Succeeds world target.format
