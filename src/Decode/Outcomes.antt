-- ===== src/Decode/Outcomes.antt =====
-- The outcomes of decode_hw: the lock and the mapping on every path.
use libshjpeg.Base.{
  ℕ, zero, suc, ◌≡◌, ◌⊎◌, inl, inr, refl, ◌∙◌, arith, ◌==◌, Bool, true, false, not, ◌&&◌,
  if◌then◌else◌, Bool-cases,
}
use libshjpeg.PixelFormat.{pf_ycbcr}
use libshjpeg.Jpu.Vio.{shjpeg_vio_color}
use libshjpeg.Jpu.State.{Machine}
use libshjpeg.Jpu.Loops.{Outcome, returned, failed, blocked, out_of_fuel}
use libshjpeg.Jpu.Run.{shjpeg_jpu_run}
use libshjpeg.Device.{Layout, World, Session, Coded, finished, waits, exhausted, trapped}
use libshjpeg.Decode.{
  Target, is_unknown, frame_mode, sops_read, Reloading, decode_loop, reload_buffer, reload_buffers,
  is_end,
}
use libshjpeg.Decode.Run.{free_frame, unlock_jpu, decode_program, decode_hw}

-- What holds of the session and of the error of a return.
abbrev pub Returns {ℓ} : (Session → Bool → Type ℓ) → Coded → Type ℓ
Returns P (finished s ret) = P s ret
Returns P (waits s) = Unit
Returns P (exhausted s) = Unit
Returns P (trapped s) = Unit

-- What the loop leaves alone.
pub record Keeps (s s' : Session) : Type 0 where
  pub context : s'.context ≡ s.context
  pub locked : s'.locked ≡ s.locked
  pub mapped : s'.mapped ≡ s.mapped

reload_buffer-Keeps :
    (world : World) (i : ℕ) (r : Reloading) → Keeps r.session (reload_buffer world i r).session
unfolding reload_buffer
reload_buffer-Keeps world i r = ground arith

Keeps-trans : {s s' s'' : Session} → Keeps s s' → Keeps s' s'' → Keeps s s''
Keeps-trans k k' = record {
  context = k'.context ∙ k.context;
  locked = k'.locked ∙ k.locked;
  mapped = k'.mapped ∙ k.mapped;
}

reload_buffers-Keeps :
    (world : World) (r : Reloading) → Keeps r.session (reload_buffers world r).session
unfolding reload_buffers
reload_buffers-Keeps world r =
    Keeps-trans (reload_buffer-Keeps world 2 r)
      (reload_buffer-Keeps world 1 (reload_buffer world 2 r))

Returns-Keeps :
    {s s' : Session}
    → Keeps s s'
    → (c : Coded) → Returns (λ t ret. Keeps s' t) c
    → Returns (λ t ret. Keeps s t) c
Returns-Keeps k (finished t ret) h = Keeps-trans k h
Returns-Keeps k (waits t) h = tt
Returns-Keeps k (exhausted t) h = tt
Returns-Keeps k (trapped t) h = tt

same : (s : Session) (m : Machine) → Keeps s (record s { machine = m })
same s m = record { context = refl; locked = refl; mapped = refl }

pub decode_loop-Keeps :
    (fuel rounds : ℕ) (world : World) (r : Reloading)
    → Returns (λ t ret. Keeps r.session t) (decode_loop fuel rounds world r)
unfolding decode_loop
decode_loop-Keeps zero rounds world r = tt
decode_loop-Keeps (suc fuel) rounds world r =
    after (shjpeg_jpu_run rounds r.session.context r.session.machine)
      (decode_loop-Keeps fuel rounds world)
  where
    after :
        (o : Outcome)
        → ((next : Reloading)
            → Returns (λ t ret. Keeps next.session t) (decode_loop fuel rounds world next))
        → Returns
            (λ t ret. Keeps r.session t)
            (elim o [
              | returned m ↦
                  let s = record r.session { machine = m } in
                  if is_end m.jpeg.state
                  then finished s (if not (m.jpeg.error == 0) then true else r.ret)
                  else decode_loop fuel rounds world
                      (reload_buffers world (record { session = s; ret = r.ret }))
              | failed m ↦ finished (record r.session { machine = m }) true
              | blocked m ↦ waits (record r.session { machine = m })
              | out_of_fuel m ↦ exhausted (record r.session { machine = m })
            ])
    after (returned m) later =
        let next : Reloading = record { session = record r.session { machine = m }; ret = r.ret } in
        elim (Bool-cases (is_end m.jpeg.state)) [
          | inl e ↦ rw e (same r.session m)
          | inr e ↦ rw e (
              Returns-Keeps (Keeps-trans (same r.session m) (reload_buffers-Keeps world next)) _
                (later (reload_buffers world next)))
        ]
    after (failed m) later = same r.session m
    after (blocked m) later = tt
    after (out_of_fuel m) later = tt

pub known-Returns {ℓ} :
    (P : Session → Bool → Type ℓ) (b : Bool) (c c' : Coded)
    → (b ≡ true → Returns P c)
    → (b ≡ false → Returns P c')
    → Returns P (if b then c else c')
known-Returns P true c c' h h' = h refl
known-Returns P false c c' h h' = h' refl

-- Not mapped, and not locked; where uiomux does not unlock, the return reports an error.
abbrev pub Clean : World → Session → Bool → Type 0
Clean world s ret =
    (s.mapped ≡ false) × ((s.locked ≡ false) ⊎ ((world.unlock ≡ false) × (ret ≡ true)))

pub unlock_jpu-Clean :
    (world : World) (c : Coded)
    → Returns (λ s ret. s.mapped ≡ false) c
    → Returns (Clean world) (unlock_jpu world c)
unlock_jpu-Clean world (finished s ret) h = elim (Bool-cases world.unlock) [
  | inl e ↦ rw e (h, inl refl)
  | inr e ↦ rw e (h, inr (refl, refl))
]
unlock_jpu-Clean world (waits s) h = tt
unlock_jpu-Clean world (exhausted s) h = tt
unlock_jpu-Clean world (trapped s) h = tt

pub free_frame-unmapped : (c : Coded) → Returns (λ s ret. s.mapped ≡ false) (free_frame c)
free_frame-unmapped (finished s ret) = refl
free_frame-unmapped (waits s) = tt
free_frame-unmapped (exhausted s) = tt
free_frame-unmapped (trapped s) = tt

pub if-Returns {ℓ} :
    (P : Session → Bool → Type ℓ) (b : Bool) (c c' : Coded)
    → Returns P c
    → Returns P c'
    → Returns P (if b then c else c')
if-Returns P true c c' h h' = h
if-Returns P false c c' h h' = h'

decode_program-Clean :
    (fuel rounds : ℕ) (world : World) (layout : Layout) (target : Target) (len : ℕ) (s : Session)
    → s.mapped ≡ false
    → Returns (Clean world) (decode_program fuel rounds world layout target len s)
unfolding decode_program
decode_program-Clean fuel rounds world layout target len s h = unlock_jpu-Clean world _ (
    if-Returns (λ t ret. t.mapped ≡ false) (frame_mode s.context target.format) _ _
      (free_frame-unmapped _)
      (if-Returns (λ t ret. t.mapped ≡ false) (target.format == pf_ycbcr) _ _
        (if-Returns (λ t ret. t.mapped ≡ false) world.map_frame _ _ (free_frame-unmapped _) h)
        (free_frame-unmapped _)))

-- Whatever the answers of the stream and the system, when decode_hw returns the frame buffer is not
-- mapped, and the JPU is not locked unless the client set no read operation, or uiomux does not unlock
-- it and the return reports an error; it starts so.
pub decode_hw-releases :
    (fuel rounds : ℕ) (world : World) (layout : Layout) (target : Target) (s : Session)
    → s.locked ≡ false
    → s.mapped ≡ false
    → Returns
        (λ t ret.
          Clean world t ret ⊎ ((t.mapped ≡ false) × (s.context.sops.read ≡ false) × (ret ≡ true)))
        (decode_hw fuel rounds world layout target s)
unfolding decode_hw
decode_hw-releases fuel rounds world layout target s l h =
    if-Returns P (is_unknown (shjpeg_vio_color target.format) && not (target.format == pf_ycbcr))
      (finished s true) _ untouched
      (if-Returns P (s.machine.size_y (shjpeg_vio_color target.format) 1 0 == 0) (trapped s) _ tt (
        if-Returns P (not world.lock) (finished s true) _ untouched (
          known-Returns P (not s.context.sops.read) (finished (record s { locked = true }) true) _
            still_locked
            (λ e.
              if-Returns P (world.read s.count).failed
                (finished (record s2 { locked = if world.unlock then false else true }) true) _
                (inl failed_read)
                (weaken _ (
                  decode_program-Clean fuel rounds world layout target (world.read s.count).len s2
                    h))))))
  where
    P : Session → Bool → Type 0
    P t ret =
        Clean world t ret ⊎ ((t.mapped ≡ false) × (s.context.sops.read ≡ false) × (ret ≡ true))

    s2 : Session
    s2 = sops_read 0 (record s { locked = true })

    untouched : P s true
    untouched = inl (h, inl l)

    still_locked : not s.context.sops.read ≡ true → P (record s { locked = true }) true
    still_locked e = inr (h, ground arith, refl)

    failed_read : Clean world (record s2 { locked = if world.unlock then false else true }) true
    failed_read = elim (Bool-cases world.unlock) [
      | inl e ↦ rw e (h, inl refl)
      | inr e ↦ rw e (h, inr (refl, refl))
    ]

    weaken : (c : Coded) → Returns (Clean world) c → Returns P c
    weaken (finished t ret) q = inl q
    weaken (waits t) q = tt
    weaken (exhausted t) q = tt
    weaken (trapped t) q = tt
