-- ===== src/Encode/Release.antt =====
-- The lock and the mapping of an encoder on every path.
use libshjpeg.Base.{ℕ, ◌≡◌, ◌⊎◌, inl, inr, refl, arith, ◌==◌, Bool, true, false, not, ◌||◌}
use libshjpeg.PixelFormat.{pf_nv12, pf_nv16, pf_ycbcr}
use libshjpeg.Device.{Layout, World, Session, Coded, finished, waits, exhausted, trapped}
use libshjpeg.Decode.{Target}
use libshjpeg.Decode.Outcomes.{
  Returns, if-Returns, known-Returns, Clean, unlock_jpu-Clean, free_frame-unmapped,
}
use libshjpeg.Encode.{encode_run, encode_hw}

encode_run-Clean :
    (fuel rounds : ℕ) (world : World) (s : Session)
    → Returns (Clean world) (encode_run fuel rounds world s)
unfolding encode_run
encode_run-Clean fuel rounds world s = unlock_jpu-Clean world _ (free_frame-unmapped _)

-- Whatever the answers of the system, when encode_hw returns the frame buffer is not mapped, and the
-- JPU is not locked unless the frame buffer of a YCbCr surface could not be mapped, or uiomux does not
-- unlock it, and then the return reports an error; it starts so.
pub encode_hw-releases :
    (fuel rounds : ℕ) (world : World) (layout : Layout) (source : Target) (s : Session)
    → s.locked ≡ false
    → s.mapped ≡ false
    → Returns
        (λ t ret.
          Clean world t ret
          ⊎ ((t.mapped ≡ false)
              × ((source.format == pf_ycbcr) ≡ true)
              × (world.map_frame ≡ false)
              × (ret ≡ true)))
        (encode_hw fuel rounds world layout source s)
unfolding encode_hw
encode_hw-releases fuel rounds world layout source s l h =
    if-Returns P (not world.lock) (finished s true) _ (inl (h, inl l)) (
      if-Returns P (source.format == pf_nv12 || source.format == pf_nv16) _ _
        (weaken _ (encode_run-Clean fuel rounds world _))
        (known-Returns P (source.format == pf_ycbcr) _ _
          (λ e.
            known-Returns P world.map_frame _ (finished _ true)
              (λ m. weaken _ (encode_run-Clean fuel rounds world _))
              (λ m. inr (ground arith, e, m, refl)))
          (λ e. weaken _ (encode_run-Clean fuel rounds world _))))
  where
    P : Session → Bool → Type 0
    P t ret =
        Clean world t ret
        ⊎ ((t.mapped ≡ false)
            × ((source.format == pf_ycbcr) ≡ true)
            × (world.map_frame ≡ false)
            × (ret ≡ true))

    weaken : (c : Coded) → Returns (Clean world) c → Returns P c
    weaken (finished t ret) q = inl q
    weaken (waits t) q = tt
    weaken (exhausted t) q = tt
    weaken (trapped t) q = tt
