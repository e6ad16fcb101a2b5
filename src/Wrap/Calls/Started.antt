-- ===== src/Wrap/Calls/Started.antt =====
-- How a decompression starts: in JPU mode with the image in the buffer, or with libjpeg.
use libshjpeg.Base.{
  ℕ, ◌+◌, ◌≤◌, ◌≡◌, ◌≢◌, ◌⊎◌, inl, inr, refl, sym, arith, subst, ◌==◌, Bool, true, false, not,
  if◌then◌else◌, Option, some, List, ◌∷◌,
}
use libshjpeg.Context.{Fallback, disabled}
use libshjpeg.Device.{World, Layout, Session, Coded, finished, waits, exhausted, trapped}
use libshjpeg.Decode.Run.{allows_software, shjpeg_decode_run}
use libshjpeg.Decode.{Target}
use libshjpeg.Decode.Outcomes.{Returns}
use libshjpeg.Decode.Ended.{Decoded}
use libshjpeg.Decode.Choice.{Fits, Honest, shjpeg_decode_run-Honest}
use libshjpeg.Lifecycle.{Answers, Library, uio_init, uio_shutdown, shjpeg_init, shjpeg_shutdown}
use libshjpeg.Wrap.Support.{Decompress, get_shjpeg_pixelformat, is_jpu_supported_decompress}
use libshjpeg.Wrap.Calls.{
  live, freed, unset, jpeg_start_decompress, jpeg_calc_output_dimensions, Action, hook, taken,
  Wrapper, State, Outside, Outcome, returned, error_exit, unfinished, with_buffer, decode_done,
  decode_image, start_decompress, shjpeg_start_decompress, on_context,
}

-- What holds of a return of a call.
abbrev pub OnReturn : (Bool → State → Type 0) → Outcome → Type 0
OnReturn P (returned b s) = P b s
OnReturn P (error_exit m s) = Unit
OnReturn P (unfinished s) = Unit

-- JPU mode: the image was supported, a context more than before and a buffer are there, libjpeg has
-- not been asked to start, and shjpeg_decode_run was called for that buffer and returned 0: the JPU
-- has reached the end of the image without an error, or the frame buffer was not mapped for YCbCr.
pub record Hardware (o : Outside) (cinfo : Decompress) (s : State) (b : Bool) (s' : State)
    : Type 0 where
  pub w' : Wrapper
  pub ctx : s'.ctx ≡ some w'
  pub mode : w'.jpumode ≡ true
  pub result : b ≡ true
  pub supported : is_jpu_supported_decompress cinfo ≡ true
  pub handle_live : w'.handle ≡ live
  pub buffer_there : w'.virt_addr ≢ 0
  pub given : Wrapper
  pub at : State
  pub after : Session
  pub run : decode_image o cinfo given at ≡ finished after false
  pub same_buffer : w'.virt_addr ≡ given.virt_addr
  pub context : w'.context ≡ after.context
  pub by_hardware : after.context.libjpeg_used ≡ false
  pub decoded : Decoded o.world (get_shjpeg_pixelformat cinfo.out_color_space) after
  pub counted : s'.library.ref_count ≡ s.library.ref_count + 1
  pub actions :
      s'.actions ≡ taken w'.virt_addr w'.bufsize ∷ hook jpeg_calc_output_dimensions ∷ s.actions

-- libjpeg's start is the last action, its result the result, and the mode as before. A context that
-- has been freed in the call is no longer counted.
pub record Software (o : Outside) (s : State) (w : Wrapper) (b : Bool) (s' : State) : Type 0 where
  pub w' : Wrapper
  pub ctx : s'.ctx ≡ some w'
  pub mode : w'.jpumode ≡ w.jpumode
  pub result : b ≡ o.hook_returns
  pub failed : w'.handle ≡ freed → (w.handle ≡ freed) ⊎ (s'.library.ref_count ≡ s.library.ref_count)
  pub earlier : List Action
  pub actions : s'.actions ≡ hook jpeg_start_decompress ∷ earlier

abbrev Started : Outside → Decompress → State → Wrapper → Bool → State → Type 0
Started o cinfo s w b s' = Hardware o cinfo s b s' ⊎ Software o s w b s'

-- A context is held by a successful call of shjpeg_init.
pub init-counts :
    (allocated : Bool) (a : Answers) (l : Library)
    → (shjpeg_init allocated a l).1 ≡ true
    → (shjpeg_init allocated a l).0.ref_count ≡ l.ref_count + 1
unfolding shjpeg_init uio_init uio_shutdown
init-counts allocated a l h = ground arith

pub shutdown-counts :
    (l : Library) → 1 ≤ l.ref_count → (shjpeg_shutdown l).ref_count + 1 ≡ l.ref_count
unfolding shjpeg_shutdown uio_shutdown
shutdown-counts l h = ground arith

unset_ne_freed : unset ≡ freed → ⊥
unset_ne_freed e = cc

live_ne_freed : live ≡ freed → ⊥
live_ne_freed e = cc

-- An error, or the hardware's result.
abbrev ByHardware : World → ℕ → Session → Bool → Type 0
ByHardware world format t ret =
    (ret ≡ true) ⊎ ((t.context.libjpeg_used ≡ false) × Decoded world format t)

-- The end of a start in a state that has the buffer.
decode_done-Started :
    (o : Outside) (cinfo : Decompress) (s s1 : State) (w w1 : Wrapper) (c : Coded)
    → is_jpu_supported_decompress cinfo ≡ true
    → w1.handle ≡ live
    → w1.virt_addr ≢ 0
    → w1.jpumode ≡ w.jpumode
    → s1.library.ref_count ≡ s.library.ref_count + 1
    → s1.actions ≡ taken w1.virt_addr w1.bufsize ∷ hook jpeg_calc_output_dimensions ∷ s.actions
    → Returns (ByHardware o.world (get_shjpeg_pixelformat cinfo.out_color_space)) c
    → decode_image o cinfo w1 s1 ≡ c
    → OnReturn (Started o cinfo s w) (decode_done o w1 s1 c)
decode_done-Started o cinfo s s1 w w1 (finished t true) sup there buf same more acts r run =
    inr (record {
      w' = record w1 { handle = freed };
      ctx = refl;
      mode = same;
      result = refl;
      failed = λ e. inr (omega (arith, shutdown-counts s1.library (omega arith), more));
      earlier = _;
      actions = refl;
    })
decode_done-Started o cinfo s s1 w w1 (finished t false) sup there buf same more acts (inl e) run =
    absurd (cc)
decode_done-Started o cinfo s s1 w w1 (finished t false) sup there buf same more acts (inr e) run =
    inl (record {
      w' = record w1 { jpumode = true; context = t.context };
      ctx = refl;
      mode = refl;
      result = refl;
      supported = sup;
      handle_live = there;
      buffer_there = buf;
      given = w1;
      at = s1;
      after = t;
      run = run;
      same_buffer = refl;
      context = refl;
      by_hardware = e.0;
      decoded = e.1;
      counted = more;
      actions = acts;
    })
decode_done-Started o cinfo s s1 w w1 (waits t) sup there buf same more acts r run = tt
decode_done-Started o cinfo s s1 w w1 (exhausted t) sup there buf same more acts r run = tt
decode_done-Started o cinfo s s1 w w1 (trapped t) sup there buf same more acts r run = tt

if-OnReturn :
    (P : Bool → State → Type 0) (b : Bool) (x y : Outcome)
    → (b ≡ true → OnReturn P x)
    → (b ≡ false → OnReturn P y)
    → OnReturn P (if b then x else y)
if-OnReturn P true x y h k = h refl
if-OnReturn P false x y h k = k refl

Returns-map :
    (P Q : Session → Bool → Type 0) (c : Coded)
    → ((t : Session) (ret : Bool) → P t ret → Q t ret)
    → Returns P c
    → Returns Q c
Returns-map P Q (finished t ret) f h = f t ret h
Returns-map P Q (waits t) f h = tt
Returns-map P Q (exhausted t) f h = tt
Returns-map P Q (trapped t) f h = tt

false_ne_true : false ≡ true → ⊥
false_ne_true h = cc

-- With libjpeg disabled, only the hardware decodes.
hardware_only :
    (fuel rounds : ℕ) (world : World) (layout : Layout) (initialized virt : Bool) (target : Target)
    (s : Session)
    → s.context.libjpeg_disabled ≡ disabled
    → Returns
        (ByHardware world target.format)
        (shjpeg_decode_run fuel rounds world layout initialized virt target s)
hardware_only fuel rounds world layout initialized virt target s e =
    Returns-map _ _ _
      (λ (t : Session) (ret : Bool)
          (h : (ret ≡ true) ⊎ (Fits target s.context × Honest world target s t)).
        chosen t ret h)
      (shjpeg_decode_run-Honest fuel rounds world layout initialized virt target s)
  where
    chosen :
        (t : Session) (ret : Bool)
        → (ret ≡ true) ⊎ (Fits target s.context × Honest world target s t)
        → ByHardware world target.format t ret
    chosen t ret (inl h) = inl h
    chosen t ret (inr h) = elim h.1.decoder [
      | inl d ↦ absurd (false_ne_true (subst (λ (f : Fallback). allows_software f ≡ true) e (d.1)))
      | inr d ↦ inr (d.0, d.3)
    ]

Started-found :
    (o : Outside) (cinfo : Decompress) (s : State) (w : Wrapper)
    → s.ctx ≡ some w
    → OnReturn (Started o cinfo s w) (start_decompress o cinfo w s)
unfolding start_decompress with_buffer
Started-found o cinfo s w e =
    if-OnReturn (Started o cinfo s w) (not (is_jpu_supported_decompress cinfo)) _ _
      (λ h. inr (record {
        w' = w;
        ctx = e;
        mode = refl;
        result = refl;
        failed = λ f. inl f;
        earlier = s.actions;
        actions = refl;
      }))
      (λ sup.
        if-OnReturn (Started o cinfo s w) (not (shjpeg_init o.allocated o.answers s.library).1) _ _
          (λ h. inr (record {
            w' = record w { handle = unset };
            ctx = refl;
            mode = refl;
            result = refl;
            failed = λ f. absurd (unset_ne_freed f);
            earlier = _;
            actions = refl;
          }))
          (λ h.
            if-OnReturn (Started o cinfo s w) (o.buffer == 0) _ _
              (λ empty. inr (record {
                w' = _;
                ctx = refl;
                mode = refl;
                result = refl;
                failed = λ f. absurd (live_ne_freed f);
                earlier = _;
                actions = refl;
              }))
              (λ there.
                decode_done-Started o cinfo s _ w _ _ (ground (arith, sup)) refl
                  (ground (arith, there)) refl
                  (init-counts o.allocated o.answers s.library (ground (arith, h))) refl
                  (hardware_only o.fuel o.rounds o.world o.layout _ _ _ _ refl) refl)))

-- Whatever the answers from outside: when shjpeg_start_decompress returns, either the object is in
-- JPU mode with a live context, one more than before, and a buffer, libjpeg has not been asked to
-- start, the image is one that the JPU supports, and a call of shjpeg_decode_run for that buffer
-- returned without an error and without libjpeg: the JPU has reached the end of the image without an
-- error, or, for YCbCr, the frame buffer could not be mapped; or libjpeg's start was called last, its
-- result is returned, and the mode is as before.
pub shjpeg_start_decompress-Started :
    (o : Outside) (cinfo : Decompress) (s : State) (w : Wrapper)
    → s.ctx ≡ some w
    → OnReturn
        (λ b s'. Hardware o cinfo s b s' ⊎ Software o s w b s')
        (shjpeg_start_decompress o cinfo s)
unfolding shjpeg_start_decompress
shjpeg_start_decompress-Started o cinfo s w e =
    subst
      (λ (c : Option Wrapper).
        OnReturn (Started o cinfo s w) (on_context (start_decompress o cinfo) s c))
      (sym e) (Started-found o cinfo s w e)
