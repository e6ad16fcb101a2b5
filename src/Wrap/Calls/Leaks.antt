-- ===== src/Wrap/Calls/Leaks.antt =====
-- What the calls take and do not give back, or give back twice.
use libshjpeg.Base.{
  ℕ, suc, ◌+◌, ◌≤◌, ◌≡◌, ◌≢◌, ◌⊎◌, inl, inr, refl, sym, ◌∙◌, ap, arith, subst, ◌==◌, Bool, true,
  false, Option, none, some,
}
use libshjpeg.Context.{Context, disabled}
use libshjpeg.Device.{Session, finished}
use libshjpeg.Source.{is_420}
use libshjpeg.Lifecycle.{Library, shjpeg_init, shjpeg_shutdown, malloc_size}
use libshjpeg.Wrap.Support.{Decompress, get_shjpeg_pixelformat, is_jpu_supported_decompress}
use libshjpeg.Wrap.Calls.{
  Handle, live, freed, unset, destroy_inside, Wrapper, State, Outside, returned,
  shjpeg_start_decompress, finish_decompress, shjpeg_finish_decompress, give_back, act, on_context,
  shjpeg_destroy, destroy_found, destroy_on, hook, taken, shut_down, jpeg_calc_output_dimensions,
  jpeg_start_decompress, put, sized, ops_set, source_ops, with_buffer, start_decompress,
  decode_done, decode_image,
}
use libshjpeg.Wrap.Calls.Started.{
  OnReturn, Hardware, Software, init-counts, shutdown-counts, shjpeg_start_decompress-Started,
}

-- An object decodes `n` images in JPU mode, one after the other.
pub data Decodes (s : State) : ℕ → State → Type 0 where
  begun : Decodes s 0 s
  one_more :
      {n : ℕ} {t : State} (o o' : Outside) (cinfo : Decompress) (w : Wrapper) (t1 t2 : State)
      → Decodes s n t
      → shjpeg_start_decompress o cinfo t ≡ returned true t1
      → t1.ctx ≡ some w
      → w.jpumode ≡ true
      → shjpeg_finish_decompress o' t1 ≡ returned true t2
      → Decodes s (suc n) t2

-- Each image has left a context that is held.
record Counted (s : State) (n : ℕ) (t : State) : Type 0 where
  w : Wrapper
  ctx : t.ctx ≡ some w
  idle : w.jpumode ≡ false
  counted : t.library.ref_count ≡ s.library.ref_count + n
  there : (n ≡ 0) ⊎ (w.handle ≡ live)

some_same : {a b : Wrapper} (c : Option Wrapper) → c ≡ some a → c ≡ some b → a ≡ b
some_same c p q = cc

returned_state : {a b : Bool} {s t : State} → returned a s ≡ returned b t → s ≡ t
returned_state h = cc

finished_decompress :
    (o : Outside) (w : Wrapper) (t t2 : State)
    → w.jpumode ≡ true
    → finish_decompress o w t ≡ returned true t2
    → (t2.library.ref_count ≡ t.library.ref_count)
      × (t2.ctx ≡ some (record w { virt_addr = 0; bufsize = 0; jpumode = false }))
unfolding finish_decompress
finished_decompress o w t t2 e h = ground (arith, h)

start-Counted :
    (s t t1 : State) (n : ℕ) (o : Outside) (cinfo : Decompress) (w : Wrapper)
    → Counted s n t
    → shjpeg_start_decompress o cinfo t ≡ returned true t1
    → t1.ctx ≡ some w
    → w.jpumode ≡ true
    → (t1.library.ref_count ≡ s.library.ref_count + suc n) × (w.handle ≡ live)
start-Counted s t t1 n o cinfo w c started ctx mode =
    let r : Hardware o cinfo t true t1 ⊎ Software o t c.w true t1 =
      subst (OnReturn (λ b s'. Hardware o cinfo t b s' ⊎ Software o t c.w b s')) started
        (shjpeg_start_decompress-Started o cinfo t c.w c.ctx) in
    elim r [
      | inl h ↦ (
        omega (arith, h.counted, c.counted),
        subst (λ (x : Wrapper). x.handle ≡ live) (some_same t1.ctx h.ctx ctx) h.handle_live,
      )
      | inr h ↦
          let same =
            subst (λ (x : Wrapper). x.jpumode ≡ c.w.jpumode) (some_same t1.ctx h.ctx ctx) h.mode in
          absurd (true_ne_false (sym mode ∙ same ∙ c.idle))
    ]
  where
    true_ne_false : true ≡ false → ⊥
    true_ne_false e = cc

finish_found :
    (o : Outside) (w : Wrapper) (t t2 : State)
    → t.ctx ≡ some w
    → shjpeg_finish_decompress o t ≡ returned true t2
    → finish_decompress o w t ≡ returned true t2
unfolding shjpeg_finish_decompress
finish_found o w t t2 e h =
    subst (λ (c : Option Wrapper). on_context (finish_decompress o) t c ≡ returned true t2) e h

Decodes-Counted :
    (s : State) (w : Wrapper)
    → s.ctx ≡ some w
    → w.jpumode ≡ false
    → {n : ℕ} {t : State} → Decodes s n t
    → Counted s n t
Decodes-Counted s w ctx idle begun = record {
  w = w;
  ctx = ctx;
  idle = idle;
  counted = omega arith;
  there = inl refl;
}
Decodes-Counted s w ctx idle (one_more {n} {t} o o' cinfo w1 t1 t2 d started at mode finished_now) =
    let c = Decodes-Counted s w ctx idle d in
    let a = start-Counted s t t1 n o cinfo w1 c started at mode in
    let b = finished_decompress o' w1 t1 t2 mode (finish_found o' w1 t1 t2 at finished_now) in
    record {
      w = record w1 { virt_addr = 0; bufsize = 0; jpumode = false };
      ctx = b.1;
      idle = refl;
      counted = b.0 ∙ a.0;
      there = inr (a.1);
    }

give_back-library : (w : Wrapper) (s : State) → (give_back w s).library ≡ s.library
give_back-library w s = ground arith

destroy_on-counts :
    (w : Wrapper) (h : Handle) (s : State)
    → h ≢ unset
    → 1 ≤ s.library.ref_count
    → (destroy_on true w h s).library.ref_count + 1 ≡ s.library.ref_count
destroy_on-counts w unset s e held = absurd (e refl)
destroy_on-counts w live s e held =
    let s1 = act (destroy_inside w.handle) s in
    ap (λ (l : Library). (shjpeg_shutdown l).ref_count + 1) (give_back-library w s1)
    ∙ shutdown-counts s.library held
destroy_on-counts w freed s e held =
    let s1 = act (destroy_inside w.handle) s in
    ap (λ (l : Library). (shjpeg_shutdown l).ref_count + 1) (give_back-library w s1)
    ∙ shutdown-counts s.library held

destroy-counts :
    (t : State) (w : Wrapper)
    → t.ctx ≡ some w
    → w.handle ≢ unset
    → 1 ≤ t.library.ref_count
    → (shjpeg_destroy true t).library.ref_count + 1 ≡ t.library.ref_count
unfolding shjpeg_destroy
destroy-counts t w ctx there held =
    subst
      (λ (c : Option Wrapper). (destroy_found true c t).library.ref_count + 1 ≡ t.library.ref_count)
      (sym ctx) (destroy_on-counts w w.handle (record t { ctx = none }) there held)

live_ne_unset : (h : Handle) → h ≡ live → h ≢ unset
live_ne_unset h e = cc

-- Destroying an object that was not in JPU mode at first gives back one context, however many
-- images it has decoded in JPU mode since: of n images, n - 1 contexts stay.
pub Decodes-leaks :
    (s t : State) (n : ℕ) (w : Wrapper)
    → s.ctx ≡ some w
    → w.jpumode ≡ false
    → Decodes s n t
    → 1 ≤ n
    → (shjpeg_destroy true t).library.ref_count + 1 ≡ s.library.ref_count + n
Decodes-leaks s t n w ctx idle d some_image =
    let c = Decodes-Counted s w ctx idle d in
    let there : c.w.handle ≡ live = elim c.there [
      | inl e ↦ absurd (omega (arith, e))
      | inr e ↦ e
    ] in
    destroy-counts t c.w c.ctx (live_ne_unset c.w.handle there) (omega (arith, c.counted))
    ∙ c.counted

freed_ne_unset : (h : Handle) → h ≡ freed → h ≢ unset
freed_ne_unset h e = cc

-- What a start gives to shjpeg_decode_run: the context with the image and the buffer, and the state
-- that the buffer's allocation leaves.
abbrev pub image_wrapper : Outside → Decompress → Wrapper → Wrapper
image_wrapper o cinfo w =
    let context : Context =
      sized cinfo.frame.output_width cinfo.frame.output_height cinfo.out_color_components in
    record w {
      handle = live;
      context = record context {
        mode444 = false;
        mode420 = is_420 cinfo.frame;
        libjpeg_disabled = disabled;
        sops = ops_set (source_ops w.ops);
      };
      virt_addr = o.buffer;
      bufsize =
          malloc_size (get_shjpeg_pixelformat cinfo.out_color_space) context.height context.pitch;
      ops = source_ops w.ops;
    }

abbrev pub image_state : Outside → Decompress → Wrapper → State → State
image_state o cinfo w s =
    let w1 = image_wrapper o cinfo w in
    let context : Context =
      sized cinfo.frame.output_width cinfo.frame.output_height cinfo.out_color_components in
    put (record w1 { context = context; ops = w.ops })
      (act (taken w1.virt_addr w1.bufsize) (record (act (hook jpeg_calc_output_dimensions) s) {
        library = (shjpeg_init o.allocated o.answers s.library).0;
      }))

start_runs :
    (o : Outside) (cinfo : Decompress) (s : State) (w : Wrapper)
    → is_jpu_supported_decompress cinfo ≡ true
    → (shjpeg_init o.allocated o.answers s.library).1 ≡ true
    → (o.buffer == 0) ≡ false
    → start_decompress o cinfo w s
      ≡ decode_done o
          (image_wrapper o cinfo w)
          (image_state o cinfo w s)
          (decode_image o cinfo (image_wrapper o cinfo w) (image_state o cinfo w s))
unfolding start_decompress with_buffer
start_runs o cinfo s w sup h b = rw (sup, h, b) refl

start_found :
    (o : Outside) (cinfo : Decompress) (s : State) (w : Wrapper)
    → s.ctx ≡ some w
    → shjpeg_start_decompress o cinfo s ≡ start_decompress o cinfo w s
unfolding shjpeg_start_decompress
start_found o cinfo s w e = rw e refl

-- In a library that holds other contexts, a start of an object with an image that the JPU supports,
-- a context and a buffer, whose decoding reports an error, returns libjpeg's result. It has freed its
-- context and leaves the pointer to it; destroying the object then gives back a context a second
-- time: one that another object holds is no longer counted.
pub failed_start-destroy :
    (o : Outside) (cinfo : Decompress) (s : State) (w : Wrapper) (t : Session)
    → s.ctx ≡ some w
    → is_jpu_supported_decompress cinfo ≡ true
    → (shjpeg_init o.allocated o.answers s.library).1 ≡ true
    → (o.buffer == 0) ≡ false
    → decode_image o cinfo (image_wrapper o cinfo w) (image_state o cinfo w s) ≡ finished t true
    → 1 ≤ s.library.ref_count
    → (s' : State) × (w' : Wrapper) × (shjpeg_start_decompress o cinfo s
        ≡ returned o.hook_returns s')
      × (s'.ctx ≡ some w')
      × (w'.handle ≡ freed)
      × ((shjpeg_destroy true s').library.ref_count + 1 ≡ s.library.ref_count)
failed_start-destroy o cinfo s w t ctx sup init there fails held =
    let w1 = image_wrapper o cinfo w in
    let s1 = image_state o cinfo w s in
    let w' = record w1 { handle = freed } in
    let s' = act (hook jpeg_start_decompress) (
      put w' (
        act (shut_down live)
          (act (destroy_inside live) (record s1 { library = shjpeg_shutdown s1.library })))) in
    let more = init-counts o.allocated o.answers s.library init in
    let count : s'.library.ref_count ≡ s.library.ref_count =
      omega (arith, shutdown-counts s1.library (omega arith), more) in
    (
      s',
      w',
      start_found o cinfo s w ctx
          ∙ start_runs o cinfo s w sup init there
          ∙ ap (decode_done o w1 s1) fails,
      refl,
      refl,
      destroy-counts s' w' refl (freed_ne_unset freed refl) (omega arith) ∙ count,
    )
