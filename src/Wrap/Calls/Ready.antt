-- ===== src/Wrap/Calls/Ready.antt =====
-- In JPU mode an object's context and its buffer are there.
use libshjpeg.Base.{
  ℕ, ◌≡◌, ◌≢◌, inl, inr, refl, sym, arith, subst, ◌==◌, Bool, true, false, not, if◌then◌else◌,
  Bool-cases, Option, none, some,
}
use libshjpeg.Device.{Coded, finished, waits, exhausted, trapped}
use libshjpeg.Context.{Context}
use libshjpeg.Lifecycle.{shjpeg_init}
use libshjpeg.Wrap.Support.{
  Decompress, Compress, is_jpu_supported_decompress, is_jpu_supported_compress,
}
use libshjpeg.Wrap.Calls.{
  Handle, live, freed, unset, Hook, Wrapper, State, Outside, Outcome, returned, error_exit,
  unfinished, with_buffer, decode_done, start_decompress, shjpeg_start_decompress, on_context,
  found_or_new, put, act, hook, jpeg_read_header, header_ops, create, shjpeg_create_decompress,
  shjpeg_create_compress, shjpeg_read_header, finish_decompress, shjpeg_finish_decompress,
  start_compress, shjpeg_start_compress, encode_done, finish_compress, shjpeg_finish_compress,
  give_back, abort_on, shjpeg_abort, destroy_on, destroy_found, shjpeg_destroy,
}
use libshjpeg.Wrap.Calls.Sequences.{
  OnCtx, InJpu, Ready, Leaves, Reach, unknown, decompressor, compressor, header_read, decoding,
  decoded, encoding, encoded, aborted, destroyed,
}

abbrev OnEnd : Outcome → Type 0
OnEnd (returned b s) = Ready s
OnEnd (error_exit m s) = Ready s
OnEnd (unfinished s) = Unit

OnEnd-Leaves : (c : Outcome) (t : State) → OnEnd c → Leaves c t → Ready t
OnEnd-Leaves (returned b s) t r e = subst Ready e r
OnEnd-Leaves (error_exit m s) t r e = subst Ready e r
OnEnd-Leaves (unfinished s) t r e = absurd e

if-OnEnd :
    (b : Bool) (x y : Outcome)
    → (b ≡ true → OnEnd x)
    → (b ≡ false → OnEnd y)
    → OnEnd (if b then x else y)
if-OnEnd true x y h k = h refl
if-OnEnd false x y h k = k refl

found : (s : State) (w : Wrapper) → s.ctx ≡ some w → InJpu w → Ready s
found s w e p = subst (OnCtx InJpu) (sym e) p

not_both : (b : Bool) → b ≡ false → b ≡ true → ⊥
not_both b e m = cc

on_context-OnEnd :
    (call : Wrapper → State → Outcome) (s : State) (c : Option Wrapper)
    → s.ctx ≡ c
    → ((w : Wrapper) → s.ctx ≡ some w → OnEnd (call w s))
    → OnEnd (on_context call s c)
on_context-OnEnd call s none e h = subst (OnCtx InJpu) (sym e) tt
on_context-OnEnd call s (some w) e h = h w e

-- The object of a call that is found.
of : (P : Wrapper → Type 0) (s : State) (w : Wrapper) → s.ctx ≡ some w → OnCtx P s.ctx → P w
of P s w e p = subst (OnCtx P) e p

with_buffer-OnEnd :
    (h : Hook) (o : Outside) (format : ℕ) (context : Context) (w : Wrapper) (s : State)
    (go_on : Wrapper → State → Outcome)
    → w.jpumode ≡ false
    → ((w1 : Wrapper) (s1 : State)
        → w1.handle ≡ live
        → w1.virt_addr ≢ 0
        → w1.jpumode ≡ false
        → OnEnd (go_on w1 s1))
    → OnEnd (with_buffer h o format context w s go_on)
unfolding with_buffer
with_buffer-OnEnd h o format context w s go_on idle next =
    if-OnEnd (not (shjpeg_init o.allocated o.answers s.library).1) _ _
      (λ e m. absurd (not_both w.jpumode idle m))
      (λ e.
        if-OnEnd (o.buffer == 0) _ _ (λ f m. absurd (not_both w.jpumode idle m))
          (λ f. next _ _ refl (ground (arith, f)) idle))

decode_done-OnEnd :
    (o : Outside) (w : Wrapper) (s : State) (c : Coded)
    → w.handle ≡ live
    → w.virt_addr ≢ 0
    → w.jpumode ≡ false
    → OnEnd (decode_done o w s c)
decode_done-OnEnd o w s (finished t true) there buf idle = λ m. absurd (not_both w.jpumode idle m)
decode_done-OnEnd o w s (finished t false) there buf idle = λ m. (there, buf)
decode_done-OnEnd o w s (waits t) there buf idle = tt
decode_done-OnEnd o w s (exhausted t) there buf idle = tt
decode_done-OnEnd o w s (trapped t) there buf idle = tt

start_decompress-OnEnd :
    (o : Outside) (cinfo : Decompress) (w : Wrapper) (s : State)
    → s.ctx ≡ some w
    → w.jpumode ≡ false
    → OnEnd (start_decompress o cinfo w s)
unfolding start_decompress
start_decompress-OnEnd o cinfo w s e idle =
    if-OnEnd (not (is_jpu_supported_decompress cinfo)) _ _
      (λ h. found s w e (λ m. absurd (not_both w.jpumode idle m)))
      (λ h.
        with_buffer-OnEnd _ o _ _ w _ _ idle
          (λ w1 s1 there buf idle1. decode_done-OnEnd o _ s1 _ there buf idle1))

start_compress-OnEnd :
    (o : Outside) (cinfo : Compress) (b : Bool) (w : Wrapper) (s : State)
    → s.ctx ≡ some w
    → w.jpumode ≡ false
    → OnEnd (start_compress o cinfo b w s)
unfolding start_compress
start_compress-OnEnd o cinfo b w s e idle =
    if-OnEnd (not (is_jpu_supported_compress cinfo b)) _ _
      (λ h. found s w e (λ m. absurd (not_both w.jpumode idle m)))
      (λ h. with_buffer-OnEnd _ o _ _ w _ _ idle (λ w1 s1 there buf idle1 m. (there, buf)))

finish_decompress-OnEnd :
    (o : Outside) (w : Wrapper) (s : State)
    → s.ctx ≡ some w
    → Ready s
    → OnEnd (finish_decompress o w s)
unfolding finish_decompress
finish_decompress-OnEnd o w s e r =
    if-OnEnd (not w.jpumode) _ _ (λ h. r) (λ h m. absurd (not_both false refl m))

encode_done-OnEnd : (w : Wrapper) (s : State) (c : Coded) → Ready s → OnEnd (encode_done w s c)
encode_done-OnEnd w s (finished t true) r = r
encode_done-OnEnd w s (finished t false) r = λ m. absurd (not_both false refl m)
encode_done-OnEnd w s (waits t) r = tt
encode_done-OnEnd w s (exhausted t) r = tt
encode_done-OnEnd w s (trapped t) r = tt

finish_compress-OnEnd :
    (o : Outside) (cinfo : Compress) (w : Wrapper) (s : State)
    → Ready s
    → OnEnd (finish_compress o cinfo w s)
unfolding finish_compress
finish_compress-OnEnd o cinfo w s r =
    if-OnEnd (not w.jpumode) _ _ (λ h. r) (λ h. encode_done-OnEnd w s _ r)

create-OnEnd :
    (h : Hook) (o : Outside) (version : ℕ) (s : State) → Ready s → OnEnd (create h o version s)
create-OnEnd h o version s r =
    if-OnEnd (not (version == o.lib_version)) _ _ (λ e. r) (λ e. known s.ctx r)
  where
    known : (c : Option Wrapper) → OnCtx InJpu c → InJpu (found_or_new c)
    known none p = λ m. absurd (not_both false refl m)
    known (some w) p = p

header-OnEnd : (o : Outside) (s : State) → Ready s → OnEnd (shjpeg_read_header o s)
unfolding shjpeg_read_header
header-OnEnd o s r =
    on_context-OnEnd
      (λ w t.
        returned o.hook_returns
          (put (record w { ops = header_ops }) (act (hook jpeg_read_header) t)))
      s s.ctx refl (λ w e. of InJpu s w e r)

-- An abort changes the mode of no object, and a destruction forgets the object.
abort_on-Idle :
    (d : Bool) (s : State) (c : Option Wrapper)
    → s.ctx ≡ c
    → OnCtx (λ w. w.jpumode ≡ false) c
    → OnCtx InJpu (abort_on d c s).ctx
abort_on-Idle d s none e idle = subst (OnCtx InJpu) (sym e) tt
abort_on-Idle d s (some w) e idle = elim (Bool-cases (w.bufsize == 0)) [
  | inl h ↦ rw h (λ m. absurd (not_both w.jpumode idle m))
  | inr h ↦ rw h (λ m. absurd (not_both w.jpumode idle m))
]

give_back-ctx : (w : Wrapper) (s : State) → (give_back w s).ctx ≡ s.ctx
give_back-ctx w s = elim (Bool-cases (w.bufsize == 0)) [ inl h ↦ rw h refl | inr h ↦ rw h refl ]

destroy_on-ctx :
    (d : Bool) (w : Wrapper) (h : Handle) (s : State) → (destroy_on d w h s).ctx ≡ s.ctx
destroy_on-ctx d w unset s = refl
destroy_on-ctx true w live s = give_back-ctx w _
destroy_on-ctx false w live s = give_back-ctx w s
destroy_on-ctx true w freed s = give_back-ctx w _
destroy_on-ctx false w freed s = give_back-ctx w s

destroy_found-none :
    (d : Bool) (s : State) (c : Option Wrapper) → s.ctx ≡ c → (destroy_found d c s).ctx ≡ none
destroy_found-none d s none e = e
destroy_found-none d s (some w) e = destroy_on-ctx d w w.handle (record s { ctx = none })

-- After any sequence of calls in which an object is neither started nor aborted in JPU mode, whatever the
-- answers from outside and also where calls fail: in JPU mode the object's context is live and its
-- buffer is there.
pub Reach-Ready : {s : State} → Reach s → Ready s
unfolding shjpeg_create_decompress shjpeg_create_compress shjpeg_start_decompress
    shjpeg_finish_decompress shjpeg_start_compress shjpeg_finish_compress shjpeg_abort
    shjpeg_destroy
Reach-Ready (unknown s e) = subst (OnCtx InJpu) (sym e) tt
Reach-Ready (decompressor {s} {t} o version r e) =
    OnEnd-Leaves (shjpeg_create_decompress o version s) t
      (create-OnEnd _ o version s (Reach-Ready r)) e
Reach-Ready (compressor {s} {t} o version r e) =
    OnEnd-Leaves (shjpeg_create_compress o version s) t (create-OnEnd _ o version s (Reach-Ready r))
      e
Reach-Ready (header_read {s} {t} o r e) =
    OnEnd-Leaves (shjpeg_read_header o s) t (header-OnEnd o s (Reach-Ready r)) e
Reach-Ready (decoding {s} {t} o cinfo r idle e) =
    OnEnd-Leaves (shjpeg_start_decompress o cinfo s) t
      (on_context-OnEnd (start_decompress o cinfo) s s.ctx refl
        (λ w f. start_decompress-OnEnd o cinfo w s f (of (λ w. w.jpumode ≡ false) s w f idle)))
      e
Reach-Ready (decoded {s} {t} o r e) =
    OnEnd-Leaves (shjpeg_finish_decompress o s) t
      (on_context-OnEnd (finish_decompress o) s s.ctx refl
        (λ w f. finish_decompress-OnEnd o w s f (Reach-Ready r)))
      e
Reach-Ready (encoding {s} {t} o cinfo b r idle e) =
    OnEnd-Leaves (shjpeg_start_compress o cinfo b s) t
      (on_context-OnEnd (start_compress o cinfo b) s s.ctx refl
        (λ w f. start_compress-OnEnd o cinfo b w s f (of (λ w. w.jpumode ≡ false) s w f idle)))
      e
Reach-Ready (encoded {s} {t} o cinfo r e) =
    OnEnd-Leaves (shjpeg_finish_compress o cinfo s) t
      (on_context-OnEnd (finish_compress o cinfo) s s.ctx refl
        (λ w f. finish_compress-OnEnd o cinfo w s (Reach-Ready r)))
      e
Reach-Ready (aborted {s} d r idle) = abort_on-Idle d s s.ctx refl idle
Reach-Ready (destroyed {s} d r) = subst (OnCtx InJpu) (sym (destroy_found-none d s s.ctx refl)) tt
