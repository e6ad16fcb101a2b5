-- ===== src/Wrap/Calls/Twice.antt =====
-- The buffer of a compression is given back twice.
use libshjpeg.Base.{
  ℕ, ◌+◌, ◌≡◌, ◌≢◌, refl, sym, ◌∙◌, arith, subst, ◌==◌, Bool, true, false, ◌&&◌, not, if◌then◌else◌,
  Bool-cases, inl, inr, Option, some, List, [], ◌∷◌,
}
use libshjpeg.Device.{Coded, finished, waits, exhausted, trapped}
use libshjpeg.Encode.{shjpeg_encode}
use libshjpeg.Context.{Context}
use libshjpeg.Wrap.Support.{Compress, get_shjpeg_pixelformat}
use libshjpeg.Wrap.Calls.{
  Action, hook, abort_inside, destroy_inside, given_back, taken, shut_down, finalized, Wrapper,
  State, Outside, returned, surface, session, by_libjpeg, jpeg_finish_compress, on_context,
  encode_done, finalize, finish_compress, act, shjpeg_finish_compress, shjpeg_abort, abort_on,
}

-- How often memory at `v` of size `n` is given back, and taken, in a list of actions.
abbrev one_if : Bool → ℕ
one_if true = 1
one_if false = 0

pub gives : ℕ → ℕ → List Action → ℕ
gives v n [] = 0
gives v n (given_back a m ∷ acts) = one_if (a == v && m == n) + gives v n acts
gives v n (hook h ∷ acts) = gives v n acts
gives v n (abort_inside h ∷ acts) = gives v n acts
gives v n (destroy_inside h ∷ acts) = gives v n acts
gives v n (taken a m ∷ acts) = gives v n acts
gives v n (shut_down h ∷ acts) = gives v n acts
gives v n (finalized ∷ acts) = gives v n acts

pub takes : ℕ → ℕ → List Action → ℕ
takes v n [] = 0
takes v n (taken a m ∷ acts) = one_if (a == v && m == n) + takes v n acts
takes v n (hook h ∷ acts) = takes v n acts
takes v n (abort_inside h ∷ acts) = takes v n acts
takes v n (destroy_inside h ∷ acts) = takes v n acts
takes v n (given_back a m ∷ acts) = takes v n acts
takes v n (shut_down h ∷ acts) = takes v n acts
takes v n (finalized ∷ acts) = takes v n acts

-- The buffer of `w` has been given back once, and the object still points to it.
record GivenBack (w : Wrapper) (s s' : State) : Type 0 where
  w' : Wrapper
  ctx : s'.ctx ≡ some w'
  same_buffer : w'.virt_addr ≡ w.virt_addr
  same_size : w'.bufsize ≡ w.bufsize
  given : gives w.virt_addr w.bufsize s'.actions ≡ gives w.virt_addr w.bufsize s.actions + 1
  not_taken : takes w.virt_addr w.bufsize s'.actions ≡ takes w.virt_addr w.bufsize s.actions

same_pair : (v n : ℕ) → one_if (v == v && n == n) ≡ 1
same_pair v n = ground arith

finalize-gives :
    (w : Wrapper) (c : Context) (s : State)
    → gives w.virt_addr w.bufsize (finalize c s).actions ≡ gives w.virt_addr w.bufsize s.actions
unfolding gives
finalize-gives w c s = elim (Bool-cases c.sops.finalize) [ inl e ↦ rw e refl | inr e ↦ rw e refl ]

finalize-takes :
    (w : Wrapper) (c : Context) (s : State)
    → takes w.virt_addr w.bufsize (finalize c s).actions ≡ takes w.virt_addr w.bufsize s.actions
unfolding takes
finalize-takes w c s = elim (Bool-cases c.sops.finalize) [ inl e ↦ rw e refl | inr e ↦ rw e refl ]

returned_state : {a b : Bool} {s t : State} → returned a s ≡ returned b t → s ≡ t
returned_state h = cc

encode_done-GivenBack :
    (w : Wrapper) (s s' : State) (c : Coded)
    → encode_done w s c ≡ returned true s'
    → GivenBack w s s'
unfolding gives takes
encode_done-GivenBack w s s' (finished t true) e = absurd (cc)
encode_done-GivenBack w s s' (finished t false) e =
    subst (GivenBack w s) (returned_state e) (record {
      w' = record w { jpumode = false; context = t.context };
      ctx = refl;
      same_buffer = refl;
      same_size = refl;
      given =
          finalize-gives w t.context (act (given_back w.virt_addr w.bufsize) s)
          ∙ omega (arith, same_pair w.virt_addr w.bufsize);
      not_taken = finalize-takes w t.context (act (given_back w.virt_addr w.bufsize) s);
    })
encode_done-GivenBack w s s' (waits t) e = absurd (cc)
encode_done-GivenBack w s s' (exhausted t) e = absurd (cc)
encode_done-GivenBack w s s' (trapped t) e = absurd (cc)

finish_compress-GivenBack :
    (o : Outside) (cinfo : Compress) (w : Wrapper) (s s' : State)
    → w.jpumode ≡ true
    → finish_compress o cinfo w s ≡ returned true s'
    → GivenBack w s s'
unfolding finish_compress
finish_compress-GivenBack o cinfo w s s' mode e =
    let c =
      shjpeg_encode o.fuel o.rounds o.world o.layout true (not (s.library.ref_count == 0))
        (not (w.virt_addr == 0)) (surface o (get_shjpeg_pixelformat cinfo.in_color_space) w.context)
        (session o w.context) in
    encode_done-GivenBack w s s' c (
      subst
        (λ (m : Bool).
          (if not m then by_libjpeg jpeg_finish_compress o s else encode_done w s c)
          ≡ returned true s')
        mode e)

abort_on-gives :
    (s : State) (w : Wrapper)
    → w.bufsize ≢ 0
    → (gives w.virt_addr w.bufsize (abort_on false (some w) s).actions
        ≡ gives w.virt_addr w.bufsize s.actions + 1)
      × (takes w.virt_addr w.bufsize (abort_on false (some w) s).actions
          ≡ takes w.virt_addr w.bufsize s.actions)
unfolding gives takes
abort_on-gives s w size =
    let e : (w.bufsize == 0) ≡ false = ground (arith, size) in
    (rw e (omega (arith, same_pair w.virt_addr w.bufsize)), rw e refl)

-- After a compression in JPU mode that succeeds, the object still points to the buffer that it has
-- given back, and jpeg_abort gives it back again: twice in all, and it has not been taken in
-- between.
pub finish_compress-abort_twice :
    (o : Outside) (cinfo : Compress) (s s' : State) (w : Wrapper)
    → s.ctx ≡ some w
    → w.jpumode ≡ true
    → w.bufsize ≢ 0
    → shjpeg_finish_compress o cinfo s ≡ returned true s'
    → (gives w.virt_addr w.bufsize (shjpeg_abort false s').actions
        ≡ gives w.virt_addr w.bufsize s.actions + 2)
      × (takes w.virt_addr w.bufsize (shjpeg_abort false s').actions
          ≡ takes w.virt_addr w.bufsize s.actions)
unfolding shjpeg_finish_compress shjpeg_abort gives takes
finish_compress-abort_twice o cinfo s s' w ctx mode size e =
    let g = finish_compress-GivenBack o cinfo w s s' mode (
      subst (λ (c : Option Wrapper). on_context (finish_compress o cinfo) s c ≡ returned true s')
        ctx e) in
    let again =
      subst
        (λ (c : Option Wrapper).
          (gives g.w'.virt_addr g.w'.bufsize (abort_on false c s').actions
            ≡ gives g.w'.virt_addr g.w'.bufsize s'.actions + 1)
          × (takes g.w'.virt_addr g.w'.bufsize (abort_on false c s').actions
              ≡ takes g.w'.virt_addr g.w'.bufsize s'.actions))
        (sym g.ctx) (abort_on-gives s' g.w' (λ z. size (sym g.same_size ∙ z))) in
    let here =
      subst
        (λ (v : ℕ).
          (gives v g.w'.bufsize (abort_on false s'.ctx s').actions
            ≡ gives v g.w'.bufsize s'.actions + 1)
          × (takes v g.w'.bufsize (abort_on false s'.ctx s').actions
              ≡ takes v g.w'.bufsize s'.actions))
        g.same_buffer again in
    let there =
      subst
        (λ (n : ℕ).
          (gives w.virt_addr n (abort_on false s'.ctx s').actions
            ≡ gives w.virt_addr n s'.actions + 1)
          × (takes w.virt_addr n (abort_on false s'.ctx s').actions
              ≡ takes w.virt_addr n s'.actions))
        g.same_size here in
    (omega (arith, there.0, g.given), there.1 ∙ g.not_taken)
