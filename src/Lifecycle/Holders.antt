-- ===== src/Lifecycle/Holders.antt =====
-- The devices are open for as long as a client holds a context.
use libshjpeg.Base.{
  ℕ, suc, ◌≡◌, ◌==◌, refl, arith, Bool, true, false, not, ◌&&◌, if◌then◌else◌, List, [], ◌∷◌, inl,
  ◌⊎◌,
}
use libshjpeg.Lifecycle.{
  Answers, Blocks, Registration, register, unregister, Library, untouched, uio_shutdown, uio_init,
  shjpeg_init, shjpeg_shutdown,
}

-- The states that clients can reach, with the number of contexts that they hold: each context is
-- handed out by an initialisation and given back to one shutdown.
pub data Reach : ℕ → Library → Type 0 where
  at_first : Reach 0 untouched
  initialized :
      {n : ℕ} {l : Library}
      → (allocated : Bool) → (a : Answers) → Reach n l
      → (shjpeg_init allocated a l).1 ≡ true
      → Reach (suc n) (shjpeg_init allocated a l).0
  refused :
      {n : ℕ} {l : Library}
      → (allocated : Bool) → (a : Answers) → Reach n l
      → (shjpeg_init allocated a l).1 ≡ false
      → Reach n (shjpeg_init allocated a l).0
  given_back : {n : ℕ} {l : Library} → Reach (suc n) l → Reach n (shjpeg_shutdown l)

-- What uiomux_malloc gave to the initialisation that opened the devices last.
abbrev pub given_at_opening : {n : ℕ} {l : Library} → Reach n l → Blocks
given_at_opening at_first = record { reload = false; line1 = false; line2 = false }
given_at_opening (initialized {n} allocated a r e) = if n == 0 then a.gives else given_at_opening r
given_at_opening (refused allocated a r e) = given_at_opening r
given_at_opening (given_back r) = given_at_opening r

-- The count is the number of contexts held, and the devices and the blocks given are there exactly
-- while one is.
pub record Held (n : ℕ) (l : Library) (given : Blocks) : Type 0 where
  pub counted : l.ref_count ≡ n
  pub uiomux_open : l.uiomux ≡ not (n == 0)
  pub reload_there : l.jpeg_virt ≡ not (n == 0) && given.reload
  pub line1_there : l.jpeg_lb1 ≡ not (n == 0) && given.line1
  pub line2_there : l.jpeg_lb2 ≡ not (n == 0) && given.line2
  pub vio_open : (n ≡ 0) ⊎ (l.vio ≡ true)

Held-untouched : Held 0 untouched (given_at_opening at_first)
Held-untouched = record {
  counted = refl;
  uiomux_open = refl;
  reload_there = refl;
  line1_there = refl;
  line2_there = refl;
  vio_open = inl refl;
}

Held-initialized :
    (n : ℕ) (l : Library) (allocated : Bool) (a : Answers) (given : Blocks)
    → Held n l given
    → (shjpeg_init allocated a l).1 ≡ true
    → Held (suc n) (shjpeg_init allocated a l).0 (if n == 0 then a.gives else given)
unfolding shjpeg_init uio_init uio_shutdown
Held-initialized n l allocated a given h e = record {
  counted = ground (arith, h);
  uiomux_open = ground (arith, h);
  reload_there = ground (arith, h);
  line1_there = ground (arith, h);
  line2_there = ground (arith, h);
  vio_open = ground (arith, h);
}

Held-refused :
    (n : ℕ) (l : Library) (allocated : Bool) (a : Answers) (given : Blocks)
    → Held n l given
    → (shjpeg_init allocated a l).1 ≡ false
    → Held n (shjpeg_init allocated a l).0 given
unfolding shjpeg_init uio_init uio_shutdown
Held-refused n l allocated a given h e = record {
  counted = ground (arith, h);
  uiomux_open = ground (arith, h);
  reload_there = ground (arith, h);
  line1_there = ground (arith, h);
  line2_there = ground (arith, h);
  vio_open = ground (arith, h);
}

Held-shjpeg_shutdown :
    (n : ℕ) (l : Library) (given : Blocks) → Held (suc n) l given → Held n (shjpeg_shutdown l) given
unfolding shjpeg_shutdown uio_shutdown
Held-shjpeg_shutdown n l given h = record {
  counted = ground (arith, h);
  uiomux_open = ground (arith, h);
  reload_there = ground (arith, h);
  line1_there = ground (arith, h);
  line2_there = ground (arith, h);
  vio_open = ground (arith, h);
}

-- After any sequence of initialisations, successful or refused, and shutdowns of contexts held, the
-- reference count is the number of contexts held. UIOMux is open exactly while it is not zero, and the
-- VIO is open while it is not zero; of the reload and line buffers, those that uiomux_malloc gave when
-- the devices were opened last are allocated exactly while it is not zero, and no other is.
pub Reach-Held : {n : ℕ} {l : Library} → (r : Reach n l) → Held n l (given_at_opening r)
Reach-Held at_first = Held-untouched
Reach-Held (initialized allocated a r e) = Held-initialized _ _ allocated a _ (Reach-Held r) e
Reach-Held (refused allocated a r e) = Held-refused _ _ allocated a _ (Reach-Held r) e
Reach-Held (given_back r) = Held-shjpeg_shutdown _ _ _ (Reach-Held r)

-- Every address that is given back to UIOMux is NULL.
abbrev pub NeverUnregistered : List Registration → Type 0
NeverUnregistered [] = Unit
NeverUnregistered (register null ∷ calls) = NeverUnregistered calls
NeverUnregistered (unregister null ∷ calls) = (null ≡ true) × NeverUnregistered calls

init-NeverUnregistered :
    (l : Library) (allocated : Bool) (a : Answers)
    → NeverUnregistered l.registrations
    → NeverUnregistered (shjpeg_init allocated a l).0.registrations
unfolding shjpeg_init uio_init uio_shutdown
init-NeverUnregistered l allocated a h = ground arith

shutdown-NeverUnregistered :
    (l : Library)
    → NeverUnregistered l.registrations
    → NeverUnregistered (shjpeg_shutdown l).registrations
unfolding shjpeg_shutdown uio_shutdown
shutdown-NeverUnregistered l h = ground arith

-- In no state that clients can reach has the memory of the reload buffers been unregistered: each
-- such call passed NULL.
pub Reach-NeverUnregistered : {n : ℕ} {l : Library} → Reach n l → NeverUnregistered l.registrations
Reach-NeverUnregistered at_first = tt
Reach-NeverUnregistered (initialized allocated a r e) =
    init-NeverUnregistered _ allocated a (Reach-NeverUnregistered r)
Reach-NeverUnregistered (refused allocated a r e) =
    init-NeverUnregistered _ allocated a (Reach-NeverUnregistered r)
Reach-NeverUnregistered (given_back r) = shutdown-NeverUnregistered _ (Reach-NeverUnregistered r)
