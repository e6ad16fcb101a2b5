-- ===== src/Jpu/Cases.antt =====
-- Postconditions of a wait and of a run, and the rules that carry them through the loops.
use libshjpeg.Base.{
  ℕ, zero, suc, ◌≤◌, ◌<◌, ◌≡◌, ◌⊎◌, inl, inr, refl, sym, ◌∙◌, arith, Bool, true, false,
}
use libshjpeg.Context.{Context}
use libshjpeg.Jpu.State.{Machine, JpuState, start, run, end, ℤ, pos, negsuc}
use libshjpeg.Jpu.Interrupts.{Waited, processed, timed_out, starved}
use libshjpeg.Jpu.Loops.{Outcome, returned, failed, blocked, out_of_fuel, rounds}
use libshjpeg.Jpu.Run.{
  shjpeg_jpu_run, jpu_run_loop, jpu_run_start, jpu_run_resume, jpu_run_finish, jpu_run_result,
}

-- The value of a count that is not negative.
abbrev pub amount : ℤ → ℕ
amount (pos n) = n
amount (negsuc n) = 0

abbrev pub is_natural : ℤ → Bool
is_natural (pos n) = true
is_natural (negsuc n) = false

-- What holds of the state after a wait, whichever way it ends.
abbrev pub Holds {ℓ} : (Machine → Type ℓ) → Waited → Type ℓ
Holds P (processed m done) = P m
Holds P (timed_out m) = P m
Holds P (starved m) = P m

abbrev pub Ends {ℓ} : (Machine → Type ℓ) → Outcome → Type ℓ
Ends P (returned m) = P m
Ends P (failed m) = P m
Ends P (blocked m) = P m
Ends P (out_of_fuel m) = P m

-- A property that each round keeps is kept by the loop.
module _ {ℓ} (P : Machine → Type ℓ) (round : Machine → Waited)
    (keep : (m : Machine) → P m → Holds P (round m)) where
  after_round :
      (fuel : ℕ) (w : Waited)
      → Holds P w
      → ((m : Machine) → P m → Ends P (rounds round fuel m))
      → Ends P (elim w [
        | processed m' done ↦ elim done [ true ↦ returned m' | false ↦ rounds round fuel m' ]
        | timed_out m' ↦ failed m'
        | starved m' ↦ blocked m'
      ])
  after_round fuel (processed m true) h next = h
  after_round fuel (processed m false) h next = next m h
  after_round fuel (timed_out m) h next = h
  after_round fuel (starved m) h next = h

  pub rounds-Ends : (fuel : ℕ) (m : Machine) → P m → Ends P (rounds round fuel m)
  unfolding rounds
  rounds-Ends zero m h = h
  rounds-Ends (suc fuel) m h = after_round fuel (round m) (keep m h) (rounds-Ends fuel)

pub Ends-finish {ℓ} :
    (P : Machine → Type ℓ)
    → ((m : Machine) → P m → P (jpu_run_result m))
    → (o : Outcome) → Ends P o
    → Ends P (jpu_run_finish o)
Ends-finish P keep (returned m) h = keep m h
Ends-finish P keep (failed m) h = h
Ends-finish P keep (blocked m) h = h
Ends-finish P keep (out_of_fuel m) h = h

pub JpuState-cases : (s : JpuState) → (s ≡ start) ⊎ ((s ≡ run) ⊎ (s ≡ end))
JpuState-cases start = inl refl
JpuState-cases run = inr (inl refl)
JpuState-cases end = inr (inr refl)

-- What a caller knows of a run that is not at its start.
pub other_than_start {ℓ ℓ'} :
    {A : Type ℓ} {P : Type ℓ'} {s : JpuState} → (A → s ≡ start) → A ⊎ P → (s ≡ run) ⊎ (s ≡ end) → P
other_than_start at_start (inl a) (inl e) = absurd (run≢start (sym e ∙ at_start a))
  where
    run≢start : run ≡ start → ⊥
    run≢start p = cc
other_than_start at_start (inl a) (inr e) = absurd (end≢start (sym e ∙ at_start a))
  where
    end≢start : end ≡ start → ⊥
    end≢start p = cc
other_than_start at_start (inr p) e = p

-- The three states that a run can be called in.
pub run_cases {ℓ} :
    (P : Outcome → Type ℓ) (fuel : ℕ) (context : Context) (m : Machine)
    → (m.jpeg.state ≡ start → P (jpu_run_loop fuel context (jpu_run_start context m)))
    → (m.jpeg.state ≡ run → P (jpu_run_loop fuel context (jpu_run_resume m)))
    → (m.jpeg.state ≡ end → P (failed m))
    → P (shjpeg_jpu_run fuel context m)
unfolding shjpeg_jpu_run
run_cases P fuel context m at_start at_run at_end = elim (JpuState-cases m.jpeg.state) [
  | inl e ↦ rw (e, shjpeg_jpu_run) (at_start e)
  | inr (inl e) ↦ rw (e, shjpeg_jpu_run) (at_run e)
  | inr (inr e) ↦ rw (e, shjpeg_jpu_run) (at_end e)
]

-- A loop whose rounds each lower a measure, keep a property, or end it, does not run out of fuel.
abbrev pub Progress {ℓ} : (Machine → Type ℓ) → (Machine → ℕ) → ℕ → Waited → Type ℓ
Progress P measure bound (processed m true) = Unit
Progress P measure bound (processed m false) = P m × (measure m < bound)
Progress P measure bound (timed_out m) = Unit
Progress P measure bound (starved m) = Unit

abbrev pub IsOver : Outcome → Type 0
IsOver (returned m) = Unit
IsOver (failed m) = Unit
IsOver (blocked m) = Unit
IsOver (out_of_fuel m) = ⊥

module _ {ℓ} (P : Machine → Type ℓ) (measure : Machine → ℕ) (round : Machine → Waited)
    (step : (m : Machine) → P m → Progress P measure (measure m) (round m)) where
  IsOver-after :
      (fuel bound : ℕ) (w : Waited)
      → bound ≤ fuel
      → Progress P measure bound w
      → ((m : Machine) → P m → measure m < fuel → IsOver (rounds round fuel m))
      → IsOver (elim w [
        | processed m' done ↦ elim done [ true ↦ returned m' | false ↦ rounds round fuel m' ]
        | timed_out m' ↦ failed m'
        | starved m' ↦ blocked m'
      ])
  IsOver-after fuel bound (processed m true) h p next = tt
  IsOver-after fuel bound (processed m false) h p next = next m p.0 (omega arith)
  IsOver-after fuel bound (timed_out m) h p next = tt
  IsOver-after fuel bound (starved m) h p next = tt

  pub rounds-IsOver :
      (fuel : ℕ) (m : Machine) → P m → measure m < fuel → IsOver (rounds round fuel m)
  unfolding rounds
  rounds-IsOver zero m p h = absurd (omega arith)
  rounds-IsOver (suc fuel) m p h =
      IsOver-after fuel (measure m) (round m) (omega arith) (step m p) (rounds-IsOver fuel)
