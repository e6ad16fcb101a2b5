-- ===== src/Wrap/Sequence.antt =====
-- The list of contexts as the sequence that it represents: looking up, adding, taking out.
use libshjpeg.Base.{
  ℕ, zero, suc, ◌≡◌, inl, inr, refl, sym, ◌∙◌, arith, ap, subst, ◌==◌, ◌<◌, ◌≤◌, Bool,
  if◌then◌else◌, Bool-cases, Option, none, some, List, [], ◌∷◌,
}
use libshjpeg.Jpu.Total.{length}
use libshjpeg.Wrap.{
  Node, Contexts, set_prev_of, find_from, get_cinfo_context, push_context, context_or_new,
  create_cinfo_context, unlink, free_cinfo_context,
}
use libshjpeg.Wrap.Links.{
  NotIn, Distinct, Linked, Represents, Same, Linked-Same, Linked-set_prev_of, remove, IsIn,
  unlinked, outside-set_prev_of, ==_refl,
}

NotIn-remove : (x y : ℕ) (cs : List ℕ) → NotIn x cs → NotIn x (remove y cs)
NotIn-remove x y [] h = tt
NotIn-remove x y (c ∷ cs) h = elim (Bool-cases (y == c)) [
  | inl e ↦ subst (λ (t : Bool). NotIn x (if t then cs else c ∷ remove y cs)) (sym e) (h.1)
  | inr e ↦
      subst (λ (t : Bool). NotIn x (if t then cs else c ∷ remove y cs)) (sym e)
        (h.0, NotIn-remove x y cs (h.1))
]

Distinct-remove : (y : ℕ) (cs : List ℕ) → Distinct cs → Distinct (remove y cs)
Distinct-remove y [] d = tt
Distinct-remove y (c ∷ cs) d = elim (Bool-cases (y == c)) [
  | inl e ↦ subst (λ (t : Bool). Distinct (if t then cs else c ∷ remove y cs)) (sym e) (d.1)
  | inr e ↦
      subst (λ (t : Bool). Distinct (if t then cs else c ∷ remove y cs)) (sym e)
        (NotIn-remove c y cs (d.0), Distinct-remove y cs (d.1))
]

-- A context behind the first one is taken out of the store, not of the head.
unlink_behind :
    (prev next : Option ℕ) (c : Contexts) (p : ℕ) (cs : List ℕ)
    → prev ≡ some p
    → Linked (unlink prev next (record { head = none; nodes = c.nodes })).nodes none c.head cs
    → Linked (unlink prev next c).nodes none (unlink prev next c).head cs
unlink_behind none next c p cs e l = absurd (cc)
unlink_behind (some q) next c p cs e l = l

free_first :
    (c : Contexts) (ctx : ℕ) (cs : List ℕ)
    → Distinct (ctx ∷ cs)
    → Linked c.nodes none c.head (ctx ∷ cs)
    → Linked (free_cinfo_context ctx c).nodes none (free_cinfo_context ctx c).head cs
unfolding free_cinfo_context
free_first c ctx cs d l =
    subst
      (λ (v : Option ℕ).
        Linked (unlink v (c.nodes ctx).next c).nodes none (unlink v (c.nodes ctx).next c).head cs)
      (sym (l.1)) (Linked-set_prev_of cs c.nodes (some ctx) none (c.nodes ctx).next (d.1) (l.2))

free-Linked :
    (c : Contexts) (ctx : ℕ) (cs : List ℕ)
    → Distinct cs
    → Linked c.nodes none c.head cs
    → IsIn ctx cs
    → Linked (free_cinfo_context ctx c).nodes none (free_cinfo_context ctx c).head (remove ctx cs)
unfolding free_cinfo_context
free-Linked c ctx [] d l h = absurd h
free-Linked c ctx (a ∷ cs) d l (inl e) =
    let same : a ≡ ctx = ground (arith, e) in
    let out = free_cinfo_context ctx c in
    subst (λ (t : Bool). Linked out.nodes none out.head (if t then cs else a ∷ remove ctx cs))
      (sym e)
      (subst
        (λ (x : ℕ). Linked (free_cinfo_context x c).nodes none (free_cinfo_context x c).head cs)
        same (free_first c a cs d l))
free-Linked c ctx (a ∷ cs) d l (inr h) =
    let u = unlinked cs c.nodes none c.head ctx a d l (h.1) in
    let out = free_cinfo_context ctx c in
    subst (λ (t : Bool). Linked out.nodes none out.head (if t then cs else a ∷ remove ctx cs))
      (sym (h.0))
      (unlink_behind (c.nodes ctx).prev (c.nodes ctx).next c (u.behind.0) (a ∷ remove ctx cs)
        (u.behind.1) u.linked)

-- Taking a context out of the list, wherever it stands, leaves a list that represents the sequence
-- without it, its pointers in both directions.
pub free_cinfo_context-Represents :
    (c : Contexts) (ctx : ℕ) (cs : List ℕ)
    → Represents c cs
    → IsIn ctx cs
    → Represents (free_cinfo_context ctx c) (remove ctx cs)
free_cinfo_context-Represents c ctx cs r h = record {
  linked = free-Linked c ctx cs r.distinct r.linked h;
  distinct = Distinct-remove ctx cs r.distinct;
}

Same-fresh :
    (cs : List ℕ) (nodes : ℕ → Node) (fresh : ℕ) (new : Node)
    → NotIn fresh cs
    → Same nodes (λ x. if x == fresh then new else nodes x) cs
Same-fresh [] nodes fresh new h = tt
Same-fresh (c ∷ cs) nodes fresh new h = (ground (arith, h.0), Same-fresh cs nodes fresh new (h.1))

push_context-Represents :
    (fresh cinfo : ℕ) (c : Contexts) (cs : List ℕ)
    → Represents c cs
    → NotIn fresh cs
    → Represents (push_context fresh cinfo c) (fresh ∷ cs)
push_context-Represents fresh cinfo c cs r h =
    let new : Node = record { cinfo = cinfo; next = c.head; prev = none } in
    let placed = λ (x : ℕ). if x == fresh then new else c.nodes x in
    let here : placed fresh ≡ new =
      ap (λ (t : Bool). if t then new else c.nodes fresh) (==_refl fresh) in
    let l =
      Linked-Same cs c.nodes placed none c.head (Same-fresh cs c.nodes fresh new h) r.linked in
    let node : set_prev_of c.head (some fresh) placed fresh ≡ new =
      outside-set_prev_of cs placed placed none c.head (some fresh) fresh l h ∙ here in
    record {
      linked = (
        refl,
        ap (λ (n : Node). n.prev) node,
        subst (λ (p : Option ℕ). Linked (set_prev_of c.head (some fresh) placed) (some fresh) p cs)
            (sym (ap (λ (n : Node). n.next) node))
            (Linked-set_prev_of cs placed none (some fresh) c.head r.distinct l),
      );
      distinct = (h, r.distinct);
    }

-- The first context of the sequence that stands for `cinfo`.
abbrev pub first_with : (ℕ → Node) → ℕ → List ℕ → Option ℕ
first_with nodes cinfo [] = none
first_with nodes cinfo (a ∷ cs) =
    if (nodes a).cinfo == cinfo then some a else first_with nodes cinfo cs

find_from-first_with :
    (fuel : ℕ) (nodes : ℕ → Node) (cinfo : ℕ) (back at : Option ℕ) (cs : List ℕ)
    → Linked nodes back at cs
    → length cs < fuel
    → find_from fuel nodes cinfo at ≡ first_with nodes cinfo cs
unfolding find_from
find_from-first_with zero nodes cinfo back at cs l h = absurd (omega arith)
find_from-first_with (suc fuel) nodes cinfo back at [] l h =
    subst (λ (p : Option ℕ). find_from (suc fuel) nodes cinfo p ≡ none) (sym l) refl
find_from-first_with (suc fuel) nodes cinfo back at (a ∷ cs) l h =
    subst (λ (p : Option ℕ). find_from (suc fuel) nodes cinfo p ≡ first_with nodes cinfo (a ∷ cs))
      (sym (l.0))
      (ap (λ (rest : Option ℕ). if (nodes a).cinfo == cinfo then some a else rest)
        (find_from-first_with fuel nodes cinfo (some a) (nodes a).next cs (l.2) (omega arith)))

get_cinfo_context-first_with :
    (fuel cinfo : ℕ) (c : Contexts) (cs : List ℕ)
    → Represents c cs
    → length cs < fuel
    → get_cinfo_context fuel cinfo c ≡ first_with c.nodes cinfo cs
unfolding get_cinfo_context
get_cinfo_context-first_with fuel cinfo c cs r h =
    find_from-first_with fuel c.nodes cinfo none c.head cs r.linked h

-- A list that has a context for `cinfo`, found by a walk on `fuel`.
pub record Created (fuel cinfo ctx : ℕ) (before : List ℕ) (c : Contexts) : Type 0 where
  pub after : List ℕ
  pub represents : Represents c after
  pub found : get_cinfo_context fuel cinfo c ≡ some ctx
  pub at_most_one_more : length after ≤ suc (length before)

set_prev_of-cinfo :
    (at v : Option ℕ) (nodes : ℕ → Node) (x : ℕ)
    → (set_prev_of at v nodes x).cinfo ≡ (nodes x).cinfo
set_prev_of-cinfo none v nodes x = refl
set_prev_of-cinfo (some n) v nodes x = ground arith

push_context-found :
    (fuel fresh cinfo : ℕ) (c : Contexts)
    → get_cinfo_context (suc fuel) cinfo (push_context fresh cinfo c) ≡ some fresh
unfolding get_cinfo_context find_from
push_context-found fuel fresh cinfo c =
    let new : Node = record { cinfo = cinfo; next = c.head; prev = none } in
    let placed = λ (x : ℕ). if x == fresh then new else c.nodes x in
    let e : (set_prev_of c.head (some fresh) placed fresh).cinfo ≡ cinfo =
      set_prev_of-cinfo c.head (some fresh) placed fresh
      ∙ ap (λ (t : Bool). (if t then new else c.nodes fresh).cinfo) (==_refl fresh) in
    ground (arith, e)

Created-as :
    (fuel fresh cinfo : ℕ) (c : Contexts) (cs : List ℕ) (o : Option ℕ)
    → get_cinfo_context fuel cinfo c ≡ o
    → Represents c cs
    → NotIn fresh cs
    → length cs < fuel
    → Created fuel cinfo (context_or_new o fresh cinfo c).0 cs (context_or_new o fresh cinfo c).1
Created-as zero fresh cinfo c cs o e r h enough = absurd (omega arith)
Created-as (suc fuel) fresh cinfo c cs (some ctx) e r h enough = record {
  after = cs;
  represents = r;
  found = e;
  at_most_one_more = omega arith;
}
Created-as (suc fuel) fresh cinfo c cs none e r h enough = record {
  after = fresh ∷ cs;
  represents = push_context-Represents fresh cinfo c cs r h;
  found = push_context-found fuel fresh cinfo c;
  at_most_one_more = omega arith;
}

-- Asking for a context of `cinfo`, with a new address at hand that is not in the list, leaves a
-- proper list with at most one more context, in which the context that is returned is found again.
pub create_cinfo_context-Created :
    (fuel fresh cinfo : ℕ) (c : Contexts) (cs : List ℕ)
    → Represents c cs
    → NotIn fresh cs
    → length cs < fuel
    → Created fuel cinfo
        (create_cinfo_context fuel fresh cinfo c).0
        cs
        (create_cinfo_context fuel fresh cinfo c).1
unfolding create_cinfo_context
create_cinfo_context-Created fuel fresh cinfo c cs r h enough =
    Created-as fuel fresh cinfo c cs (get_cinfo_context fuel cinfo c) refl r h enough
