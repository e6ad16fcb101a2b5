-- ===== src/Wrap/Links.antt =====
-- The doubly linked list of contexts represents a sequence of addresses.
use libshjpeg.Base.{
  ℕ, ◌≡◌, ◌⊎◌, inl, inr, refl, sym, ◌∙◌, arith, ap, subst, ◌==◌, Bool, true, false, if◌then◌else◌,
  Option, none, some, List, [], ◌∷◌,
}
use libshjpeg.Wrap.{Node, Contexts, set_next, set_prev, set_prev_of, unlink}

-- An address that is not in a sequence.
abbrev pub NotIn : ℕ → List ℕ → Type 0
NotIn x [] = Unit
NotIn x (y ∷ ys) = ((x == y) ≡ false) × NotIn x ys

abbrev pub Distinct : List ℕ → Type 0
Distinct [] = Unit
Distinct (x ∷ xs) = NotIn x xs × Distinct xs

-- From the pointer `at` on, the list goes through these addresses, and the first one points back to
-- `back`.
abbrev pub Linked : (ℕ → Node) → Option ℕ → Option ℕ → List ℕ → Type 0
Linked nodes back at [] = at ≡ none
Linked nodes back at (a ∷ cs) =
    (at ≡ some a) × ((nodes a).prev ≡ back) × Linked nodes (some a) (nodes a).next cs

pub record Represents (c : Contexts) (addresses : List ℕ) : Type 0 where
  pub linked : Linked c.nodes none c.head addresses
  pub distinct : Distinct addresses

abbrev pub Same : (ℕ → Node) → (ℕ → Node) → List ℕ → Type 0
Same nodes nodes' [] = Unit
Same nodes nodes' (a ∷ cs) = (nodes' a ≡ nodes a) × Same nodes nodes' cs

-- Only the nodes of the list count.
pub Linked-Same :
    (cs : List ℕ) (nodes nodes' : ℕ → Node) (back at : Option ℕ)
    → Same nodes nodes' cs
    → Linked nodes back at cs
    → Linked nodes' back at cs
Linked-Same [] nodes nodes' back at s l = l
Linked-Same (a ∷ cs) nodes nodes' back at s l = (
  l.0,
  ap (λ (n : Node). n.prev) (s.0) ∙ l.1,
  Linked-Same cs nodes nodes' (some a) (nodes' a).next (s.1) (
      subst (λ (n : Option ℕ). Linked nodes (some a) n cs) (sym (ap (λ (n : Node). n.next) (s.0)))
        (l.2)),
)

Same-set_next :
    (cs : List ℕ) (nodes : ℕ → Node) (a : ℕ) (v : Option ℕ)
    → NotIn a cs
    → Same nodes (set_next a v nodes) cs
Same-set_next [] nodes a v h = tt
Same-set_next (b ∷ bs) nodes a v h = (ground (arith, h.0), Same-set_next bs nodes a v (h.1))

Same-set_prev :
    (cs : List ℕ) (nodes : ℕ → Node) (a : ℕ) (v : Option ℕ)
    → NotIn a cs
    → Same nodes (set_prev a v nodes) cs
Same-set_prev [] nodes a v h = tt
Same-set_prev (b ∷ bs) nodes a v h = (ground (arith, h.0), Same-set_prev bs nodes a v (h.1))

-- The rest of a list gets a new back pointer.
pub Linked-set_prev_of :
    (cs : List ℕ) (nodes : ℕ → Node) (back back' at : Option ℕ)
    → Distinct cs
    → Linked nodes back at cs
    → Linked (set_prev_of at back' nodes) back' at cs
Linked-set_prev_of [] nodes back back' at d l = l
Linked-set_prev_of (a ∷ cs) nodes back back' at d l =
    subst (λ (p : Option ℕ). Linked (set_prev_of p back' nodes) back' p (a ∷ cs)) (sym (l.0))
      (
        refl,
        ground arith,
        subst (λ (n : Option ℕ). Linked (set_prev a back' nodes) (some a) n cs) (ground arith)
            (Linked-Same cs nodes (set_prev a back' nodes) (some a) (nodes a).next
              (Same-set_prev cs nodes a back' (d.0)) (l.2)),
      )

-- The sequence without an address.
abbrev pub remove : ℕ → List ℕ → List ℕ
remove x [] = []
remove x (y ∷ ys) = if x == y then ys else y ∷ remove x ys

abbrev pub IsIn : ℕ → List ℕ → Type 0
IsIn x [] = ⊥
IsIn x (y ∷ ys) = ((x == y) ≡ true) ⊎ (((x == y) ≡ false) × IsIn x ys)

-- What unlinking a context behind the first address `a` comes to: the list from `at` on, and the
-- nodes outside of it.
pub record Unlinked (nodes : ℕ → Node) (back at : Option ℕ) (ctx a : ℕ) (cs : List ℕ) : Type 0 where
  pub linked :
      Linked
        (unlink (nodes ctx).prev (nodes ctx).next (record { head = none; nodes = nodes })).nodes
        back
        at
        (a ∷ remove ctx cs)
  pub outside :
      (x : ℕ)
      → NotIn x (a ∷ cs)
      → (unlink (nodes ctx).prev (nodes ctx).next (record { head = none; nodes = nodes })).nodes x
        ≡ nodes x
  pub behind : (p : ℕ) × ((nodes ctx).prev ≡ some p)

-- A node that is not the next one keeps its back pointer.
pub outside-set_prev_of :
    (cs : List ℕ) (nodes nodes' : ℕ → Node) (back at v : Option ℕ) (x : ℕ)
    → Linked nodes back at cs
    → NotIn x cs
    → set_prev_of at v nodes' x ≡ nodes' x
outside-set_prev_of [] nodes nodes' back at v x l h =
    subst (λ (p : Option ℕ). set_prev_of p v nodes' x ≡ nodes' x) (sym l) refl
outside-set_prev_of (c ∷ cs) nodes nodes' back at v x l h =
    subst (λ (p : Option ℕ). set_prev_of p v nodes' x ≡ nodes' x) (sym (l.0)) (ground (arith, h.0))

-- Unlinking `b`, which stands behind `a`.
module _ (nodes : ℕ → Node) (back at : Option ℕ) (a b : ℕ) (bs : List ℕ) (d : Distinct (a ∷ b ∷ bs))
    (l : Linked nodes back at (a ∷ b ∷ bs)) where
  abbrev next_of : Option ℕ
  next_of = (nodes b).next

  abbrev without : ℕ → Node
  without = set_prev_of next_of (some a) (set_next a next_of nodes)

  rest-Linked : Linked nodes (some b) next_of bs
  rest-Linked = l.2.2

  node_a : without a ≡ record (nodes a) { next = next_of }
  node_a =
      outside-set_prev_of bs nodes (set_next a next_of nodes) (some b) next_of (some a) a
        rest-Linked (d.0.1)
      ∙ ground arith

  without-Linked : Linked without back at (a ∷ bs)
  without-Linked = (
    l.0,
    ap (λ (n : Node). n.prev) node_a ∙ l.1,
    subst (λ (p : Option ℕ). Linked without (some a) p bs) (sym (ap (λ (n : Node). n.next) node_a))
        (Linked-set_prev_of bs (set_next a next_of nodes) (some b) (some a) next_of (d.1.1) (
          Linked-Same bs nodes (set_next a next_of nodes) (some b) next_of
            (Same-set_next bs nodes a next_of (d.0.1)) rest-Linked)),
  )

  without-outside : (x : ℕ) → NotIn x (a ∷ b ∷ bs) → without x ≡ nodes x
  without-outside x h =
      outside-set_prev_of bs nodes (set_next a next_of nodes) (some b) next_of (some a) x
        rest-Linked (h.1.1)
      ∙ ground (arith, h.0)

pub ==_refl : (x : ℕ) → (x == x) ≡ true
==_refl x = ground arith

pub unlinked :
    (cs : List ℕ) (nodes : ℕ → Node) (back at : Option ℕ) (ctx a : ℕ)
    → Distinct (a ∷ cs)
    → Linked nodes back at (a ∷ cs)
    → IsIn ctx cs
    → Unlinked nodes back at ctx a cs
unlinked [] nodes back at ctx a d l h = absurd h
unlinked (b ∷ bs) nodes back at ctx a d l (inl e) =
    let same : b ≡ ctx = ground (arith, e) in
    subst (λ (x : ℕ). Unlinked nodes back at x a (b ∷ bs)) same
      (record {
        linked =
            subst
              (λ (v : Option ℕ).
                Linked (unlink v (nodes b).next (record { head = none; nodes = nodes })).nodes back
                  at (a ∷ remove b (b ∷ bs)))
              (sym (l.2.1))
              (subst
                (λ (t : Bool).
                  Linked (without nodes back at a b bs d l) back at
                    (a ∷ (if t then bs else b ∷ remove b bs)))
                (sym (==_refl b)) (without-Linked nodes back at a b bs d l));
        outside = λ x out.
            subst
              (λ (v : Option ℕ).
                (unlink v (nodes b).next (record { head = none; nodes = nodes })).nodes x ≡ nodes x)
              (sym (l.2.1)) (without-outside nodes back at a b bs d l x out);
        behind = (a, l.2.1);
      })
unlinked (b ∷ bs) nodes back at ctx a d l (inr h) =
    let u = unlinked bs nodes (some a) (nodes a).next ctx b (d.1) (l.2) (h.1) in
    let node = u.outside a (d.0) in
    let out =
      (unlink (nodes ctx).prev (nodes ctx).next (record { head = none; nodes = nodes })).nodes in
    record {
      linked = (
        l.0,
        ap (λ (n : Node). n.prev) node ∙ l.1,
        subst (λ (p : Option ℕ). Linked out (some a) p (remove ctx (b ∷ bs)))
            (sym (ap (λ (n : Node). n.next) node))
            (subst
              (λ (t : Bool).
                Linked out (some a) (nodes a).next (if t then bs else b ∷ remove ctx bs))
              (sym (h.0)) u.linked),
      );
      outside = λ x o. u.outside x (o.1);
      behind = u.behind;
    }
