-- ===== src/Wrap.antt =====
-- src/libjpeg_wrap/override.c: the list that ties a context to each of libjpeg's objects. A context
-- stands at an address of a store; the mutex makes each operation one step.
pub mod Links
pub mod Sequence
pub mod Input
pub mod Cache
pub mod Messages
pub mod Output
pub mod Support
pub mod Calls
pub mod Lines
use libshjpeg.Base.{ℕ, zero, suc, ◌==◌, Bool, if◌then◌else◌, Option, none, some}

-- The fields of `cinfo_context_t` that the list uses.
pub record Node : Type 0 where
  pub cinfo : ℕ
  pub next : Option ℕ
  pub prev : Option ℕ

pub record Contexts : Type 0 where
  pub head : Option ℕ
  pub nodes : ℕ → Node

abbrev pub set_next : ℕ → Option ℕ → (ℕ → Node) → ℕ → Node
set_next a v nodes x = if x == a then record (nodes x) { next = v } else nodes x

abbrev pub set_prev : ℕ → Option ℕ → (ℕ → Node) → ℕ → Node
set_prev a v nodes x = if x == a then record (nodes x) { prev = v } else nodes x

-- `if (p) p->prev = v`.
abbrev pub set_prev_of : Option ℕ → Option ℕ → (ℕ → Node) → ℕ → Node
set_prev_of none v nodes = nodes
set_prev_of (some n) v nodes = set_prev n v nodes

-- The walk from a pointer on, on fuel.
pub find_from : ℕ → (ℕ → Node) → ℕ → Option ℕ → Option ℕ
find_from zero nodes cinfo ctx = none
find_from (suc fuel) nodes cinfo none = none
find_from (suc fuel) nodes cinfo (some a) =
    let rest = find_from fuel nodes cinfo (nodes a).next in
    if (nodes a).cinfo == cinfo then some a else rest

unfoldable pub get_cinfo_context : ℕ → ℕ → Contexts → Option ℕ
get_cinfo_context fuel cinfo c = find_from fuel c.nodes cinfo c.head

-- A new context at the address that malloc gives.
abbrev pub push_context : ℕ → ℕ → Contexts → Contexts
push_context fresh cinfo c = record {
  head = some fresh;
  nodes =
      set_prev_of c.head (some fresh) (λ x.
        if x == fresh then record { cinfo = cinfo; next = c.head; prev = none } else c.nodes x);
}

-- The context that was found, or a new one, with the list.
abbrev pub context_or_new : Option ℕ → ℕ → ℕ → Contexts → ℕ × Contexts
context_or_new (some ctx) fresh cinfo c = (ctx, c)
context_or_new none fresh cinfo c = (fresh, push_context fresh cinfo c)

unfoldable pub create_cinfo_context : ℕ → ℕ → ℕ → Contexts → ℕ × Contexts
create_cinfo_context fuel fresh cinfo c =
    context_or_new (get_cinfo_context fuel cinfo c) fresh cinfo c

-- The unlinking in free_cinfo_context, by the context's two pointers.
abbrev pub unlink : Option ℕ → Option ℕ → Contexts → Contexts
unlink none next c = record { head = next; nodes = set_prev_of next none c.nodes }
unlink (some p) next c = record {
  head = c.head;
  nodes = set_prev_of next (some p) (set_next p next c.nodes);
}

unfoldable pub free_cinfo_context : ℕ → Contexts → Contexts
free_cinfo_context ctx c = unlink (c.nodes ctx).prev (c.nodes ctx).next c
