-- ===== src/Tests/Wrap.antt =====
-- The wrapper's list with three contexts.
use libshjpeg.Base.{ℕ, inl, inr, refl, arith, none, some, [], ◌∷◌, ◌==◌, if◌then◌else◌}
use libshjpeg.Wrap.{Node, Contexts, create_cinfo_context, free_cinfo_context}
use libshjpeg.Wrap.Links.{Represents, remove}
use libshjpeg.Wrap.Sequence.{Created, free_cinfo_context-Represents, create_cinfo_context-Created}

-- Contexts at 10, 20 and 30, for the objects 1, 2 and 3.
abbrev three_nodes : ℕ → Node
three_nodes a =
    if a == 10
    then record { cinfo = 1; next = some 20; prev = none }
    else if a == 20
    then record { cinfo = 2; next = some 30; prev = some 10 }
    else record { cinfo = 3; next = none; prev = some 20 }

abbrev three : Contexts
three = record { head = some 10; nodes = three_nodes }

three-Represents : Represents three (10 ∷ 20 ∷ 30 ∷ [])
three-Represents = record {
  linked = (refl, refl, (refl, refl, (refl, refl, refl)));
  distinct = ((refl, (refl, tt)), ((refl, tt), (tt, tt)));
}

free_cinfo_context-Represents_example :
    Represents (free_cinfo_context 20 three) (remove 20 (10 ∷ 20 ∷ 30 ∷ []))
free_cinfo_context-Represents_example =
    free_cinfo_context-Represents three 20 (10 ∷ 20 ∷ 30 ∷ []) three-Represents
      (inr (refl, inl refl))

create_cinfo_context-Created_example :
    Created 5 4
      (create_cinfo_context 5 40 4 three).0
      (10 ∷ 20 ∷ 30 ∷ [])
      (create_cinfo_context 5 40 4 three).1
create_cinfo_context-Created_example =
    create_cinfo_context-Created 5 40 4 three (10 ∷ 20 ∷ 30 ∷ []) three-Represents
      (refl, (refl, (refl, tt))) (omega arith)
