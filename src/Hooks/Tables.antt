-- ===== src/Hooks/Tables.antt =====
-- What each name of the interface leads to.
use libshjpeg.Base.{
  ◌≡◌, ◌⊎◌, inl, inr, sym, subst, Bool-cases, refl, ap, ◌∙◌, arith, Bool, true, false,
  if◌then◌else◌, some, List, [], ◌∷◌,
}
use Prim.Native.String.{String, ◌++◌}
use text.Mathlib.Text.{◌==◌ as str_eq}
use text.Mathlib.TextEquality.{eq_iff}
use libshjpeg.Hooks.{
  Slot, null, unimplemented, symbol, wrapped, Hooks, get_hook, set_hook, set_hooks, dlsym,
  load_libjpeg, load_withjpu, withjpu_overrides, set_withjpu_overrides, Loaded, init_lib,
}

-- The name is one of the names.
abbrev pub is_name : String → List String → Bool
is_name name [] = false
is_name name (n ∷ names) = if str_eq n name then true else is_name name names

-- The last assignment to a name, or what it was.
abbrev pub last_of : String → Hooks → Slot → Slot
last_of name [] old = old
last_of name ((field, slot) ∷ assignments) old =
    last_of name assignments (if str_eq field name then slot else old)

abbrev has_field : String → Hooks → Bool
has_field name [] = false
has_field name ((field, slot) ∷ hooks) = if str_eq field name then true else has_field name hooks

get_hook-set_hook :
    (name key : String) (slot : Slot) (hooks : Hooks)
    → has_field name hooks ≡ true
    → get_hook name (set_hook key slot hooks)
      ≡ (if str_eq key name then slot else get_hook name hooks)
unfolding get_hook set_hook
get_hook-set_hook name key slot [] h = absurd (cc)
get_hook-set_hook name key slot ((field, old) ∷ hooks) h = ground (
  arith,
  eq_iff key name,
  eq_iff field name,
  eq_iff field key,
  get_hook-set_hook name key slot hooks,
)

has_field-set_hook :
    (name key : String) (slot : Slot) (hooks : Hooks)
    → has_field name (set_hook key slot hooks) ≡ has_field name hooks
unfolding set_hook
has_field-set_hook name key slot [] = refl
has_field-set_hook name key slot ((field, old) ∷ hooks) =
    ground (arith, has_field-set_hook name key slot hooks)

get_hook-set_hooks :
    (name : String) (assignments hooks : Hooks)
    → has_field name hooks ≡ true
    → get_hook name (set_hooks assignments hooks) ≡ last_of name assignments (get_hook name hooks)
unfolding set_hooks
get_hook-set_hooks name [] hooks h = refl
get_hook-set_hooks name ((key, slot) ∷ assignments) hooks h =
    get_hook-set_hooks name assignments (set_hook key slot hooks)
      (has_field-set_hook name key slot hooks ∙ h)
    ∙ ap (last_of name assignments) (get_hook-set_hook name key slot hooks h)

load_withjpu-get :
    (found : String → Bool) (name : String) (names : List String)
    → is_name name names ≡ true
    → (get_hook name (load_withjpu found names) ≡ dlsym found name)
      × (has_field name (load_withjpu found names) ≡ true)
unfolding get_hook load_withjpu
load_withjpu-get found name [] h = absurd (cc)
load_withjpu-get found name (n ∷ names) h =
    ground (arith, eq_iff n name, load_withjpu-get found name names)

load_libjpeg-get :
    (found : String → Bool) (name : String) (names : List String)
    → is_name name names ≡ true
    → get_hook name (load_libjpeg found names) ≡ (if found name then symbol name else unimplemented)
unfolding get_hook load_libjpeg
load_libjpeg-get found name [] h = absurd (cc)
load_libjpeg-get found name (n ∷ names) h =
    ground (arith, eq_iff n name, load_libjpeg-get found name names)

-- The names that the wrapper has a function for, which is called as the name with "sh" before it.
abbrev wrapped_names : List String
wrapped_names =
    "jpeg_CreateCompress" ∷ "jpeg_CreateDecompress" ∷ "jpeg_abort" ∷ "jpeg_destroy"
    ∷ "jpeg_finish_compress" ∷ "jpeg_finish_decompress" ∷ "jpeg_read_header" ∷ "jpeg_read_scanlines"
    ∷ "jpeg_start_compress" ∷ "jpeg_start_decompress" ∷ "jpeg_std_error" ∷ "jpeg_write_scanlines"
    ∷ []

-- The names whose pointer is taken from libjpeg's table.
abbrev copied_names : List String
copied_names =
    "jpeg_abort_compress" ∷ "jpeg_abort_decompress" ∷ "jpeg_destroy_compress"
    ∷ "jpeg_destroy_decompress" ∷ []

-- libjpeg's function of the name, or a pointer for one that is missing.
abbrev pub found_or : Slot → (String → Bool) → String → Slot
found_or missing found name = if found name then symbol name else missing

abbrev pub active_slot : (String → Bool) → String → Slot
active_slot found name =
    if is_name name wrapped_names
    then wrapped ("sh" ++ name)
    else found_or (if is_name name copied_names then unimplemented else null) found name

-- Each assignment to the name gives it the pointer.
abbrev Assigns : String → Slot → Hooks → Type 0
Assigns name slot [] = Unit
Assigns name slot ((field, assigned) ∷ assignments) =
    (str_eq field name ≡ true → assigned ≡ slot) × Assigns name slot assignments

last_of-Assigns :
    (name : String) (slot old : Slot) (assignments : Hooks)
    → Assigns name slot assignments
    → last_of name assignments old ≡ (if has_field name assignments then slot else old)
last_of-Assigns name slot old [] h = refl
last_of-Assigns name slot old ((field, assigned) ∷ assignments) h =
    last_of-Assigns name slot (if str_eq field name then assigned else old) assignments (h.1)
    ∙ by_field (Bool-cases (str_eq field name))
  where
    by_field :
        (str_eq field name ≡ true) ⊎ (str_eq field name ≡ false)
        → (if has_field name assignments then slot else if str_eq field name then assigned else old)
          ≡ (if (if str_eq field name then true else has_field name assignments) then slot else old)
    by_field (inl e) = rw (e, h.0 e) (ground arith)
    by_field (inr e) = rw e refl

infixr 20 ◌⊗◌
◌⊗◌ : {A B : Type 0} → A → B → A × B
a ⊗ b = (a, b)

wrapped-Assigned :
    (found : String → Bool) (name field : String) (slot : Slot)
    → slot ≡ active_slot found field
    → str_eq field name ≡ true
    → slot ≡ active_slot found name
wrapped-Assigned found name field slot same e =
    same ∙ ap (active_slot found) ((eq_iff field name).0 e)

overrides-Assigns :
    (found : String → Bool) (name : String) (names : List String)
    → is_name name names ≡ true
    → Assigns name (active_slot found name) (withjpu_overrides (load_libjpeg found names))
unfolding withjpu_overrides
overrides-Assigns found name names known =
    own "jpeg_start_compress" _ refl
    ⊗ own "jpeg_start_decompress" _ refl
    ⊗ own "jpeg_read_header" _ refl
    ⊗ own "jpeg_CreateDecompress" _ refl
    ⊗ own "jpeg_CreateCompress" _ refl
    ⊗ copied "jpeg_abort_compress" refl
    ⊗ copied "jpeg_destroy_compress" refl
    ⊗ copied "jpeg_abort_decompress" refl
    ⊗ copied "jpeg_destroy_decompress" refl
    ⊗ own "jpeg_destroy" _ refl
    ⊗ own "jpeg_abort" _ refl
    ⊗ own "jpeg_std_error" _ refl
    ⊗ own "jpeg_read_scanlines" _ refl
    ⊗ own "jpeg_read_scanlines" _ refl
    ⊗ own "jpeg_write_scanlines" _ refl
    ⊗ own "jpeg_finish_compress" _ refl
    ⊗ own "jpeg_finish_decompress" _ refl
    ⊗ tt
  where
    own :
        (field : String) (slot : Slot)
        → slot ≡ active_slot found field
        → str_eq field name ≡ true
        → slot ≡ active_slot found name
    own field slot same e = wrapped-Assigned found name field slot same e

    copied :
        (field : String)
        → found_or unimplemented found field ≡ active_slot found field
        → str_eq field name ≡ true
        → get_hook field (load_libjpeg found names) ≡ active_slot found name
    copied field same e =
        load_libjpeg-get found field names
          (subst (λ (n : String). is_name n names ≡ true) (sym ((eq_iff field name).0 e)) known)
        ∙ wrapped-Assigned found name field (found_or unimplemented found field) same e

all_fields : List String → Hooks → Bool
all_fields [] hooks = true
all_fields (n ∷ names) hooks = if has_field n hooks then all_fields names hooks else false

other_name :
    (name : String) (names : List String) (hooks : Hooks)
    → all_fields names hooks ≡ true
    → has_field name hooks ≡ false
    → is_name name names ≡ false
unfolding all_fields
other_name name [] hooks all none = refl
other_name name (n ∷ names) hooks all none = elim (Bool-cases (str_eq n name)) [
  | inl e ↦ absurd (cc (none, (eq_iff n name).0 e, field_there))
  | inr e ↦ rw e (other_name name names hooks (ground arith) none)
]
  where
    field_there : has_field n hooks ≡ true
    field_there = ground arith

others-active :
    (found : String → Bool) (name : String) (libjpeg_hooks : Hooks)
    → has_field name (withjpu_overrides libjpeg_hooks) ≡ false
    → active_slot found name ≡ found_or null found name
unfolding withjpu_overrides all_fields
others-active found name libjpeg_hooks h =
    rw
      (
        other_name name wrapped_names (withjpu_overrides libjpeg_hooks) refl h,
        other_name name copied_names (withjpu_overrides libjpeg_hooks) refl h,
      )
      refl

overrides-active :
    (found : String → Bool) (name : String) (names : List String)
    → is_name name names ≡ true
    → last_of name (withjpu_overrides (load_libjpeg found names)) (found_or null found name)
      ≡ active_slot found name
overrides-active found name names known =
    let hooks = load_libjpeg found names in
    last_of-Assigns name (active_slot found name) _ (withjpu_overrides hooks)
      (overrides-Assigns found name names known)
    ∙ elim (Bool-cases (has_field name (withjpu_overrides hooks))) [
      | inl e ↦ rw e refl
      | inr e ↦ rw e (sym (others-active found name hooks e))
    ]

-- What the name leads to in both tables.
pub record Leads (found : String → Bool) (name : String) (l : Loaded) : Type 0 where
  pub in_libjpeg : get_hook name l.libjpeg_hooks ≡ found_or unimplemented found name
  pub in_active : get_hook name l.active_hooks ≡ active_slot found name

-- Where libjpeg is found, each name of the interface leads in libjpeg's table to libjpeg's
-- function, or to the one that says that it is missing. In the active table the names of the calls
-- that the wrapper stands in front of lead to the wrapper's function of that name with "sh" before
-- it. jpeg_abort_compress, jpeg_abort_decompress, jpeg_destroy_compress and jpeg_destroy_decompress
-- lead to what libjpeg's table has; every other name leads to libjpeg's function, or to nothing at
-- all where that is missing.
pub init_lib-Leads :
    (versioned plain : Bool) (found : String → Bool) (names : List String) (name : String)
    → (versioned ≡ true) ⊎ (plain ≡ true)
    → is_name name names ≡ true
    → (l : Loaded) × (init_lib versioned plain found names ≡ some l) × Leads found name l
unfolding init_lib set_withjpu_overrides
init_lib-Leads versioned plain found names name there known =
    let libjpeg_hooks = load_libjpeg found names in
    let loaded : Loaded = record {
      libjpeg_hooks = libjpeg_hooks;
      active_hooks = set_hooks (withjpu_overrides libjpeg_hooks) (load_withjpu found names);
    } in
    let w = load_withjpu-get found name names known in
    (
      loaded,
      ground (arith, there),
      record {
        in_libjpeg = load_libjpeg-get found name names known;
        in_active =
            get_hook-set_hooks name (withjpu_overrides libjpeg_hooks) (load_withjpu found names)
              (w.1)
            ∙ ap (last_of name (withjpu_overrides libjpeg_hooks)) (w.0)
            ∙ overrides-active found name names known;
      },
    )
