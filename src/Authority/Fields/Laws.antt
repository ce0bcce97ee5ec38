-- ===== src/Authority/Fields/Laws.antt =====
-- The fields that one action requires are among those of any list of actions with it.
use codex_context_guard.Base.{
  ◌≡◌, inl, inr, refl, ◌∙◌, true, ◌||◌, List, [], ◌∷◌, ◌++◌, Text, text_eq, nat_eq, option_eq, ◌==◌,
  contains, arith, Bool-cases, if◌then◌else◌,
}
use codex_context_guard.Base.Texts.{text_leb, unique, sorted_set}
use codex_context_guard.Base.Sorting.{insert, sort}
use codex_context_guard.Base.Texts.Distinct.{contains-append}
use codex_context_guard.Authority.Fields.{fields_of, add_fields, required_from, required_fields_for}
use codex_context_guard.Authority.Bind.{status_eq, target_eq}

-- The fields of an action are among those that a list of actions with it requires.
add_fields-keeps :
    (fields more : List Text) (f : Text)
    → contains fields f ≡ true
    → contains (add_fields fields more) f ≡ true
unfolding add_fields
add_fields-keeps fields [] f h = h
add_fields-keeps fields (g ∷ more) f h =
    add_fields-keeps (if contains fields g then fields else fields ++ g ∷ []) more f
      (ground (arith, contains-append fields (g ∷ []) f))

add_fields-adds :
    (fields more : List Text) (f : Text)
    → contains more f ≡ true
    → contains (add_fields fields more) f ≡ true
unfolding add_fields
add_fields-adds fields [] f h = cc
add_fields-adds fields (g ∷ more) f h = elim (Bool-cases (f == g)) [
  | inl here ↦
      add_fields-keeps (if contains fields g then fields else fields ++ g ∷ []) more f
        (ground (arith, contains-append fields (g ∷ []) f))
  | inr later ↦
      add_fields-adds (if contains fields g then fields else fields ++ g ∷ []) more f
        (rw later at h)
]

required_from-keeps :
    (fields actions : List Text) (f : Text)
    → contains fields f ≡ true
    → contains (required_from fields actions) f ≡ true
unfolding required_from
required_from-keeps fields [] f h = h
required_from-keeps fields (a ∷ rest) f h =
    required_from-keeps (add_fields fields (fields_of a)) rest f
      (add_fields-keeps fields (fields_of a) f h)

required_from-adds :
    (fields actions : List Text) (a f : Text)
    → contains actions a ≡ true
    → contains (fields_of a) f ≡ true
    → contains (required_from fields actions) f ≡ true
unfolding required_from
required_from-adds fields [] a f h k = cc
required_from-adds fields (b ∷ rest) a f h k = elim (Bool-cases (a == b)) [
  | inl here ↦
      required_from-keeps (add_fields fields (fields_of b)) rest f
        (add_fields-adds fields (fields_of b) f (let e : a ≡ b = ground arith in rw e at k))
  | inr later ↦ required_from-adds (add_fields fields (fields_of b)) rest a f (rw later at h) k
]

-- What a list adds was in it.
add_fields-cases :
    (fields more : List Text) (f : Text)
    → contains (add_fields fields more) f ≡ true
    → (contains fields f || contains more f) ≡ true
unfolding add_fields
add_fields-cases fields [] f h = ground arith
add_fields-cases fields (g ∷ more) f h = ground (
  arith,
  add_fields-cases (if contains fields g then fields else fields ++ g ∷ []) more f h,
  contains-append fields (g ∷ []) f,
)

-- The fields that one action requires are required for every list of actions that has it.
pub required_fields_for_mono :
    (actions : List Text) (a f : Text)
    → contains actions a ≡ true
    → contains (required_fields_for (a ∷ [])) f ≡ true
    → contains (required_fields_for actions) f ≡ true
unfolding required_fields_for required_from
required_fields_for_mono actions a f h k =
    required_from-adds [] actions a f h (ground (arith, add_fields-cases [] (fields_of a) f k))

contains-insert :
    (t : Text) (ts : List Text) (k : Text) → contains (insert text_leb t ts) k ≡ contains (t ∷ ts) k
unfolding insert
contains-insert t [] k = refl
contains-insert t (u ∷ ts) k = ground (arith, contains-insert t ts k)

contains-sort : (ts : List Text) (k : Text) → contains (sort text_leb ts) k ≡ contains ts k
unfolding sort
contains-sort [] k = refl
contains-sort (t ∷ ts) k =
    ground (arith, contains-insert t (sort text_leb ts) k, contains-sort ts k)

contains-unique : (ts : List Text) (k : Text) → contains (unique ts) k ≡ contains ts k
unfolding unique
contains-unique [] k = refl
contains-unique (t ∷ ts) k = ground (arith, contains-unique ts k)

pub contains-sorted_set : (ts : List Text) (k : Text) → contains (sorted_set ts) k ≡ contains ts k
unfolding sorted_set
contains-sorted_set ts k = contains-sort (unique ts) k ∙ contains-unique ts k
