-- ===== src/Core/Closure/Laws.antt =====
-- The loop ends within its fuel, at exactly the rows that hang under the first set.
use mathlib.Core.List.{Memᴰ, append_assoc}
use mathlib.Core.List.Memᴰ.{not-nil}
use mathlib.Core.Path.{subst}
use codex_context_guard.Base.{
  ℕ, zero, suc, ◌<◌, ◌≡◌, refl, ◌↔◌, ◌⊎◌, inl, inr, Bool, true, false, Option, none, some, List, [],
  ◌∷◌, ◌++◌, arith, keep, is_empty, contains, Text, text_eq, length, Bool-cases, all,
}
use codex_context_guard.Core.Index.{ids}
use codex_context_guard.Base.Texts.Distinct.{contains-append}
use codex_context_guard.Core.Index.Laws.{outside, outside_mono, outside-le-length}
use codex_context_guard.Core.Closure.{parent_in, is_added, added, close, closure}

all_self : (xs ys : List Text) → all (contains (ys ++ xs)) xs ≡ true
all_self [] ys = refl
all_self (x ∷ xs) ys =
    ground (
      arith,
      contains-append ys (x ∷ xs) x,
      all_self xs (ys ++ x ∷ []),
      append_assoc ys (x ∷ []) xs,
    )

parent_in-some :
    (units : List Text) (o : Option Text)
    → parent_in units o ≡ true
    → (p : Text) × (o ≡ some p) × (contains units p ≡ true)
parent_in-some units none h = cc
parent_in-some units (some p) h = (p, refl, h)

module _ {A : Type 0} (id : A → Text) (parent : A → Option Text) (required : A → Bool) where
  -- The keys under `start`: its own, and those of required rows whose parent is under it.
  pub data Under (start : List Text) (rows : List A) : Text → Type 0 where
    base : (k : Text) → contains start k ≡ true → Under start rows k
    child :
        (row : A) (p : Text)
        → Memᴰ row rows
        → required row ≡ true
        → parent row ≡ some p
        → Under start rows p
        → Under start rows (id row)

  outside_falls :
      (extra units : List Text) (rows : List A)
      → is_empty (added id parent required units rows) ≡ false
      → all (contains extra) (added id parent required units rows) ≡ true
      → outside id (extra ++ units) rows < outside id units rows
  outside_falls extra units [] h a = cc
  outside_falls extra units (r ∷ rows) h a = ground (
    arith,
    outside_falls extra units rows,
    outside_mono id extra units rows,
    contains-append extra units (id r),
  )

  close_stops :
      (fuel : ℕ) (units : List Text) (rows : List A)
      → outside id units rows < fuel
      → is_empty (added id parent required (close id parent required fuel units rows) rows) ≡ true
  unfolding close
  close_stops zero units rows h = absurd (omega arith)
  close_stops (suc fuel) units rows h =
      elim (Bool-cases (is_empty (added id parent required units rows))) [
        | inl done ↦ rw (done, done)
        | inr more ↦ rw more (
            close_stops fuel (added id parent required units rows ++ units) rows (
              omega (
                arith,
                outside_falls (added id parent required units rows) units rows more
                    (all_self (added id parent required units rows) []),
              )))
      ]

  close_keeps :
      (fuel : ℕ) (units : List Text) (rows : List A) (k : Text)
      → contains units k ≡ true
      → contains (close id parent required fuel units rows) k ≡ true
  unfolding close
  close_keeps zero units rows k h = h
  close_keeps (suc fuel) units rows k h = ground (
    arith,
    contains-append (added id parent required units rows) units k,
    close_keeps fuel (added id parent required units rows ++ units) rows k,
  )

  not_added :
      (units : List Text) (rows : List A) {row : A}
      → is_empty (added id parent required units rows) ≡ true
      → Memᴰ row rows
      → is_added id parent required units row ≡ false
  not_added units [] h m = absurd (not-nil m)
  not_added units (r ∷ rows) h (Memᴰ.head e) = ground arith
  not_added units (r ∷ rows) h (Memᴰ.tail m) =
      let rest : is_empty (added id parent required units rows) ≡ true = ground arith in
      not_added units rows rest m

  keep_cases :
      (p : A → Bool) (r : A) (rows : List A) (k : Text)
      → contains (ids id (keep p (r ∷ rows))) k ≡ true
      → (p r ≡ true) × (id r ≡ k) ⊎ (contains (ids id (keep p rows)) k ≡ true)
  keep_cases p r rows k h = ground arith

  member_of_keep :
      (p : A → Bool) (rows : List A) (k : Text)
      → contains (ids id (keep p rows)) k ≡ true
      → (row : A) × Memᴰ row rows × (p row ≡ true) × (id row ≡ k)
  member_of_keep p [] k h = cc
  member_of_keep p (r ∷ rows) k h = elim (keep_cases p r rows k h) [
    | inl (holds, named) ↦ (r, Memᴰ.head refl, holds, named)
    | inr later ↦
        let (row, m, holds, named) = member_of_keep p rows k later in
        (row, Memᴰ.tail m, holds, named)
  ]

  module _ (start : List Text) (rows : List A) where
    abbrev AllUnder : List Text → Type 0
    AllUnder units = (k : Text) → contains units k ≡ true → Under start rows k

    added-Under :
        (units : List Text)
        → AllUnder units
        → AllUnder (added id parent required units rows ++ units)
    added-Under units h k m = elim (Bool-cases (contains (added id parent required units rows) k)) [
      | inl new ↦
          let (row, listed, adds, named) = member_of_keep _ rows k new in
          let (p, e, inside) = parent_in-some units (parent row) (ground arith) in
          subst (Under start rows) named (Under.child row p listed (ground arith) e (h p inside))
      | inr old ↦
          h k (ground (arith, contains-append (added id parent required units rows) units k))
    ]

    close-Under :
        (fuel : ℕ) (units : List Text)
        → AllUnder units
        → AllUnder (close id parent required fuel units rows)
    unfolding close
    close-Under zero units h k m = h k m
    close-Under (suc fuel) units h k m =
        elim (Bool-cases (is_empty (added id parent required units rows))) [
          | inl done ↦ h k (rw done at m)
          | inr more ↦
              close-Under fuel (added id parent required units rows ++ units) (added-Under units h)
                k (rw more at m)
        ]

    Under-closure :
        (k : Text) → Under start rows k → contains (closure id parent required start rows) k ≡ true
    unfolding closure
    Under-closure _ (Under.base k h) = close_keeps (suc (length rows)) start rows k h
    Under-closure _ (Under.child row p listed needed e above) = ground (
      arith,
      Under-closure p above,
      not_added (closure id parent required start rows) rows
          (close_stops (suc (length rows)) start rows
            (omega (arith, outside-le-length id start rows)))
          listed,
    )

    -- The loop's set is exactly the keys that hang under the first set by required rows.
    pub closure_iff :
        (k : Text)
        → (contains (closure id parent required start rows) k ≡ true) ↔ Under start rows k
    unfolding closure
    closure_iff k =
        (close-Under (suc (length rows)) start (λ j h. Under.base j h) k, Under-closure k)
