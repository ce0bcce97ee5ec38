-- ===== src/Base/Json/Laws.antt =====
-- What a look-up gives after a dict was changed.
use codex_context_guard.Base.{
  ◌≡◌, refl, ap, sym, subst, true, false, Option, none, some, Text, text_eq, ◌==◌, ==_iff, ==_self,
  Bool-cases, inl, inr,
}
use codex_context_guard.Base.Json.{Json, null, Members, member, end, find, get_or, get, put, remove}

find-put : (name : Text) (new : Json) (row : Members) → find (put name new row) name ≡ some new
unfolding find put
find-put name new end = rw (==_self name)
find-put name new (member key value rest) = elim (Bool-cases (key == name)) [
  | inl same ↦ rw same (rw same)
  | inr other ↦ rw other (rw other (find-put name new rest))
]

find-put_other :
    (name other : Text) (new : Json) (row : Members)
    → (name == other) ≡ false
    → find (put name new row) other ≡ find row other
unfolding find put
find-put_other name other new end differ = rw differ
find-put_other name other new (member key value rest) differ =
    let differs = λ (same : (key == name) ≡ true).
      subst (λ k. (k == other) ≡ false) (sym ((==_iff key name).0 same)) differ in
    elim (Bool-cases (key == name)) [
      | inl same ↦ rw same (rw (differs same))
      | inr apart ↦ rw apart (rw (find-put_other name other new rest differ))
    ]

find-remove : (name : Text) (row : Members) → find (remove name row) name ≡ none
unfolding find remove
find-remove name end = refl
find-remove name (member key value rest) = elim (Bool-cases (key == name)) [
  | inl same ↦ rw same (find-remove name rest)
  | inr other ↦ rw other (rw other (find-remove name rest))
]

find-remove_other :
    (name other : Text) (row : Members)
    → (name == other) ≡ false
    → find (remove name row) other ≡ find row other
unfolding find remove
find-remove_other name other end differ = refl
find-remove_other name other (member key value rest) differ =
    let differs = λ (same : (key == name) ≡ true).
      subst (λ k. (k == other) ≡ false) (sym ((==_iff key name).0 same)) differ in
    elim (Bool-cases (key == name)) [
      | inl same ↦ rw same (rw (differs same) (find-remove_other name other rest differ))
      | inr apart ↦ rw apart (rw (find-remove_other name other rest differ))
    ]

-- The value that a look-up found, or None.
unfoldable value_of : Option Json → Json
value_of none = null
value_of (some value) = value

get-value_of : (row : Members) (name : Text) → get row name ≡ value_of (find row name)
unfolding get get_or value_of
get-value_of row name =
    elim (find row name) as (λ o. (elim o [ none ↦ null | some value ↦ value ]) ≡ value_of o) [
      | none ↦ refl
      | some value ↦ refl
    ]

pub get-put : (name : Text) (new : Json) (row : Members) → get (put name new row) name ≡ new
unfolding value_of
get-put name new row = rw (get-value_of (put name new row) name) (rw (find-put name new row) refl)

pub get-put_other :
    (name other : Text) (new : Json) (row : Members)
    → (name == other) ≡ false
    → get (put name new row) other ≡ get row other
get-put_other name other new row differ =
    rw (get-value_of (put name new row) other, get-value_of row other)
      (ap value_of (find-put_other name other new row differ))

pub get-remove : (name : Text) (row : Members) → get (remove name row) name ≡ null
unfolding value_of
get-remove name row = rw (get-value_of (remove name row) name) (rw (find-remove name row) refl)

pub get-remove_other :
    (name other : Text) (row : Members)
    → (name == other) ≡ false
    → get (remove name row) other ≡ get row other
get-remove_other name other row differ =
    rw (get-value_of (remove name row) other, get-value_of row other)
      (ap value_of (find-remove_other name other row differ))
