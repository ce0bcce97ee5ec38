-- ===== src/Stop/Referred.antt =====
-- scripts/cg_stop3.py: the successful evidence that a binding refers to, all of it and no other.
use mathlib.Core.List.{Memᴰ}
use codex_context_guard.Base.{
  ◌≡◌, refl, ap, sym, subst, ◌∙◌, true, false, Option, none, some, List, [], ◌∷◌, map, Text,
  text_eq, ◌==◌, ==_iff, ==_self, contains, All, All-map, arith, inl, inr, Bool-cases,
}
use codex_context_guard.Base.Json.{Json}
use codex_context_guard.Base.Sorting.{sort, sort-All, All-Memᴰ}
use codex_context_guard.Base.Sorting.Order.{sort_permutes}
use codex_context_guard.Base.Sorting.Keyed.{All-Permᴰ, map-Permᴰ, keyed-IsOrder}
use codex_context_guard.Base.Texts.{text_leb}
use codex_context_guard.Base.Texts.Distinct.{distinct, distinct-Permᴰ}
use codex_context_guard.Stop.Records.{record_id}
use codex_context_guard.Stop.Matcher.{is_success, evidence_of, add_success, successes, by_id}
use codex_context_guard.Stop.Cover.{contains-sort}

-- A record of the evidence that succeeded and that the binding names.
pub IsReferred : List Json → List Text → Json → Type 0
IsReferred evidence references entry =
    Memᴰ entry evidence × (is_success entry ≡ true) × (contains references (record_id entry) ≡ true)

-- What stands among some records: all that are referred to, and no other.
pub IsAllReferred : List Json → List Text → List Json → Type 0
IsAllReferred evidence references successful =
    All (IsReferred evidence references) successful
    × All
        (λ entry.
          is_success entry ≡ true
          → contains references (record_id entry) ≡ true
          → Memᴰ entry successful)
        evidence

add_success-All :
    (Q : Json → Type 0) (o : Option Json) (rest : List Json)
    → ((e : Json) → o ≡ some e → is_success e ≡ true → Q e)
    → All Q rest
    → All Q (add_success o rest)
unfolding add_success
add_success-All Q none rest holds h = h
add_success-All Q (some e) rest holds h = elim (Bool-cases (is_success e)) [
  | inl good ↦ rw good (holds e refl good, h)
  | inr failed ↦ rw failed h
]

add_success-kept :
    (o : Option Json) (rest : List Json) (entry : Json)
    → Memᴰ entry rest
    → Memᴰ entry (add_success o rest)
unfolding add_success
add_success-kept none rest entry m = m
add_success-kept (some e) rest entry m = elim (Bool-cases (is_success e)) [
  | inl good ↦ rw good (Memᴰ.tail m)
  | inr failed ↦ rw failed m
]

add_success-new :
    (rest : List Json) (entry : Json)
    → is_success entry ≡ true
    → Memᴰ entry (add_success (some entry) rest)
unfolding add_success
add_success-new rest entry good = rw good (Memᴰ.head refl)

module _ (P : Json → Type 0) where
  evidence_of-some :
      (rows : List Json) (id : Text) (entry : Json)
      → All P rows
      → evidence_of rows id ≡ some entry
      → P entry × (record_id entry ≡ id)
  unfolding evidence_of
  evidence_of-some [] id entry h found = cc
  evidence_of-some (row ∷ rows) id entry (h, hs) found = elim (Bool-cases (record_id row == id)) [
    | inl here ↦
        let same : row ≡ entry = cc (rw here at found) in
        (subst P same h, ap record_id (sym same) ∙ (==_iff (record_id row) id).0 here)
    | inr other ↦ evidence_of-some rows id entry hs (rw other at found)
  ]

  successes-All :
      (rows : List Json) (names : List Text)
      → All P rows
      → All
          (λ e. P e × (is_success e ≡ true) × (contains names (record_id e) ≡ true))
          (successes rows names)
  unfolding successes
  successes-All rows [] h = tt
  successes-All rows (id ∷ names) h =
      let rest =
        All-map (λ e. P e × (is_success e ≡ true) × (contains names (record_id e) ≡ true))
          (λ e. P e × (is_success e ≡ true) × (contains (id ∷ names) (record_id e) ≡ true))
          (successes rows names) (λ e k. (k.0, k.1, grind arith)) (successes-All rows names h) in
      add_success-All
        (λ e. P e × (is_success e ≡ true) × (contains (id ∷ names) (record_id e) ≡ true))
        (evidence_of rows id) (successes rows names)
        (λ e found good.
          let (holds, named) = evidence_of-some rows id e h found in
          (holds, good, rw (named, ==_self id) refl))
        rest

-- Records with ids of their own are found by them.
apart :
    (id : Text) (rows : List Json)
    → contains (map record_id rows) id ≡ false
    → All (λ e. (id == record_id e) ≡ false) rows
apart id [] h = tt
apart id (row ∷ rows) h = (grind arith, apart id rows (grind arith))

behind :
    (row : Json) (rows others : List Json)
    → All (λ e. (record_id row == record_id e) ≡ false) others
    → All (λ e. evidence_of rows (record_id e) ≡ some e) others
    → All (λ e. evidence_of (row ∷ rows) (record_id e) ≡ some e) others
unfolding evidence_of
behind row rows [] a h = tt
behind row rows (e ∷ others) (a, later) (h, hs) = (rw a h, behind row rows others later hs)

evidence_of_self :
    (rows : List Json)
    → distinct (map record_id rows) ≡ true
    → All (λ e. evidence_of rows (record_id e) ≡ some e) rows
unfolding evidence_of
evidence_of_self [] d = tt
evidence_of_self (row ∷ rows) d =
    let others = apart (record_id row) rows (grind arith) in
    let rest = evidence_of_self rows (grind arith) in
    (rw (==_self (record_id row)) refl, behind row rows rows others rest)

successes-Memᴰ :
    (rows : List Json) (names : List Text) (entry : Json)
    → evidence_of rows (record_id entry) ≡ some entry
    → is_success entry ≡ true
    → contains names (record_id entry) ≡ true
    → Memᴰ entry (successes rows names)
unfolding successes
successes-Memᴰ rows [] entry found good named = cc
successes-Memᴰ rows (id ∷ names) entry found good named =
    elim (Bool-cases (record_id entry == id)) [
      | inl here ↦
          let same = (==_iff (record_id entry) id).0 here in
          subst (λ o. Memᴰ entry (add_success o (successes rows names)))
            (sym (subst (λ t. evidence_of rows t ≡ some entry) same found))
            (add_success-new (successes rows names) entry good)
      | inr other ↦
          add_success-kept (evidence_of rows id) (successes rows names) entry
            (successes-Memᴰ rows names entry found good (rw other at named))
    ]

-- What the matcher reads of sorted evidence and sorted references.
pub successes-IsAllReferred :
    (evidence : List Json) (references : List Text)
    → distinct (map record_id evidence) ≡ true
    → IsAllReferred evidence references (successes (sort by_id evidence) (sort text_leb references))
unfolding IsAllReferred IsReferred by_id
successes-IsAllReferred evidence references d =
    let rows = sort by_id evidence in
    let names = sort text_leb references in
    let perm = sort_permutes by_id (keyed-IsOrder record_id) evidence in
    let inside = All-Permᴰ (λ e. Memᴰ e evidence) perm (All-Memᴰ evidence evidence (λ e m. m)) in
    let found = evidence_of_self rows (sym (distinct-Permᴰ (map-Permᴰ record_id perm)) ∙ d) in
    (
      All-map (λ e. Memᴰ e evidence × (is_success e ≡ true) × (contains names (record_id e) ≡ true))
          (λ e.
            Memᴰ e evidence × (is_success e ≡ true) × (contains references (record_id e) ≡ true))
          (successes rows names)
          (λ e k. (k.0, k.1, sym (contains-sort references (record_id e)) ∙ k.2))
          (successes-All (λ e. Memᴰ e evidence) rows names inside),
      sort-All
          (λ e.
            is_success e ≡ true
            → contains references (record_id e) ≡ true
            → Memᴰ e (successes rows names))
          by_id evidence
          (All-map (λ e. evidence_of rows (record_id e) ≡ some e)
            (λ e.
              is_success e ≡ true
              → contains references (record_id e) ≡ true
              → Memᴰ e (successes rows names))
            rows
            (λ e f good named.
              successes-Memᴰ rows names e f good (contains-sort references (record_id e) ∙ named))
            found),
    )
