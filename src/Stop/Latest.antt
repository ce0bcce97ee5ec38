-- ===== src/Stop/Latest.antt =====
-- scripts/cg_stop3.py: the greatest sequence number of the waiting units, where only one has it.
use codex_context_guard.Base.{
  suc, ◌≡◌, ◌≤◌, refl, ap, sym, subst, ◌∙◌, true, false, Option, none, some, List, [], ◌∷◌, map,
  Text, text_eq, nat_eq, option_eq, ◌==◌, ==_iff, length, keep, All, All-map, if◌then◌else◌,
  Bool-cases, Option-cases, inl, inr, arith,
}
use codex_context_guard.Base.Decimal.{ℤ}
use codex_context_guard.Base.Json.{
  Json, null, boolean, integer, float, string, array, object, Members, get,
}
use codex_context_guard.Base.Texts.{codes}
use codex_context_guard.Stop.Units.{
  text_at, int_leb, int_same, seqs, top_from, unique_top, unique_max, reopened, is_int, add_seq,
  is_latest,
}

int_leb_trans : (a b c : ℤ) → int_leb a b ≡ true → int_leb b c ≡ true → int_leb a c ≡ true
unfolding int_leb
int_leb_trans a b c ab bc = ground arith

int_leb_total : (a b : ℤ) → int_leb a b ≡ false → int_leb b a ≡ true
unfolding int_leb
int_leb_total a b later = ground arith

int_leb_self : (a : ℤ) → int_leb a a ≡ true
unfolding int_leb
int_leb_self a = ground arith

pub AtMost : ℤ → ℤ → Type 0
AtMost top n = int_leb n top ≡ true

-- The greater of two numbers.
abbrev higher : ℤ → ℤ → ℤ
higher top n = if int_leb n top then top else n

higher-most : (top n : ℤ) → AtMost (higher top n) top × AtMost (higher top n) n
unfolding AtMost
higher-most top n = elim (Bool-cases (int_leb n top)) [
  | inl below ↦ rw below (int_leb_self top, below)
  | inr above ↦ rw above (int_leb_total n top above, int_leb_self n)
]

top_from-most :
    (top : ℤ) (ns : List ℤ) → AtMost (top_from top ns) top × All (AtMost (top_from top ns)) ns
unfolding AtMost top_from
top_from-most top [] = (int_leb_self top, tt)
top_from-most top (n ∷ ns) =
    let (high, rest) = top_from-most (higher top n) ns in
    let (above, beside) = higher-most top n in
    let most = top_from (higher top n) ns in
    (
      int_leb_trans top (higher top n) most above high,
      (int_leb_trans n (higher top n) most beside high, rest),
    )

-- The number that only one has is the greatest.
unique_top-most :
    (ns : List ℤ) (top : ℤ)
    → unique_top ns ≡ some top
    → All (AtMost top) ns × (length (keep (int_same top) ns) ≡ 1)
unfolding unique_top
unique_top-most [] top found = cc
unique_top-most (n ∷ ns) top found =
    elim (Bool-cases (length (keep (int_same (top_from n ns)) (n ∷ ns)) == 1)) [
      | inr several ↦ cc (rw several at found)
      | inl single ↦
          let same : top_from n ns ≡ top = cc (rw single at found) in
          subst (λ t. All (AtMost t) (n ∷ ns) × (length (keep (int_same t) (n ∷ ns)) ≡ 1)) same
            (
              top_from-most n ns,
              (==_iff (length (keep (int_same (top_from n ns)) (n ∷ ns))) 1).0 single,
            )
    ]

length-add_seq :
    (top : ℤ) (value : Json) (row : Members) (rows : List Members) (ns : List ℤ)
    → length rows ≡ length (keep (int_same top) ns)
    → length (if is_int top value then row ∷ rows else rows)
      ≡ length (keep (int_same top) (add_seq value ns))
unfolding is_int add_seq
length-add_seq top null row rows ns e = e
length-add_seq top (boolean b) row rows ns e = e
length-add_seq top (integer n) row rows ns e = elim (Bool-cases (int_same top n)) [
  | inl here ↦ rw here (ap suc e)
  | inr other ↦ rw other e
]
length-add_seq top (float f) row rows ns e = e
length-add_seq top (string s) row rows ns e = e
length-add_seq top (array vs) row rows ns e = e
length-add_seq top (object r) row rows ns e = e

length-latest :
    (top : ℤ) (rows : List Members)
    → length (keep (is_latest (some top)) rows) ≡ length (keep (int_same top) (seqs rows))
unfolding is_latest seqs
length-latest top [] = refl
length-latest top (row ∷ rows) =
    length-add_seq top (get row (codes "last_active_seq")) row (keep (is_latest (some top)) rows)
      (seqs rows) (length-latest top rows)

keep-none : (rows : List Members) → length (keep (is_latest none) rows) ≡ 0
unfolding is_latest
keep-none [] = refl
keep-none (row ∷ rows) = keep-none rows

unique_max-top :
    (rows : List Members) (top : ℤ) → unique_max rows ≡ some top → unique_top (seqs rows) ≡ some top
unfolding unique_max
unique_max-top rows top found = elim (Bool-cases (length (seqs rows) == length rows)) [
  | inl all_known ↦ rw all_known at found
  | inr unknown ↦ cc (rw unknown at found)
]

-- At most one candidate is the latest.
pub length-unique_max : (rows : List Members) → length (keep (is_latest (unique_max rows)) rows) ≤ 1
unfolding unique_max
length-unique_max rows = elim (Option-cases (unique_max rows)) [
  | inl nothing ↦ rw (nothing, keep-none rows) ground arith
  | inr (top, found) ↦
      rw
        (
          found,
          length-latest top rows,
          (unique_top-most (seqs rows) top (unique_max-top rows top found)).1,
        )
        ground arith
]

is_int_value :
    (top : ℤ) (value : Json)
    → is_int top value ≡ true
    → (n : ℤ) × (value ≡ integer n) × (int_leb top n ≡ true)
unfolding is_int int_same
is_int_value top null e = cc
is_int_value top (boolean b) e = cc
is_int_value top (integer n) e = (n, refl, grind arith)
is_int_value top (float f) e = cc
is_int_value top (string s) e = cc
is_int_value top (array vs) e = cc
is_int_value top (object r) e = cc

-- The latest of some rows has the greatest number of them.
pub is_latest-most :
    (rows : List Members) (row : Members)
    → is_latest (unique_max rows) row ≡ true
    → (n : ℤ) × (get row (codes "last_active_seq") ≡ integer n) × All (AtMost n) (seqs rows)
unfolding is_latest AtMost
is_latest-most rows row last = elim (Option-cases (unique_max rows)) [
  | inl nothing ↦ cc (rw nothing at last)
  | inr (top, found) ↦
      let (n, is_n, above) =
        is_int_value top (get row (codes "last_active_seq")) (rw found at last) in
      let (most, single) = unique_top-most (seqs rows) top (unique_max-top rows top found) in
      (
        n,
        is_n,
        All-map (AtMost top) (AtMost n) (seqs rows) (λ k below. int_leb_trans k top n below above)
            most,
      )
]

abbrev pub ids : List Members → List Text
ids rows = map (text_at (codes "id")) rows

length-ids : (rows : List Members) → length (ids rows) ≡ length rows
length-ids [] = refl
length-ids (row ∷ rows) = ap suc (length-ids rows)

-- What is there, as a list.
abbrev pub at_most_one {ℓ} : {A : Type ℓ} → Option A → List A
at_most_one none = []
at_most_one (some x) = x ∷ []

-- The id that is reported is that of the only latest unit.
pub reopened-ids :
    (latest : Option ℤ) (rows : List Members)
    → length (keep (is_latest latest) rows) ≤ 1
    → ids (keep (is_latest latest) rows) ≡ at_most_one (reopened latest rows)
unfolding reopened
reopened-ids latest [] few = refl
reopened-ids latest (row ∷ rows) few =
    let later = keep (is_latest latest) rows in
    elim (Bool-cases (is_latest latest row)) [
      | inr other ↦
          let rest = reopened-ids latest rows (rw other at few) in
          elim (Option-cases (reopened latest rows)) [
            | inl nothing ↦ rw (nothing, other) (rw nothing at rest)
            | inr (id, found) ↦ rw (other, found) (rw found at rest)
          ]
      | inl last ↦
          let fewer : suc (length later) ≤ 1 = rw last at few in
          let rest = reopened-ids latest rows (grind arith) in
          elim (Option-cases (reopened latest rows)) [
            | inl nothing ↦
                rw (nothing, last)
                  (ap (λ names. text_at (codes "id") row ∷ names) (rw nothing at rest))
            | inr (id, found) ↦
                let single : length later ≡ 1 =
                  sym (length-ids later) ∙ ap length (rw found at rest) in
                grind arith
          ]
    ]
