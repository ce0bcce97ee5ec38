-- ===== src/Stop/Marks.antt =====
-- scripts/cg_stop3.py: what the mark of a unit that is to be reopened changes.
use codex_context_guard.Base.{
  ◌≡◌, refl, ap, ◌&&◌, ◌||◌, Bool, true, Option, List, [], ◌∷◌, map, Text, text_eq, nat_eq,
  option_eq, keep, Bool-cases, inl, inr,
}
use codex_context_guard.Base.Decimal.{ℤ}
use codex_context_guard.Base.Json.{
  Json, boolean, string, Members, get, truthy, is_text, put, remove,
}
use codex_context_guard.Base.Json.Laws.{get-put, get-put_other, get-remove, get-remove_other}
use codex_context_guard.Base.Texts.{codes}
use codex_context_guard.Stop.Units.{has_status, text_at, is_waiting, seqs, add_seq, is_latest, mark}
use codex_context_guard.Stop.Latest.{ids}

-- A waiting unit that is to be reopened.
abbrev pub is_reopened : Members → Bool
is_reopened row = is_waiting row && truthy (get row (codes "resume_pending_reopen"))

-- Two rows with the same id, status and number.
pub Alike : Members → Members → Type 0
Alike a b =
    (get a (codes "id") ≡ get b (codes "id"))
    × (get a (codes "status") ≡ get b (codes "status"))
    × (get a (codes "last_active_seq") ≡ get b (codes "last_active_seq"))

Alike-waiting : (a b : Members) → Alike a b → is_waiting a ≡ is_waiting b
unfolding Alike is_waiting has_status
Alike-waiting a b (i, s, n) =
    ap (λ v. is_text (codes "awaiting_user") v || is_text (codes "awaiting_external") v) s

pub Alike-status :
    (status : Text) (a b : Members) → Alike a b → has_status status a ≡ has_status status b
unfolding Alike has_status
Alike-status status a b (i, s, n) = ap (is_text status) s

pub Alike-id : (a b : Members) → Alike a b → text_at (codes "id") a ≡ text_at (codes "id") b
unfolding Alike text_at
Alike-id a b (i, s, n) = ap (λ v. elim v [ string text ↦ text | _ ↦ [] ]) i

pub Alike-seq :
    (a b : Members) → Alike a b → get a (codes "last_active_seq") ≡ get b (codes "last_active_seq")
unfolding Alike
Alike-seq a b (i, s, n) = n

abbrev flag : Text
flag = codes "resume_pending_reopen"

put-Alike : (value : Json) (row : Members) → Alike (put flag value row) row
unfolding Alike text_eq
put-Alike value row = (
  get-put_other flag (codes "id") value row refl,
  get-put_other flag (codes "status") value row refl,
  get-put_other flag (codes "last_active_seq") value row refl,
)

remove-Alike : (row : Members) → Alike (remove flag row) row
unfolding Alike text_eq
remove-Alike row = (
  get-remove_other flag (codes "id") row refl,
  get-remove_other flag (codes "status") row refl,
  get-remove_other flag (codes "last_active_seq") row refl,
)

same-Alike : (row : Members) → Alike row row
unfolding Alike
same-Alike row = (refl, refl, refl)

pub mark-Alike : (latest : Option ℤ) (row : Members) → Alike (mark latest row) row
unfolding mark
mark-Alike latest row = elim (Bool-cases (is_waiting row)) [
  | inr settled ↦ rw settled (same-Alike row)
  | inl waiting ↦ elim (Bool-cases (is_latest latest row)) [
    | inl last ↦ rw waiting (rw last (put-Alike (boolean true) row))
    | inr other ↦ rw waiting (rw other (remove-Alike row))
  ]
]

flag-mark :
    (latest : Option ℤ) (row : Members)
    → is_waiting row ≡ true
    → truthy (get (mark latest row) flag) ≡ is_latest latest row
unfolding mark truthy
flag-mark latest row waiting = elim (Bool-cases (is_latest latest row)) [
  | inl last ↦ rw waiting (rw last (ap truthy (get-put flag (boolean true) row)))
  | inr other ↦ rw waiting (rw other (ap truthy (get-remove flag row)))
]

-- Exactly the latest of the candidates is marked.
pub is_reopened-mark :
    (latest : Option ℤ) (row : Members)
    → is_reopened (mark latest row) ≡ (is_waiting row && is_latest latest row)
is_reopened-mark latest row =
    rw (Alike-waiting (mark latest row) row (mark-Alike latest row))
      (elim (Bool-cases (is_waiting row)) [
        | inr settled ↦ rw settled refl
        | inl waiting ↦ rw waiting (flag-mark latest row waiting)
      ])

pub seqs-marked :
    (latest : Option ℤ) (rows : List Members)
    → seqs (keep is_waiting (map (mark latest) rows)) ≡ seqs (keep is_waiting rows)
unfolding seqs
seqs-marked latest [] = refl
seqs-marked latest (row ∷ rows) =
    let rest = seqs-marked latest rows in
    let alike = mark-Alike latest row in
    rw (Alike-waiting (mark latest row) row alike) (elim (Bool-cases (is_waiting row)) [
      | inl waiting ↦ rw waiting (
          rw (Alike-seq (mark latest row) row alike)
            (ap (add_seq (get row (codes "last_active_seq"))) rest))
      | inr settled ↦ rw settled rest
    ])

pub ids-reopened :
    (latest : Option ℤ) (rows : List Members)
    → ids (keep is_reopened (map (mark latest) rows))
      ≡ ids (keep (is_latest latest) (keep is_waiting rows))
ids-reopened latest [] = refl
ids-reopened latest (row ∷ rows) =
    let rest = ids-reopened latest rows in
    rw (is_reopened-mark latest row) (elim (Bool-cases (is_waiting row)) [
      | inr settled ↦ rw settled rest
      | inl waiting ↦ rw waiting (elim (Bool-cases (is_latest latest row)) [
        | inl last ↦ rw last (
            rw (Alike-id (mark latest row) row (mark-Alike latest row))
              (ap (λ names. text_at (codes "id") row ∷ names) rest))
        | inr other ↦ rw other rest
      ])
    ])
