-- ===== src/Stop/Order.antt =====
-- scripts/cg_stop3.py: the verdict of the matcher does not depend on the order of the evidence.
use codex_context_guard.Base.{
  ◌≡◌, refl, ap, sym, subst, ◌∙◌, Bool, true, false, Option, none, some, List, [], ◌∷◌, map, Text,
  text_eq, contains, all, All, is_empty, if◌then◌else◌, Result, ok, ok_injective, after_ok, arith,
  inl, inr, Bool-cases,
}
use mathlib.Core.List.{Permᴰ}
use codex_context_guard.Base.Json.{Json, array, Items, Members, elements, get}
use codex_context_guard.Base.Texts.{codes}
use codex_context_guard.Base.Texts.Distinct.{distinct, distinct-Permᴰ, contains-Permᴰ}
use codex_context_guard.Base.Sorting.{sort}
use codex_context_guard.Base.Sorting.Keyed.{All-Permᴰ, map-Permᴰ, sort-keys}
use codex_context_guard.Stop.Records.{
  Reason, Match, Verdict, rejected, record_id, evidence_record_reason, evidence_reason,
  list_or_empty, dict_or_empty, same_identity, names,
}
use codex_context_guard.Stop.Matcher.{by_id, match_references, check_evidence, evaluate_reason}

-- A record that the evidence may hold, apart from those seen.
pub IsNew : List Text → Json → Type 0
IsNew seen entry =
    (is_empty (record_id entry) ≡ false)
    × (contains seen (record_id entry) ≡ false)
    × (evidence_record_reason entry ≡ ok none)

unfoldable pub ids : List Json → List Text
ids = map record_id

absent :
    (seen : List Text) (id : Text) (entries : List Json)
    → All (IsNew (id ∷ seen)) entries
    → (contains (ids entries) id ≡ false) × All (IsNew seen) entries
unfolding IsNew ids
absent seen id [] h = (refl, tt)
absent seen id (entry ∷ entries) ((n, c, r), hs) =
    let (a, rest) = absent seen id entries hs in (ground arith, ((n, ground arith, r), rest))

present :
    (seen : List Text) (id : Text) (entries : List Json)
    → contains (ids entries) id ≡ false
    → All (IsNew seen) entries
    → All (IsNew (id ∷ seen)) entries
unfolding IsNew ids
present seen id [] c h = tt
present seen id (entry ∷ entries) c ((n, d, r), hs) =
    ((n, ground arith, r), present seen id entries (ground arith) hs)

-- A check that goes on where there is no reason to stop.
no_reason :
    (reason : Option Reason) (next : Result (Option Reason))
    → (elim reason [ some bad ↦ ok (some bad) | none ↦ next ]) ≡ ok none
    → (reason ≡ none) × (next ≡ ok none)
no_reason none next h = (refl, h)
no_reason (some bad) next h = cc

pub evidence_reason-IsNew :
    (seen : List Text) (entries : List Json)
    → evidence_reason seen entries ≡ ok none
    → (distinct (ids entries) ≡ true) × All (IsNew seen) entries
unfolding evidence_reason ids IsNew
evidence_reason-IsNew seen [] h = (refl, tt)
evidence_reason-IsNew seen (entry ∷ entries) h = elim (Bool-cases (is_empty (record_id entry))) [
  | inl e ↦ cc (rw e at h)
  | inr n ↦ elim (Bool-cases (contains seen (record_id entry))) [
    | inl c ↦ cc (rw (n, c) at h)
    | inr c ↦ after_ok (evidence_record_reason entry) _ (rw (n, c) at h) (λ reason r rest.
        let (none_e, h₁) = no_reason reason _ rest in
        let (d, hs) = evidence_reason-IsNew (record_id entry ∷ seen) entries h₁ in
        let (a, news) = absent seen (record_id entry) entries hs in
        (ground arith, ((n, c, r ∙ ap ok none_e), news)))
  ]
]

IsNew-evidence_reason :
    (seen : List Text) (entries : List Json)
    → distinct (ids entries) ≡ true
    → All (IsNew seen) entries
    → evidence_reason seen entries ≡ ok none
unfolding evidence_reason ids IsNew
IsNew-evidence_reason seen [] d h = refl
IsNew-evidence_reason seen (entry ∷ entries) d ((n, c, r), hs) =
    rw (n, c, r)
      (IsNew-evidence_reason (record_id entry ∷ seen) entries (ground arith)
        (present seen (record_id entry) entries (ground arith) hs))

evidence_reason-Permᴰ :
    {xs ys : List Json}
    → Permᴰ xs ys
    → evidence_reason [] xs ≡ ok none
    → evidence_reason [] ys ≡ ok none
unfolding ids
evidence_reason-Permᴰ {xs} {ys} p h =
    let (d, news) = evidence_reason-IsNew [] xs h in
    IsNew-evidence_reason [] ys (sym (distinct-Permᴰ (map-Permᴰ record_id p)) ∙ d)
      (All-Permᴰ (IsNew []) p news)

all-contains :
    (xs ys names : List Text)
    → ((t : Text) → contains xs t ≡ contains ys t)
    → all (contains xs) names ≡ all (contains ys) names
all-contains xs ys [] e = refl
all-contains xs ys (name ∷ names) e = cc (e name, all-contains xs ys names e)

-- A verdict that is not an invalid binding comes after the checks.
pub accepted :
    (reason : Option Reason) (next : Result Verdict) (v : Verdict)
    → (v.outcome ≡ Match.invalid_binding → ⊥)
    → (elim reason [ some bad ↦ ok (rejected bad) | none ↦ next ]) ≡ ok v
    → (reason ≡ none) × (next ≡ ok v)
unfolding rejected
accepted none next v valid h = (refl, h)
accepted (some bad) next v valid h =
    absurd (valid (sym (ap (λ (u : Verdict). u.outcome) (ok_injective h))))

sorted_same :
    {xs ys : List Json} → Permᴰ xs ys → distinct (ids xs) ≡ true → sort by_id xs ≡ sort by_id ys
unfolding by_id ids
sorted_same p d = sort-keys record_id p d

module _ (shown : Json → Text) (list_sha256 : List Text → Text) where
  match_references-Permᴰ :
      (item binding : Members) {xs ys : List Json}
      → Permᴰ xs ys
      → distinct (ids xs) ≡ true
      → match_references shown list_sha256 item binding xs
        ≡ match_references shown list_sha256 item binding ys
  unfolding match_references ids
  match_references-Permᴰ item binding {xs} {ys} p d = cc (
    all-contains (map record_id xs) (map record_id ys)
        (names (list_or_empty (get binding (codes "evidenceIds"))))
        (λ t. contains-Permᴰ t (map-Permᴰ record_id p)),
    sorted_same p d,
  )

  -- A verdict that is not an invalid binding.
  check_evidence-Permᴰ :
      (item binding : Members) {xs ys : List Json} (v : Verdict)
      → Permᴰ xs ys
      → (v.outcome ≡ Match.invalid_binding → ⊥)
      → check_evidence shown list_sha256 item binding xs ≡ ok v
      → check_evidence shown list_sha256 item binding ys ≡ ok v
  unfolding check_evidence
  check_evidence-Permᴰ item binding {xs} {ys} v p valid h =
      after_ok (evidence_reason [] xs) _ h (λ reason reason_e rest.
        let (none_e, matched) =
          accepted reason (match_references shown list_sha256 item binding xs) v valid rest in
        let xs_ok = reason_e ∙ ap ok none_e in
        let (d, _) = evidence_reason-IsNew [] xs xs_ok in
        rw (evidence_reason-Permᴰ p xs_ok)
          (sym (match_references-Permᴰ item binding p d) ∙ matched))

  pub identified :
      (same : Bool) (next : Result Verdict) (v : Verdict)
      → (v.outcome ≡ Match.invalid_binding → ⊥)
      → (if same then next else ok (rejected Reason.item_identity_conflict)) ≡ ok v
      → (same ≡ true) × (next ≡ ok v)
  unfolding rejected
  identified true next v valid h = (refl, h)
  identified false next v valid h =
      absurd (valid (sym (ap (λ (u : Verdict). u.outcome) (ok_injective h))))

  -- A verdict other than an invalid binding, fulfilled or pending, is given for the same evidence in
  -- any order, down to the selected evidence; so no order of the evidence turns a pending obligation
  -- into a fulfilled one.
  pub evaluate_reason-Permᴰ :
      (item_id binding : Json) (p q : Members) (xs ys : Items) (v : Verdict)
      → get p (codes "item") ≡ get q (codes "item")
      → get p (codes "evidence") ≡ array xs
      → get q (codes "evidence") ≡ array ys
      → Permᴰ (elements xs) (elements ys)
      → (v.outcome ≡ Match.invalid_binding → ⊥)
      → evaluate_reason shown list_sha256 item_id binding p ≡ ok v
      → evaluate_reason shown list_sha256 item_id binding q ≡ ok v
  unfolding evaluate_reason list_or_empty
  evaluate_reason-Permᴰ item_id binding p q xs ys v items_e xs_e ys_e perm valid h =
      after_ok (dict_or_empty (get p (codes "item"))) _ h (λ item item_e h₁.
        after_ok (dict_or_empty binding) _ h₁ (λ bound bound_e h₂.
          let (same, checked) =
            identified (same_identity item_id (get bound (codes "itemId")) (get item (codes "id")))
              _ v valid h₂ in
          let again = check_evidence-Permᴰ item bound v perm valid (
            subst
              (λ value. check_evidence shown list_sha256 item bound (list_or_empty value) ≡ ok v)
              xs_e checked) in
          rw (sym items_e, item_e, bound_e, same, ys_e) again))
