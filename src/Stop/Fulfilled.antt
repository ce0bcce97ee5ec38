-- ===== src/Stop/Fulfilled.antt =====
-- scripts/cg_stop3.py: what evaluate_reason vouches for when it calls an obligation fulfilled.
use mathlib.Core.List.{Memᴰ}
use codex_context_guard.Base.{
  ◌≡◌, refl, ap, sym, ◌∙◌, Bool, true, false, Option, none, some, List, [], ◌∷◌, map, Text, text_eq,
  ◌==◌, ==_iff, contains, all, after_ok, if◌then◌else◌, Result, ok, ok_injective, inl, inr,
  Bool-cases,
}
use codex_context_guard.Base.Json.{Json, Members, object, get, get_or, array, nil, is_text}
use codex_context_guard.Base.Sorting.{sort}
use codex_context_guard.Base.Texts.{codes, text_leb}
use codex_context_guard.Base.Texts.Distinct.{distinct}
use codex_context_guard.Stop.Records.{
  Reason, Verdict, Match, rejected, record_id, evidence_reason, references_reason,
  obligations_reason, names, list_or_empty, dict_or_empty, same_identity,
}
use codex_context_guard.Stop.Matcher.{
  successes, by_id, obligation_of, wanted_of, match_row, match_wanted, match_contract,
  check_contract, match_references, check_evidence, evaluate_reason,
}
use codex_context_guard.Stop.Order.{ids, accepted, identified, evidence_reason-IsNew}
use codex_context_guard.Stop.Cover.{Fulfils, match_obligation-Fulfils}
use codex_context_guard.Stop.Referred.{IsAllReferred, successes-IsAllReferred}

valid : (v : Verdict) → v.outcome ≡ Match.fulfilled → v.outcome ≡ Match.invalid_binding → ⊥
valid v f e = cc

obligation_of-row :
    (rows : List Json) (wanted : Text) (row : Members)
    → obligation_of rows wanted ≡ some row
    → Memᴰ (object row) rows × (record_id (object row) ≡ wanted)
unfolding obligation_of
obligation_of-row [] wanted row h = cc
obligation_of-row (object first ∷ rows) wanted row h =
    elim (Bool-cases (record_id (object first) == wanted)) [
      | inl here ↦
          let same : first ≡ row = cc (rw here at h) in
          (
            Memᴰ.head (ap object (sym same)),
            ap (λ r. record_id (object r)) (sym same)
                ∙ (==_iff (record_id (object first)) wanted).0 here,
          )
      | inr other ↦
          let (there, named) = obligation_of-row rows wanted row (rw other at h) in
          (Memᴰ.tail there, named)
    ]
obligation_of-row (_ ∷ rows) wanted row h =
    let (there, named) = obligation_of-row rows wanted row h in (Memᴰ.tail there, named)

module _ (shown : Json → Text) (list_sha256 : List Text → Text) where
  -- The obligation that a verdict on a contract is about.
  Meets : Json → Json → List Json → Verdict → Type 0
  Meets contract wanted_id successful v =
      (terms : Members) × (contract ≡ object terms)
      × (is_text (codes "enforced") (get terms (codes "mode")) ≡ true)
      × (row : Members) × Memᴰ (object row)
          (list_or_empty (get_or terms (codes "obligations") (array nil)))
      × (wanted_of shown list_sha256 wanted_id
            (list_or_empty (get_or terms (codes "obligations") (array nil)))
          ≡ some (record_id (object row)))
      × Fulfils shown list_sha256 row successful v.selected_evidence

  match_row-row :
      (wanted : Text) (o : Option Members) (successful : List Json) (v : Verdict)
      → match_row shown list_sha256 wanted o successful ≡ ok v
      → v.outcome ≡ Match.fulfilled
      → (row : Members) × (o ≡ some row)
        × Fulfils shown list_sha256 row successful v.selected_evidence
  unfolding match_row rejected
  match_row-row wanted none successful v h f =
      absurd (valid v f (sym (ap (λ (u : Verdict). u.outcome) (ok_injective h))))
  match_row-row wanted (some row) successful v h f =
      (row, refl, match_obligation-Fulfils shown list_sha256 row wanted successful v h f)

  match_wanted-row :
      (o : Option Text) (rows successful : List Json) (v : Verdict)
      → match_wanted shown list_sha256 o rows successful ≡ ok v
      → v.outcome ≡ Match.fulfilled
      → (row : Members) × Memᴰ (object row) rows
        × (o ≡ some (record_id (object row)))
        × Fulfils shown list_sha256 row successful v.selected_evidence
  unfolding match_wanted rejected
  match_wanted-row none rows successful v h f =
      absurd (valid v f (sym (ap (λ (u : Verdict). u.outcome) (ok_injective h))))
  match_wanted-row (some wanted) rows successful v h f =
      let (row, there, fulfils) =
        match_row-row wanted (obligation_of rows wanted) successful v h f in
      let (listed, named) = obligation_of-row rows wanted row there in
      (row, listed, ap some (sym named), fulfils)

  check_contract-Meets :
      (contract wanted_id : Json) (successful : List Json) (v : Verdict)
      → check_contract shown list_sha256 contract wanted_id successful ≡ ok v
      → v.outcome ≡ Match.fulfilled
      → Meets contract wanted_id successful v
  unfolding check_contract match_contract rejected Meets
  check_contract-Meets (object terms) wanted_id successful v h f =
      elim (Bool-cases (is_text (codes "enforced") (get terms (codes "mode")))) [
        | inr other ↦
            absurd
              (valid v f (sym (ap (λ (u : Verdict). u.outcome) (ok_injective (rw other at h)))))
        | inl enforced ↦
            let rows = list_or_empty (get_or terms (codes "obligations") (array nil)) in
            let (_, matched) =
              accepted (obligations_reason (get_or terms (codes "obligations") (array nil))) _ v
                (valid v f) (rw enforced at h) in
            let (row, listed, wanted, fulfils) =
              match_wanted-row (wanted_of shown list_sha256 wanted_id rows) rows successful v
                matched f in
            (terms, refl, enforced, row, listed, wanted, fulfils)
      ]
  check_contract-Meets _ wanted_id successful v h f =
      absurd (valid v f (sym (ap (λ (u : Verdict). u.outcome) (ok_injective h))))

  -- What a fulfilled verdict vouches for, with the successful evidence that the binding names.
  pub IsFulfilled : Members → Members → List Json → Verdict → Type 0
  IsFulfilled item bound evidence v =
      (successful : List Json) × IsAllReferred evidence
        (names (list_or_empty (get bound (codes "evidenceIds")))) successful
      × Meets (get item (codes "verification_contract")) (get bound (codes "obligationId"))
          successful v

  referenced :
      (known : Bool) (next : Result Verdict) (v : Verdict)
      → (v.outcome ≡ Match.invalid_binding → ⊥)
      → (if known then next else ok (rejected Reason.unknown_evidence_reference)) ≡ ok v
      → next ≡ ok v
  unfolding rejected
  referenced true next v fine h = h
  referenced false next v fine h =
      absurd (fine (sym (ap (λ (u : Verdict). u.outcome) (ok_injective h))))

  match_references-IsFulfilled :
      (item bound : Members) (evidence : List Json) (v : Verdict)
      → distinct (map record_id evidence) ≡ true
      → match_references shown list_sha256 item bound evidence ≡ ok v
      → v.outcome ≡ Match.fulfilled
      → IsFulfilled item bound evidence v
  unfolding match_references IsFulfilled
  match_references-IsFulfilled item bound evidence v d h f =
      let references = list_or_empty (get bound (codes "evidenceIds")) in
      let successful = successes (sort by_id evidence) (sort text_leb (names references)) in
      let (_, known) = accepted (references_reason [] references) _ v (valid v f) h in
      (
        successful,
        successes-IsAllReferred evidence (names references) d,
        check_contract-Meets (get item (codes "verification_contract"))
            (get bound (codes "obligationId")) successful v
            (referenced (all (contains (map record_id evidence)) (names references)) _ v (valid v f)
              known)
            f,
      )

  check_evidence-IsFulfilled :
      (item bound : Members) (evidence : List Json) (v : Verdict)
      → check_evidence shown list_sha256 item bound evidence ≡ ok v
      → v.outcome ≡ Match.fulfilled
      → IsFulfilled item bound evidence v
  unfolding check_evidence ids
  check_evidence-IsFulfilled item bound evidence v h f =
      after_ok (evidence_reason [] evidence) _ h (λ reason reason_e rest.
        let (none_e, matched) =
          accepted reason (match_references shown list_sha256 item bound evidence) v (valid v f)
            rest in
        let (d, _) = evidence_reason-IsNew [] evidence (reason_e ∙ ap ok none_e) in
        match_references-IsFulfilled item bound evidence v d matched f)

  -- An item is fulfilled only by the evidence of its projection that succeeded and that the binding
  -- names: all of that evidence and no other is looked at, for an obligation of the item's enforced
  -- contract, the one that the binding wants or the only one. Every subject that the obligation
  -- requires is then bound by exactly one such record among those that may cover it, and that record
  -- is selected; for a readback, a record that binds a subject beyond those required may not cover.
  -- For an obligation of scope, the required subjects are those observed, and their count and
  -- digest are those expected.
  pub evaluate_reason-IsFulfilled :
      (item_id binding : Json) (projection : Members) (v : Verdict)
      → evaluate_reason shown list_sha256 item_id binding projection ≡ ok v
      → v.outcome ≡ Match.fulfilled
      → (item : Members) × (bound : Members) × (dict_or_empty (get projection (codes "item"))
          ≡ ok item)
        × (dict_or_empty binding ≡ ok bound)
        × (same_identity item_id (get bound (codes "itemId")) (get item (codes "id")) ≡ true)
        × IsFulfilled item bound (list_or_empty (get projection (codes "evidence"))) v
  unfolding evaluate_reason
  evaluate_reason-IsFulfilled item_id binding projection v h f =
      after_ok (dict_or_empty (get projection (codes "item"))) _ h (λ item item_e h₁.
        after_ok (dict_or_empty binding) _ h₁ (λ bound bound_e h₂.
          let (same, checked) =
            identified shown list_sha256
              (same_identity item_id (get bound (codes "itemId")) (get item (codes "id"))) _ v
              (valid v f) h₂ in
          (
            item,
            bound,
            item_e,
            bound_e,
            same,
            check_evidence-IsFulfilled item bound
                (list_or_empty (get projection (codes "evidence"))) v checked f,
          )))
