-- ===== src/Stop/Matcher.antt =====
-- scripts/cg_stop3.py: the matcher of obligations and evidence, evaluate_reason.
use codex_context_guard.Base.{
  ◌&&◌, Bool, false, Option, none, some, List, [], ◌∷◌, map, Text, text_eq, nat_eq, option_eq, ◌==◌,
  contains, length, all, any, raise_if, unicode_encode_error, if◌then◌else◌, Result, ok, ◌>>=◌,
}
use codex_context_guard.Base.Decimal.{pos}
use codex_context_guard.Base.Json.{
  Json, null, integer, array, object, nil, Members, get, get_or, is_text, text_of,
}
use codex_context_guard.Base.Sorting.{sort}
use codex_context_guard.Base.Texts.{codes, text_leb, sorted_set, is_surrogate}
use codex_context_guard.Stop.Records.{
  Reason.subject_binding_missing, Reason.contract_not_enforced, Reason.obligation_required,
  Reason.unknown_obligation, Reason.item_identity_conflict, Reason.unknown_evidence_reference,
  Verdict, rejected, record_id, obligations_reason, evidence_reason, references_reason, names,
  list_or_empty, dict_or_empty, same_identity,
}
use codex_context_guard.Stop.Candidates.{
  candidates_of, unique_candidate_cover, subjects_of, verdict_of,
}

unfoldable pub is_success : Json → Bool
is_success (object entry) = is_text (codes "success") (get entry (codes "outcome"))
is_success _ = false

-- `by_id[id]`, of evidence with distinct ids.
unfoldable pub evidence_of : List Json → Text → Option Json
evidence_of [] id = none
evidence_of (entry ∷ entries) id =
    let later = evidence_of entries id in if record_id entry == id then some entry else later

-- A record before others, where it is there and succeeded.
unfoldable pub add_success : Option Json → List Json → List Json
add_success none rest = rest
add_success (some entry) rest = if is_success entry then entry ∷ rest else rest

-- The successful evidence that a binding refers to, in the order of the ids.
unfoldable pub successes : List Json → List Text → List Json
successes evidence [] = []
successes evidence (id ∷ ids) = add_success (evidence_of evidence id) (successes evidence ids)

unfoldable pub obligation_of : List Json → Text → Option Members
obligation_of [] wanted = none
obligation_of (object row ∷ rows) wanted =
    let later = obligation_of rows wanted in
    if record_id (object row) == wanted then some row else later
obligation_of (_ ∷ rows) wanted = obligation_of rows wanted

-- Which of the fields of the evidence a kind of obligation reads.
unfoldable pub binding_field : Json → Json → Text
binding_field kind surface =
    if is_text (codes "subject_readback") kind && is_text (codes "artifact") surface
    then codes "readback_subjects"
    else codes "subject_ids"

unfoldable pub by_id : Json → Json → Bool
by_id a b = text_leb (record_id a) (record_id b)

unfoldable pub is_expected : Members → List Text → Text → Bool
is_expected row observed digest = elim (get row (codes "expected_scope_count")) [
  | integer (pos count) ↦
      length observed == count && is_text digest (get row (codes "expected_scope_sha256"))
  | _ ↦ false
]

-- The subjects that an obligation names.
unfoldable pub required_of : Members → List Text
required_of row = sorted_set (names (list_or_empty (get row (codes "subject_ids"))))

-- `str` of what is neither a string nor an integer, and the SHA-256 of the canonical JSON of a list.
module _ (shown : Json → Text) (list_sha256 : List Text → Text) where
  -- The obligation that a binding wants: by its id, or the only one.
  unfoldable pub wanted_of : Json → List Json → Option Text
  wanted_of null (row ∷ []) = some (record_id row)
  wanted_of null _ = none
  wanted_of value rows = some (text_of shown value)

  unfoldable pub match_obligation : Members → Text → List Json → Result Verdict
  match_obligation row wanted successful =
      if is_text (codes "scope_coverage") (get row (codes "kind"))
      then (candidates_of (codes "subject_ids") successful >>= λ candidates.
          let observed = sorted_set (subjects_of candidates) in
          raise_if (any (any is_surrogate) observed) unicode_encode_error >>= λ encoded.
          if is_expected row observed (list_sha256 observed)
          then (unique_candidate_cover successful observed (codes "subject_ids") >>= λ cover.
              ok (verdict_of wanted cover))
          else ok (verdict_of wanted ([], subject_binding_missing)))
      else (unique_candidate_cover successful (required_of row)
            (binding_field (get row (codes "kind")) (get row (codes "surface")))
          >>= λ cover. ok (verdict_of wanted cover))

  unfoldable pub match_row : Text → Option Members → List Json → Result Verdict
  match_row wanted none successful =
      ok (record (rejected unknown_obligation) { obligation = wanted })
  match_row wanted (some row) successful = match_obligation row wanted successful

  unfoldable pub match_wanted : Option Text → List Json → List Json → Result Verdict
  match_wanted none rows successful = ok (rejected obligation_required)
  match_wanted (some wanted) rows successful =
      match_row wanted (obligation_of rows wanted) successful

  -- What follows the integrity of the contract.
  unfoldable pub match_contract : Json → List Json → List Json → Result Verdict
  match_contract wanted_id rows successful = match_wanted (wanted_of wanted_id rows) rows successful

  unfoldable pub check_contract : Json → Json → List Json → Result Verdict
  check_contract (object row) wanted_id successful =
      if is_text (codes "enforced") (get row (codes "mode"))
      then elim (obligations_reason (get_or row (codes "obligations") (array nil))) [
        | some reason ↦ ok (rejected reason)
        | none ↦
            match_contract wanted_id (list_or_empty (get_or row (codes "obligations") (array nil)))
              successful
      ]
      else ok (rejected contract_not_enforced)
  check_contract _ wanted_id successful = ok (rejected contract_not_enforced)

  -- What follows the integrity of the evidence.
  unfoldable pub match_references : Members → Members → List Json → Result Verdict
  match_references item binding evidence =
      let references = list_or_empty (get binding (codes "evidenceIds")) in
      elim (references_reason [] references) [
        | some reason ↦ ok (rejected reason)
        | none ↦
            if all (contains (map record_id evidence)) (names references)
            then check_contract (get item (codes "verification_contract"))
                (get binding (codes "obligationId"))
                (successes (sort by_id evidence) (sort text_leb (names references)))
            else ok (rejected unknown_evidence_reference)
      ]

  unfoldable pub check_evidence : Members → Members → List Json → Result Verdict
  check_evidence item binding evidence = do
    reason ← evidence_reason [] evidence
    elim reason [ some bad ↦ ok (rejected bad) | none ↦ match_references item binding evidence ]

  unfoldable pub evaluate_reason : Json → Json → Members → Result Verdict
  evaluate_reason item_id binding projection = do
    item ← dict_or_empty (get projection (codes "item"))
    bound ← dict_or_empty binding
    (if same_identity item_id (get bound (codes "itemId")) (get item (codes "id"))
        then check_evidence item bound (list_or_empty (get projection (codes "evidence")))
        else ok (rejected item_identity_conflict))
