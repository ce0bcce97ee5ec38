-- ===== src/Stop/Candidates.antt =====
-- scripts/cg_stop3.py: `_unique_candidate_cover`, and the verdict that a cover gives.
use codex_context_guard.Base.{
  List, [], ◌∷◌, ◌++◌, map, Text, text_eq, nat_eq, option_eq, ◌==◌, contains, all, keep,
  if◌then◌else◌, Result, ok, raise, ◌>>=◌, attribute_error, type_error,
}
use codex_context_guard.Base.Json.{Json, array, object, nil, elements, get_or}
use codex_context_guard.Base.Sorting.{sort}
use codex_context_guard.Base.Texts.{codes, text_leb}
use codex_context_guard.Stop.Records.{
  Reason, Reason.unique_deterministic_evidence, Reason.evidence_ambiguous,
  Reason.subject_binding_missing, Verdict, Match.fulfilled, Match.pending, record_id, names,
}

-- `{str(item) for item in entry.get(field, [])}`, of a field that is a list of strings or null.
unfoldable pub field_subjects : Text → Json → Result (List Text)
field_subjects field (object entry) = elim (get_or entry field (array nil)) [
  | array values ↦ ok (names (elements values))
  | _ ↦ raise type_error
]
field_subjects field _ = raise attribute_error

-- A record with its subjects.
abbrev pub Candidate : Type 0
Candidate = Text × List Text

unfoldable pub candidates_of : Text → List Json → Result (List Candidate)
candidates_of field [] = ok []
candidates_of field (entry ∷ entries) = do
  subjects ← field_subjects field entry
  rest ← candidates_of field entries
  ok ((record_id entry, subjects) ∷ rest)

-- The records that cover a subject.
unfoldable pub covering : List Candidate → Text → List Text
covering candidates subject = map (λ c. c.0) (keep (λ c. contains c.1 subject) candidates)

-- What a subject does to the cover, by the records that cover it.
abbrev pub cover_by : List Text → (Text → List Text × Reason) → List Text × Reason
cover_by [] next = ([], subject_binding_missing)
cover_by (id ∷ []) next = next id
cover_by (id ∷ other ∷ ids) next = ([], evidence_ambiguous)

-- The loop over the required subjects; `chosen` are the records so far.
unfoldable pub cover_from : List Candidate → List Text → List Text → List Text × Reason
cover_from candidates chosen [] = (sort text_leb chosen, unique_deterministic_evidence)
cover_from candidates chosen (subject ∷ required) =
    cover_by (covering candidates subject)
      (λ id. cover_from candidates (if contains chosen id then chosen else id ∷ chosen) required)

-- `_unique_candidate_cover`: for the readback field, records that bind more than is required are
-- passed over.
unfoldable pub unique_candidate_cover : List Json → List Text → Text → Result (List Text × Reason)
unique_candidate_cover entries required field = do
  candidates ← candidates_of field entries
  ok (
      cover_from
        (if field == codes "subject_ids"
          then candidates
          else keep (λ c. all (contains required) c.1) candidates)
        [] required)

-- The subjects of some records.
unfoldable pub subjects_of : List Candidate → List Text
subjects_of [] = []
subjects_of (candidate ∷ candidates) = candidate.1 ++ subjects_of candidates

-- The verdict that a cover gives.
unfoldable pub verdict_of : Text → List Text × Reason → Verdict
verdict_of wanted (selected, reason) = record {
  outcome = elim reason [ unique_deterministic_evidence ↦ fulfilled | _ ↦ pending ];
  reason_code = reason;
  obligation = wanted;
  selected_evidence = selected;
}
