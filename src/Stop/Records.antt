-- ===== src/Stop/Records.antt =====
-- scripts/cg_stop3.py: the reasons of the matcher, and the checks of the records that it reads.
use codex_context_guard.Base.{
  ◌&&◌, ◌||◌, Bool, true, false, not, Option, none, some, List, [], ◌∷◌, Text, text_eq, nat_eq,
  option_eq, ◌==◌, contains, ltb, leb, length, all, is_empty, if◌then◌else◌, Result, ok, raise,
  ◌>>=◌, attribute_error, type_error,
}
use codex_context_guard.Base.Decimal.{pos}
use codex_context_guard.Base.Json.{
  Json, null, integer, string, array, object, nil, Members, end, elements, get, truthy,
}
use codex_context_guard.Base.Texts.{codes}

-- `REASON_UNIQUE_DETERMINISTIC_EVIDENCE` and the others.
pub data Reason : Type 0 where
  unique_deterministic_evidence evidence_ambiguous subject_binding_missing : Reason
  contract_not_enforced obligation_required unknown_obligation item_identity_conflict : Reason
  empty_enforced_obligations unknown_obligation_kind illegal_obligation_surface : Reason
  malformed_subject_ids malformed_scope_expectation malformed_evidence_record : Reason
  evidence_identity_missing duplicate_evidence_identity duplicate_obligation_identity : Reason
  malformed_obligation_record unknown_evidence_reference : Reason

pub data Match : Type 0 where
  fulfilled pending invalid_binding : Match

pub record Verdict : Type 0 where
  pub outcome : Match
  pub reason_code : Reason
  pub obligation : Text
  pub selected_evidence : List Text

-- A rejection before any obligation is looked at.
unfoldable pub rejected : Reason → Verdict
rejected reason = record {
  outcome = invalid_binding;
  reason_code = reason;
  obligation = [];
  selected_evidence = [];
}

-- The first reason of two checks.
abbrev first_of : Option Reason → Option Reason → Option Reason
first_of (some reason) later = some reason
first_of none later = later

abbrev reason_if : Bool → Reason → Option Reason
reason_if bad reason = if bad then some reason else none

-- A non-empty string.
unfoldable pub name_of : Json → Option Text
name_of (string text) = if is_empty text then none else some text
name_of _ = none

-- The loop over the items; `seen` are those before.
unfoldable pub are_subjects : List Text → List Json → Bool
are_subjects seen [] = true
are_subjects seen (value ∷ values) = elim (name_of value) [
  | none ↦ false
  | some item ↦ not (contains seen item) && are_subjects (item ∷ seen) values
]

unfoldable pub subject_list_reason : Bool → Json → Option Reason
subject_list_reason allow_empty (array values) =
    let items = elements values in
    reason_if
      (ltb 10000 (length items) || not allow_empty && is_empty items || not (are_subjects [] items))
      malformed_subject_ids
subject_list_reason allow_empty _ = some malformed_subject_ids

-- `OBLIGATION_KIND_SURFACES`
unfoldable pub kind_surfaces : Text → Option (List Text)
kind_surfaces kind =
    if kind == codes "subject_readback"
    then some (codes "artifact" ∷ codes "ui" ∷ [])
    else if kind == codes "result_visual_readback"
    then some (codes "ui" ∷ [])
    else if kind == codes "input_asset_inspection"
    then some (codes "visual" ∷ [])
    else if kind == codes "scope_coverage"
    then some (codes "scope" ∷ [])
    else none

-- `SHA256_RE`
unfoldable pub is_sha256 : Text → Bool
is_sha256 text =
    length text == 64 && all (λ c. leb b'0' c && leb c b'9' || leb b'a' c && leb c b'f') text

unfoldable pub is_count : Json → Bool
is_count null = true
is_count (integer (pos n)) = ltb 0 n
is_count _ = false

unfoldable pub is_scope_digest : Json → Bool
is_scope_digest null = true
is_scope_digest (string text) = is_sha256 text
is_scope_digest _ = false

unfoldable pub scope_reason : Members → Option Reason
scope_reason row =
    reason_if
      (not (is_count (get row (codes "expected_scope_count")))
        || not (is_scope_digest (get row (codes "expected_scope_sha256"))))
      malformed_scope_expectation

-- What follows the kind of an obligation, given the surfaces of the kind.
unfoldable pub surface_reason : Members → Text → List Text → Option Reason
surface_reason row kind surfaces = elim (get row (codes "surface")) [
  | string surface ↦
      if contains surfaces surface
      then first_of
          (subject_list_reason (kind == codes "scope_coverage") (get row (codes "subject_ids")))
          (if kind == codes "scope_coverage" then scope_reason row else none)
      else some illegal_obligation_surface
  | _ ↦ some illegal_obligation_surface
]

unfoldable pub kind_reason : Members → Option Reason
kind_reason row = elim (get row (codes "kind")) [
  | string kind ↦ elim (kind_surfaces kind) [
    | none ↦ some unknown_obligation_kind
    | some surfaces ↦ surface_reason row kind surfaces
  ]
  | _ ↦ some unknown_obligation_kind
]

unfoldable pub obligation_record_reason : Json → Option Reason
obligation_record_reason (object row) = elim (name_of (get row (codes "id"))) [
  | none ↦ some malformed_obligation_record
  | some id ↦ kind_reason row
]
obligation_record_reason _ = some malformed_obligation_record

-- The id of a record that has one.
unfoldable pub record_id : Json → Text
record_id (object row) = elim (get row (codes "id")) [ string id ↦ id | _ ↦ [] ]
record_id _ = []

-- The loop over the obligations; `seen` are the ids before.
unfoldable pub obligations_from : List Text → List Json → Option Reason
obligations_from seen [] = none
obligations_from seen (row ∷ rows) = first_of (obligation_record_reason row) (
    first_of (reason_if (contains seen (record_id row)) duplicate_obligation_identity)
      (obligations_from (record_id row ∷ seen) rows))

unfoldable pub obligations_reason : Json → Option Reason
obligations_reason (array nil) = some empty_enforced_obligations
obligations_reason (array rows) = obligations_from [] (elements rows)
obligations_reason _ = some empty_enforced_obligations

-- `entry.get("outcome") not in EVIDENCE_OUTCOMES`, a set, which raises on what cannot be hashed.
unfoldable pub is_outcome : Json → Result Bool
is_outcome (string text) =
    ok (contains (codes "success" ∷ codes "failed" ∷ codes "unknown" ∷ []) text)
is_outcome (array _) = raise type_error
is_outcome (object _) = raise type_error
is_outcome _ = ok false

-- A list of subjects of an event, or null.
unfoldable pub is_subject_field : Json → Bool
is_subject_field null = true
is_subject_field value = elim (subject_list_reason true value) [ none ↦ true | some reason ↦ false ]

unfoldable pub evidence_record_reason : Json → Result (Option Reason)
evidence_record_reason (object entry) = elim (name_of (get entry (codes "id"))) [
  | none ↦ ok (some evidence_identity_missing)
  | some id ↦ is_outcome (get entry (codes "outcome")) >>= λ known. ok (
      reason_if
        (not known
          || not (is_subject_field (get entry (codes "subject_ids")))
          || not (is_subject_field (get entry (codes "readback_subjects"))))
        malformed_evidence_record)
]
evidence_record_reason _ = ok (some malformed_evidence_record)

-- The loop over the raw evidence; `seen` are the ids before.
unfoldable pub evidence_reason : List Text → List Json → Result (Option Reason)
evidence_reason seen [] = ok none
evidence_reason seen (entry ∷ entries) =
    if is_empty (record_id entry)
    then ok (some evidence_identity_missing)
    else if contains seen (record_id entry)
    then ok (some duplicate_evidence_identity)
    else evidence_record_reason entry >>= λ reason. elim reason [
      | some bad ↦ ok (some bad)
      | none ↦ evidence_reason (record_id entry ∷ seen) entries
    ]

-- The loop over the ids that a binding refers to.
unfoldable pub references_reason : List Text → List Json → Option Reason
references_reason seen [] = none
references_reason seen (value ∷ values) = elim (name_of value) [
  | none ↦ some evidence_identity_missing
  | some id ↦
      first_of (reason_if (contains seen id) duplicate_evidence_identity)
        (references_reason (id ∷ seen) values)
]

-- The strings of a list.
unfoldable pub names : List Json → List Text
names [] = []
names (string text ∷ values) = text ∷ names values
names (_ ∷ values) = names values

-- A list, or nothing where there is none.
unfoldable pub list_or_empty : Json → List Json
list_or_empty (array values) = elements values
list_or_empty _ = []

-- `value or {}`, whose method `get` is called.
unfoldable pub dict_or_empty : Json → Result Members
dict_or_empty (object row) = ok row
dict_or_empty value = if truthy value then raise attribute_error else ok end

unfoldable pub same_identity : Json → Json → Json → Bool
same_identity (string a) (string b) (string c) = not (is_empty a) && a == b && a == c
same_identity _ _ _ = false
