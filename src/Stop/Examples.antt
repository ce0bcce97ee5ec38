-- ===== src/Stop/Examples.antt =====
-- An obligation to read a document back, with its evidence.
use codex_context_guard.Base.{
  ℕ, ◌≡◌, ◌≤◌, refl, ◌⊎◌, true, false, none, some, length, ◌<◌, List, [], ◌∷◌, ◌++◌, Text, text_eq,
  nat_eq, option_eq, list_dec, ok, raise, type_error, unicode_encode_error,
}
use Prim.Native.String.{String}
use mathlib.Core.List.{Permᴰ}
use codex_context_guard.Base.Json.{
  Json, null, boolean, integer, string, array, object, Items, nil, cons, Members, end, member,
  elements, entries, keys, find, get_or, get, truthy, is_text, put, set_default, remove, text_of,
}
use codex_context_guard.Base.Texts.{
  codes, starts_with, byte_width, byte_length, decode_prefix, encode_char, encode, lstrip, rstrip,
  strip, is_space, split, join, text_leb, decode_suffix, decode_slice, ends_with, drop_last, unique,
  sorted_set, is_surrogate,
}
use codex_context_guard.Base.Decimal.{pos, digits, int_eq, decimal}
use codex_context_guard.Base.Sorting.{insert, sort}
use codex_context_guard.Stop.{
  Ending, resolve_waiting_owner, budget_allows, persists, plan_waiting_outcome,
}
use codex_context_guard.Stop.Records.{
  Verdict, Match, Reason, rejected, name_of, are_subjects, subject_list_reason, kind_surfaces,
  is_sha256, is_count, is_scope_digest, scope_reason, surface_reason, kind_reason,
  obligation_record_reason, record_id, obligations_from, obligations_reason, is_outcome,
  is_subject_field, evidence_record_reason, evidence_reason, references_reason, names,
  list_or_empty, dict_or_empty, same_identity,
}
use codex_context_guard.Stop.Candidates.{
  field_subjects, candidates_of, covering, cover_from, unique_candidate_cover, subjects_of,
  verdict_of,
}
use codex_context_guard.Stop.Matcher.{
  is_success, evidence_of, add_success, successes, obligation_of, binding_field, by_id, is_expected,
  required_of, wanted_of, match_obligation, match_row, match_wanted, match_contract, check_contract,
  match_references, check_evidence, evaluate_reason,
}
use codex_context_guard.Stop.Adapters.{
  Identity, tool_name, tools_of, canonical_tools, first_adapter, after_last, last_part,
  is_tool_letter, short_part, not_empty, short_after, groups, parse_tool, is_plain, squash,
  bare_name, unregistered_name, trusts_short, resolve_tool, resolve_bare, resolve_unlisted,
  lists_tool, resolve_lowered, adapter_identity, identity_binds_readback,
}
use codex_context_guard.Stop.Units.{
  Migration, text_or, seq_of, status_of, normal_record, row_of, normalize, has_status, text_at,
  known_active, is_left, retire, is_waiting, int_leb, int_same, add_seq, seqs, top_from, unique_top,
  unique_max, is_int, is_latest, mark, reopened, settle_units, migrate_work_units_to_schema10,
}
use codex_context_guard.Stop.Feedback.{
  words_from, truncate, max, item_count, unit_text, feedback_text, reason_room, step_room, room_of,
  fitted, bounded_stop_feedback,
}
use codex_context_guard.Stop.Order.{evaluate_reason-Permᴰ}
use codex_context_guard.Stop.Fulfilled.{IsFulfilled, evaluate_reason-IsFulfilled}
use codex_context_guard.Stop.Latest.{ids}
use codex_context_guard.Stop.Resume.{IsSettled, migrate_work_units_to_schema10-IsSettled}
use codex_context_guard.Stop.Lengths.{IsWhole, length-bounded_stop_feedback}
use codex_context_guard.Stop.Registered.{IsRegistered, adapter_identity-IsRegistered}

abbrev str : String → Json
str s = string (codes s)

abbrev num : ℕ → Json
num n = integer (pos n)

abbrev evidence : String → String → Json → Json
evidence id outcome subjects = object (
    member (codes "id") (str id)
      (member (codes "outcome") (str outcome) (member (codes "readback_subjects") subjects end)))

abbrev read_document : Json
read_document = evidence "e1" "success" (array (cons (str "README.md") nil))

abbrev other : Json
other = evidence "e0" "failed" (array nil)

abbrev obligation : Members
obligation = member (codes "id") (str "o1") (
    member (codes "kind") (str "subject_readback") (
      member (codes "surface") (str "artifact")
        (member (codes "subject_ids") (array (cons (str "README.md") nil)) end)))

abbrev contract : Json
contract = object (
    member (codes "mode") (str "enforced")
      (member (codes "obligations") (array (cons (object obligation) nil)) end))

abbrev projection : Items → Members
projection entries =
    member (codes "item")
      (object
        (member (codes "id") (str "i1") (member (codes "verification_contract") contract end)))
      (member (codes "evidence") (array entries) end)

abbrev bound : Json
bound = object (
    member (codes "itemId") (str "i1")
      (member (codes "evidenceIds") (array (cons (str "e1") (cons (str "e0") nil))) end))

abbrev shown : Json → Text
shown value = []

abbrev hash : List Text → Text
hash texts = []

abbrev done : Verdict
done = record {
  outcome = Match.fulfilled;
  reason_code = Reason.unique_deterministic_evidence;
  obligation = codes "o1";
  selected_evidence = codes "e1" ∷ [];
}

-- Two defects: the first in the order of the evidence is the one that is reported.
abbrev nameless : Json
nameless = object end

abbrev unheard : Json
unheard = evidence "e2" "maybe" (array nil)

runs :
    (evaluate_reason shown hash (str "i1") bound (projection (cons read_document (cons other nil)))
      ≡ ok done)
    × (evaluate_reason shown hash (str "i1") bound (projection (cons nameless (cons unheard nil)))
        ≡ ok (rejected Reason.evidence_identity_missing))
    × (evaluate_reason shown hash (str "i1") bound (projection (cons unheard (cons nameless nil)))
        ≡ ok (rejected Reason.malformed_evidence_record))
    × (evaluate_reason shown hash
          (str "i1")
          bound
          (projection (cons read_document (cons (evidence "e0" "success" null) nil)))
        ≡ raise type_error)
    × (evaluate_reason shown hash (str "i2") bound (projection nil)
        ≡ ok (rejected Reason.item_identity_conflict))
    × (bounded_stop_feedback (pos 1) (codes "proof is  pending") (codes "read it back")
        ≡ codes
            "Context Guard: current work unit (1 unverified item): proof is pending. Next: read it back.")
unfolding text_eq option_eq nat_eq list_dec elements entries keys find get_or get truthy is_text put
    set_default remove text_of starts_with byte_width byte_length decode_prefix encode_char encode
    lstrip rstrip strip is_space split join text_leb decode_suffix decode_slice ends_with drop_last
    unique sorted_set is_surrogate digits int_eq decimal insert sort resolve_waiting_owner
    budget_allows persists plan_waiting_outcome rejected name_of are_subjects subject_list_reason
    kind_surfaces is_sha256 is_count is_scope_digest scope_reason surface_reason kind_reason
    obligation_record_reason record_id obligations_from obligations_reason is_outcome
    is_subject_field evidence_record_reason evidence_reason references_reason names list_or_empty
    dict_or_empty same_identity field_subjects candidates_of covering cover_from
    unique_candidate_cover subjects_of verdict_of is_success evidence_of add_success successes
    obligation_of binding_field by_id is_expected required_of wanted_of match_obligation match_row
    match_wanted match_contract check_contract match_references check_evidence evaluate_reason
    tool_name tools_of canonical_tools first_adapter after_last last_part is_tool_letter short_part
    not_empty short_after groups parse_tool is_plain squash bare_name unregistered_name trusts_short
    resolve_tool resolve_bare resolve_unlisted lists_tool resolve_lowered adapter_identity
    identity_binds_readback text_or seq_of status_of normal_record row_of normalize has_status
    text_at known_active is_left retire is_waiting int_leb int_same add_seq seqs top_from unique_top
    unique_max is_int is_latest mark reopened settle_units migrate_work_units_to_schema10 words_from
    truncate max item_count unit_text feedback_text reason_room step_room room_of fitted
    bounded_stop_feedback
runs = (refl, refl, refl, refl, refl, refl)

fulfilled-ne : Match.fulfilled ≡ Match.invalid_binding → ⊥
fulfilled-ne e = cc

item_same :
    get (projection (cons read_document (cons other nil))) (codes "item")
    ≡ get (projection (cons other (cons read_document nil))) (codes "item")
unfolding text_eq option_eq nat_eq list_dec elements entries keys find get_or get truthy is_text put
    set_default remove text_of starts_with byte_width byte_length decode_prefix encode_char encode
    lstrip rstrip strip is_space split join text_leb decode_suffix decode_slice ends_with drop_last
    unique sorted_set is_surrogate digits int_eq decimal insert sort resolve_waiting_owner
    budget_allows persists plan_waiting_outcome rejected name_of are_subjects subject_list_reason
    kind_surfaces is_sha256 is_count is_scope_digest scope_reason surface_reason kind_reason
    obligation_record_reason record_id obligations_from obligations_reason is_outcome
    is_subject_field evidence_record_reason evidence_reason references_reason names list_or_empty
    dict_or_empty same_identity field_subjects candidates_of covering cover_from
    unique_candidate_cover subjects_of verdict_of is_success evidence_of add_success successes
    obligation_of binding_field by_id is_expected required_of wanted_of match_obligation match_row
    match_wanted match_contract check_contract match_references check_evidence evaluate_reason
    tool_name tools_of canonical_tools first_adapter after_last last_part is_tool_letter short_part
    not_empty short_after groups parse_tool is_plain squash bare_name unregistered_name trusts_short
    resolve_tool resolve_bare resolve_unlisted lists_tool resolve_lowered adapter_identity
    identity_binds_readback text_or seq_of status_of normal_record row_of normalize has_status
    text_at known_active is_left retire is_waiting int_leb int_same add_seq seqs top_from unique_top
    unique_max is_int is_latest mark reopened settle_units migrate_work_units_to_schema10 words_from
    truncate max item_count unit_text feedback_text reason_room step_room room_of fitted
    bounded_stop_feedback
item_same = refl

evidence_there : (entries : Items) → get (projection entries) (codes "evidence") ≡ array entries
unfolding text_eq option_eq nat_eq list_dec elements entries keys find get_or get truthy is_text put
    set_default remove text_of starts_with byte_width byte_length decode_prefix encode_char encode
    lstrip rstrip strip is_space split join text_leb decode_suffix decode_slice ends_with drop_last
    unique sorted_set is_surrogate digits int_eq decimal insert sort resolve_waiting_owner
    budget_allows persists plan_waiting_outcome rejected name_of are_subjects subject_list_reason
    kind_surfaces is_sha256 is_count is_scope_digest scope_reason surface_reason kind_reason
    obligation_record_reason record_id obligations_from obligations_reason is_outcome
    is_subject_field evidence_record_reason evidence_reason references_reason names list_or_empty
    dict_or_empty same_identity field_subjects candidates_of covering cover_from
    unique_candidate_cover subjects_of verdict_of is_success evidence_of add_success successes
    obligation_of binding_field by_id is_expected required_of wanted_of match_obligation match_row
    match_wanted match_contract check_contract match_references check_evidence evaluate_reason
    tool_name tools_of canonical_tools first_adapter after_last last_part is_tool_letter short_part
    not_empty short_after groups parse_tool is_plain squash bare_name unregistered_name trusts_short
    resolve_tool resolve_bare resolve_unlisted lists_tool resolve_lowered adapter_identity
    identity_binds_readback text_or seq_of status_of normal_record row_of normalize has_status
    text_at known_active is_left retire is_waiting int_leb int_same add_seq seqs top_from unique_top
    unique_max is_int is_latest mark reopened settle_units migrate_work_units_to_schema10 words_from
    truncate max item_count unit_text feedback_text reason_room step_room room_of fitted
    bounded_stop_feedback
evidence_there entries = refl

swapped :
    Permᴰ
      (elements (cons read_document (cons other nil)))
      (elements (cons other (cons read_document nil)))
unfolding elements
swapped = Permᴰ.swap refl refl

evaluate_reason-Permᴰ_example :
    evaluate_reason shown hash (str "i1") bound (projection (cons other (cons read_document nil)))
    ≡ ok done
evaluate_reason-Permᴰ_example =
    evaluate_reason-Permᴰ shown hash (str "i1") bound
      (projection (cons read_document (cons other nil)))
      (projection (cons other (cons read_document nil))) (cons read_document (cons other nil))
      (cons other (cons read_document nil)) done item_same
      (evidence_there (cons read_document (cons other nil)))
      (evidence_there (cons other (cons read_document nil))) swapped fulfilled-ne runs.0

evaluate_reason-IsFulfilled_example :
    (item : Members) × (bound_row : Members) × (dict_or_empty
        (get (projection (cons read_document (cons other nil))) (codes "item"))
      ≡ ok item)
    × (dict_or_empty bound ≡ ok bound_row)
    × (same_identity (str "i1") (get bound_row (codes "itemId")) (get item (codes "id")) ≡ true)
    × IsFulfilled shown hash item bound_row
        (list_or_empty (get (projection (cons read_document (cons other nil))) (codes "evidence")))
        done
evaluate_reason-IsFulfilled_example =
    evaluate_reason-IsFulfilled shown hash (str "i1") bound
      (projection (cons read_document (cons other nil))) done runs.0 refl

-- The subjects of a scope cannot be hashed where one has a surrogate.
abbrev scope : Members
scope = member (codes "kind") (str "scope_coverage") end

unhashable :
    match_obligation shown hash scope
      (codes "o1")
      (object (member (codes "subject_ids") (array (cons (string (55296 ∷ [])) nil)) end) ∷ [])
    ≡ raise unicode_encode_error
unfolding text_eq option_eq nat_eq list_dec elements entries keys find get_or get truthy is_text put
    set_default remove text_of starts_with byte_width byte_length decode_prefix encode_char encode
    lstrip rstrip strip is_space split join text_leb decode_suffix decode_slice ends_with drop_last
    unique sorted_set is_surrogate digits int_eq decimal insert sort resolve_waiting_owner
    budget_allows persists plan_waiting_outcome rejected name_of are_subjects subject_list_reason
    kind_surfaces is_sha256 is_count is_scope_digest scope_reason surface_reason kind_reason
    obligation_record_reason record_id obligations_from obligations_reason is_outcome
    is_subject_field evidence_record_reason evidence_reason references_reason names list_or_empty
    dict_or_empty same_identity field_subjects candidates_of covering cover_from
    unique_candidate_cover subjects_of verdict_of is_success evidence_of add_success successes
    obligation_of binding_field by_id is_expected required_of wanted_of match_obligation match_row
    match_wanted match_contract check_contract match_references check_evidence evaluate_reason
    tool_name tools_of canonical_tools first_adapter after_last last_part is_tool_letter short_part
    not_empty short_after groups parse_tool is_plain squash bare_name unregistered_name trusts_short
    resolve_tool resolve_bare resolve_unlisted lists_tool resolve_lowered adapter_identity
    identity_binds_readback text_or seq_of status_of normal_record row_of normalize has_status
    text_at known_active is_left retire is_waiting int_leb int_same add_seq seqs top_from unique_top
    unique_max is_int is_latest mark reopened settle_units migrate_work_units_to_schema10 words_from
    truncate max item_count unit_text feedback_text reason_room step_room room_of fitted
    bounded_stop_feedback
unhashable = refl

-- A turn with work for the assistant that the user wants done.
abbrev pressing : Members
pressing =
    member (codes "authorized_assistant_actions_available") (boolean true)
      (member (codes "explicit_persistence") (boolean true) end)

corrected : plan_waiting_outcome pressing (pos 1) ≡ Ending.single_bounded_correction
unfolding text_eq option_eq nat_eq list_dec elements entries keys find get_or get truthy is_text put
    set_default remove text_of starts_with byte_width byte_length decode_prefix encode_char encode
    lstrip rstrip strip is_space split join text_leb decode_suffix decode_slice ends_with drop_last
    unique sorted_set is_surrogate digits int_eq decimal insert sort resolve_waiting_owner
    budget_allows persists plan_waiting_outcome rejected name_of are_subjects subject_list_reason
    kind_surfaces is_sha256 is_count is_scope_digest scope_reason surface_reason kind_reason
    obligation_record_reason record_id obligations_from obligations_reason is_outcome
    is_subject_field evidence_record_reason evidence_reason references_reason names list_or_empty
    dict_or_empty same_identity field_subjects candidates_of covering cover_from
    unique_candidate_cover subjects_of verdict_of is_success evidence_of add_success successes
    obligation_of binding_field by_id is_expected required_of wanted_of match_obligation match_row
    match_wanted match_contract check_contract match_references check_evidence evaluate_reason
    tool_name tools_of canonical_tools first_adapter after_last last_part is_tool_letter short_part
    not_empty short_after groups parse_tool is_plain squash bare_name unregistered_name trusts_short
    resolve_tool resolve_bare resolve_unlisted lists_tool resolve_lowered adapter_identity
    identity_binds_readback text_or seq_of status_of normal_record row_of normalize has_status
    text_at known_active is_left retire is_waiting int_leb int_same add_seq seqs top_from unique_top
    unique_max is_int is_latest mark reopened settle_units migrate_work_units_to_schema10 words_from
    truncate max item_count unit_text feedback_text reason_room step_room room_of fitted
    bounded_stop_feedback
corrected = refl

abbrev work : String → String → Json → Json
work id status seq = object (
    member (codes "id") (str id)
      (member (codes "status") (str status) (member (codes "last_active_seq") seq end)))

abbrev ledger : List Json
ledger =
    work "u1" "active" null
    ∷ work "u2" "active" null
    ∷ work "u3" "awaiting_user" (num 3)
    ∷ work "u4" "awaiting_external" (num 7)
    ∷ work "" "active" null
    ∷ work "u5" "passed" null
    ∷ []

-- The other waiting unit has no number.
abbrev unnumbered : List Json
unnumbered = work "u3" "awaiting_user" (num 3) ∷ work "u4" "awaiting_external" null ∷ []

abbrev migrated : List Json → Migration
migrated raws =
    migrate_work_units_to_schema10 shown (codes "now") (codes "scope") raws (some (codes "u2"))

migrations :
    (ids (migrated ledger).units
      ≡ codes "u1" ∷ codes "u2" ∷ codes "u3" ∷ codes "u4" ∷ codes "u5" ∷ [])
    × ((migrated ledger).active_id ≡ some (codes "u2"))
    × ((migrated ledger).historical_unresolved ≡ codes "u1" ∷ [])
    × ((migrated ledger).resume_reopen ≡ some (codes "u4"))
    × ((migrated ledger).resume_requires_selection ≡ false)
    × ((migrated unnumbered).resume_reopen ≡ none)
    × ((migrated unnumbered).resume_requires_selection ≡ true)
unfolding text_eq option_eq nat_eq list_dec elements entries keys find get_or get truthy is_text put
    set_default remove text_of starts_with byte_width byte_length decode_prefix encode_char encode
    lstrip rstrip strip is_space split join text_leb decode_suffix decode_slice ends_with drop_last
    unique sorted_set is_surrogate digits int_eq decimal insert sort resolve_waiting_owner
    budget_allows persists plan_waiting_outcome rejected name_of are_subjects subject_list_reason
    kind_surfaces is_sha256 is_count is_scope_digest scope_reason surface_reason kind_reason
    obligation_record_reason record_id obligations_from obligations_reason is_outcome
    is_subject_field evidence_record_reason evidence_reason references_reason names list_or_empty
    dict_or_empty same_identity field_subjects candidates_of covering cover_from
    unique_candidate_cover subjects_of verdict_of is_success evidence_of add_success successes
    obligation_of binding_field by_id is_expected required_of wanted_of match_obligation match_row
    match_wanted match_contract check_contract match_references check_evidence evaluate_reason
    tool_name tools_of canonical_tools first_adapter after_last last_part is_tool_letter short_part
    not_empty short_after groups parse_tool is_plain squash bare_name unregistered_name trusts_short
    resolve_tool resolve_bare resolve_unlisted lists_tool resolve_lowered adapter_identity
    identity_binds_readback text_or seq_of status_of normal_record row_of normalize has_status
    text_at known_active is_left retire is_waiting int_leb int_same add_seq seqs top_from unique_top
    unique_max is_int is_latest mark reopened settle_units migrate_work_units_to_schema10 words_from
    truncate max item_count unit_text feedback_text reason_room step_room room_of fitted
    bounded_stop_feedback
migrations = (refl, refl, refl, refl, refl, refl, refl)

migrate_work_units_to_schema10-IsSettled_example : IsSettled (migrated ledger)
migrate_work_units_to_schema10-IsSettled_example =
    migrate_work_units_to_schema10-IsSettled shown (codes "now") (codes "scope") ledger
      (some (codes "u2"))

length-bounded_stop_feedback_example :
    (length (bounded_stop_feedback (pos 1) (codes "proof") (codes "read")) ≤ 240)
    × ((166 < length (unit_text 1))
        ⊎ IsWhole (unit_text 1) (bounded_stop_feedback (pos 1) (codes "proof") (codes "read")))
unfolding item_count
length-bounded_stop_feedback_example =
    length-bounded_stop_feedback (pos 1) (codes "proof") (codes "read")

-- Texts that are in lower case already.
abbrev itself : Text → Text
itself text = text

abbrev identity_of : Text → Identity
identity_of text = (adapter_identity itself text).identity

-- A name with a newline after it is canonical, though no canonical tool has it, and so is a bare name
-- among other characters a trusted one.
tools :
    (adapter_identity itself (codes "mcp__fs__read_file") ≡ record {
      adapter = some (codes "file_read");
      identity = Identity.canonical;
      namespace = none;
      short_name = codes "read_file";
    })
    × (adapter_identity itself (codes "mcp__fs__read" ++ 10 ∷ []) ≡ record {
      adapter = some (codes "file_read");
      identity = Identity.canonical;
      namespace = some (codes "fs");
      short_name = codes "read";
    })
    × (identity_of (codes "mcp__other__read") ≡ Identity.adapter_identity_ambiguous)
    × (identity_of (codes "mcp__fs__write") ≡ Identity.unregistered)
    × (identity_of (codes "read-file") ≡ Identity.trusted_short)
    × (identity_of (codes "!!read") ≡ Identity.trusted_short)
    × (identity_of (codes "write") ≡ Identity.unregistered)
unfolding text_eq option_eq nat_eq list_dec elements entries keys find get_or get truthy is_text put
    set_default remove text_of starts_with byte_width byte_length decode_prefix encode_char encode
    lstrip rstrip strip is_space split join text_leb decode_suffix decode_slice ends_with drop_last
    unique sorted_set is_surrogate digits int_eq decimal insert sort resolve_waiting_owner
    budget_allows persists plan_waiting_outcome rejected name_of are_subjects subject_list_reason
    kind_surfaces is_sha256 is_count is_scope_digest scope_reason surface_reason kind_reason
    obligation_record_reason record_id obligations_from obligations_reason is_outcome
    is_subject_field evidence_record_reason evidence_reason references_reason names list_or_empty
    dict_or_empty same_identity field_subjects candidates_of covering cover_from
    unique_candidate_cover subjects_of verdict_of is_success evidence_of add_success successes
    obligation_of binding_field by_id is_expected required_of wanted_of match_obligation match_row
    match_wanted match_contract check_contract match_references check_evidence evaluate_reason
    tool_name tools_of canonical_tools first_adapter after_last last_part is_tool_letter short_part
    not_empty short_after groups parse_tool is_plain squash bare_name unregistered_name trusts_short
    resolve_tool resolve_bare resolve_unlisted lists_tool resolve_lowered adapter_identity
    identity_binds_readback text_or seq_of status_of normal_record row_of normalize has_status
    text_at known_active is_left retire is_waiting int_leb int_same add_seq seqs top_from unique_top
    unique_max is_int is_latest mark reopened settle_units migrate_work_units_to_schema10 words_from
    truncate max item_count unit_text feedback_text reason_room step_room room_of fitted
    bounded_stop_feedback
tools = (refl, refl, refl, refl, refl, refl, refl)

binds : identity_binds_readback (adapter_identity itself (codes "mcp__fs__read_file")) ≡ true
unfolding text_eq option_eq nat_eq list_dec elements entries keys find get_or get truthy is_text put
    set_default remove text_of starts_with byte_width byte_length decode_prefix encode_char encode
    lstrip rstrip strip is_space split join text_leb decode_suffix decode_slice ends_with drop_last
    unique sorted_set is_surrogate digits int_eq decimal insert sort resolve_waiting_owner
    budget_allows persists plan_waiting_outcome rejected name_of are_subjects subject_list_reason
    kind_surfaces is_sha256 is_count is_scope_digest scope_reason surface_reason kind_reason
    obligation_record_reason record_id obligations_from obligations_reason is_outcome
    is_subject_field evidence_record_reason evidence_reason references_reason names list_or_empty
    dict_or_empty same_identity field_subjects candidates_of covering cover_from
    unique_candidate_cover subjects_of verdict_of is_success evidence_of add_success successes
    obligation_of binding_field by_id is_expected required_of wanted_of match_obligation match_row
    match_wanted match_contract check_contract match_references check_evidence evaluate_reason
    tool_name tools_of canonical_tools first_adapter after_last last_part is_tool_letter short_part
    not_empty short_after groups parse_tool is_plain squash bare_name unregistered_name trusts_short
    resolve_tool resolve_bare resolve_unlisted lists_tool resolve_lowered adapter_identity
    identity_binds_readback text_or seq_of status_of normal_record row_of normalize has_status
    text_at known_active is_left retire is_waiting int_leb int_same add_seq seqs top_from unique_top
    unique_max is_int is_latest mark reopened settle_units migrate_work_units_to_schema10 words_from
    truncate max item_count unit_text feedback_text reason_room step_room room_of fitted
    bounded_stop_feedback
binds = refl

adapter_identity-IsRegistered_example : IsRegistered (codes "mcp__fs__read_file")
adapter_identity-IsRegistered_example =
    adapter_identity-IsRegistered itself (codes "mcp__fs__read_file") binds
