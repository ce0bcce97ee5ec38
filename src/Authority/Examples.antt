-- ===== src/Authority/Examples.antt =====
-- A commit and its push, bound together and carried out.
use codex_context_guard.Base.{
  ◌≡◌, refl, ap, true, false, none, some, List, [], ◌∷◌, Text, text_eq, nat_eq, option_eq, contains,
  is_empty,
}
use codex_context_guard.Base.Texts.{
  codes, lstrip, rstrip, strip, is_space, text_leb, unique, sorted_set,
}
use codex_context_guard.Base.Sorting.{insert, sort}
use codex_context_guard.Base.Decimal.{digits, int_eq}
use codex_context_guard.Authority.Values.{Value, text_of, is_sentinel, is_exact_text, is_exact}
use codex_context_guard.Authority.Fields.{
  Dict, lookup, implied_by, fields_of, covers, add_fields, required_from, required_fields_for,
}
use codex_context_guard.Authority.Bind.{
  Status, status_eq, Reason, Target, target_eq, normalize_target, Binding, pending_valid,
  exact_required, normalized_from, bind_targets, bind_valid, bind_authorization, is_blank,
}
use codex_context_guard.Authority.Evaluate.{
  Request, resolved_from, any_incomplete, resolve_pending, expected, same_target, compare_targets,
  evaluate_pending, evaluate_bound, evaluate_binding, evaluate_in, evaluate,
}
use codex_context_guard.Authority.Laws.{Authorizes, evaluate-Authorizes}
use codex_context_guard.Authority.RoundTrip.{bind-evaluate, plain_request, granted}

abbrev commit_and_push : List Text
commit_and_push = codes "push" ∷ codes "commit" ∷ []

abbrev branch : Dict Value
branch =
    (codes "repository", Value.string (codes " r "))
    ∷ (codes "remote", Value.string (codes "origin"))
    ∷ (codes "ref", Value.string (codes "main"))
    ∷ (codes "commit_sha256", Value.string (codes "c0"))
    ∷ (codes "note", Value.null)
    ∷ []

abbrev bound : Target
bound =
    (codes "repository", codes "r")
    ∷ (codes "ref", codes "main")
    ∷ (codes "commit_sha256", codes "c0")
    ∷ (codes "remote", codes "origin")
    ∷ []

abbrev binding : Binding
binding = bind_authorization commit_and_push (branch ∷ []) (some (codes "u")) (some 1) none

abbrev request : Request
request = plain_request (codes "commit") branch (codes "u") 1

runs :
    (normalize_target branch (required_fields_for (sorted_set commit_and_push)) ≡ some bound)
    × (evaluate (some binding) request ≡ granted bound)
    × ((evaluate (some binding) (record request { generation = some 2 })).reason_code
        ≡ Reason.authorization_generation_expired)
    × ((evaluate (some binding) (record request { action = codes "force_push" })).status
        ≡ Status.out_of_scope)
    × (contains commit_and_push (codes "commit") ≡ true)
    × (is_blank (codes "u") ≡ false)
    × (text_of (Value.integer true 120) ≡ codes "-120")
    × (is_exact_text (codes " Unknown ") ≡ false)
unfolding text_eq nat_eq int_eq option_eq lstrip rstrip strip is_space text_leb unique sorted_set
    insert sort digits text_of is_sentinel is_exact_text is_exact lookup implied_by fields_of covers
    add_fields required_from required_fields_for status_eq target_eq normalize_target pending_valid
    exact_required normalized_from bind_targets bind_valid bind_authorization resolved_from
    any_incomplete resolve_pending expected same_target compare_targets evaluate_pending
    evaluate_bound evaluate_binding evaluate_in evaluate
runs = (refl, refl, refl, refl, refl, refl, refl, refl)

-- An action that no table names needs no fields: once it is bound beside another, any target does.
unnamed_action :
    (evaluate
      (some (
        bind_authorization
          (codes "commit" ∷ codes "deploy" ∷ [])
          (branch ∷ [])
          (some (codes "u"))
          (some 1)
          none))
      (plain_request (codes "deploy") [] (codes "u") 1)).ask_user
    ≡ false
unfolding text_eq nat_eq int_eq option_eq lstrip rstrip strip is_space text_leb unique sorted_set
    insert sort digits text_of is_sentinel is_exact_text is_exact lookup implied_by fields_of covers
    add_fields required_from required_fields_for status_eq target_eq normalize_target pending_valid
    exact_required normalized_from bind_targets bind_valid bind_authorization resolved_from
    any_incomplete resolve_pending expected same_target compare_targets evaluate_pending
    evaluate_bound evaluate_binding evaluate_in evaluate
unnamed_action = refl

asks : (evaluate (some binding) request).ask_user ≡ false
asks = ap (λ d. d.ask_user) runs.1

evaluate-Authorizes_example : (b : Binding) × (some binding ≡ some b) × Authorizes b request
evaluate-Authorizes_example = evaluate-Authorizes (some binding) request asks

needs : is_empty (required_fields_for (sorted_set commit_and_push)) ≡ false
unfolding text_eq nat_eq int_eq option_eq lstrip rstrip strip is_space text_leb unique sorted_set
    insert sort digits text_of is_sentinel is_exact_text is_exact lookup implied_by fields_of covers
    add_fields required_from required_fields_for status_eq target_eq normalize_target pending_valid
    exact_required normalized_from bind_targets bind_valid bind_authorization resolved_from
    any_incomplete resolve_pending expected same_target compare_targets evaluate_pending
    evaluate_bound evaluate_binding evaluate_in evaluate
needs = refl

bind-evaluate_example :
    evaluate
      (some (bind_authorization commit_and_push (branch ∷ []) (some (codes "u")) (some 1) none))
      (plain_request (codes "commit") branch (codes "u") 1)
    ≡ granted bound
bind-evaluate_example =
    bind-evaluate commit_and_push (codes "commit") branch bound (codes "u") 1 runs.4 runs.5 needs
      runs.0
