-- ===== src/Authority/Bind.antt =====
-- `_normalize_target` and `bind_authorization`.
pub mod Laws
use mathlib.Core.Path.{ap}
use mathlib.Core.Logic.{dite}
use codex_context_guard.Base.{
  list_dec, ℕ, ◌≡◌, refl, Bool, true, false, not, ◌&&◌, ◌||◌, Option, none, some, List, [], ◌∷◌,
  ◌++◌, Eq, Text, text_eq, ◌==◌, contains, all, keep, map, is_empty, is_some, if◌then◌else◌,
}
use codex_context_guard.Base.Texts.{codes, strip, is_space, text_leb, sorted_set}
use codex_context_guard.Base.Decimal.{ℤ, pos}
use codex_context_guard.Base.Sorting.{sort}
use codex_context_guard.Authority.Values.{Value, is_exact, text_of}
use codex_context_guard.Authority.Fields.{Dict, lookup, required_fields_for}

pub data Status : Type 0 where
  authorized_unique requires_selection authorization_invalid : Status
  drifted out_of_scope pending_transition : Status

status_dec : Discrete Status
status_dec = hlevel

instance unfoldable pub status_eq : Eq Status
unfolding status_dec
status_eq = record { dec = status_dec }

pub data Reason : Type 0 where
  no_authorization_binding authorized_commit_not_completed : Reason
  action_within_authorized_semantics action_outside_authorized_semantics : Reason
  multiple_reasonable_candidates target_undetermined : Reason
  resolved_target_drifted_from_binding cross_work_unit_replay : Reason
  authorization_generation_expired missing_validity_fact : Reason
  binding_context_incomplete work_unit_binding_required generation_binding_required : Reason

-- A normalized target: the text of each required field, in their order.
abbrev pub Target : Type 0
Target = Dict Text

pair_dec : Discrete (Text × Text)
unfolding text_eq
pair_dec (a, b) (c, d) =
    dite (text_eq.dec a c)
      (λ p.
        dite (text_eq.dec b d) (λ q. yes (λ i. (p i, q i))) (λ n. no (λ r. n (ap (λ t. t.1) r))))
      (λ n. no (λ r. n (ap (λ t. t.0) r)))

instance unfoldable pub target_eq : Eq Target
unfolding pair_dec list_dec
target_eq = record { dec = list_dec pair_dec }

abbrev pub exact_value : Text → Option Value → Option Text
exact_value field none = none
exact_value field (some value) =
    if is_exact value then some (strip is_space (text_of value)) else none

abbrev pub with_field : Text → Option Text → Option Target → Option Target
with_field field (some t) (some rest) = some ((field, t) ∷ rest)
with_field field _ _ = none

-- `_normalize_target`
unfoldable pub normalize_target : Dict Value → List Text → Option Target
normalize_target target [] = some []
normalize_target target (field ∷ rest) =
    with_field field (exact_value field (lookup field target)) (normalize_target target rest)

pub record Binding : Type 0 where
  pub actions : List Text
  pub required_fields : List Text
  pub work_unit_id : Option Text
  pub generation : Option ℤ
  pub pending : Dict Text
  pub status : Status
  pub target : Option Target
  pub candidates : List Target
  pub reason_code : Option Reason

abbrev pub is_blank : Text → Bool
is_blank t = is_empty (strip is_space t)

abbrev non_empty : Option Text → Option Text
non_empty none = none
non_empty (some t) = if is_empty t then none else some t

-- A binding that authorizes nothing, since a fact of its validity is missing.
abbrev invalid_binding : List Text → Option Text → Reason → Binding
invalid_binding actions unit reason = record {
  actions = actions;
  required_fields = [];
  work_unit_id = unit;
  generation = none;
  pending = [];
  status = Status.authorization_invalid;
  target = none;
  candidates = [];
  reason_code = some reason;
}

abbrev or_no_pending : Option (Dict Text) → Dict Text
or_no_pending none = []
or_no_pending (some pending) = pending

-- Every pending value is the outcome of the authorized commit.
unfoldable pub pending_valid : Dict Text → Bool
pending_valid pending = all (λ (field, source). source == codes "authorized_commit") pending

unfoldable pub exact_required : List Text → Dict Text → List Text
exact_required required pending = keep (λ f. not (is_some (lookup f pending))) required

-- The loop over the candidates: the distinct normalized ones, or none at one that is not precise.
unfoldable pub normalized_from : List Target → List Text → List (Dict Value) → Option (List Target)
normalized_from found required [] = some found
normalized_from found required (target ∷ rest) = elim (normalize_target target required) [
  | none ↦ none
  | some t ↦ normalized_from (if contains found t then found else found ++ t ∷ []) required rest
]

-- What is bound once the facts of validity are there.
unfoldable pub bind_targets : Binding → Option (List Target) → Binding
bind_targets open_binding none = open_binding
bind_targets open_binding (some []) = open_binding
bind_targets open_binding (some (target ∷ [])) =
    if is_empty open_binding.pending
    then record open_binding {
      status = Status.authorized_unique;
      target = some target;
      reason_code = none;
    }
    else record open_binding {
      status = Status.pending_transition;
      target = some target;
      reason_code = some Reason.authorized_commit_not_completed;
    }
bind_targets open_binding (some candidates) = record open_binding {
  candidates = candidates;
  reason_code = some Reason.multiple_reasonable_candidates;
}

-- The binding of a unit and a generation, with its target still undetermined.
abbrev open_binding : List Text → Text → ℕ → Dict Text → Binding
open_binding actions unit generation pending = record {
  actions = actions;
  required_fields = required_fields_for actions;
  work_unit_id = some unit;
  generation = some (pos generation);
  pending = pending;
  status = Status.requires_selection;
  target = none;
  candidates = [];
  reason_code = some Reason.target_undetermined;
}

unfoldable pub bind_valid : List Text → List (Dict Value) → Text → ℕ → Dict Text → Binding
bind_valid actions targets unit generation pending =
    let required = exact_required (required_fields_for actions) pending in
    bind_targets (open_binding actions unit generation pending)
      (if is_empty required || is_empty targets then none else normalized_from [] required targets)

-- `bind_authorization`. The unit is none where it is no text, and the generation where it is no
-- natural number.
unfoldable pub bind_authorization :
    List Text → List (Dict Value) → Option Text → Option ℕ → Option (Dict Text) → Binding
bind_authorization actions targets unit generation pending =
    let normalized = sorted_set actions in
    if not (pending_valid (or_no_pending pending))
    then invalid_binding normalized (non_empty unit) Reason.work_unit_binding_required
    else elim unit [
      | none ↦ invalid_binding normalized none Reason.work_unit_binding_required
      | some u ↦
          if is_blank u
          then invalid_binding normalized none Reason.work_unit_binding_required
          else elim generation [
            | none ↦ invalid_binding normalized (some u) Reason.generation_binding_required
            | some g ↦
                bind_valid normalized targets u g
                  (sort (λ a b. text_leb a.0 b.0) (or_no_pending pending))
          ]
    ]
