-- ===== src/Core/Speech.antt =====
-- The recognisers of scripts/cg_core_v2.py that are regular expressions, as an interface: what the
-- fold of the root controls asks of a text. The fold is modelled over any answers to these.
use codex_context_guard.Base.{ℕ, Bool, Option, Text}
use codex_context_guard.Core.Model.{Span}
use codex_context_guard.Core.Kinds.{ControlKind}

pub record Speech : Type 0 where
  -- `_control_speech(text, kind, rules)`
  pub control_speech : Text → ControlKind → Bool
  -- `_root_sentence_bounds(text.encode(), span, rules)`
  pub sentence_bounds : Text → Span → Option (ℕ × ℕ)
  -- `_current_unit_scope_speech(text, kind)`
  pub current_unit_speech : Text → ControlKind → Bool
  -- `_explicit_target_speech(prefix, suffix, kind)`
  pub explicit_target_speech : Text → Text → ControlKind → Bool
  -- `_subjectless_compound_persistence(text)`
  pub subjectless_persistence : Text → Bool
  -- `_direct_work_clause(text)`
  pub direct_work_clause : Text → Bool
  -- `_action_class_scope_speech(text, kind)`: the noun and the character at which it begins.
  pub action_class_speech : Text → ControlKind → Option (Text × ℕ)
  -- The two patterns of the scope `parent_task`, over the noun and the text of the control.
  pub repair_speech : Text → Text → Bool
  pub parent_persistence_speech : Text → Text → Bool
