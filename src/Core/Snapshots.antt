-- ===== src/Core/Snapshots.antt =====
-- The snapshots of the session of Samples before and after its edit, and what `project` and the fold
-- of the root controls return for them.
use codex_context_guard.Base.{true, false, none, [], ◌∷◌}
use codex_context_guard.Base.Texts.{codes}
use codex_context_guard.Core.Model.{Snapshot}
use codex_context_guard.Core.Kinds.{Outcome, ControlKind, IntentKind, ReleaseState}
use codex_context_guard.Core.Controls.States.{ControlState}
use codex_context_guard.Core.Controls.Fold.{Ledger, Fold}
use codex_context_guard.Core.Predicates.{Predicate}
use codex_context_guard.Core.Project.{Projection}
use codex_context_guard.Core.Stops.{Stop, StopReason}
use codex_context_guard.Core.Project.Future.{Arrivals}
use codex_context_guard.Core.Samples.{
  plain_speech, request, call, result, edit, edited, readied, next_step, keep_going, covered, work,
}

-- Before the edit: a claim of completion that comes too early.
abbrev pub open_work : Snapshot
open_work = record {
  unit = codes "u";
  revision = 1;
  as_of = 3;
  turn = codes "t";
  sources = request ∷ call ∷ result ∷ [];
  requirements = edit ∷ [];
  facts = readied ∷ [];
  actions = next_step ∷ [];
  root_controls = keep_going ∷ [];
  intent = record { source = none; kind = IntentKind.none };
  completion_claim = true;
  proof_violation = false;
  corrections_used = 0;
  progress_changed = true;
  goal_contract_adopted = true;
  release_state = ReleaseState.not_adopted;
  coverage = covered ∷ [];
  units = work ∷ [];
  conditions = [];
}

-- After it.
abbrev pub closed_work : Snapshot
closed_work = record open_work { facts = edited ∷ []; actions = [] }

-- What comes later than the snapshot.
abbrev pub later : Arrivals
later = record {
  source = record request { id = codes "root2"; seq = 4 };
  requirement = record edit { id = codes "edit2"; seq = 4 };
  fact = record edited { id = codes "edited2"; seq = 4; outcome = Outcome.failure };
  action = record next_step { seq = 5 };
  control = record keep_going { id = codes "stop"; seq = 4; kind = ControlKind.cancel };
}

abbrev pub ledger : Ledger
ledger = record {
  speech = plain_speech;
  sources = request ∷ call ∷ result ∷ [];
  requirements = edit ∷ [];
  facts = edited ∷ [];
  units = codes "u" ∷ [];
  watermark = 3;
}

-- What `project` returns for the two snapshots, and the fold for the ledger.
abbrev pub closed_projection : Projection
closed_projection = record {
  predicates = (codes "edit", Predicate.satisfied) ∷ [];
  delivery = [];
  facts = codes "edited" ∷ [];
  current_actions = [];
  rejected_actions = [];
  unmet_requirements = [];
  certifiable = true;
  coverage_errors = [];
  unknown_coverage = [];
  root_control_states = (codes "edit", ControlState.persistent) ∷ [];
  root_control_errors = [];
  released = [];
  explicit_user_persistence = true;
  resume_with_actionable_work = false;
  registered_external_operations = [];
  stop = Stop.ordinary_end;
  reason_codes = [];
  correction_count = 0;
  goal_complete_allowed = true;
  release_state = ReleaseState.not_adopted;
}

abbrev pub open_projection : Projection
open_projection = record closed_projection {
  predicates = (codes "edit", Predicate.insufficient) ∷ [];
  facts = codes "readied" ∷ [];
  current_actions = next_step ∷ [];
  unmet_requirements = codes "edit" ∷ [];
  certifiable = false;
  stop = Stop.bounded_correction;
  reason_codes = StopReason.wrong_whole_completion ∷ StopReason.explicit_user_persistence ∷ [];
  correction_count = 1;
  goal_complete_allowed = false;
}

abbrev pub kept_fold : Fold
kept_fold = record {
  states = (codes "edit", ControlState.persistent) ∷ [];
  errors = [];
  represented = codes "root" ∷ [];
  resumed = [];
  positions = keep_going ∷ [];
}

abbrev pub cancelled_fold : Fold
cancelled_fold = record kept_fold { states = (codes "edit", ControlState.cancelled) ∷ [] }
