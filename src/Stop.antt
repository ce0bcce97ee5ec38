-- ===== src/Stop.antt =====
-- scripts/cg_stop3.py: who a turn waits for, how it ends, and the budget of visible interruptions.
pub mod Records
pub mod Candidates
pub mod Matcher
pub mod Adapters
pub mod Units
pub mod Latest
pub mod Marks
pub mod Resume
pub mod Feedback
pub mod Registered
pub mod Lengths
pub mod Order
pub mod Cover
pub mod Referred
pub mod Fulfilled
mod Examples
use codex_context_guard.Base.{
  ℕ, Bool, true, false, ◌&&◌, ◌||◌, Option, none, some, leb, if◌then◌else◌,
}
use codex_context_guard.Base.Json.{
  Json, Members, get, truthy, object, null, boolean, integer, float,
}
use codex_context_guard.Base.Decimal.{ℤ, pos, negsuc}
use codex_context_guard.Base.Texts.{codes}

-- `OWNER_ASSISTANT` and the others.
pub data Waiting : Type 0 where
  assistant user external deferred unknown : Waiting

pub data Ending : Type 0 where
  silent_end_assistant_pending_actions single_bounded_correction : Ending
  silent_yield_preserve_pending silent_end_owner_ambiguous : Ending

unfoldable pub resolve_waiting_owner : Json → Waiting
resolve_waiting_owner (object facts) =
    if truthy (get facts (codes "authorized_assistant_actions_available"))
    then assistant
    else if truthy (get facts (codes "missing_user_only_input_or_approval"))
    then user
    else if truthy (get facts (codes "registered_external_operation"))
        || truthy (get facts (codes "root_external_dependency"))
    then external
    else if truthy (get facts (codes "deferred_by_scope_or_authority"))
    then deferred
    else unknown
resolve_waiting_owner _ = unknown

-- `1 <= index <= VISIBLE_INTERRUPTION_BUDGET`
unfoldable pub budget_allows : ℤ → Bool
budget_allows (pos index) = leb 1 index && leb index 1
budget_allows (negsuc index) = false

-- Whether there is a reason to go on with the turn.
unfoldable pub persists : Members → Bool
persists facts =
    truthy (get facts (codes "explicit_persistence"))
    || truthy (get facts (codes "resume_with_actionable_work"))
    || truthy (get facts (codes "current_due_action_omitted"))

unfoldable pub plan_waiting_outcome : Members → ℤ → Ending
plan_waiting_outcome facts index = elim (resolve_waiting_owner (object facts)) [
  | assistant ↦
      if persists facts && budget_allows index
      then single_bounded_correction
      else silent_end_assistant_pending_actions
  | unknown ↦ silent_end_owner_ambiguous
  | _ ↦ silent_yield_preserve_pending
]
