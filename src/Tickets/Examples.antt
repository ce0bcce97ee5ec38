-- ===== src/Tickets/Examples.antt =====
-- Two tickets of one repository, one of them for an older commit, and a release that is tried twice.
use codex_context_guard.Base.{
  ◌≤◌, ◌≡◌, refl, true, none, some, List, [], ◌∷◌, Text, text_eq, nat_eq, option_eq, All,
}
use codex_context_guard.Base.Texts.{codes}
use codex_context_guard.Tickets.{
  TicketState, ticket_state_eq, Contract, Ticket, Execution, Action, is_commit_id, active_contract,
  is_stale, is_exact, invalidate, after, match_from, match_under, match_action_ticket,
  reserve_ticket, reserve, Attempt, attempt, grants,
}
use codex_context_guard.Tickets.Exact.{
  IsBound, IsFresh, found, passed, match_action_ticket-IsBound, match_action_ticket-IsFresh,
}
use codex_context_guard.Tickets.Once.{usable, grants-le-usable}

abbrev new_commit : Text
new_commit = codes "00000000000000000000000000000000000000ab"

abbrev contract : Contract
contract = record { is_active = true; revision = some 2; canonical_sha256 = some (codes "h") }

abbrev good : Ticket
good = record {
  state = TicketState.reserved;
  ticket_schema = some (codes "action-ticket/v1");
  repository_id = some (codes "r");
  candidate_commit = some new_commit;
  contract_revision = some 2;
  contract_sha256 = some (codes "h");
  semantic_action_id = some (codes "release");
  canonical_target_id = some (codes "t");
  write_surface_id = some (codes "s");
  release_version = some (codes "1.0");
  input_sha256 = some (codes "i");
  settled_at = none;
  tool_use_id = none;
  attempt_count = 0;
  reserved_at = none;
}

abbrev old : Ticket
old = record good { candidate_commit = some (codes "cd") }

abbrev execution : Execution
execution = record { contract = some contract; action_tickets = old ∷ good ∷ [] }

abbrev action : Action
action = record {
  repository_id = codes "r";
  candidate_commit = new_commit;
  semantic_action_id = codes "release";
  canonical_target_id = codes "t";
  write_surface_id = codes "s";
  release_version = codes "unresolved";
  input_sha256 = codes "i";
}

abbrev attempts : List Attempt
attempts =
    record { action = action; tool_use_id = codes "1"; now = codes "noon" }
    ∷ record { action = action; tool_use_id = codes "2"; now = codes "one" }
    ∷ []

runs :
    (found (match_action_ticket execution action none) ≡ some good)
    × (passed (match_action_ticket execution action none)
        ≡ record old { state = TicketState.invalidated } ∷ [])
    × (grants execution attempts ≡ 1)
    × (is_commit_id new_commit ≡ true)
    × (active_contract execution.contract ≡ some contract)
unfolding text_eq nat_eq option_eq ticket_state_eq is_commit_id active_contract is_stale is_exact
    invalidate after match_from match_under match_action_ticket reserve_ticket reserve attempt
    grants
runs = (refl, refl, refl, refl, refl)

match_action_ticket-IsBound_example :
    (c : Contract) × (active_contract execution.contract ≡ some c)
    × (c.is_active ≡ true)
    × (is_commit_id action.candidate_commit ≡ true)
    × IsBound c action good
match_action_ticket-IsBound_example = match_action_ticket-IsBound execution action none good runs.0

match_action_ticket-IsFresh_example :
    All (IsFresh contract action) (passed (match_action_ticket execution action none))
match_action_ticket-IsFresh_example =
    match_action_ticket-IsFresh execution action none contract runs.4 runs.3

grants-le-usable_example : grants execution attempts ≤ usable execution.action_tickets
grants-le-usable_example = grants-le-usable execution attempts
