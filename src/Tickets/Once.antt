-- ===== src/Tickets/Once.antt =====
-- A ticket is reserved once at most: reservations use up the tickets that are reserved for use.
use codex_context_guard.Base.{
  ℕ, suc, ◌+◌, ◌≤◌, ◌≡◌, inl, inr, refl, Bool, true, false, Option, none, some, List, [], ◌∷◌, Text,
  ◌==◌, arith, Bool-cases, if◌then◌else◌,
}
use codex_context_guard.Tickets.{
  TicketState, ticket_state_eq, Contract, Ticket, Execution, Action, is_commit_id, active_contract,
  invalidate, Match, unmatched, matched, after, match_from, match_under, match_action_ticket,
  reserve_ticket, reserve, attempt, Attempt, grants,
}

-- How many tickets can still be matched.
unfoldable pub usable : List Ticket → ℕ
usable [] = 0
usable (t ∷ rest) =
    let others = usable rest in if t.state == TicketState.reserved then suc others else others

abbrev pub as_count : Bool → ℕ
as_count true = 1
as_count false = 0

-- The tickets that are usable after a reservation, with the one that was granted.
abbrev weight : List Ticket × Bool → ℕ
weight (tickets, granted) = usable tickets + as_count granted

weight-after :
    (tool_use_id now : Text) (ticket : Ticket) (m : Match)
    → weight (reserve tool_use_id now (after ticket m)) ≡ (
        if ticket.state == TicketState.reserved
        then suc (weight (reserve tool_use_id now m))
        else weight (reserve tool_use_id now m))
unfolding reserve after usable
weight-after tool now ticket (unmatched rest) = ground arith
weight-after tool now ticket (matched front t rest) = ground arith

invalidated_unusable :
    (now : Option Text) (t : Ticket) → (invalidate now t).state == TicketState.reserved ≡ false
unfolding invalidate ticket_state_eq
invalidated_unusable now t = refl

weight-matched :
    (tool_use_id now : Text) (ticket : Ticket) (rest : List Ticket)
    → weight (reserve tool_use_id now (matched [] ticket rest)) ≡ usable rest + 1
unfolding reserve reserve_ticket usable ticket_state_eq
weight-matched tool now ticket rest = refl

weight-unmatched :
    (tool_use_id now : Text) (tickets : List Ticket)
    → weight (reserve tool_use_id now (unmatched tickets)) ≤ usable tickets
unfolding reserve
weight-unmatched tool now tickets = omega arith

weight-match_from :
    (tool_use_id now : Text) (contract : Contract) (action : Action) (settled : Option Text)
    (tickets : List Ticket)
    → weight (reserve tool_use_id now (match_from contract action settled tickets)) ≤ usable tickets
unfolding match_from usable
weight-match_from tool now contract action settled [] = weight-unmatched tool now []
weight-match_from tool now contract action settled (t ∷ rest) =
    let later = match_from contract action settled rest in
    ground (
      arith,
      weight-match_from tool now contract action settled rest,
      weight-after tool now t later,
      weight-after tool now (invalidate settled t) later,
      invalidated_unusable settled t,
      weight-matched tool now t rest,
    )

weight-match_under :
    (tool_use_id now : Text) (o : Option Contract) (action : Action) (settled : Option Text)
    (tickets : List Ticket)
    → weight (reserve tool_use_id now (match_under o action settled tickets)) ≤ usable tickets
unfolding match_under
weight-match_under tool now none action settled tickets = weight-unmatched tool now tickets
weight-match_under tool now (some contract) action settled tickets =
    weight-match_from tool now contract action settled tickets

weight-attempt :
    (execution : Execution) (a : Attempt)
    → usable (attempt execution a).0.action_tickets + as_count (attempt execution a).1
      ≤ usable execution.action_tickets
unfolding attempt match_action_ticket
weight-attempt execution a = elim (Bool-cases (is_commit_id a.action.candidate_commit)) [
  | inl written ↦ rw written (
      weight-match_under a.tool_use_id a.now (active_contract execution.contract) a.action
        (some a.now) execution.action_tickets)
  | inr other ↦ rw other (weight-unmatched a.tool_use_id a.now execution.action_tickets)
]

-- No ticket is reserved twice: of any sequence of attempts, whatever their actions, no more are
-- granted than there were tickets reserved for use.
pub grants-le-usable :
    (execution : Execution) (attempts : List Attempt)
    → grants execution attempts ≤ usable execution.action_tickets
unfolding grants
grants-le-usable execution [] = omega arith
grants-le-usable execution (a ∷ rest) =
    ground (arith, weight-attempt execution a, grants-le-usable (attempt execution a).0 rest)
