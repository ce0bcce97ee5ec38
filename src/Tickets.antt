-- ===== src/Tickets.antt =====
-- scripts/cg_release_adapter.py: the one-shot tickets of an adopted release contract. A ticket is
-- matched on its whole identity, a stale one is invalidated on the way, and a matched one is reserved.
-- Tickets are shared objects: a match is the list with the ticket singled out, so that its reservation
-- is seen in the list.
pub mod Exact
pub mod Once
mod Examples
use codex_context_guard.Base.{
  ℕ, suc, ◌+◌, Bool, true, false, not, ◌&&◌, ◌||◌, Option, none, some, List, [], ◌∷◌, ◌++◌, Eq,
  Text, text_eq, nat_eq, option_eq, ◌==◌, leb, length, all, keep, if◌then◌else◌,
}
use codex_context_guard.Base.Texts.{codes}

pub data TicketState : Type 0 where
  reserved in_flight consumed invalidated : TicketState

ticket_state_dec : Discrete TicketState
ticket_state_dec = hlevel

instance unfoldable pub ticket_state_eq : Eq TicketState
unfolding ticket_state_dec
ticket_state_eq = record { dec = ticket_state_dec }

pub record Contract : Type 0 where
  pub is_active : Bool
  pub revision : Option ℕ
  pub canonical_sha256 : Option Text

pub record Ticket : Type 0 where
  pub state : TicketState
  pub ticket_schema : Option Text
  pub repository_id : Option Text
  pub candidate_commit : Option Text
  pub contract_revision : Option ℕ
  pub contract_sha256 : Option Text
  pub semantic_action_id : Option Text
  pub canonical_target_id : Option Text
  pub write_surface_id : Option Text
  pub release_version : Option Text
  pub input_sha256 : Option Text
  pub settled_at : Option Text
  pub tool_use_id : Option Text
  pub attempt_count : ℕ
  pub reserved_at : Option Text

pub record Execution : Type 0 where
  pub contract : Option Contract
  pub action_tickets : List Ticket

pub record Action : Type 0 where
  pub repository_id : Text
  pub candidate_commit : Text
  pub semantic_action_id : Text
  pub canonical_target_id : Text
  pub write_surface_id : Text
  pub release_version : Text
  pub input_sha256 : Text

-- `re.compile(r"[0-9a-f]{40}").fullmatch`
unfoldable pub is_commit_id : Text → Bool
is_commit_id t = length t == 40 && all (λ c. leb b'0' c && leb c b'9' || leb b'a' c && leb c b'f') t

abbrev if_active : Contract → Option Contract
if_active contract = if contract.is_active then some contract else none

-- `_active_contract`
unfoldable pub active_contract : Option Contract → Option Contract
active_contract none = none
active_contract (some contract) = if_active contract

-- A ticket of the action's repository that is bound to another commit or contract.
unfoldable pub is_stale : Contract → Action → Ticket → Bool
is_stale contract action ticket =
    ticket.repository_id == some action.repository_id
    && (not (ticket.candidate_commit == some action.candidate_commit)
        || not (ticket.contract_revision == contract.revision)
        || not (ticket.contract_sha256 == contract.canonical_sha256))

-- `exact`
unfoldable pub is_exact : Contract → Action → Ticket → Bool
is_exact contract action ticket =
    ticket.ticket_schema == some (codes "action-ticket/v1")
    && ticket.contract_revision == contract.revision
    && ticket.contract_sha256 == contract.canonical_sha256
    && ticket.semantic_action_id == some action.semantic_action_id
    && ticket.canonical_target_id == some action.canonical_target_id
    && ticket.write_surface_id == some action.write_surface_id
    && ticket.repository_id == some action.repository_id
    && ticket.candidate_commit == some action.candidate_commit
    && (action.release_version == codes "unresolved"
        || ticket.release_version == some action.release_version)
    && ticket.input_sha256 == some action.input_sha256

abbrev or_kept : Option Text → Option Text → Option Text
or_kept none old = old
or_kept (some now) old = some now

unfoldable pub invalidate : Option Text → Ticket → Ticket
invalidate now ticket = record ticket {
  state = TicketState.invalidated;
  settled_at = or_kept now ticket.settled_at;
}

-- The tickets after the loop, and the matched one with those before and behind it.
pub data Match : Type 0 where
  unmatched : List Ticket → Match
  matched : List Ticket → Ticket → List Ticket → Match

unfoldable pub after : Ticket → Match → Match
after ticket (unmatched rest) = unmatched (ticket ∷ rest)
after ticket (matched front found rest) = matched (ticket ∷ front) found rest

-- The loop over the tickets.
unfoldable pub match_from : Contract → Action → Option Text → List Ticket → Match
match_from contract action now [] = unmatched []
match_from contract action now (ticket ∷ rest) =
    let later = match_from contract action now rest in
    if not (ticket.state == TicketState.reserved)
    then after ticket later
    else if is_stale contract action ticket
    then after (invalidate now ticket) later
    else if is_exact contract action ticket
    then matched [] ticket rest
    else after ticket later

unfoldable pub match_under : Option Contract → Action → Option Text → List Ticket → Match
match_under none action now tickets = unmatched tickets
match_under (some contract) action now tickets = match_from contract action now tickets

-- `match_action_ticket`
unfoldable pub match_action_ticket : Execution → Action → Option Text → Match
match_action_ticket execution action now =
    if is_commit_id action.candidate_commit
    then match_under (active_contract execution.contract) action now execution.action_tickets
    else unmatched execution.action_tickets

-- `reserve_ticket`
unfoldable pub reserve_ticket : Ticket → Text → Text → Ticket
reserve_ticket ticket tool_use_id now = record ticket {
  state = TicketState.in_flight;
  tool_use_id = some tool_use_id;
  attempt_count = ticket.attempt_count + 1;
  reserved_at = some now;
}

-- The tickets once a match is reserved, and whether there was one.
unfoldable pub reserve : Text → Text → Match → List Ticket × Bool
reserve tool_use_id now (unmatched tickets) = (tickets, false)
reserve tool_use_id now (matched front ticket rest) =
    (front ++ reserve_ticket ticket tool_use_id now ∷ rest, true)

-- One use of a tool: the action, and the moments and the name that its reservation notes.
pub record Attempt : Type 0 where
  pub action : Action
  pub tool_use_id : Text
  pub now : Text

-- The match of a candidate action, and the reservation of what it finds, one after the other.
unfoldable pub attempt : Execution → Attempt → Execution × Bool
attempt execution a =
    let (tickets, granted) =
      reserve a.tool_use_id a.now (match_action_ticket execution a.action (some a.now)) in
    (record execution { action_tickets = tickets }, granted)

-- How many of a sequence of attempts are granted.
unfoldable pub grants : Execution → List Attempt → ℕ
grants execution [] = 0
grants execution (a ∷ rest) =
    let (next, granted) = attempt execution a in
    let others = grants next rest in if granted then suc others else others
