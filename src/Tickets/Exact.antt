-- ===== src/Tickets/Exact.antt =====
-- What is matched is exact, and what is stale does not stay reserved.
use mathlib.Core.Path.{subst}
use mathlib.Core.Option.{some-injective}
use codex_context_guard.Base.{
  ◌≡◌, ◌≢◌, ◌⊎◌, inl, inr, refl, true, false, Option, none, some, List, [], ◌∷◌, Text, text_eq,
  nat_eq, option_eq, ◌==◌, arith, All, Bool-cases,
}
use codex_context_guard.Base.Texts.{codes}
use codex_context_guard.Tickets.{
  TicketState, ticket_state_eq, Contract, Ticket, Execution, Action, is_commit_id, active_contract,
  is_stale, is_exact, invalidate, Match, unmatched, matched, after, match_from, match_under,
  match_action_ticket,
}

-- The ticket of a match: a reserved one, bound to the contract and to the action's repository,
-- commit, target, surface and input, and to its version unless that is unresolved.
pub record IsBound (contract : Contract) (action : Action) (ticket : Ticket) : Type 0 where
  pub unused : ticket.state ≡ TicketState.reserved
  pub schema : ticket.ticket_schema ≡ some (codes "action-ticket/v1")
  pub revision : ticket.contract_revision ≡ contract.revision
  pub contract_hash : ticket.contract_sha256 ≡ contract.canonical_sha256
  pub semantic : ticket.semantic_action_id ≡ some action.semantic_action_id
  pub target : ticket.canonical_target_id ≡ some action.canonical_target_id
  pub surface : ticket.write_surface_id ≡ some action.write_surface_id
  pub repository : ticket.repository_id ≡ some action.repository_id
  pub commit : ticket.candidate_commit ≡ some action.candidate_commit
  pub version :
      (action.release_version ≡ codes "unresolved")
      ⊎ (ticket.release_version ≡ some action.release_version)
  pub input : ticket.input_sha256 ≡ some action.input_sha256

exact-IsBound :
    (contract : Contract) (action : Action) (ticket : Ticket)
    → ticket.state == TicketState.reserved ≡ true
    → is_exact contract action ticket ≡ true
    → IsBound contract action ticket
unfolding is_exact
exact-IsBound contract action ticket r h = record {
  unused = ground arith;
  schema = ground arith;
  revision = ground arith;
  contract_hash = ground arith;
  semantic = ground arith;
  target = ground arith;
  surface = ground arith;
  repository = ground arith;
  commit = ground arith;
  version = ground arith;
  input = ground arith;
}

-- What is matched, and the tickets that the loop has passed.
abbrev pub found : Match → Option Ticket
found (unmatched tickets) = none
found (matched front ticket rest) = some ticket

abbrev pub passed : Match → List Ticket
passed (unmatched tickets) = tickets
passed (matched front ticket rest) = front

found-after : (ticket : Ticket) (m : Match) → found (after ticket m) ≡ found m
unfolding after
found-after ticket (unmatched rest) = refl
found-after ticket (matched front t rest) = refl

passed-after : (ticket : Ticket) (m : Match) → passed (after ticket m) ≡ ticket ∷ passed m
unfolding after
passed-after ticket (unmatched rest) = refl
passed-after ticket (matched front t rest) = refl

match_from-IsBound :
    (contract : Contract) (action : Action) (now : Option Text) (tickets : List Ticket)
    (ticket : Ticket)
    → found (match_from contract action now tickets) ≡ some ticket
    → IsBound contract action ticket
unfolding match_from
match_from-IsBound contract action now [] ticket h = cc
match_from-IsBound contract action now (t ∷ rest) ticket h =
    let later = match_from contract action now rest in
    let go = match_from-IsBound contract action now rest ticket in
    elim (Bool-cases (t.state == TicketState.reserved)) [
      | inr used ↦ go (rw (used, found-after t later) at h)
      | inl unused ↦ elim (Bool-cases (is_stale contract action t)) [
        | inl stale ↦ go (rw (unused, stale, found-after (invalidate now t) later) at h)
        | inr fresh ↦ elim (Bool-cases (is_exact contract action t)) [
          | inl exact ↦
              let same : t ≡ ticket = some-injective t ticket (rw (unused, fresh, exact) at h) in
              subst (IsBound contract action) same (exact-IsBound contract action t unused exact)
          | inr other ↦ go (rw (unused, fresh, other, found-after t later) at h)
        ]
      ]
    ]

-- A ticket that is still good after the loop: not reserved, or not stale.
abbrev pub IsFresh : Contract → Action → Ticket → Type 0
IsFresh contract action ticket =
    (ticket.state ≢ TicketState.reserved) ⊎ (is_stale contract action ticket ≡ false)

ne_reserved : (now : Option Text) (t : Ticket) → (invalidate now t).state ≢ TicketState.reserved
unfolding invalidate
ne_reserved now t e = cc

match_from-IsFresh :
    (contract : Contract) (action : Action) (now : Option Text) (tickets : List Ticket)
    → All (IsFresh contract action) (passed (match_from contract action now tickets))
unfolding match_from
match_from-IsFresh contract action now [] = tt
match_from-IsFresh contract action now (t ∷ rest) =
    let later = match_from contract action now rest in
    let go = match_from-IsFresh contract action now rest in
    elim (Bool-cases (t.state == TicketState.reserved)) [
      | inr used ↦ rw (used, passed-after t later) (inl (ground arith), go)
      | inl unused ↦ elim (Bool-cases (is_stale contract action t)) [
        | inl stale ↦
            rw (unused, stale, passed-after (invalidate now t) later) (inl (ne_reserved now t), go)
        | inr fresh ↦ elim (Bool-cases (is_exact contract action t)) [
          | inl exact ↦ rw (unused, fresh, exact) tt
          | inr other ↦ rw (unused, fresh, other, passed-after t later) (inr fresh, go)
        ]
      ]
    ]

active_parts :
    (o : Option Contract) {contract : Contract}
    → active_contract o ≡ some contract
    → contract.is_active ≡ true
unfolding active_contract
active_parts none h = cc
active_parts (some c) {contract} h = ground arith

match_under_parts :
    (o : Option Contract) (action : Action) (now : Option Text) (tickets : List Ticket)
    (ticket : Ticket)
    → found (match_under o action now tickets) ≡ some ticket
    → (contract : Contract) × (o ≡ some contract) × IsBound contract action ticket
unfolding match_under
match_under_parts none action now tickets ticket h = cc
match_under_parts (some contract) action now tickets ticket h =
    (contract, refl, match_from-IsBound contract action now tickets ticket h)

-- A ticket is matched only under an active contract and for a candidate commit that is written out,
-- and it is then a reserved one that is bound to that contract and to the action's semantic action,
-- target, surface, repository, commit and input, and to its version unless that is `unresolved`.
-- The expiry of a ticket is not looked at.
pub match_action_ticket-IsBound :
    (execution : Execution) (action : Action) (now : Option Text) (ticket : Ticket)
    → found (match_action_ticket execution action now) ≡ some ticket
    → (contract : Contract) × (active_contract execution.contract ≡ some contract)
      × (contract.is_active ≡ true)
      × (is_commit_id action.candidate_commit ≡ true)
      × IsBound contract action ticket
unfolding match_action_ticket
match_action_ticket-IsBound execution action now ticket h =
    elim (Bool-cases (is_commit_id action.candidate_commit)) [
      | inl written ↦
          let (contract, active, bound) =
            match_under_parts (active_contract execution.contract) action now
              execution.action_tickets ticket (rw written at h) in
          (contract, active, active_parts execution.contract active, written, bound)
      | inr other ↦ cc (rw other at h)
    ]

-- Under an active contract, and for a candidate commit that is written out, no ticket that the loop
-- has passed stays reserved for the action's repository while it is bound to another commit, another
-- revision or another contract.
pub match_action_ticket-IsFresh :
    (execution : Execution) (action : Action) (now : Option Text) (contract : Contract)
    → active_contract execution.contract ≡ some contract
    → is_commit_id action.candidate_commit ≡ true
    → All (IsFresh contract action) (passed (match_action_ticket execution action now))
unfolding match_action_ticket match_under
match_action_ticket-IsFresh execution action now contract active written =
    rw (written, active) (match_from-IsFresh contract action now execution.action_tickets)
