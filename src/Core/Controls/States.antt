-- ===== src/Core/Controls/States.antt =====
-- The states of requirements under root controls, and the dict `states` of `_fold_root_controls`.
use codex_context_guard.Base.{
  Bool, true, false, Option, none, some, List, [], ◌∷◌, Text, text_eq, ◌==◌, if◌then◌else◌, Eq, ◌≡◌,
  arith,
}
use codex_context_guard.Core.Kinds.{ControlKind}

pub data ControlState : Type 0 where
  ordinary persistent paused persistent_paused cancelled : ControlState

control_state_dec : Discrete ControlState
control_state_dec = hlevel

instance unfoldable pub control_state_eq : Eq ControlState
unfolding control_state_dec
control_state_eq = record { dec = control_state_dec }

abbrev pub States : Type 0
States = List (Text × ControlState)

-- `states.get(key)`
unfoldable pub state_of : Text → States → Option ControlState
state_of key [] = none
state_of key ((k, s) ∷ states) = if key == k then some s else state_of key states

-- `states[key] = state`
unfoldable pub set_state : Text → ControlState → States → States
set_state key state [] = (key, state) ∷ []
set_state key state ((k, s) ∷ states) =
    if key == k then (k, state) ∷ states else (k, s) ∷ set_state key state states

-- `states.get(key, "ordinary")`
unfoldable pub or_ordinary : Option ControlState → ControlState
or_ordinary none = ControlState.ordinary
or_ordinary (some s) = s

-- The state that a control of each kind leaves, and none where it writes nothing.
unfoldable pub transition : ControlKind → ControlState → Option ControlState
transition ControlKind.cancel prior = some ControlState.cancelled
transition ControlKind.pause ControlState.persistent = some ControlState.persistent_paused
transition ControlKind.pause ControlState.persistent_paused = some ControlState.persistent_paused
transition ControlKind.pause prior = some ControlState.paused
transition ControlKind.resume ControlState.persistent_paused = some ControlState.persistent
transition ControlKind.resume ControlState.paused = some ControlState.ordinary
transition ControlKind.resume prior = none
transition ControlKind.persistence ControlState.cancelled = none
transition ControlKind.persistence prior = some ControlState.persistent

abbrev pub written : Text → Option ControlState → States → States
written key none states = states
written key (some state) states = set_state key state states

-- One requirement of an accepted control.
unfoldable pub apply_control : ControlKind → Text → States → States
apply_control kind key states =
    written key (transition kind (or_ordinary (state_of key states))) states

-- `resumed`: a resumption counts where the requirement was paused.
unfoldable pub resumes : ControlKind → ControlState → Bool
resumes ControlKind.resume ControlState.paused = true
resumes ControlKind.resume ControlState.persistent_paused = true
resumes kind prior = false

pub state_of-set_state :
    (j k : Text) (s : ControlState) (states : States)
    → state_of j (set_state k s states) ≡ (if j == k then some s else state_of j states)
unfolding state_of set_state
state_of-set_state j k s [] = ground arith
state_of-set_state j k s ((i, t) ∷ states) = ground (arith, state_of-set_state j k s states)

state_of-written :
    (j k : Text) (o : Option ControlState) (states : States)
    → state_of j (written k o states) ≡ (
        if j == k then elim o [ none ↦ state_of j states | some s ↦ some s ] else state_of j states)
state_of-written j k none states = ground arith
state_of-written j k (some s) states = state_of-set_state j k s states

-- What one accepted control does to the state of any requirement.
pub state_of-apply_control :
    (kind : ControlKind) (j k : Text) (states : States)
    → state_of j (apply_control kind k states) ≡ (
        if j == k
        then elim (transition kind (or_ordinary (state_of k states))) [
          | none ↦ state_of j states
          | some s ↦ some s
        ]
        else state_of j states)
unfolding apply_control
state_of-apply_control kind j k states =
    state_of-written j k (transition kind (or_ordinary (state_of k states))) states
