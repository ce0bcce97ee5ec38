-- ===== src/Core/Targets.antt =====
-- Whether a requirement's target is the one that its root, or the host on its behalf, selected: the
-- first half of the loop over `current` in `project`.
use codex_context_guard.Base.{
  ℕ, Bool, true, false, not, ◌&&◌, ◌||◌, Option, none, some, List, ◌∷◌, ◌++◌, Text, text_eq,
  option_eq, nat_eq, ◌==◌, contains, leb, any, all, take, drop, is_some, is_empty, if◌then◌else◌,
}
use codex_context_guard.Base.Texts.{codes, starts_with, ends_with, drop_last, rstrip, split}
use codex_context_guard.Base.Paths.{normpath, path_join}
use codex_context_guard.Core.Spans.{get_source, source_matches}
use codex_context_guard.Core.Facts.{get_source?}
use codex_context_guard.Core.Controls.Scope.{slice}
use codex_context_guard.Core.Model.{Source, Requirement, Fact}
use codex_context_guard.Core.Kinds.{
  SourceKind, source_kind_eq, SubjectKind, subject_kind_eq, Flavor, flavor_eq, FactKind,
  fact_kind_eq, RequirementKind, requirement_kind_eq, ConstraintKind, constraint_kind_eq,
}

-- `source_valid`
abbrev stated_by : Requirement → Option Source → Bool
stated_by req none = false
stated_by req (some source) = source.unit == req.unit && source.revision == req.revision

unfoldable pub source_valid : List Source → Requirement → Bool
source_valid sources req =
    source_matches req.source sources true
    && stated_by req (get_source req.source.source_id sources)

-- `root_target_valid`, before the checks of locators: the literal constraint of a root source.
abbrev states_constraint : Requirement → Option Source → Bool
states_constraint req none = false
states_constraint req (some source) =
    source.unit == req.unit
    && source.revision == req.revision
    && slice source req.target_origin.root_constraint_source.start
        req.target_origin.root_constraint_source.end
      == req.target_origin.root_constraint

unfoldable pub constraint_stated : List Source → Requirement → Bool
constraint_stated sources req =
    source_matches req.target_origin.root_constraint_source sources true
    && states_constraint req (get_source req.target_origin.root_constraint_source.source_id sources)

-- `inherently_filesystem`
unfoldable pub inherently_filesystem : List Fact → Requirement → Bool
inherently_filesystem facts req =
    req.action == codes "local_edit"
    || req.action == codes "local_commit"
    || req.action == codes "remote_push"
    || any
        (λ f.
          f.requirement_id == req.id
          && f.kind == FactKind.readiness
          && f.predicate == codes "file_exists")
        facts

abbrev is_letter : ℕ → Bool
is_letter c = leb b'A' c && leb c b'Z' || leb b'a' c && leb c b'z'

abbrev is_slash : ℕ → Bool
is_slash c = c == b'/'

abbrev any_slash : ℕ → Bool
any_slash c = c == b'\\' || c == b'/'

-- `re.fullmatch(r"[A-Za-z]:[\\/][^:]+", target)`
unfoldable pub drive_path : Text → Bool
drive_path (d ∷ colon ∷ s ∷ c ∷ rest) =
    is_letter d && colon == b':' && any_slash s && not (contains (c ∷ rest) b':')
drive_path _ = false

-- `target_is_absolute`
unfoldable pub is_absolute : Text → Bool
is_absolute target =
    starts_with target (codes "/")
      && not (starts_with target (codes "//"))
      && normpath target == target
    || drive_path target

-- `constraint.startswith("/") or constraint[1:3] in {":\\", ":/"}`
unfoldable pub rooted_constraint : Text → Bool
rooted_constraint constraint =
    starts_with constraint (codes "/")
    || take 2 (drop 1 constraint) == codes ":\\"
    || take 2 (drop 1 constraint) == codes ":/"

-- `relative_literal`: without the one slash that ends a directory.
unfoldable pub relative_literal : ConstraintKind → Text → Text
relative_literal kind constraint =
    if kind == ConstraintKind.directory && ends_with constraint (codes "/")
    then drop_last constraint
    else constraint

abbrev plain_part : Text → Bool
plain_part part = not (is_empty part || part == codes "." || part == codes "..")

-- `valid_relative`
unfoldable pub relative_valid : ConstraintKind → Text → Text → Option Text → Option Flavor → Bool
relative_valid kind constraint resolved none flavor = false
relative_valid kind constraint resolved (some base) flavor =
    let literal = relative_literal kind constraint in
    flavor == some Flavor.posix
    && starts_with base (codes "/")
    && normpath base == base
    && not (starts_with base (codes "//"))
    && not (starts_with constraint (codes "/") || starts_with constraint (codes "\\"))
    && not (contains literal b':')
    && not (contains literal b'\\')
    && not (
        starts_with literal (codes "~")
        || starts_with literal (codes "$")
        || starts_with literal (codes "%"))
    && not (ends_with constraint (codes "//"))
    && all plain_part (split b'/' literal)
    && path_join base literal == resolved
    && (kind == ConstraintKind.exact || kind == ConstraintKind.directory)

abbrev base_of : Option Source → Option Text
base_of none = none
base_of (some source) = source.locator_base

abbrev flavor_of : Option Source → Option Flavor
flavor_of none = none
flavor_of (some source) = source.locator_flavor

-- The checks of the locator: a relative one is resolved against its root's base, and an absolute one
-- of the file system is rooted.
unfoldable pub locator_valid : List Source → Requirement → Option Text → Bool
locator_valid sources req (some resolved) =
    let target_source = get_source req.target_origin.root_constraint_source.source_id sources in
    req.target_origin.subject_kind == SubjectKind.filesystem
    && relative_valid req.target_origin.constraint_kind req.target_origin.root_constraint resolved
        (base_of target_source) (flavor_of target_source)
locator_valid sources req none = not (
    (req.target_origin.constraint_kind == ConstraintKind.exact
      || req.target_origin.constraint_kind == ConstraintKind.directory)
    && req.target_origin.subject_kind == SubjectKind.filesystem
    && not (rooted_constraint req.target_origin.root_constraint))

-- `root_target_valid`
unfoldable pub root_target_valid : List Source → List Fact → Requirement → Bool
root_target_valid sources facts req =
    constraint_stated sources req
    && not (
        inherently_filesystem facts req
        && not (req.target_origin.subject_kind == SubjectKind.filesystem))
    && locator_valid sources req req.target_origin.resolved_constraint

-- `selected_by_host`
abbrev host_selected : ℕ → List Fact → Requirement → Text → Option Source → Option Source → Bool
host_selected watermark facts req selection_id (some selection) (some source) =
    selection.kind == SourceKind.host_call
    && selection.target == some req.target
    && selection.target_kind == some req.target_origin.subject_kind
    && selection.unit == req.unit
    && selection.revision == req.revision
    && leb source.seq selection.seq
    && leb selection.seq watermark
    && any
        (λ f.
          f.call_source_id == some selection_id
          && f.target == req.target
          && f.requirement_id == req.id)
        facts
host_selected watermark facts req selection_id _ _ = false

unfoldable pub selected_by_host : ℕ → List Source → List Fact → Requirement → Option Text → Bool
selected_by_host watermark sources facts req none = false
selected_by_host watermark sources facts req (some selection) =
    not (is_empty selection)
    && host_selected watermark facts req selection (get_source selection sources)
        (get_source req.source.source_id sources)

-- `root_target_allowed`, for each kind of constraint, and for a relative or an absolute one.
unfoldable pub target_allowed : Requirement → Bool → ConstraintKind → Option Text → Bool
target_allowed req selected ConstraintKind.exact (some resolved) =
    resolved == req.target && (selected || req.kind == RequirementKind.constraint)
target_allowed req selected ConstraintKind.exact none =
    req.target_origin.root_constraint == req.target
target_allowed req selected ConstraintKind.directory (some resolved) =
    not (is_empty resolved)
    && starts_with req.target (resolved ++ codes "/")
    && not (contains (split b'/' req.target) (codes ".."))
    && (selected || req.kind == RequirementKind.constraint)
target_allowed req selected ConstraintKind.directory none =
    let directory = rstrip is_slash req.target_origin.root_constraint in
    not (is_empty directory)
    && starts_with req.target (directory ++ codes "/")
    && not (contains (split b'/' req.target) (codes ".."))
    && ends_with req.target_origin.root_constraint (codes "/")
target_allowed req selected ConstraintKind.work_unit resolved = selected

abbrev pub target_kind_of : Option Source → Option SubjectKind
target_kind_of none = none
target_kind_of (some call) = call.target_kind

-- `sources[fact["call_source_id"]].get("target_kind") == subject_kind`
unfoldable pub call_kind_is : List Source → SubjectKind → Fact → Bool
call_kind_is sources kind fact =
    target_kind_of (get_source? fact.call_source_id sources) == some kind

-- `typed_host_conflict`
unfoldable pub typed_host_conflict : List Source → List Fact → Requirement → Bool
typed_host_conflict sources facts req =
    any
      (λ f.
        f.requirement_id == req.id
        && f.target == req.target
        && (f.kind == FactKind.readiness
            || f.kind == FactKind.action_event
            || f.kind == FactKind.state_outcome)
        && not (call_kind_is sources req.target_origin.subject_kind f))
      facts

-- A constraint observes nothing; any other requirement has its target for all three.
unfoldable pub origin_agrees : Requirement → Option Text → Bool
origin_agrees req value =
    if req.kind == RequirementKind.constraint then not (is_some value) else value == some req.target

-- `target_valid`
unfoldable pub target_valid : ℕ → List Source → List Fact → Requirement → Bool
target_valid watermark sources facts req =
    let selected =
      selected_by_host watermark sources facts req req.target_origin.selection_source_id in
    root_target_valid sources facts req
    && not (typed_host_conflict sources facts req)
    && (not (req.target_origin.subject_kind == SubjectKind.filesystem) || is_absolute req.target)
    && req.target_origin.resolved == req.target
    && origin_agrees req req.target_origin.observed
    && target_allowed req selected req.target_origin.constraint_kind
        req.target_origin.resolved_constraint
    && (not (req.target_origin.constraint_kind == ConstraintKind.work_unit) || selected)
    && origin_agrees req req.target_origin.implementation_choice
    && origin_agrees req req.target_origin.host_selection
