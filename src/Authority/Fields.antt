-- ===== src/Authority/Fields.antt =====
-- The tables of semantic actions: which imply which, and the fields that make a target precise.
pub mod Laws
use codex_context_guard.Base.{
  Bool, true, false, not, ◌&&◌, ◌||◌, Option, none, some, List, [], ◌∷◌, ◌++◌, Text, text_eq, ◌==◌,
  contains, any, keep, if◌then◌else◌,
}
use codex_context_guard.Base.Texts.{codes}

-- A dict from texts, in the order of insertion.
abbrev pub Dict : Type 0 → Type 0
Dict A = List (Text × A)

-- `dict.get(key)`
unfoldable pub lookup : {A : Type 0} → Text → Dict A → Option A
lookup key [] = none
lookup key ((k, a) ∷ rest) = if key == k then some a else lookup key rest

abbrev repository : Text
repository = codes "repository"

abbrev commit_fields : List Text
commit_fields = codes "ref" ∷ codes "commit_sha256" ∷ []

abbrev registry_fields : List Text
registry_fields = codes "tool" ∷ codes "package" ∷ codes "release_version" ∷ []

-- `IMPLIED_ACTIONS`
abbrev implied_actions : Dict (List Text)
implied_actions = (codes "push", codes "commit" ∷ []) ∷ (codes "tag_push", codes "tag" ∷ []) ∷ []

-- `ACTION_REQUIRED_FIELDS`
abbrev action_required_fields : Dict (List Text)
action_required_fields =
    (codes "commit", repository ∷ commit_fields)
    ∷ (codes "push", repository ∷ codes "remote" ∷ commit_fields)
    ∷ (codes "tag", repository ∷ commit_fields ++ codes "tag" ∷ [])
    ∷ (codes "release", repository ∷ codes "commit_sha256" ∷ codes "release_version" ∷ [])
    ∷ (codes "force_push", repository ∷ codes "remote" ∷ commit_fields)
    ∷ (codes "tag_push", repository ∷ codes "remote" ∷ codes "tag" ∷ [])
    ∷ (codes "remote_branch_delete", repository ∷ codes "remote" ∷ codes "ref" ∷ [])
    ∷ (codes "release_delete", repository ∷ codes "release_version" ∷ [])
    ∷ (codes "publish", repository ∷ registry_fields ++ codes "source" ∷ codes "registry" ∷ [])
    ∷ (codes "unpublish", repository ∷ registry_fields ++ codes "registry" ∷ [])
    ∷ (codes "yank", repository ∷ registry_fields ++ codes "registry" ∷ [])
    ∷ (codes "deprecate", repository ∷ registry_fields ++ codes "registry" ∷ [])
    ∷ []

abbrev or_empty : Option (List Text) → List Text
or_empty none = []
or_empty (some fields) = fields

unfoldable pub implied_by : Text → List Text
implied_by action = or_empty (lookup action implied_actions)

unfoldable pub fields_of : Text → List Text
fields_of action = or_empty (lookup action action_required_fields)

-- `_covers`
unfoldable pub covers : List Text → Text → Bool
covers bound requested =
    contains bound requested || any (λ action. contains (implied_by action) requested) bound

-- The fields that are not yet there, each once.
unfoldable pub add_fields : List Text → List Text → List Text
add_fields fields [] = fields
add_fields fields (f ∷ more) =
    add_fields (if contains fields f then fields else fields ++ f ∷ []) more

-- `_required_fields_for`, from the fields that it has so far.
unfoldable pub required_from : List Text → List Text → List Text
required_from fields [] = fields
required_from fields (action ∷ rest) = required_from (add_fields fields (fields_of action)) rest

unfoldable pub required_fields_for : List Text → List Text
required_fields_for actions = required_from [] actions
