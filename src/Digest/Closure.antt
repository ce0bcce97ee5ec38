-- ===== src/Digest/Closure.antt =====
-- scripts/reference_digest_encoder.py: binding_state_closure, the check of a binding against the facts
-- that it names.
use codex_context_guard.Base.{
  Bool, true, false, not, ◌&&◌, ◌||◌, Option, none, some, List, [], ◌∷◌, map, Text, text_eq, nat_eq,
  ◌==◌, contains, length, all, any, if◌then◌else◌, Result, ok, raise, raise_if, ◌>>=◌, ◌>>◌,
  digest_error, type_error,
}
use codex_context_guard.Base.Decimal.{ℤ, pos, negsuc}
use codex_context_guard.Base.Texts.{codes}
use codex_context_guard.Base.Json.{
  truthy, is_text, Json, Json.null, Json.boolean, Json.string, Json.array, Json.object, Items,
  Members, elements, keys, get_or, get,
}
use codex_context_guard.Digest.{Bytes, str_of}
use codex_context_guard.Base.{keep}
use codex_context_guard.Digest.Collections.{gather, repeats, encode_map_rows, tuple_entries, Entry}
use codex_context_guard.Digest.Evidence.{Role, role_name, is_null, evidence_fact_digest}
use codex_context_guard.Digest.Binding.{product_vocabulary}

-- The number that a value of a numeric type is.
unfoldable pub number? : Json → Option ℤ
number? (boolean true) = some (pos 1)
number? (boolean false) = some (pos 0)
number? (Json.integer n) = some n
number? (Json.float f) = f
number? _ = none

unfoldable pub same_number : Option ℤ → Option ℤ → Bool
same_number (some (pos m)) (some (pos n)) = m == n
same_number (some (negsuc m)) (some (negsuc n)) = m == n
same_number _ _ = false

-- `==` on keys of a dict. Two floats that are not integral count as different.
unfoldable pub same_key : Json → Json → Bool
same_key null null = true
same_key (string s) (string t) = s == t
same_key a b = same_number (number? a) (number? b)

unfoldable pub is_hashable : Json → Bool
is_hashable (array _) = false
is_hashable (object _) = false
is_hashable _ = true

-- A check of every row.
unfoldable pub every : {A : Type 0} → (A → Result (Unit {0})) → List A → Result (Unit {0})
every check [] = ok tt
every check (row ∷ rows) = do check row; every check rows

-- A fact that plays the resolution or the effect, and one that is a state.
unfoldable pub check_fact : Role → Members → Result (Unit {0})
check_fact Role.state fact = do
  raise_if (not (is_text (role_name Role.state) (get fact (codes "evidenceRole")))) digest_error
  raise_if
      (not
        (truthy (get fact (codes "resolvedTarget")) && truthy (get fact (codes "observedState"))))
      digest_error
check_fact role fact = do
  raise_if (not (is_text (role_name role) (get fact (codes "evidenceRole")))) digest_error
  raise_if (not (truthy (get fact (codes "resolvedTarget")))) digest_error
  raise_if (truthy (get fact (codes "observedState"))) digest_error

unfoldable pub resolved_rows : Members → Result Bytes
resolved_rows row = do
  resolved ← tuple_entries (get row (codes "resolvedTarget")) product_vocabulary
  encode_map_rows resolved (codes "res:")

unfoldable pub check_resolved : Bytes → Members → Result (Unit {0})
check_resolved binding_rows fact = do
  fact_rows ← resolved_rows fact
  raise_if (not (fact_rows == binding_rows)) digest_error

-- The observed states of the facts in one dict, whose keys may not meet.
unfoldable pub merge_entries : List Entry → List Entry → Result (List Entry)
merge_entries merged [] = ok merged
merge_entries merged (entry ∷ rest) = do
  raise_if (contains (map (λ row. row.0) merged) entry.0) digest_error
  merge_entries (entry ∷ merged) rest

unfoldable pub merge_states : List Entry → List Members → Result (List Entry)
merge_states merged [] = ok merged
merge_states merged (fact ∷ facts) = do
  observed ← tuple_entries (get fact (codes "observedState")) product_vocabulary
  more ← merge_entries merged observed
  merge_states more facts

-- `==` on dicts, as rows of distinct keys.
unfoldable pub same_dict : List Entry → List Entry → Bool
same_dict a b =
    length a == length b && all (λ row. any (λ other. row.0 == other.0 && row.1 == other.1) b) a

unfoldable pub characters : Text → List Json
characters [] = []
characters (c ∷ text) = string (c ∷ []) ∷ characters text

-- `[*value]`
unfoldable pub iterate : Json → Result (List Json)
iterate (array values) = ok (elements values)
iterate (string text) = ok (characters text)
iterate (object row) = ok (map string (keys row))
iterate _ = raise type_error

-- `len(ids) != len(set(ids))`
unfoldable pub key_repeats : List Json → Bool
key_repeats [] = false
key_repeats (id ∷ ids) = any (same_key id) ids || key_repeats ids

-- `set(a) == set(b)`
unfoldable pub same_set : List Json → List Json → Bool
same_set a b = all (λ id. any (same_key id) b) a && all (λ id. any (same_key id) a) b

-- What the ids of a binding must be, given those of the facts.
unfoldable pub check_ids : Members → Members → Members → List Members → Result (Unit {0})
check_ids binding resolution effect states = do
  state_ids ← iterate (get_or binding (codes "stateEvidenceIds") (array Items.nil))
  let resolution_id = get binding (codes "resolutionEvidenceId")
  let effect_id = get binding (codes "effectEvidenceId")
  names ← gather str_of (keep (λ id. not (is_null id)) (resolution_id ∷ effect_id ∷ state_ids))
  raise_if (repeats names) digest_error
  raise_if (not (same_key resolution_id (get resolution (codes "id")))) digest_error
  raise_if (not (same_key effect_id (get effect (codes "id")))) digest_error
  let provided = map (λ fact. get fact (codes "id")) states
  raise_if (not (all is_hashable provided)) type_error
  raise_if (key_repeats provided) digest_error
  raise_if (not (same_set state_ids provided)) digest_error

-- `known_facts.get(id)`
unfoldable pub known_fact : List Members → Json → Option Members
known_fact [] id = none
known_fact (fact ∷ facts) id =
    let later = known_fact facts id in
    if same_key (get fact (codes "id")) id then some fact else later

unfoldable pub check_known_ids : List Json → List Members → Result (Unit {0})
check_known_ids seen [] = ok tt
check_known_ids seen (fact ∷ facts) = do
  let id = get fact (codes "id")
  raise_if (not (is_hashable id)) type_error
  raise_if (any (same_key id) seen) digest_error
  check_known_ids (id ∷ seen) facts

module _ (sha256_hex : Bytes → Text) where
  -- A fact is the one of the evidence set that has its id.
  unfoldable pub check_hashed : List Members → Json → Members → Result (Unit {0})
  check_hashed known id fact = elim (known_fact known id) [
    | none ↦ raise digest_error
    | some hashed ↦ do
      digest ← evidence_fact_digest sha256_hex (object fact) product_vocabulary
      known_digest ← evidence_fact_digest sha256_hex (object hashed) product_vocabulary
      raise_if (not (digest == known_digest)) digest_error
  ]

  unfoldable pub check_evidence :
      Members → Members → Members → List Members → List Members → Result (Unit {0})
  check_evidence binding resolution effect states known = do
    check_known_ids [] known
    check_hashed known (get binding (codes "resolutionEvidenceId")) resolution
    check_hashed known (get binding (codes "effectEvidenceId")) effect
    every (λ fact. check_hashed known (get fact (codes "id")) fact) states

  unfoldable pub binding_state_closure :
      Members → Members → Members → List Members → Option (List Members) → Result (Unit {0})
  binding_state_closure binding resolution effect states evidence_facts = do
    check_fact Role.resolution resolution
    check_fact Role.effect effect
    every (check_fact Role.state) states
    binding_rows ← resolved_rows binding
    every (check_resolved binding_rows) (resolution ∷ effect ∷ states)
    merged ← merge_states [] states
    observed ← tuple_entries (get binding (codes "observedState")) product_vocabulary
    raise_if (not (same_dict observed merged)) digest_error
    check_ids binding resolution effect states
    elim evidence_facts [
      | none ↦ ok tt
      | some known ↦ check_evidence binding resolution effect states known
    ]
