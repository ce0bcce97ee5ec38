-- ===== src/Digest/Closed.antt =====
-- scripts/reference_digest_encoder.py: what an accepted binding has in common with its facts.
use codex_context_guard.Base.{
  ◌≡◌, ap, ◌∙◌, true, false, not, Option, List, [], ◌∷◌, Text, nat_eq, text_eq, ==_iff, All,
  All-map, keep, Result, ok, raise_if, digest_error, arith, after_ok,
}
use mathlib.Core.List.{Permᴰ}
use codex_context_guard.Base.Texts.{codes}
use codex_context_guard.Base.Json.{is_text, truthy, Json, Json.string, Items, Members, get, get_or}
use codex_context_guard.Digest.{Bytes, str_of}
use codex_context_guard.Digest.Collections.{Entry, gather, repeats, encode_map_rows, tuple_entries}
use codex_context_guard.Digest.Evidence.{is_null, Role, role_name}
use codex_context_guard.Digest.Binding.{product_vocabulary}
use codex_context_guard.Digest.Closure.{
  check_fact, every, resolved_rows, check_resolved, merge_states, same_dict, check_ids,
  binding_state_closure, same_key, iterate,
}
use codex_context_guard.Digest.Maps.{encode_map_rows_iff}

every-All :
    {A : Type 0} (check : A → Result (Unit {0})) (rows : List A)
    → every check rows ≡ ok tt
    → All (λ row. check row ≡ ok tt) rows
unfolding every
every-All check [] h = tt
every-All check (row ∷ rows) h =
    after_ok (check row) _ h (λ u e rest. (e, every-All check rows rest))

-- The rows of `resolvedTarget`.
Resolves : Members → List Entry → Type 0
Resolves row rows = tuple_entries (get row (codes "resolvedTarget")) product_vocabulary ≡ ok rows

-- A fact has the same resolved target as the rows of the binding, in some order.
SameTarget : List Entry → Members → Type 0
SameTarget target fact = (rows : List Entry) × Resolves fact rows × Permᴰ target rows

-- A fact has its role, and observes a state where it is a state and nothing where it is not.
PlaysRole : Role → Members → Type 0
PlaysRole Role.state fact =
    (get fact (codes "evidenceRole") ≡ string (role_name Role.state))
    × (truthy (get fact (codes "observedState")) ≡ true)
PlaysRole role fact =
    (get fact (codes "evidenceRole") ≡ string (role_name role))
    × (truthy (get fact (codes "observedState")) ≡ false)

is_text-string :
    (expected : Text) (value : Json) → is_text expected value ≡ true → value ≡ string expected
unfolding is_text
is_text-string expected (string t) h = ap string ((==_iff t expected).0 h)
is_text-string expected value h = cc

check_fact-PlaysRole :
    (role : Role) (fact : Members) → check_fact role fact ≡ ok tt → PlaysRole role fact
unfolding check_fact PlaysRole
check_fact-PlaysRole Role.state fact h =
    (is_text-string _ (get fact (codes "evidenceRole")) (ground arith), ground arith)
check_fact-PlaysRole role fact h =
    (is_text-string _ (get fact (codes "evidenceRole")) (ground arith), ground arith)

resolved_rows-Resolves :
    (row : Members) {bytes : Bytes}
    → resolved_rows row ≡ ok bytes
    → (rows : List Entry) × Resolves row rows × (encode_map_rows rows (codes "res:") ≡ ok bytes)
unfolding resolved_rows Resolves
resolved_rows-Resolves row h =
    after_ok (tuple_entries (get row (codes "resolvedTarget")) product_vocabulary) _ h
      (λ rows e rest. (rows, e, rest))

check_resolved-SameTarget :
    (binding fact : Members) (target : List Entry) (bytes : Bytes)
    → encode_map_rows target (codes "res:") ≡ ok bytes
    → check_resolved bytes fact ≡ ok tt
    → SameTarget target fact
unfolding check_resolved SameTarget
check_resolved-SameTarget binding fact target bytes e h =
    after_ok (resolved_rows fact) _ h (λ fact_bytes d same.
      let (rows, found, written) = resolved_rows-Resolves fact d in
      let bytes_e : fact_bytes ≡ bytes = (==_iff fact_bytes bytes).0 (ground arith) in
      (
        rows,
        found,
        (encode_map_rows_iff target rows (codes "res:") bytes e).0 (written ∙ ap ok bytes_e),
      ))

-- The binding names the facts that play the resolution and the effect.
NamesFacts : Members → Members → Members → Type 0
NamesFacts binding resolution effect =
    (same_key (get binding (codes "resolutionEvidenceId")) (get resolution (codes "id")) ≡ true)
    × (same_key (get binding (codes "effectEvidenceId")) (get effect (codes "id")) ≡ true)

check_ids-NamesFacts :
    (binding resolution effect : Members) (states : List Members)
    → check_ids binding resolution effect states ≡ ok tt
    → NamesFacts binding resolution effect
unfolding check_ids NamesFacts
check_ids-NamesFacts binding resolution effect states h =
    after_ok (iterate (get_or binding (codes "stateEvidenceIds") (Json.array Items.nil))) _ h
      (λ ids ids_e h₁.
        after_ok
          (gather str_of (
            keep (λ id. not (is_null id))
              (get binding (codes "resolutionEvidenceId")
                ∷ get binding (codes "effectEvidenceId")
                ∷ ids)))
          _ h₁
          (λ names names_e h₂. after_ok (raise_if (repeats names) digest_error) _ h₂ (λ u u_e h₃.
            after_ok
              (raise_if
                (not (
                  same_key (get binding (codes "resolutionEvidenceId"))
                    (get resolution (codes "id"))))
                digest_error)
              _ h₃
              (λ v v_e h₄.
                after_ok
                  (raise_if
                    (not
                      (same_key (get binding (codes "effectEvidenceId")) (get effect (codes "id"))))
                    digest_error)
                  _ h₄ (λ w w_e h₅. (ground arith, ground arith))))))

-- What an accepted binding has in common with its facts.
pub Agrees : Members → Members → Members → List Members → Type 0
Agrees binding resolution effect states =
    (target : List Entry) × Resolves binding target
    × All (SameTarget target) (resolution ∷ effect ∷ states)
    × PlaysRole Role.resolution resolution
    × PlaysRole Role.effect effect
    × All (PlaysRole Role.state) states
    × NamesFacts binding resolution effect

-- A binding that is accepted resolves, and the resolution, the effect and every state resolve to the
-- same keys with the same tokens, in some order; each fact has its role, states observe something and
-- the other two do not; and the binding names the resolution and the effect by their ids.
pub binding_state_closure-Agrees :
    (sha256_hex : Bytes → Text) (binding resolution effect : Members) (states : List Members)
    (known : Option (List Members))
    → binding_state_closure sha256_hex binding resolution effect states known ≡ ok tt
    → Agrees binding resolution effect states
unfolding binding_state_closure Agrees
binding_state_closure-Agrees sha256_hex binding resolution effect states known h =
    after_ok (check_fact Role.resolution resolution) _ h (λ a a_e h₁.
      after_ok (check_fact Role.effect effect) _ h₁ (λ b b_e h₂.
        after_ok (every (check_fact Role.state) states) _ h₂ (λ c c_e h₃.
          after_ok (resolved_rows binding) _ h₃ (λ bytes bytes_e h₄.
            after_ok (every (check_resolved bytes) (resolution ∷ effect ∷ states)) _ h₄ (λ d d_e h₅.
              after_ok (merge_states [] states) _ h₅ (λ merged merged_e h₆.
                after_ok (tuple_entries (get binding (codes "observedState")) product_vocabulary) _
                  h₆
                  (λ observed observed_e h₇.
                    after_ok (raise_if (not (same_dict observed merged)) digest_error) _ h₇
                      (λ f f_e h₈.
                        after_ok (check_ids binding resolution effect states) _ h₈ (λ g g_e h₉.
                          let (target, found, written) = resolved_rows-Resolves binding bytes_e in
                          (
                            target,
                            found,
                            All-map (λ fact. check_resolved bytes fact ≡ ok tt) (SameTarget target)
                                (resolution ∷ effect ∷ states)
                                (λ fact.
                                  check_resolved-SameTarget binding fact target bytes written)
                                (every-All (check_resolved bytes) (resolution ∷ effect ∷ states)
                                  d_e),
                            check_fact-PlaysRole Role.resolution resolution a_e,
                            check_fact-PlaysRole Role.effect effect b_e,
                            All-map (λ fact. check_fact Role.state fact ≡ ok tt)
                                (PlaysRole Role.state) states (check_fact-PlaysRole Role.state)
                                (every-All (check_fact Role.state) states c_e),
                            check_ids-NamesFacts binding resolution effect states g_e,
                          ))))))))))
