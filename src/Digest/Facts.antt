-- ===== src/Digest/Facts.antt =====
-- scripts/reference_digest_encoder.py: which evidence facts can be digested.
use codex_context_guard.Base.{
  ◌≡◌, ap, sym, subst, ◌∙◌, ◌⊎◌, inl, inr, true, false, not, ◌&&◌, List, [], Text, nat_eq, text_eq,
  ◌==◌, ==_iff, is_empty, is_empty-true, ok, ok_injective, raise_if, digest_error, arith, after_ok,
  Bool-cases,
}
use codex_context_guard.Base.Texts.{codes}
use codex_context_guard.Base.Json.{Json, Json.string, Json.object, Members, get}
use codex_context_guard.Digest.{Bytes, require_exact_keys}
use codex_context_guard.Digest.Collections.{Entry, tuple_entries}
use codex_context_guard.Digest.Preimages.{require_exact_keys-object}
use codex_context_guard.Digest.Evidence.{
  Role, role_name, role_of, enum_member, parse_status_of, is_null, surface_of, outcomes, fact_keys,
  fits_role, check_role, evidence_fact_bytes,
}

-- The tuples of a fact by its role.
Carries : Role → List Entry → List Entry → Type 0
Carries Role.state resolved observed = (is_empty resolved ≡ false) × (is_empty observed ≡ false)
Carries _ resolved observed = (is_empty resolved ≡ false) × (observed ≡ [])

is_named :
    (text : Text) (named role : Role)
    → (text == role_name named) ≡ true
    → ok named ≡ ok role
    → string text ≡ string (role_name role)
is_named text named role e h =
    ap string ((==_iff text (role_name named)).0 e)
    ∙ ap (λ r. string (role_name r)) (ok_injective h)

role_of-string :
    (value : Json) (role : Role) → role_of value ≡ ok role → value ≡ string (role_name role)
unfolding role_of
role_of-string (string text) role h = elim (Bool-cases (text == codes "resolution")) [
  | inl e ↦ is_named text Role.resolution role e (rw e at h)
  | inr a ↦ elim (Bool-cases (text == codes "effect")) [
    | inl e ↦ is_named text Role.effect role e (rw (a, e) at h)
    | inr b ↦ elim (Bool-cases (text == codes "state")) [
      | inl e ↦ is_named text Role.state role e (rw (a, b, e) at h)
      | inr c ↦ cc (rw (a, b, c) at h)
    ]
  ]
]
role_of-string value role h = cc

check_role-Carries :
    (role : Role) (resolved observed : List Entry)
    → check_role role resolved observed ≡ ok tt
    → Carries role resolved observed
unfolding check_role fits_role Carries
check_role-Carries Role.state resolved observed h = (ground arith, ground arith)
check_role-Carries Role.resolution resolved observed h =
    (ground arith, is_empty-true observed (ground arith))
check_role-Carries Role.effect resolved observed h =
    (ground arith, is_empty-true observed (ground arith))

-- A fact that can be digested.
pub IsDigestible : Members → List Text → Type 0
IsDigestible fact allowlist =
    (role : Role) × (resolved : List Entry) × (observed : List Entry) × (get fact
        (codes "evidenceRole")
      ≡ string (role_name role))
    × (tuple_entries (get fact (codes "resolvedTarget")) allowlist ≡ ok resolved)
    × (tuple_entries (get fact (codes "observedState")) allowlist ≡ ok observed)
    × Carries role resolved observed
    × ((get fact (codes "parseStatus") ≡ string (codes "supported"))
        ⊎ (is_null (get fact (codes "reasonCode")) ≡ false))

parse_status_of-string :
    (value : Json) (status : Text) → parse_status_of value ≡ ok status → value ≡ string status
unfolding parse_status_of
parse_status_of-string (string text) status h = ap string (ground arith)
parse_status_of-string value status h = cc

status_reason :
    (value reason : Json) (status : Text)
    → parse_status_of value ≡ ok status
    → raise_if (not (status == codes "supported") && is_null reason) digest_error ≡ ok tt
    → (value ≡ string (codes "supported")) ⊎ (is_null reason ≡ false)
status_reason value reason status e h = elim (Bool-cases (status == codes "supported")) [
  | inl same ↦ inl (
      parse_status_of-string value status e
      ∙ ap string ((==_iff status (codes "supported")).0 same))
  | inr other ↦ inr (ground arith)
]

-- Every fact that has canonical bytes has one of the three roles and the tuples of that role: a state
-- resolves and observes, a resolution or an effect resolves and observes nothing. A fact whose parse
-- status is not supported has a reason code.
pub evidence_fact_bytes-IsDigestible :
    (fact : Members) (allowlist : List Text) (bytes : Bytes)
    → evidence_fact_bytes (object fact) allowlist ≡ ok bytes
    → IsDigestible fact allowlist
unfolding evidence_fact_bytes IsDigestible
evidence_fact_bytes-IsDigestible fact allowlist bytes h =
    after_ok (require_exact_keys (object fact) fact_keys) _ h (λ row row_e h₁.
      after_ok (enum_member outcomes (get row (codes "outcome"))) _ h₁ (λ outcome outcome_e h₂.
        after_ok (role_of (get row (codes "evidenceRole"))) _ h₂ (λ role role_e h₃.
          after_ok (parse_status_of (get row (codes "parseStatus"))) _ h₃ (λ status status_e h₄.
            after_ok
              (raise_if
                (not (status == codes "supported") && is_null (get row (codes "reasonCode")))
                digest_error)
              _ h₄
              (λ u u_e h₅.
                after_ok (surface_of (get row (codes "surfaces"))) _ h₅ (λ surface surface_e h₆.
                  after_ok (tuple_entries (get row (codes "resolvedTarget")) allowlist) _ h₆
                    (λ resolved resolved_e h₇.
                      after_ok (tuple_entries (get row (codes "observedState")) allowlist) _ h₇
                        (λ observed observed_e h₈.
                          after_ok (check_role role resolved observed) _ h₈ (λ v v_e h₉.
                            subst (λ m. IsDigestible m allowlist)
                              (sym (require_exact_keys-object fact fact_keys row_e))
                              (
                                role,
                                resolved,
                                observed,
                                role_of-string (get row (codes "evidenceRole")) role role_e,
                                resolved_e,
                                observed_e,
                                check_role-Carries role resolved observed v_e,
                                status_reason (get row (codes "parseStatus"))
                                    (get row (codes "reasonCode")) status status_e u_e,
                              ))))))))))
