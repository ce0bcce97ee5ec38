-- ===== src/Digest/Certified.antt =====
-- scripts/reference_digest_encoder.py: certificates with one digest say the same, or two payloads
-- collide under SHA-256.
use codex_context_guard.Base.{
  ◌++◌, ◌≡◌, ap, sym, subst, ◌∙◌, List, [], ◌∷◌, Text, inl, inr, ◌⊎◌, ok, ok_injective, >>=-eq-ok,
  after_ok,
}
use mathlib.Core.List.{append_assoc}
use codex_context_guard.Base.Texts.{codes}
use codex_context_guard.Digest.Tokens.{typed_token-Says}
use codex_context_guard.Digest.Rows.{
  Entry, plain, hashed, Rows, Rows-end, Rows-cons, Rows-Same, Same, Row, int_row-Row, str_row-Row,
  opt_field-Row, digest_field-HashRow, integer-Row, str_of-string,
}
use codex_context_guard.Digest.Preimages.{
  Collision, append_cancel, same_or_collide, require_exact_keys-object,
}
use codex_context_guard.Digest.Session.{int_row, str_row}
use codex_context_guard.Digest.Certificate.{
  certification_bytes, certification_digest, certificate_keys, digest_field, goal_rows,
  goal_ref_keys,
}
use codex_context_guard.Base.Json.{
  Json, Json.null, Json.string, Json.object, Members, get, get_or, find,
}
use codex_context_guard.Digest.{
  Bytes, require_exact_keys, check_field_count, join_parts, opt_field, typed_token, str_of,
  canonical_int,
}

-- The fields before the goal reference, the goal reference, and the fields after it.
abbrev front_table : List Entry
front_table =
    (plain, codes "stopProtocolVersion", codes "stopProtocolVersion")
    ∷ (plain, codes "certificateVersion", codes "certificateVersion")
    ∷ (plain, codes "epoch", codes "epoch")
    ∷ (hashed, codes "sessionRefDigest", codes "sessionRefDigest")
    ∷ (hashed, codes "hostLockDigest", codes "hostLockDigest")
    ∷ (plain, codes "contractRevision", codes "contractRevision")
    ∷ (hashed, codes "contractSha256", codes "contractSha256")
    ∷ []

abbrev goal_table : List Entry
goal_table =
    (plain, codes "id", codes "goalRefId") ∷ (plain, codes "revision", codes "goalRefRevision") ∷ []

abbrev back_table : List Entry
back_table =
    (hashed, codes "openDigest", codes "openDigest")
    ∷ (hashed, codes "evidenceSha256", codes "evidenceSha256")
    ∷ (hashed, codes "bindingDigest", codes "bindingDigest")
    ∷ []

-- The goal reference of a certificate; an absent one has no fields.
goal_of : Json → Members
goal_of (object goal) = goal
goal_of _ = Members.end

abbrev domain : Bytes
domain = codes "ccg.certificationDigest.v3\n"

goal_rows-null :
    (rest : Bytes) {bytes : Bytes}
    → goal_rows null ≡ ok bytes
    → Rows goal_table Members.end (bytes ++ rest) rest
unfolding goal_rows get get_or find
goal_rows-null rest {bytes} h =
    after_ok (opt_field (codes "goalRefId") null typed_token) _ h (λ id id_e h₁.
      after_ok (opt_field (codes "goalRefRevision") null typed_token) _ h₁
        (λ revision revision_e done.
          subst (λ x. Rows goal_table Members.end x rest)
            (sym (append_assoc id revision rest) ∙ ap (λ x. x ++ rest) (ok_injective done))
            (Rows-cons Members.end plain _ _ _ id (revision ++ rest) rest
              (opt_field-Row _ _ typed_token (λ _. typed_token-Says _) id_e)
              (Rows-cons Members.end plain _ _ _ revision rest rest
                (opt_field-Row _ _ typed_token (λ _. typed_token-Says _) revision_e)
                (Rows-end Members.end rest)))))

goal_rows-object :
    (goal : Members) (rest : Bytes) {bytes : Bytes}
    → goal_rows (object goal) ≡ ok bytes
    → Rows goal_table goal (bytes ++ rest) rest
unfolding goal_rows
goal_rows-object goal rest {bytes} h =
    after_ok (require_exact_keys (object goal) goal_ref_keys) _ h (λ row e h₁.
      after_ok (str_of (get row (codes "id"))) _ h₁ (λ goal_id goal_id_e h₂.
        after_ok (canonical_int (get row (codes "revision"))) _ h₂ (λ n n_e h₃.
          after_ok (opt_field (codes "goalRefId") (string goal_id) typed_token) _ h₃ (λ id id_e h₄.
            after_ok (opt_field (codes "goalRefRevision") (Json.integer n) typed_token) _ h₄
              (λ revision revision_e done.
                let same = require_exact_keys-object goal goal_ref_keys e in
                subst (λ m. Rows goal_table m (bytes ++ rest) rest) (sym same)
                  (subst (λ x. Rows goal_table row x rest)
                    (sym (append_assoc id revision rest) ∙ ap (λ x. x ++ rest) (ok_injective done))
                    (Rows-cons row plain (codes "id") (codes "goalRefId") _ id (revision ++ rest)
                      rest
                      (subst (λ v. Row v (codes "goalRefId") id)
                        (sym (str_of-string (get row (codes "id")) goal_id_e))
                        (opt_field-Row (codes "goalRefId") (string goal_id) typed_token
                          (λ _. typed_token-Says _) id_e))
                      (Rows-cons row plain (codes "revision") (codes "goalRefRevision") [] revision
                        rest rest
                        (integer-Row (get row (codes "revision")) (codes "goalRefRevision") n_e
                          revision_e)
                        (Rows-end row rest)))))))))

goal_rows-Rows :
    (value : Json) (rest : Bytes) {bytes : Bytes}
    → goal_rows value ≡ ok bytes
    → Rows goal_table (goal_of value) (bytes ++ rest) rest
unfolding goal_of
goal_rows-Rows null rest h = goal_rows-null rest h
goal_rows-Rows (object goal) rest h = goal_rows-object goal rest h
goal_rows-Rows value rest h = unfold goal_rows require_exact_keys in cc

-- What a certificate and its payload have in common.
IsPayload : Members → Bytes → Type 0
IsPayload certificate bytes =
    (front : Bytes) × (goal : Bytes) × (back : Bytes) × (bytes ≡ domain ++ front)
    × Rows front_table certificate front goal
    × Rows goal_table (goal_of (get certificate (codes "goalRef"))) goal back
    × Rows back_table certificate back []

certification_bytes-IsPayload :
    (certificate : Members) {bytes : Bytes}
    → certification_bytes (object certificate) ≡ ok bytes
    → IsPayload certificate bytes
unfolding certification_bytes check_field_count join_parts IsPayload
certification_bytes-IsPayload certificate {bytes} h =
    after_ok (require_exact_keys (object certificate) certificate_keys) _ h (λ row e h₁.
      after_ok (str_row row (codes "stopProtocolVersion") (codes "stopProtocolVersion")) _ h₁
        (λ protocol protocol_e h₂.
          after_ok (str_row row (codes "certificateVersion") (codes "certificateVersion")) _ h₂
            (λ version version_e h₃.
              after_ok (int_row row (codes "epoch") (codes "epoch")) _ h₃ (λ epoch epoch_e h₄.
                after_ok (digest_field row (codes "sessionRefDigest")) _ h₄ (λ session session_e h₅.
                  after_ok (digest_field row (codes "hostLockDigest")) _ h₅ (λ host host_e h₆.
                    after_ok (int_row row (codes "contractRevision") (codes "contractRevision")) _
                      h₆
                      (λ revision revision_e h₇.
                        after_ok (digest_field row (codes "contractSha256")) _ h₇
                          (λ contract contract_e h₈.
                            after_ok (goal_rows (get row (codes "goalRef"))) _ h₈ (λ goal goal_e h₉.
                              after_ok (digest_field row (codes "openDigest")) _ h₉
                                (λ open_rows open_e h₁₀.
                                  after_ok (digest_field row (codes "evidenceSha256")) _ h₁₀
                                    (λ evidence evidence_e h₁₁.
                                      after_ok (digest_field row (codes "bindingDigest")) _ h₁₁
                                        (λ binding binding_e done.
                                          let back : Bytes =
                                            join_parts (open_rows ∷ evidence ∷ binding ∷ []) in
                                          let rest : Bytes = goal ++ back in
                                          let front : Bytes =
                                            protocol
                                            ++ (version
                                                ++ (epoch
                                                    ++ (session
                                                        ++ (host
                                                            ++ (revision
                                                            ++ (contract ++ rest)))))) in
                                          let front_rows : Rows front_table row front rest =
                                            Rows-cons row plain _ _ _ protocol _ rest
                                              (str_row-Row row _ _ protocol_e)
                                              (Rows-cons row plain _ _ _ version _ rest
                                                (str_row-Row row _ _ version_e)
                                                (Rows-cons row plain _ _ _ epoch _ rest
                                                  (int_row-Row row _ _ epoch_e)
                                                  (Rows-cons row hashed _ _ _ session _ rest
                                                    (digest_field-HashRow row _ session_e)
                                                    (Rows-cons row hashed _ _ _ host _ rest
                                                      (digest_field-HashRow row _ host_e)
                                                      (Rows-cons row plain _ _ _ revision _ rest
                                                        (int_row-Row row _ _ revision_e)
                                                        (Rows-cons row hashed _ _ _ contract rest
                                                          rest
                                                          (digest_field-HashRow row _ contract_e)
                                                          (Rows-end row rest))))))) in
                                          let back_rows : Rows back_table row back [] =
                                            Rows-cons row hashed _ _ _ open_rows _ []
                                              (digest_field-HashRow row _ open_e)
                                              (Rows-cons row hashed _ _ _ evidence _ []
                                                (digest_field-HashRow row _ evidence_e)
                                                (Rows-cons row hashed _ _ _ binding [] []
                                                  (digest_field-HashRow row _ binding_e)
                                                  (Rows-end row []))) in
                                          subst (λ m. IsPayload m bytes)
                                            (sym (
                                              require_exact_keys-object certificate certificate_keys
                                                e))
                                            (
                                              front,
                                              rest,
                                              back,
                                              sym (ok_injective done),
                                              front_rows,
                                              goal_rows-Rows (get row (codes "goalRef")) back
                                                  goal_e,
                                              back_rows,
                                            )))))))))))))

-- Certificates say the same, field by field, in the goal reference too.
pub SameCertificate : Members → Members → Type 0
SameCertificate g h =
    Same front_table g h
    × Same goal_table (goal_of (get g (codes "goalRef"))) (goal_of (get h (codes "goalRef")))
    × Same back_table g h

certification_bytes-SameCertificate :
    (g h : Members) {bytes : Bytes}
    → certification_bytes (object g) ≡ ok bytes
    → certification_bytes (object h) ≡ ok bytes
    → SameCertificate g h
unfolding SameCertificate IsPayload
certification_bytes-SameCertificate g h p q =
    let (front, goal, back, e, fronts, goals, backs) = certification_bytes-IsPayload g p in
    let (front', goal', back', d, fronts', goals', backs') = certification_bytes-IsPayload h q in
    let start = append_cancel domain front front' (sym e ∙ d) in
    let (same_front, at_goal) =
      Rows-Same front_table g h front goal goal' fronts
        (subst (λ x. Rows front_table h x goal') (sym start) fronts') in
    let goal_g = goal_of (get g (codes "goalRef")) in
    let goal_h = goal_of (get h (codes "goalRef")) in
    let (same_goal, at_back) =
      Rows-Same goal_table goal_g goal_h goal back back' goals
        (subst (λ x. Rows goal_table goal_h x back') (sym at_goal) goals') in
    let (same_back, _) =
      Rows-Same back_table g h back [] [] backs
        (subst (λ x. Rows back_table h x []) (sym at_back) backs') in
    (same_front, same_goal, same_back)

-- Two certificates with one certification digest say the same in all their fields and in their goal
-- references, and either both have a goal reference or neither has, unless two different payloads
-- have one SHA-256.
pub certification_digest-SameCertificate :
    (sha256_hex : Bytes → Text) (g h : Members) (digest : Text)
    → certification_digest sha256_hex (object g) ≡ ok digest
    → certification_digest sha256_hex (object h) ≡ ok digest
    → SameCertificate g h ⊎ Collision sha256_hex
unfolding certification_digest
certification_digest-SameCertificate sha256_hex g h digest p q =
    let (a, a_e, a_d) = >>=-eq-ok (certification_bytes (object g)) _ p in
    let (b, b_e, b_d) = >>=-eq-ok (certification_bytes (object h)) _ q in
    elim (same_or_collide sha256_hex a b (ok_injective (a_d ∙ sym b_d))) [
      | inl same ↦ inl (certification_bytes-SameCertificate g h a_e (b_e ∙ ap ok (sym same)))
      | inr collision ↦ inr collision
    ]
