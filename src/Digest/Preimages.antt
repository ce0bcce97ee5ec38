-- ===== src/Digest/Preimages.antt =====
-- scripts/reference_digest_encoder.py: manifests with one digest. Either they say the same, or two
-- payloads collide under SHA-256.
use codex_context_guard.Base.{
  ◌++◌, ◌≡◌, ap, sym, subst, ◌∙◌, List, [], ◌∷◌, Text, inl, inr, ◌⊎◌, ◌≢◌, list_dec, ok,
  ok_injective, arith, >>=-eq-ok, after_ok, nat_eq, cons_injective,
}
use native.Mathlib.Decide.{ℕ_discrete}
use codex_context_guard.Base.Texts.{codes}
use codex_context_guard.Digest.Tokens.{typed_token-Says}
use codex_context_guard.Digest.Rows.{
  Entry, plain, Rows, Rows-end, Rows-cons, Rows-Same, Same, int_row-Row, str_row-Row, opt_field-Row,
  plain_string-Says,
}
use codex_context_guard.Digest.Session.{
  session_ref_bytes, session_ref_digest, int_row, str_row, plain_string, validate_session_types,
  session_keys,
}
use codex_context_guard.Base.Json.{Json.object, Members, get}
use codex_context_guard.Digest.{
  Bytes, require_exact_keys, check_field_count, join_parts, opt_field, typed_token,
}

-- Two payloads with one hash.
pub Collision : (Bytes → Text) → Type 0
Collision sha256_hex = (a : Bytes) × (b : Bytes) × (a ≢ b) × (sha256_hex a ≡ sha256_hex b)

pub append_cancel : (xs ys zs : Bytes) → xs ++ ys ≡ xs ++ zs → ys ≡ zs
append_cancel [] ys zs e = e
append_cancel (x ∷ xs) ys zs e = append_cancel xs ys zs (cons_injective ℕ_discrete e).1

-- The keys of a session header, with the names of their fields.
abbrev pub session_table : List Entry
session_table =
    (plain, codes "version", codes "formatVersion")
    ∷ (plain, codes "id", codes "id")
    ∷ (plain, codes "createdAt", codes "createdAt")
    ∷ (plain, codes "parentSession", codes "parentSession")
    ∷ (plain, codes "seedLength", codes "seedLength")
    ∷ (plain, codes "agentPreset", codes "agentPreset")
    ∷ (plain, codes "origin", codes "origin")
    ∷ (plain, codes "delegationDepth", codes "delegationDepth")
    ∷ []

abbrev domain : Bytes
domain = codes "ccg.sessionRefDigest.v3\n"

pub require_exact_keys-object :
    (row : Members) (allowed : List Text) {found : Members}
    → require_exact_keys (object row) allowed ≡ ok found
    → row ≡ found
unfolding require_exact_keys
require_exact_keys-object row allowed h = ground arith

session_ref_bytes-Rows :
    (header : Members) {bytes : Bytes}
    → session_ref_bytes (object header) ≡ ok bytes
    → (rows : Bytes) × (bytes ≡ domain ++ rows) × Rows session_table header rows []
unfolding session_ref_bytes check_field_count join_parts
session_ref_bytes-Rows header {bytes} h =
    after_ok (require_exact_keys (object header) session_keys) _ h (λ row e h₁.
      after_ok (validate_session_types row) _ h₁ (λ unit checked h₂.
        after_ok (int_row row (codes "version") (codes "formatVersion")) _ h₂
          (λ version version_e h₃.
            after_ok (str_row row (codes "id") (codes "id")) _ h₃ (λ id id_e h₄.
              after_ok (int_row row (codes "createdAt") (codes "createdAt")) _ h₄
                (λ created created_e h₅.
                  after_ok
                    (opt_field (codes "parentSession") (get row (codes "parentSession"))
                      plain_string)
                    _ h₅
                    (λ parent parent_e h₆.
                      after_ok
                        (opt_field (codes "seedLength") (get row (codes "seedLength")) typed_token)
                        _ h₆
                        (λ seed seed_e h₇.
                          after_ok
                            (opt_field (codes "agentPreset") (get row (codes "agentPreset"))
                              plain_string)
                            _ h₇
                            (λ preset preset_e h₈.
                              after_ok
                                (opt_field (codes "origin") (get row (codes "origin")) plain_string)
                                _ h₈
                                (λ origin origin_e h₉.
                                  after_ok
                                    (opt_field (codes "delegationDepth")
                                      (get row (codes "delegationDepth")) typed_token)
                                    _ h₉
                                    (λ depth depth_e done.
                                      let same = require_exact_keys-object header session_keys e in
                                      let payload : Bytes = join_parts (
                                        version ∷ id ∷ created ∷ parent ∷ seed ∷ preset ∷ origin
                                        ∷ depth ∷ []) in
                                      let rows : Rows session_table row payload [] =
                                        Rows-cons row plain _ _ _ version _ []
                                          (int_row-Row row _ _ version_e)
                                          (Rows-cons row plain _ _ _ id _ []
                                            (str_row-Row row _ _ id_e)
                                            (Rows-cons row plain _ _ _ created _ []
                                              (int_row-Row row _ _ created_e)
                                              (Rows-cons row plain _ _ _ parent _ []
                                                (opt_field-Row _ _ plain_string
                                                  (plain_string-Says _) parent_e)
                                                (Rows-cons row plain _ _ _ seed _ []
                                                  (opt_field-Row _ _ typed_token
                                                    (λ _. typed_token-Says _) seed_e)
                                                  (Rows-cons row plain _ _ _ preset _ []
                                                    (opt_field-Row _ _ plain_string
                                                      (plain_string-Says _) preset_e)
                                                    (Rows-cons row plain _ _ _ origin _ []
                                                      (opt_field-Row _ _ plain_string
                                                        (plain_string-Says _) origin_e)
                                                      (Rows-cons row plain _ _ _ depth [] []
                                                        (opt_field-Row _ _ typed_token
                                                          (λ _. typed_token-Says _) depth_e)
                                                        (Rows-end row [])))))))) in
                                      (
                                        payload,
                                        sym (ok_injective done),
                                        subst (λ m. Rows session_table m payload []) (sym same)
                                            rows,
                                      )))))))))))

-- Headers with one payload say the same.
session_ref_bytes-Same :
    (g h : Members) {bytes : Bytes}
    → session_ref_bytes (object g) ≡ ok bytes
    → session_ref_bytes (object h) ≡ ok bytes
    → Same session_table g h
session_ref_bytes-Same g h p q =
    let (r, e, rows) = session_ref_bytes-Rows g p in
    let (s, d, more) = session_ref_bytes-Rows h q in
    let tails = append_cancel domain r s (sym e ∙ d) in
    (Rows-Same session_table g h r [] [] rows
      (subst (λ x. Rows session_table h x []) (sym tails) more)).0

-- Hashed payloads are equal where their hashes are, or collide.
pub same_or_collide :
    (sha256_hex : Bytes → Text) (a b : Bytes)
    → sha256_hex a ≡ sha256_hex b
    → (a ≡ b) ⊎ Collision sha256_hex
unfolding Collision
same_or_collide sha256_hex a b e = elim (list_dec ℕ_discrete a b) [
  | yes same ↦ inl same
  | no differ ↦ inr (a, b, differ, e)
]

-- Two session headers with one digest say the same in all eight fields (an absent optional field is
-- told from a present one, an integral float counts as its integer), unless two different payloads
-- have one SHA-256.
pub session_ref_digest-Same :
    (sha256_hex : Bytes → Text) (g h : Members) (digest : Text)
    → session_ref_digest sha256_hex (object g) ≡ ok digest
    → session_ref_digest sha256_hex (object h) ≡ ok digest
    → Same session_table g h ⊎ Collision sha256_hex
unfolding session_ref_digest
session_ref_digest-Same sha256_hex g h digest p q =
    let (a, a_e, a_d) = >>=-eq-ok (session_ref_bytes (object g)) _ p in
    let (b, b_e, b_d) = >>=-eq-ok (session_ref_bytes (object h)) _ q in
    elim (same_or_collide sha256_hex a b (ok_injective (a_d ∙ sym b_d))) [
      | inl same ↦ inl (session_ref_bytes-Same g h a_e (b_e ∙ ap ok (sym same)))
      | inr collision ↦ inr collision
    ]
