-- ===== src/Delivery/Laws.antt =====
-- What a ledger that passes validation is, and that a record that was built passes.
use mathlib.Core.Path.{subst}
use codex_context_guard.Base.{
  ok_injective, ℕ, ◌≤◌, ◌<◌, ◌≡◌, refl, sym, ap, ◌∙◌, true, false, not, List, [], ◌∷◌, Text,
  text_eq, nat_eq, ◌==◌, ==_self, contains, length, map, is_empty, keep, arith, ok, raise_if,
  >>=-eq-ok, All, All-map, delivery_digest_mismatch,
}
use codex_context_guard.Base.Texts.{sorted_set}
use codex_context_guard.Core.Index.{distinct}
use codex_context_guard.Delivery.{
  Reply, Delivery, DeliveryLedger, Digests, texts_eq, canonical_projection, check_digest,
  validate_projection, check_metadata, delivery_digest, idempotency_key, build_record,
  validate_record, validate_from, validate_ledger, Resolution,
}

-- The canonical projection only puts the requirements in order, each once.
canonical_projection-eq :
    (raw reply : Reply)
    → canonical_projection raw ≡ ok reply
    → reply ≡ record raw { requirement_ids = sorted_set raw.requirement_ids }
unfolding canonical_projection
canonical_projection-eq raw reply h =
    let (_, _, h₁) = >>=-eq-ok (check_digest raw.delivery raw.reply_sha256) _ h in ground arith

validate_projection_parts :
    (raw : Reply)
    → validate_projection raw ≡ ok tt
    → (canonical_projection raw ≡ ok raw) × (raw.requirement_ids ≡ sorted_set raw.requirement_ids)
unfolding validate_projection
validate_projection_parts raw h =
    let (reply, canonical, h₁) = >>=-eq-ok (canonical_projection raw) _ h in
    let e = canonical_projection-eq raw reply canonical in
    let same : raw.requirement_ids ≡ reply.requirement_ids = ground arith in
    let ordered : raw.requirement_ids ≡ sorted_set raw.requirement_ids =
      same ∙ ap (λ r. r.requirement_ids) e in
    (
      subst (λ r. canonical_projection raw ≡ ok r)
          (e ∙ ap (λ ids. record raw { requirement_ids = ids }) (sym ordered)) canonical,
      ordered,
    )

-- A valid record: its projection is canonical, its requirements are in order and each once, its digest
-- is that of its projection, and its metadata are in range.
pub record IsValid (digests : Digests) (r : Delivery) : Type 0 where
  pub canonical : canonical_projection r.reply ≡ ok r.reply
  pub ordered : r.reply.requirement_ids ≡ sorted_set r.reply.requirement_ids
  pub bound : r.delivery_sha256 ≡ delivery_digest digests r.reply
  pub numbered : 1 ≤ r.sequence
  pub dated : is_empty r.recorded_at ≡ false

module _ (digests : Digests) where
  metadata_parts :
      (sequence : ℕ) (recorded_at : Text)
      → check_metadata sequence recorded_at ≡ ok tt
      → (1 ≤ sequence) × (is_empty recorded_at ≡ false)
  unfolding check_metadata
  metadata_parts sequence recorded_at h = ground arith

  metadata_ok :
      (sequence : ℕ) (recorded_at : Text)
      → 1 ≤ sequence
      → is_empty recorded_at ≡ false
      → check_metadata sequence recorded_at ≡ ok tt
  unfolding check_metadata
  metadata_ok sequence recorded_at h k = ground arith

  validate_record-IsValid : (r : Delivery) → validate_record digests r ≡ ok tt → IsValid digests r
  unfolding validate_record
  validate_record-IsValid r h =
      let (_, projected, h₁) = >>=-eq-ok (validate_projection r.reply) _ h in
      let (canonical, ordered) = validate_projection_parts r.reply projected in
      let (reply, again, h₂) = >>=-eq-ok (canonical_projection r.reply) _ h₁ in
      let same : reply ≡ r.reply = ground arith in
      let (_, digest, h₃) =
        >>=-eq-ok
          (raise_if (not (r.delivery_sha256 == delivery_digest digests reply))
            delivery_digest_mismatch)
          _ h₂ in
      let (numbered, dated) = metadata_parts r.sequence r.recorded_at h₃ in
      let bound : r.delivery_sha256 ≡ delivery_digest digests reply = ground arith in
      record {
        canonical = canonical;
        ordered = ordered;
        bound = bound ∙ ap (delivery_digest digests) same;
        numbered = numbered;
        dated = dated;
      }

  IsValid-validate_record :
      (r : Delivery)
      → validate_projection r.reply ≡ ok tt
      → IsValid digests r
      → validate_record digests r ≡ ok tt
  unfolding validate_record
  IsValid-validate_record r projected v =
      rw (projected, v.canonical, v.bound, ==_self (delivery_digest digests r.reply))
        (metadata_ok r.sequence r.recorded_at v.numbered v.dated)

  build_record-IsValid :
      (reply : Reply) (resolution : Resolution) (sequence : ℕ) (recorded_at : Text) (r : Delivery)
      → build_record digests reply resolution sequence recorded_at ≡ ok r
      → IsValid digests r × (validate_projection r.reply ≡ ok tt)
  unfolding build_record
  build_record-IsValid reply resolution sequence recorded_at r h =
      let (_, projected, h₁) = >>=-eq-ok (validate_projection reply) _ h in
      let (_, metadata, h₂) = >>=-eq-ok (check_metadata sequence recorded_at) _ h₁ in
      let (canonical, ordered) = validate_projection_parts reply projected in
      let (numbered, dated) = metadata_parts sequence recorded_at metadata in
      subst (λ q. IsValid digests q × (validate_projection q.reply ≡ ok tt)) (ok_injective h₂)
        (
          record {
            canonical = canonical;
            ordered = ordered;
            bound = refl;
            numbered = numbered;
            dated = dated;
          },
          projected,
        )

  -- Every record that is built passes validation.
  pub build_record-validate_record :
      (reply : Reply) (resolution : Resolution) (sequence : ℕ) (recorded_at : Text) (r : Delivery)
      → build_record digests reply resolution sequence recorded_at ≡ ok r
      → validate_record digests r ≡ ok tt
  build_record-validate_record reply resolution sequence recorded_at r h =
      let (valid, projected) = build_record-IsValid reply resolution sequence recorded_at r h in
      IsValid-validate_record r projected valid

  -- Records in the order of their sequence numbers, behind one number and up to another.
  abbrev pub InOrder : ℕ → ℕ → List Delivery → Type 0
  InOrder last previous [] = Unit
  InOrder last previous (r ∷ rest) =
      (previous < r.sequence) × (r.sequence ≤ last) × InOrder last r.sequence rest

  abbrev pub keys : List Delivery → List Text
  keys records = map (λ r. idempotency_key digests r.reply) records

  abbrev pub Unseen : List Text → Delivery → Type 0
  Unseen seen r = contains seen (idempotency_key digests r.reply) ≡ false

  validate_from-cons :
      (last previous : ℕ) (seen : List Text) (r : Delivery) (rest : List Delivery)
      → validate_from digests last previous seen (r ∷ rest) ≡ ok tt
      → (validate_record digests r ≡ ok tt)
        × (previous < r.sequence)
        × (r.sequence ≤ last)
        × Unseen seen r
        × (validate_from digests last r.sequence (idempotency_key digests r.reply ∷ seen) rest
            ≡ ok tt)
  unfolding validate_from
  validate_from-cons last previous seen r rest h = ground arith

  Unseen-key :
      (k : Text) (seen : List Text) (rest : List Delivery)
      → All (Unseen (k ∷ seen)) rest
      → contains (keys rest) k ≡ false
  Unseen-key k seen [] h = refl
  Unseen-key k seen (r ∷ rest) (one, later) = ground (arith, Unseen-key k seen rest later)

  -- What the loop accepts: valid records in order, under keys of their own.
  validate_from-parts :
      (last previous : ℕ) (seen : List Text) (records : List Delivery)
      → validate_from digests last previous seen records ≡ ok tt
      → All (IsValid digests) records
        × InOrder last previous records
        × All (Unseen seen) records
        × (distinct (keys records) ≡ true)
  validate_from-parts last previous seen [] h = (tt, tt, tt, refl)
  validate_from-parts last previous seen (r ∷ rest) h =
      let k = idempotency_key digests r.reply in
      let (valid, after, before, unseen, later) = validate_from-cons last previous seen r rest h in
      let (all_valid, in_order, all_unseen, apart) =
        validate_from-parts last r.sequence (k ∷ seen) rest later in
      (
        (validate_record-IsValid r valid, all_valid),
        (after, before, in_order),
        (unseen, All-map (Unseen (k ∷ seen)) (Unseen seen) rest (λ x u. ground arith) all_unseen),
        rw (Unseen-key k seen rest all_unseen) apart,
      )

  -- A sound ledger: its records are valid, in the order of their sequence numbers up to the ledger's
  -- own, under idempotency keys of their own, and but for the pinned ones 512 at most.
  pub record IsSound (pinned : List Text) (ledger : DeliveryLedger) : Type 0 where
    pub valid : All (IsValid digests) ledger.records
    pub in_order : InOrder ledger.sequence 0 ledger.records
    pub apart : distinct (keys ledger.records) ≡ true
    pub few :
        length (keep (λ (r : Delivery). not (contains pinned r.delivery_sha256)) ledger.records)
        ≤ 512

  ledger_parts :
      (pinned : List Text) (ledger : DeliveryLedger)
      → validate_ledger digests pinned ledger ≡ ok tt
      → (length (keep (λ (r : Delivery). not (contains pinned r.delivery_sha256)) ledger.records)
          ≤ 512)
        × (validate_from digests ledger.sequence 0 [] ledger.records ≡ ok tt)
  unfolding validate_ledger
  ledger_parts pinned ledger h = ground arith

  -- A ledger that passes validation is sound: every record is canonical and bound to its digest, the
  -- records are in the order of their numbers, none replays another, and at most 512 of them have
  -- a digest that is not pinned.
  pub validate_ledger-IsSound :
      (pinned : List Text) (ledger : DeliveryLedger)
      → validate_ledger digests pinned ledger ≡ ok tt
      → IsSound pinned ledger
  validate_ledger-IsSound pinned ledger h =
      let (few, checked) = ledger_parts pinned ledger h in
      let (valid, in_order, _, apart) =
        validate_from-parts ledger.sequence 0 [] ledger.records checked in
      record { valid = valid; in_order = in_order; apart = apart; few = few }
