-- ===== src/Delivery.antt =====
-- scripts/cg_delivery.py: the ledger of delivered replies. A record is a canonical projection with its
-- digest, and the ledger has the records in the order of their events.
pub mod Laws
pub mod Latest
mod Examples
use codex_context_guard.Base.{
  list_dec, ℕ, Bool, true, false, not, ◌&&◌, ◌||◌, Option, none, some, List, [], ◌∷◌, ◌++◌, Eq,
  Text, text_eq, nat_eq, ◌==◌, contains, ltb, leb, length, all, any, keep, is_empty, is_some,
  if◌then◌else◌, Result, ok, raise, raise_if, ◌>>=◌, ◌>>◌, delivery_digest_missing,
  delivery_digest_invalid, delivery_digest_fabricated, delivery_association_invalid,
  delivery_identity_invalid, delivery_not_canonical, delivery_digest_mismatch,
  delivery_sequence_invalid, delivery_timestamp_invalid, delivery_record_limit,
  delivery_sequence_inconsistent, delivery_replayed,
}
use codex_context_guard.Base.Texts.{unique, sorted_set}

-- `DELIVERY_STATUSES`
pub data Delivered : Type 0 where
  delivered not_delivered delivery_unknown : Delivered

-- `DELIVERY_RESOLUTIONS`
pub data Resolution : Type 0 where
  open_resolution waiting verified not_applicable : Resolution

-- `DELIVERY_SOURCES`
pub data DeliverySource : Type 0 where
  stop_final_reply migration_reconstruction : DeliverySource

delivered_dec : Discrete Delivered
delivered_dec = hlevel

instance unfoldable pub delivered_eq : Eq Delivered
unfolding delivered_dec
delivered_eq = record { dec = delivered_dec }

instance unfoldable pub texts_eq : Eq (List Text)
unfolding text_eq list_dec
texts_eq = record { dec = list_dec text_eq.dec }

-- The canonical projection, without its version, which is constant.
pub record Reply : Type 0 where
  pub session_id : Text
  pub turn_id : Text
  pub work_unit_id : Option Text
  pub requirement_ids : List Text
  pub source : DeliverySource
  pub reply_sha256 : Option Text
  pub delivery : Delivered

-- What `idempotency_key` hashes: the projection without its delivery.
pub record Association : Type 0 where
  pub session_id : Text
  pub turn_id : Text
  pub work_unit_id : Option Text
  pub requirement_ids : List Text
  pub source : DeliverySource
  pub reply_sha256 : Option Text

-- `hashlib.sha256` over the canonical JSON of each, as parameters.
pub record Digests : Type 0 where
  pub reply_digest : Reply → Text
  pub association_digest : Association → Text

pub record Delivery : Type 0 where
  pub reply : Reply
  pub resolution : Resolution
  pub delivery_sha256 : Text
  pub sequence : ℕ
  pub recorded_at : Text

pub record DeliveryLedger : Type 0 where
  pub sequence : ℕ
  pub records : List Delivery

-- `re.compile(r"[0-9a-f]{64}").fullmatch`
unfoldable pub is_digest : Text → Bool
is_digest t = length t == 64 && all (λ c. leb b'0' c && leb c b'9' || leb b'a' c && leb c b'f') t

-- A character that an identity may not have: a control, or a surrogate, which UTF-8 cannot encode.
abbrev bad_char : ℕ → Bool
bad_char c = ltb c 32 || c == 127 || leb 55296 c && leb c 57343

-- `_bounded_id`
unfoldable pub is_bounded : Text → Bool
is_bounded t = not (is_empty t || ltb 200 (length t) || any bad_char t)

abbrev bounded_or_none : Option Text → Bool
bounded_or_none none = true
bounded_or_none (some t) = is_bounded t

unfoldable pub check_digest : Delivered → Option Text → Result (Unit {0})
check_digest delivery none = raise_if (delivery == Delivered.delivered) delivery_digest_missing
check_digest delivery (some sha256) =
    raise_if (not (is_digest sha256)) delivery_digest_invalid
    >> raise_if (delivery == Delivered.delivery_unknown) delivery_digest_fabricated

-- `canonical_projection`
unfoldable pub canonical_projection : Reply → Result Reply
canonical_projection raw = do
  check_digest raw.delivery raw.reply_sha256
  raise_if (ltb 16 (length raw.requirement_ids)) delivery_association_invalid
  raise_if (not (all is_bounded raw.requirement_ids)) delivery_identity_invalid
  let ordered = sorted_set raw.requirement_ids
  raise_if (not (length ordered == length (unique raw.requirement_ids)))
      delivery_association_invalid
  raise_if
      (not
        (is_bounded raw.session_id && is_bounded raw.turn_id && bounded_or_none raw.work_unit_id))
      delivery_identity_invalid
  ok (record raw { requirement_ids = ordered })

-- `_validate_projection`: of the members, only the requirements can differ from the canonical ones.
unfoldable pub validate_projection : Reply → Result (Unit {0})
validate_projection raw = canonical_projection raw >>= λ canonical.
    raise_if (not (raw.requirement_ids == canonical.requirement_ids)) delivery_not_canonical

unfoldable pub check_metadata : ℕ → Text → Result (Unit {0})
check_metadata sequence recorded_at =
    raise_if (ltb sequence 1) delivery_sequence_invalid
    >> raise_if (is_empty recorded_at) delivery_timestamp_invalid

abbrev association_of : Reply → Association
association_of reply = record {
  session_id = reply.session_id;
  turn_id = reply.turn_id;
  work_unit_id = reply.work_unit_id;
  requirement_ids = reply.requirement_ids;
  source = reply.source;
  reply_sha256 = reply.reply_sha256;
}

module _ (digests : Digests) where
  -- `delivery_digest`
  unfoldable pub delivery_digest : Reply → Text
  delivery_digest reply = digests.reply_digest reply

  -- `idempotency_key`
  unfoldable pub idempotency_key : Reply → Text
  idempotency_key reply = digests.association_digest (association_of reply)

  -- `build_record`
  unfoldable pub build_record : Reply → Resolution → ℕ → Text → Result Delivery
  build_record reply resolution sequence recorded_at = do
    validate_projection reply
    check_metadata sequence recorded_at
    ok (record {
      reply = reply;
      resolution = resolution;
      delivery_sha256 = delivery_digest reply;
      sequence = sequence;
      recorded_at = recorded_at;
    })

  -- `validate_record`
  unfoldable pub validate_record : Delivery → Result (Unit {0})
  validate_record raw = do
    validate_projection raw.reply
    canonical ← canonical_projection raw.reply
    raise_if (not (raw.delivery_sha256 == delivery_digest canonical)) delivery_digest_mismatch
    check_metadata raw.sequence raw.recorded_at

  -- The loop over the records; `seen` are the keys so far.
  unfoldable pub validate_from : ℕ → ℕ → List Text → List Delivery → Result (Unit {0})
  validate_from sequence previous seen [] = ok tt
  validate_from sequence previous seen (r ∷ rest) =
      let later = validate_from sequence r.sequence (idempotency_key r.reply ∷ seen) rest in
      validate_record r
      >> raise_if (not (ltb previous r.sequence && leb r.sequence sequence))
          delivery_sequence_inconsistent
      >> raise_if (contains seen (idempotency_key r.reply)) delivery_replayed
      >> later

  -- `validate_ledger`; `pinned` are the digests that a completion retains.
  unfoldable pub validate_ledger : List Text → DeliveryLedger → Result (Unit {0})
  validate_ledger pinned ledger =
      raise_if
        (ltb 512 (length (keep (λ r. not (contains pinned r.delivery_sha256)) ledger.records)))
        delivery_record_limit
      >> validate_from ledger.sequence 0 [] ledger.records

-- `latest_delivery_for_requirement`, from the latest one so far.
unfoldable pub latest_from : Option Delivery → Text → List Delivery → Option Delivery
latest_from latest key [] = latest
latest_from latest key (r ∷ rest) =
    latest_from (if contains r.reply.requirement_ids key then some r else latest) key rest

unfoldable pub latest_delivery : List Delivery → Text → Option Delivery
latest_delivery records key = latest_from none key records
