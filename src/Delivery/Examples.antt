-- ===== src/Delivery/Examples.antt =====
-- A ledger of two replies, of which the second answers again.
use codex_context_guard.Base.{
  ◌≡◌, refl, none, some, [], ◌∷◌, ◌++◌, text_eq, nat_eq, ok, raise, delivery_not_canonical,
  delivery_replayed,
}
use codex_context_guard.Base.Texts.{codes, text_leb, unique, sorted_set}
use codex_context_guard.Base.Sorting.{insert, sort}
use codex_context_guard.Delivery.{
  Delivered, delivered_eq, Resolution, DeliverySource, texts_eq, Reply, Digests, Delivery,
  DeliveryLedger, is_digest, is_bounded, check_digest, canonical_projection, validate_projection,
  check_metadata, delivery_digest, idempotency_key, build_record, validate_record, validate_from,
  validate_ledger, latest_from, latest_delivery,
}
use codex_context_guard.Delivery.Laws.{
  IsSound, validate_ledger-IsSound, build_record-validate_record,
}
use codex_context_guard.Delivery.Latest.{IsLatest, latest_delivery-IsLatest}

abbrev digests : Digests
digests = record {
  reply_digest = λ r. r.session_id ++ r.turn_id;
  association_digest = λ a. a.session_id ++ a.turn_id;
}

abbrev first_reply : Reply
first_reply = record {
  session_id = codes "s";
  turn_id = codes "t1";
  work_unit_id = none;
  requirement_ids = codes "a" ∷ codes "b" ∷ [];
  source = DeliverySource.stop_final_reply;
  reply_sha256 = some (codes "0123456789abcdef0123456789abcdef0123456789abcdef0123456789abcdef");
  delivery = Delivered.delivered;
}

abbrev first : Delivery
first = record {
  reply = first_reply;
  resolution = Resolution.verified;
  delivery_sha256 = codes "st1";
  sequence = 1;
  recorded_at = codes "noon";
}

abbrev second : Delivery
second = record first {
  reply = record first_reply { turn_id = codes "t2" };
  delivery_sha256 = codes "st2";
  sequence = 3;
}

abbrev ledger : DeliveryLedger
ledger = record { sequence = 3; records = first ∷ second ∷ [] }

runs :
    (build_record digests first_reply Resolution.verified 1 (codes "noon") ≡ ok first)
    × (validate_ledger digests [] ledger ≡ ok tt)
    × (latest_delivery ledger.records (codes "b") ≡ some second)
    × (validate_projection (record first_reply { requirement_ids = codes "b" ∷ codes "a" ∷ [] })
        ≡ raise delivery_not_canonical)
    × (validate_ledger digests []
          (record ledger { records = first ∷ record first { sequence = 2 } ∷ [] })
        ≡ raise delivery_replayed)
unfolding text_eq nat_eq text_leb unique sorted_set insert sort delivered_eq texts_eq is_digest
    is_bounded check_digest canonical_projection validate_projection check_metadata delivery_digest
    idempotency_key build_record validate_record validate_from validate_ledger latest_from
    latest_delivery
runs = (refl, refl, refl, refl, refl)

build_record-validate_record_example : validate_record digests first ≡ ok tt
build_record-validate_record_example =
    build_record-validate_record digests first_reply Resolution.verified 1 (codes "noon") first
      runs.0

validate_ledger-IsSound_example : IsSound digests [] ledger
validate_ledger-IsSound_example = validate_ledger-IsSound digests [] ledger runs.1

latest_delivery-IsLatest_example : IsLatest (codes "b") ledger.records second
latest_delivery-IsLatest_example =
    latest_delivery-IsLatest digests [] ledger (codes "b") second runs.1 runs.2
